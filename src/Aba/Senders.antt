-- ===== src/Aba/Senders.antt =====
-- A set of parties that have done something, and tables of such sets.
use mathlib.Core.Path.{subst}
use dumbo_ucy.Shared.{
  on_if, ℕ, ◌<◌, ◌≡◌, true, List, [], ◌∷◌, ◌==◌, nat_comparable, ◌&&◌, arith, nat_beq_iff,
  Bool-cases, inl, inr,
}
use dumbo_ucy.Shared.Dict.{contains, add, contains-add, IsDistinct, add-IsDistinct}
use dumbo_ucy.Shared.Quorum.{AllBelow}
use dumbo_ucy.Aba.Defs.{Values, same_values, write, write_conf}

-- A set of parties, each of which has done `R`.
pub record Senders (n : ℕ) (R : ℕ → Type 0) (xs : List ℕ) : Type 0 where
  pub distinct : IsDistinct xs
  pub below : AllBelow n xs
  pub sent : (i : ℕ) → contains xs i ≡ true → R i

add-AllBelow : (n : ℕ) (xs : List ℕ) (i : ℕ) → i < n → AllBelow n xs → AllBelow n (add xs i)
unfolding add
add-AllBelow n [] i h b = (h, tt)
add-AllBelow n (x ∷ xs) i h b =
    on_if (AllBelow n) (x == i) (λ c. b) (λ c. (b.0, add-AllBelow n xs i h b.1))

pub add-Senders :
    (n : ℕ) (R : ℕ → Type 0) (xs : List ℕ) (i : ℕ)
    → i < n
    → R i
    → Senders n R xs
    → Senders n R (add xs i)
add-Senders n R xs i h r s = record {
  distinct = add-IsDistinct xs i s.distinct;
  below = add-AllBelow n xs i h s.below;
  sent = λ j m. elim (Bool-cases (i == j)) [
    | inl same ↦ let e : i ≡ j = ground (arith, nat_beq_iff i j) in subst R e r
    | inr other ↦ s.sent j (rw (contains-add xs i j, other) at m)
  ];
}

pub write_each {ℓ κ} :
    {A : Type ℓ} (P : ℕ → ℕ → A → Type κ) (table : ℕ → ℕ → A) (r v : ℕ) (x : A)
    → P r v x
    → ((q w : ℕ) → P q w (table q w))
    → (q w : ℕ) → P q w (write table r v x q w)
write_each P table r v x new old q w =
    on_if (P q w) (r == q && v == w)
      (λ c.
        let e : r ≡ q = ground (arith, nat_beq_iff r q) in
        let e' : v ≡ w = ground (arith, nat_beq_iff v w) in
        subst (λ a. P a w x) e (subst (λ a. P r a x) e' new))
      (λ c. old q w)

pub same_values_lem : (v w : Values) → same_values v w ≡ true → v ≡ w
same_values_lem v w e = ground arith

pub write_conf_each {ℓ κ} :
    {A : Type ℓ} (P : ℕ → Values → A → Type κ) (table : ℕ → Values → A) (r : ℕ) (v : Values) (x : A)
    → P r v x
    → ((q : ℕ) (w : Values) → P q w (table q w))
    → (q : ℕ) (w : Values) → P q w (write_conf table r v x q w)
write_conf_each P table r v x new old q w =
    on_if (P q w) (r == q && same_values v w)
      (λ c.
        let e : r ≡ q = ground (arith, nat_beq_iff r q) in
        let e' : v ≡ w = same_values_lem v w (ground arith) in
        subst (λ a. P a w x) e (subst (λ a. P r a x) e' new))
      (λ c. old q w)
