-- ===== src/Crypto/MillerRabin/Halving.antt =====
-- The division of n - 1 into a power of two and an odd number ends, and is right.
use native.Mathlib.Nat.{div-add-mod, mul_assoc, one-mul, pow-suc, pow-zero}
use dumbo_ucy.Shared.{
  ℕ, zero, suc, ◌+◌, ◌-◌, ◌*◌, ◌/◌, ◌%◌, ◌^◌, ◌≤◌, ◌<◌, ◌≡◌, refl, ap, ◌∙◌, Bool, true, false,
  Option, none, some, List, ◌==◌, nat_comparable, nat_beq_iff, leb, arith, on_if,
}
use dumbo_ucy.Crypto.MillerRabin.{halve, with_parts, test_bases, is_probable_prime}

-- A number, split: the halvings so far and the odd rest.
pub record Split (m s : ℕ) (parts : ℕ × ℕ) : Type 0 where
  pub product : 2 ^ parts.0 * parts.1 ≡ 2 ^ s * m
  pub odd : parts.1 % 2 ≡ 1

abbrev pub IsSplit : ℕ → ℕ → Option (ℕ × ℕ) → Type 0
IsSplit m s none = ⊥
IsSplit m s (some parts) = Split m s parts

even_half : (d : ℕ) → (d % 2 == 1) ≡ false → 2 * (d / 2) ≡ d
even_half d c = ground (arith, div-add-mod d 2, nat_beq_iff (d % 2) 1)

one_more : (s d : ℕ) → 2 * (d / 2) ≡ d → 2 ^ (s + 1) * (d / 2) ≡ 2 ^ s * d
one_more s d e =
    ap (λ k. 2 ^ k * (d / 2)) {x = s + 1} {y = suc s} (omega arith)
    ∙ (ap (λ k. k * (d / 2)) (pow-suc 2 s) ∙ (mul_assoc (2 ^ s) 2 (d / 2) ∙ ap (λ k. 2 ^ s * k) e))

half_less : (fuel d : ℕ) → 0 < d → d ≤ suc fuel → 2 * (d / 2) ≡ d → (0 < d / 2) × (d / 2 ≤ fuel)
half_less fuel d pos le e = (omega arith, omega arith)

again :
    (m m' s s' : ℕ) (o : Option (ℕ × ℕ)) → 2 ^ s' * m' ≡ 2 ^ s * m → IsSplit m' s' o → IsSplit m s o
again m m' s s' none e h = h
again m m' s s' (some parts) e h = record { product = h.product ∙ e; odd = h.odd }

halve-IsSplit : (fuel s d : ℕ) → 0 < d → d ≤ fuel → IsSplit d s (halve fuel s d)
unfolding halve
halve-IsSplit zero s d pos le = absurd (omega arith)
halve-IsSplit (suc fuel) s d pos le =
    on_if (IsSplit d s) (d % 2 == 1)
      (λ c. record { product = refl; odd = (nat_beq_iff (d % 2) 1).0 c })
      (λ c.
        let e = even_half d c in
        let less = half_less fuel d pos le e in
        again d (d / 2) s (s + 1) (halve fuel (s + 1) (d / 2)) (one_more s d e)
          (halve-IsSplit fuel (s + 1) (d / 2) less.0 less.1))

-- The whole loop, from n - 1 on: it ends within n - 1 turns.
pub record Halved (n : ℕ) : Type 0 where
  pub s : ℕ
  pub d : ℕ
  pub ends : halve (n - 1) 0 (n - 1) ≡ some (s, d)
  pub product : 2 ^ s * d ≡ n - 1
  pub odd : d % 2 ≡ 1

split_found :
    (n : ℕ) (o : Option (ℕ × ℕ)) → halve (n - 1) 0 (n - 1) ≡ o → IsSplit (n - 1) 0 o → Halved n
split_found n none e h = absurd h
split_found n (some (s, d)) e h = record {
  s = s;
  d = d;
  ends = e;
  product = h.product ∙ (ap (λ k. k * (n - 1)) (pow-zero 2) ∙ one-mul (n - 1));
  odd = h.odd;
}

pub halving_ends : (n : ℕ) → 2 ≤ n → Halved n
halving_ends n h =
    split_found n (halve (n - 1) 0 (n - 1)) refl
      (halve-IsSplit (n - 1) 0 (n - 1) (omega arith) (omega arith))

-- The test of an odd number, with its assertion.
pub with_parts_lem :
    (n : ℕ) (bases : List ℕ) (h : Halved n)
    → with_parts n bases (halve (n - 1) 0 (n - 1)) ≡ some (test_bases n h.s h.d bases)
unfolding with_parts
with_parts_lem n bases h =
    let same : (2 ^ h.s * h.d == n - 1) ≡ true =
      (nat_beq_iff (2 ^ h.s * h.d) (n - 1)).1 h.product in
    rw h.ends (rw same refl)

-- For every n from 2 on and all bases, `is_probable_prime` returns: for an odd n the halving loop
-- ends within n - 1 turns, and `2**s * d == n-1` holds.
pub prime_test_returns :
    (n : ℕ) (bases : List ℕ) → 2 ≤ n → (b : Bool) × (is_probable_prime n bases ≡ some b)
unfolding is_probable_prime
prime_test_returns n bases h =
    let halved = halving_ends n h in
    on_if (λ o. (b : Bool) × (o ≡ some b)) (leb 2 n)
      (λ _.
        on_if (λ o. (b : Bool) × (o ≡ some b)) (n == 2) (λ _. (true, refl))
          (λ _.
            on_if (λ o. (b : Bool) × (o ≡ some b)) (n % 2 == 0) (λ _. (false, refl))
              (λ _. (test_bases n halved.s halved.d bases, with_parts_lem n bases halved))))
      (λ c. absurd (ground arith))
