-- ===== src/Rbc/Bookkeeping.antt =====
-- What holds of the tables of one broadcast instance, and how an ECHO and a READY enter them.
use dumbo_ucy.Shared.{
  ℕ, zero, suc, ◌+◌, ◌<◌, ◌≡◌, refl, Bool, true, false, Option, none, some, List, [], ◌∷◌, ◌==◌,
  nat_comparable, bytes_comparable, ltb, ◌&&◌, arith, if◌then◌else◌, length, get_elem?, set,
  replicate, length-set, length-replicate, list_beq_iff, Bool-cases, inl, inr, ap,
}
use dumbo_ucy.Shared.Dict.{
  get_or_default, has_key, contains, add, get_or_default-put, get_or_default_of_missing,
  contains-add, IsDistinct, add-IsDistinct,
}
use dumbo_ucy.Rbc.Merkle.{Bytes, merkle_verify}
use dumbo_ucy.Rbc.Coding.RoundTrip.{present}
use dumbo_ucy.Rbc.Handler.{
  Params, State, init, stripes_of, echoes, readies_of, has_stripe, record_echo, record_ready,
}

get_elem?-set :
    {A : Type 0} (l : List A) (i j : ℕ) (v : A)
    → get_elem? (set l i v) j ≡ (if i == j && ltb i (length l) then some v else get_elem? l j)
get_elem?-set [] i j v = ground arith
get_elem?-set (x ∷ l) zero zero v = ground arith
get_elem?-set (x ∷ l) zero (suc j) v = ground arith
get_elem?-set (x ∷ l) (suc i) zero v = ground arith
get_elem?-set (x ∷ l) (suc i) (suc j) v = ground (arith, get_elem?-set l i j v)

present-set :
    (l : List (Option Bytes)) (i : ℕ) (b : Bytes)
    → get_elem? l i ≡ some none
    → present (set l i (some b)) ≡ suc (present l)
present-set [] i b h = cc
present-set (none ∷ l) zero b h = refl
present-set (some c ∷ l) zero b h = absurd (ground arith)
present-set (none ∷ l) (suc i) b h = present-set l i b h
present-set (some c ∷ l) (suc i) b h = ap suc (present-set l i b h)

present-replicate : (n : ℕ) → present (replicate n none) ≡ 0
present-replicate zero = refl
present-replicate (suc n) = present-replicate n

get_elem?-replicate :
    (n i : ℕ) → i < n → get_elem? (replicate {A = Option Bytes} n none) i ≡ some none
get_elem?-replicate zero i h = absurd (omega arith)
get_elem?-replicate (suc n) zero h = refl
get_elem?-replicate (suc n) (suc i) h = get_elem?-replicate n i (omega arith)

none_present :
    (n i : ℕ) (b : Bytes) → get_elem? (replicate {A = Option Bytes} n none) i ≡ some (some b) → ⊥
none_present zero i b h = cc
none_present (suc n) zero b h = cc
none_present (suc n) (suc i) b h = none_present n i b h

-- A stripe that was accepted from `i` under `roothash`.
abbrev pub Accepted : Params → Bytes → ℕ → Bytes → Type 0
Accepted p roothash i b =
    (branch : List Bytes) × (merkle_verify p.hash p.n b roothash branch i ≡ some true)

pub record IsValid (p : Params) (s : State) : Type 0 where
  pub widths : (r : Bytes) → length (stripes_of p s r) ≡ p.n
  pub counted : (r : Bytes) → echoes p s r ≡ present (stripes_of p s r)
  pub checked :
      (r : Bytes) (i : ℕ) (b : Bytes)
      → get_elem? (stripes_of p s r) i ≡ some (some b)
      → Accepted p r i b
  pub distinct : (r : Bytes) → IsDistinct (readies_of p s r)
  pub voters :
      (r : Bytes) (i : ℕ) → contains (readies_of p s r) i ≡ true → contains s.ready_senders i ≡ true

if_either {ℓ κ} :
    {A : Type ℓ} (P : A → Type κ) (b : Bool) {x y : A} → P x → P y → P (if b then x else y)
if_either P true px py = px
if_either P false px py = py

verified-lt :
    (n i : ℕ) (h : Bytes → Bytes) (b r : Bytes) (branch : List Bytes)
    → merkle_verify h n b r branch i ≡ some true
    → i < n
unfolding merkle_verify
verified-lt n i h b r branch e = ground arith

module _ (p : Params) where
  pub init-IsValid : IsValid p init
  unfolding get_or_default contains
  init-IsValid = record {
    widths = λ r. length-replicate p.n none;
    counted = λ r. ground (arith, present-replicate p.n);
    checked = λ r i b h. absurd (none_present p.n i b h);
    distinct = λ r. tt;
    voters = λ r i h. cc;
  }

  pub readies_of-record_ready :
      (s : State) (sender : ℕ) (r q : Bytes)
      → readies_of p (record_ready p s sender r) q
        ≡ (if r == q then add (readies_of p s r) sender else readies_of p s q)
  unfolding record_ready
  readies_of-record_ready s sender r q =
      get_or_default-put s.readies [] r q (add (readies_of p s r) sender)

  pub record_ready-IsValid :
      (s : State) (sender : ℕ) (r : Bytes) → IsValid p s → IsValid p (record_ready p s sender r)
  unfolding record_ready
  record_ready-IsValid s sender r v = record {
    widths = v.widths;
    counted = v.counted;
    checked = v.checked;
    distinct = λ q. rw (readies_of-record_ready s sender r q) (
        if_either IsDistinct (r == q) (add-IsDistinct (readies_of p s r) sender (v.distinct r))
          (v.distinct q));
    voters = λ q i h. ground (
      arith,
      readies_of-record_ready s sender r q,
      contains-add (readies_of p s r) sender i,
      contains-add s.ready_senders sender i,
      v.voters r i,
      v.voters q i,
    );
  }

  stripes_of-record_echo :
      (s : State) (sender : ℕ) (r stripe q : Bytes)
      → stripes_of p (record_echo p s sender r stripe) q
        ≡ (if r == q then set (stripes_of p s r) sender (some stripe) else stripes_of p s q)
  unfolding record_echo
  stripes_of-record_echo s sender r stripe q =
      get_or_default-put s.stripes (replicate p.n none) r q
        (set (stripes_of p s r) sender (some stripe))

  pub echoes-record_echo :
      (s : State) (sender : ℕ) (r stripe q : Bytes)
      → echoes p (record_echo p s sender r stripe) q
        ≡ (if r == q then echoes p s r + 1 else echoes p s q)
  unfolding record_echo
  echoes-record_echo s sender r stripe q =
      get_or_default-put s.echo_counter 0 r q (echoes p s r + 1)

  -- A place that `has_stripe` found free holds `None`.
  free_place :
      (s : State) (r : Bytes) (i : ℕ)
      → has_stripe p s r i ≡ some false
      → i < p.n
      → get_elem? (stripes_of p s r) i ≡ some none
  unfolding has_stripe
  free_place s r i h lt = elim (Bool-cases (has_key s.stripes r)) [
    | inl there ↦ ground arith
    | inr missing ↦
        rw (get_or_default_of_missing s.stripes (replicate p.n none) r missing)
          (get_elem?-replicate p.n i lt)
  ]

  module _ (s : State) (sender : ℕ) (r stripe : Bytes) (branch : List Bytes) (v : IsValid p s)
      (fresh : has_stripe p s r sender ≡ some false)
      (ok : merkle_verify p.hash p.n stripe r branch sender ≡ some true) where
    free : get_elem? (stripes_of p s r) sender ≡ some none
    free = free_place s r sender fresh (verified-lt p.n sender p.hash stripe r branch ok)

    checked_echo :
        (q : Bytes) (i : ℕ) (b : Bytes)
        → get_elem? (stripes_of p (record_echo p s sender r stripe) q) i ≡ some (some b)
        → Accepted p q i b
    checked_echo q i b h = elim (Bool-cases (r == q)) [
      | inl same ↦
          let e : r ≡ q = (list_beq_iff r q).0 same in
          elim (Bool-cases (sender == i)) [
            | inl here ↦ (
              branch,
              ground (
                arith,
                stripes_of-record_echo s sender r stripe q,
                get_elem?-set (stripes_of p s r) sender i (some stripe),
                v.widths r,
                verified-lt p.n sender p.hash stripe r branch ok,
              ),
            )
            | inr there ↦ v.checked q i b (
                ground (
                  arith,
                  stripes_of-record_echo s sender r stripe q,
                  get_elem?-set (stripes_of p s r) sender i (some stripe),
                ))
          ]
      | inr other ↦ v.checked q i b (ground (arith, stripes_of-record_echo s sender r stripe q))
    ]

    pub record_echo-IsValid : IsValid p (record_echo p s sender r stripe)
    unfolding record_echo
    record_echo-IsValid = record {
      widths = λ q. ground (
        arith,
        stripes_of-record_echo s sender r stripe q,
        length-set (stripes_of p s r) sender (some stripe),
        v.widths r,
        v.widths q,
      );
      counted = λ q. ground (
        arith,
        stripes_of-record_echo s sender r stripe q,
        echoes-record_echo s sender r stripe q,
        present-set (stripes_of p s r) sender stripe free,
        v.counted r,
        v.counted q,
      );
      checked = checked_echo;
      distinct = v.distinct;
      voters = v.voters;
    }
