-- ===== src/Subset/Validated/Vector.antt =====
-- The vector that a party gives to the validated agreement.
use mathlib.Core.Path.{subst}
use dumbo_ucy.Shared.{
  ℕ, zero, suc, ◌+◌, ◌-◌, ◌≤◌, ◌<◌, ◌≡◌, refl, Bool, true, Option, none, some, List, [], ◌∷◌, ◌++◌,
  nat_comparable, ◌==◌, leb, ltb, ◌||◌, length-append, if◌then◌else◌, length, get_or, arith, on_if,
  nat_beq_iff, ==_refl, le→leb, leb→le,
}
use dumbo_ucy.Shared.Dict.{add, assign, contains, contains-add, length-add}
use dumbo_ucy.Shared.Loop.{run, returned, AllOf, AtEnd, AfterTurn, run_inv_where}
use dumbo_ucy.Subset.Dumbo.{tuple}
use dumbo_ucy.Subset.Validated.{State, count_below, init, passes, vaba_predicate, on_value}

count_below-equal :
    (n : ℕ) (s t : ℕ → Bool) → ((i : ℕ) → i < n → s i ≡ t i) → count_below n s ≡ count_below n t
unfolding count_below
count_below-equal zero s t h = refl
count_below-equal (suc n) s t h =
    rw (h n (omega arith), count_below-equal n s t (λ i lt. h i (omega arith))) refl

count_below_added :
    (n j : ℕ) (s t : ℕ → Bool)
    → ((i : ℕ) → t i ≡ (j == i || s i))
    → count_below n t ≡ count_below n s + (if ltb j n then (if s j then 0 else 1) else 0)
unfolding count_below
count_below_added zero j s t h = ground arith
count_below_added (suc n) j s t h =
    ground (arith, count_below_added n j s t h, h n, nat_beq_iff j n)

none_below : (n : ℕ) → count_below n (contains []) ≡ 0
unfolding count_below contains
none_below zero = refl
none_below (suc n) = none_below n

module _ {V : Type 0} where
  length-tuple : (n : ℕ) (values : ℕ → Option V) → length (tuple n values) ≡ n
  unfolding tuple
  length-tuple zero values = refl
  length-tuple (suc n) values =
      omega (arith, length-append (tuple n values) (values n ∷ []), length-tuple n values)

  get_or-append :
      (xs : List (Option V)) (x d : Option V) (i : ℕ)
      → get_or (xs ++ x ∷ []) i d ≡ (if i == length xs then x else get_or xs i d)
  get_or-append [] x d zero = ground arith
  get_or-append [] x d (suc i) = ground arith
  get_or-append (y ∷ xs) x d zero = ground arith
  get_or-append (y ∷ xs) x d (suc i) = ground (arith, get_or-append xs x d i)

  get_or-tuple :
      (n : ℕ) (values : ℕ → Option V) (i : ℕ) → i < n → get_or (tuple n values) i none ≡ values i
  unfolding tuple
  get_or-tuple zero values i lt = absurd (omega arith)
  get_or-tuple (suc n) values i lt = ground (
    arith,
    get_or-append (tuple n values) (values n) none i,
    length-tuple n values,
    get_or-tuple n values i,
    nat_beq_iff i n,
  )

  module _ (predicate : ℕ → V → Bool) (n f : ℕ) where
    -- Values come from the parties.
    abbrev pub FromParty : ℕ × V → Type 0
    FromParty m = m.0 < n

    record Collected (s : State V) : Type 0 where
      from : (i : ℕ) → passes predicate n f i (s.values i) ≡ contains s.value_senders i
      many : count_below n (contains s.value_senders) ≡ length s.value_senders

    abbrev Passes : List (Option V) → List (ℕ × V) → Type 0
    Passes m outs = vaba_predicate predicate n f m ≡ true

    add-Collected :
        (s : State V) (j : ℕ) (v : V)
        → predicate j v ≡ true
        → j < n
        → Collected s
        → Collected
            (record { value_senders = add s.value_senders j; values = assign s.values j (some v) })
    unfolding passes
    add-Collected s j v ok lt h = record {
      from = λ i. ground (arith, h.from i, contains-add s.value_senders j i, nat_beq_iff j i);
      many = ground (
        arith,
        h.many,
        length-add s.value_senders j,
        count_below_added n j (contains s.value_senders) (contains (add s.value_senders j))
            (contains-add s.value_senders j),
      );
    }

    tuple-Passes :
        (s : State V)
        → Collected s
        → n - f ≤ length s.value_senders
        → vaba_predicate predicate n f (tuple n s.values) ≡ true
    unfolding vaba_predicate
    tuple-Passes s h le =
        rw
          (
            length-tuple n s.values,
            ==_refl n,
            count_below-equal n (λ i. passes predicate n f i (get_or (tuple n s.values) i none))
                (contains s.value_senders) (λ i lt. rw (get_or-tuple n s.values i lt) (h.from i)),
            h.many,
          )
          (le→leb (n - f) (length s.value_senders) le)

    on_value-Collected :
        (s : State V) (m : ℕ × V) (outs : List (ℕ × V))
        → FromParty m
        → Collected s
        → AfterTurn (λ s' o. Collected s') Passes (λ o. ⊥) outs (on_value predicate n f s m)
    unfolding on_value
    on_value-Collected s (j, v) outs lt h =
        let kept = add-Collected s j v in
        let After = AfterTurn (λ s' o. Collected s') Passes (λ o. ⊥) outs in
        on_if After (predicate j v)
          (λ ok.
            on_if After (ltb j n)
              (λ in_range.
                on_if After (leb (n - f) (length (add s.value_senders j)))
                  (λ c. tuple-Passes _ (kept ok lt h) (leb→le (n - f) _ c)) (λ c. kept ok lt h))
              (λ out. absurd (ground arith)))
          (λ _. h)

    start : Collected (init predicate n f)
    unfolding passes contains
    start = record { from = λ i. refl; many = none_below n }

    -- Whatever values come from the parties, in whatever order and however often: the vector that a
    -- party gives to the validated agreement passes the predicate that every party tests vectors
    -- with.
    pub vector_passes :
        (msgs : List (ℕ × V)) (m : List (Option V))
        → AllOf FromParty msgs
        → (run (on_value predicate n f) (init predicate n f) msgs).1 ≡ returned m
        → vaba_predicate predicate n f m ≡ true
    vector_passes msgs m ok e =
        subst
          (AtEnd (λ s o. Collected s) Passes (λ o. ⊥)
            (run (on_value predicate n f) (init predicate n f) msgs).0)
          e
          (run_inv_where (on_value predicate n f) (λ s o. Collected s) Passes (λ o. ⊥) FromParty
            on_value-Collected msgs (init predicate n f) [] ok (start))
