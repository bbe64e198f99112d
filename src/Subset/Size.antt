-- ===== src/Subset/Size.antt =====
-- The size of the common subset.
use mathlib.Core.Path.{subst}
use dumbo_ucy.Shared.{
  ℕ, zero, suc, ◌+◌, ◌-◌, ◌≤◌, ◌≡◌, refl, Option, none, some, List, [], ◌∷◌, ◌++◌, nat_comparable,
  arith, length,
}
use dumbo_ucy.Shared.Loop.{AllOf}
use dumbo_ucy.Subset.{
  State, Event, rbc, aba, sum_below, init, recv_rbc, recv_aba, step, run, returns, entry,
  append_entry, entries, finish, outcome,
}

module _ {V : Type 0} where
  -- The agreements return bits.
  abbrev pub IsBit : Event V → Type 0
  IsBit (rbc j v) = Unit
  IsBit (aba j b) = b ≤ 1

  abbrev pub count_some : List (Option V) → ℕ
  count_some [] = 0
  count_some (none ∷ l) = count_some l
  count_some (some v ∷ l) = count_some l + 1

  count_some-append :
      (xs ys : List (Option V)) → count_some (xs ++ ys) ≡ count_some xs + count_some ys
  count_some-append [] ys = omega arith
  count_some-append (none ∷ xs) ys = count_some-append xs ys
  count_some-append (some v ∷ xs) ys = omega (arith, count_some-append xs ys)

  length-append : (xs ys : List (Option V)) → length (xs ++ ys) ≡ length xs + length ys
  length-append [] ys = omega arith
  length-append (x ∷ xs) ys = omega (arith, length-append xs ys)

  abbrev Bits : State V → Type 0
  Bits s = (j : ℕ) → s.aba_values j ≤ 1

  module _ (n f : ℕ) where
    step-Bits : (s : State V) (e : Event V) → IsBit e → Bits s → Bits (step n f s e).0
    unfolding step recv_rbc recv_aba
    step-Bits s (rbc j v) ok h k = ground (arith, h k)
    step-Bits s (aba j b) ok h k = ground (arith, h k)

    run-Bits :
        (events : List (Event V)) (s : State V)
        → AllOf IsBit events
        → Bits s
        → Bits (run n f s events).0
    unfolding run
    run-Bits [] s ok h = h
    run-Bits (e ∷ events) s ok h = run-Bits events (step n f s e).0 ok.1 (step-Bits s e ok.0 h)

  -- A tuple of n entries, as many of them set as the agreements with value 1.
  record Fits (n : ℕ) (s : State V) (l : List (Option V)) : Type 0 where
    size : length l ≡ n
    many : sum_below n s.aba_values ≤ count_some l

  record Appended (o : Option (List (Option V))) (e : Option (Option V)) (l : List (Option V))
      : Type 0 where
    front : List (Option V)
    new : Option V
    had : o ≡ some front
    fetched : e ≡ some new
    all : l ≡ front ++ new ∷ []

  append_entry-Appended :
      (o : Option (List (Option V))) (e : Option (Option V)) (l : List (Option V))
      → append_entry o e ≡ some l
      → Appended o e l
  unfolding append_entry
  append_entry-Appended none e l h = absurd (ground arith)
  append_entry-Appended (some k) none l h = absurd (ground arith)
  append_entry-Appended (some k) (some x) l h = record {
    front = k;
    new = x;
    had = refl;
    fetched = refl;
    all = cc;
  }

  entry_counts :
      (v : ℕ) (r : Option V) (x : Option V) → v ≤ 1 → entry v r ≡ some x → v ≤ count_some (x ∷ [])
  unfolding entry
  entry_counts zero r x b h = omega arith
  entry_counts (suc v) none x b h = absurd (ground arith)
  entry_counts (suc v) (some w) none b h = absurd cc
  entry_counts (suc v) (some w) (some x) b h = omega arith

  entries-Fits :
      (n : ℕ) (s : State V) (l : List (Option V)) → Bits s → entries n s ≡ some l → Fits n s l
  unfolding entries sum_below
  entries-Fits zero s l b e =
      let empty : [] ≡ l = cc in
      subst (Fits zero s) empty (record { size = refl; many = omega arith })
  entries-Fits (suc n) s l b e =
      let a = append_entry-Appended (entries n s) (entry (s.aba_values n) (s.rbc_values n)) l e in
      let rest = entries-Fits n s a.front b a.had in
      rw a.all (record {
        size = omega (arith, length-append a.front (a.new ∷ []), rest.size);
        many = omega (
          arith,
          count_some-append a.front (a.new ∷ []),
          entry_counts (s.aba_values n) (s.rbc_values n) a.new (b n) a.fetched,
          rest.many,
        );
      })

  finish_lem :
      (o : Option (List (Option V))) (l : List (Option V)) → finish o ≡ returns l → o ≡ some l
  unfolding finish
  finish_lem none l h = absurd (ground arith)
  finish_lem (some k) l h = cc

  module _ (n f : ℕ) where
    -- Whenever `commonsubset` returns, in whatever order the broadcasts and the agreements have
    -- returned, and when the agreements return bits: its tuple has n entries, of which at least
    -- n - f are values of broadcasts.
    pub subset_size :
        (events : List (Event V)) (l : List (Option V))
        → AllOf IsBit events
        → outcome n f (run n f (init n f) events).0 ≡ returns l
        → (length l ≡ n) × (n - f ≤ count_some l)
    unfolding outcome
    subset_size events l ok e =
        let s = (run n f (init n f) events).0 in
        let enough : n - f ≤ sum_below n s.aba_values = ground arith in
        let done : finish (entries n s) ≡ returns l = ground arith in
        let fits =
          entries-Fits n s l (run-Bits n f events (init n f) ok (λ j. omega arith))
            (finish_lem (entries n s) l done) in
        (fits.size, omega (arith, fits.many, enough))
