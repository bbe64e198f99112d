-- ===== src/Subset/Dumbo/Returns.antt =====
-- The last loop of `dumbocommonsubset` comes to its end.
use mathlib.Core.Path.{subst}
use dumbo_ucy.Shared.{
  ℕ, zero, suc, ◌+◌, ◌-◌, ◌≤◌, ◌<◌, ◌≡◌, ◌≢◌, refl, sym, ltb→lt, true, Option, none, some, List,
  ltb, if◌then◌else◌, get_elem?, length, replicate, arith, on_if, nat_comparable, nat_beq_iff,
}
use dumbo_ucy.Shared.Loop.{AllOf}
use dumbo_ucy.Shared.Steps.{run_steps}
use dumbo_ucy.Subset.Dumbo.{
  State, Pc, waits, looks_at, raised, returned, Event, turn, tuple, Machine, init, check_value,
  pass, on_turn, step,
}
use dumbo_ucy.Subset.Dumbo.Chosen.{
  chosen, Given, Good, At, on_turn-Good, looks_vector, run-Good, get_elem?_there,
}

module _ {V P : Type 0} (pid n : ℕ) (values : ℕ → V) (vector : List (Option P)) where
  -- The broadcasts that the vector has a proof for have returned.
  abbrev pub HasChosen : State V P → Type 0
  HasChosen s = (j : ℕ) (proof : P) → get_elem? vector j ≡ some (some proof) → s.ended j ≡ true

  -- The turns that are left.
  abbrev left : Pc V P → ℕ
  left waits = n + 2
  left (looks_at j w) = n + 1 - j
  left raised = n + 2
  left (returned l) = 0

  record Nearer (was : ℕ) (m : Machine V P) : Type 0 where
    less : left m.1 + 1 ≤ was
    has : HasChosen m.0

  pass-Nearer :
      (s : State V P) (fed : List P) (j : ℕ) (o : Option P)
      → get_elem? vector j ≡ some o
      → j < n
      → HasChosen s
      → Good pid n values vector (s, looks_at j vector) fed
      → Nearer (n + 1 - j) (pass pid n s j vector (some o))
  unfolding pass check_value
  pass-Nearer s fed j none e lt has g = record {
    less = omega arith;
    has = λ k proof e'. ground (arith, has k proof e', nat_beq_iff j k);
  }
  pass-Nearer s fed j (some proof) e lt has g =
      let d = has j proof e in
      rw (d, g.ready j (omega arith) d) (record { less = omega arith; has = has })

  module _ (full : length vector ≡ n) where
    on_turn-Nearer :
        (s : State V P) (pc : Pc V P) (fed : List P)
        → HasChosen s
        → left pc ≤ n + 1
        → 1 ≤ left pc
        → Good pid n values vector (s, pc) fed
        → Nearer (left pc) (on_turn pid n s pc)
    unfolding on_turn
    on_turn-Nearer s waits fed has le some_left g = absurd (omega arith)
    on_turn-Nearer s raised fed has le some_left g = absurd (omega arith)
    on_turn-Nearer s (returned l) fed has le some_left g = absurd (omega arith)
    on_turn-Nearer s (looks_at j w) fed has le some_left g =
        subst
          (λ u. Nearer (n + 1 - j) (
            if ltb j n
            then pass pid n s j u (get_elem? u j)
            else (s, returned (tuple n s.prbc_values))))
          (sym g.at.0)
          (on_if (Nearer (n + 1 - j)) (ltb j n)
            (λ c.
              let lt = ltb→lt j n c in
              let there = get_elem?_there vector j (omega arith) in
              rw there.1 (
                pass-Nearer s fed j there.0 there.1 lt has
                  (looks_vector pid n values vector s fed j w g)))
            (λ c. record { less = omega (arith, g.at.1); has = has }))

    none_left :
        (pc : Pc V P)
        → left pc ≡ 0
        → At pid n values vector pc
        → pc ≡ returned (chosen n vector values)
    none_left waits z a = absurd (omega arith)
    none_left raised z a = absurd (omega arith)
    none_left (looks_at j w) z a = absurd (omega (arith, a.1))
    none_left (returned l) z a = rw a refl

    looping : (pc : Pc V P) → pc ≢ waits → At pid n values vector pc → left pc ≤ n + 1
    looping waits started a = absurd (started refl)
    looping (looks_at j w) started a = omega arith
    looping raised started a = absurd (omega arith)
    looping (returned l) started a = omega arith

    turns :
        (k : ℕ) (s : State V P) (pc : Pc V P) (fed : List P)
        → HasChosen s
        → left pc ≤ k
        → k ≤ n + 1
        → Good pid n values vector (s, pc) fed
        → (run_steps (step pid n) (s, pc) (replicate k turn)).0.1
          ≡ returned (chosen n vector values)
    unfolding run_steps step on_turn
    turns zero s pc fed has le most g = none_left pc (omega arith) g.at
    turns (suc k) s (returned l) fed has le most g =
        turns k s (returned l) fed has (omega arith) (omega arith) g
    turns (suc k) s waits fed has le most g = absurd (omega arith)
    turns (suc k) s raised fed has le most g = absurd (omega arith)
    turns (suc k) s (looks_at j w) fed has le most g =
        let m = on_turn pid n s (looks_at j w) in
        let near =
          on_turn-Nearer s (looks_at j w) fed has (omega arith) (omega (arith, g.at.1)) g in
        turns k m.0 m.1 fed near.has (omega (arith, near.less)) (omega arith)
          (on_turn-Good pid n values vector full s (looks_at j w) fed g)

    -- Where the vector of the validated agreement has N entries: whatever has arrived before and in
    -- whatever order, once the agreement and the broadcasts that it chose have returned,
    -- `dumbocommonsubset` returns within N + 1 turns, and its tuple is `chosen`.
    pub subset_returns :
        (events : List (Event V P))
        → AllOf (Given values vector) events
        → (run_steps (step pid n) init events).0.1 ≢ waits
        → HasChosen (run_steps (step pid n) init events).0.0
        → (run_steps
            (step pid n)
            (run_steps (step pid n) init events).0
            (replicate (n + 1) turn)).0.1
          ≡ returned (chosen n vector values)
    subset_returns events given started has =
        let m = (run_steps (step pid n) init events).0 in
        let g = run-Good pid n values vector full events given in
        turns (n + 1) m.0 m.1 (run_steps (step pid n) init events).1 has (looping m.1 started g.at)
          (omega arith) g
