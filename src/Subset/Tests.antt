-- ===== src/Subset/Tests.antt =====
-- A common subset of four parties in which broadcast 3 never returns.
use dumbo_ucy.Shared.{ℕ, ◌-◌, ◌≤◌, ◌≡◌, refl, Option, none, some, List, [], ◌∷◌, arith, length}
use dumbo_ucy.Subset.{
  Event, rbc, aba, sum_below, zeros_below, init, recv_rbc, recv_aba, step, run, all_returned, entry,
  append_entry, entries, finish, outcome,
}
use dumbo_ucy.Subset.Inputs.{HasFed, run-HasFed}
use dumbo_ucy.Subset.Size.{count_some, subset_size}

opened : Unit {0}
unfolding sum_below zeros_below recv_rbc recv_aba step run all_returned entry append_entry entries
    finish outcome
opened = tt

-- The values are 70, 71, 72.
abbrev events : List (Event ℕ)
events = rbc 0 70 ∷ aba 0 1 ∷ rbc 1 71 ∷ rbc 0 99 ∷ aba 1 1 ∷ aba 2 1 ∷ aba 3 0 ∷ rbc 2 72 ∷ []

abbrev tuple : List (Option ℕ)
tuple = some 70 ∷ some 71 ∷ some 72 ∷ none ∷ []

-- Broadcast 2 comes after the agreements have been fed 0.
inputs_fed : (run {V = ℕ} 4 1 (init 4 1) events).1 ≡ (0, 1) ∷ (1, 1) ∷ (2, 0) ∷ (3, 0) ∷ []
unfolding opened
inputs_fed = refl

run-HasFed_example :
    HasFed 4 1 (run {V = ℕ} 4 1 (init 4 1) events).0 (run {V = ℕ} 4 1 (init 4 1) events).1
run-HasFed_example = run-HasFed 4 1 events

subset_size_example : (length tuple ≡ 4) × (4 - 1 ≤ count_some tuple)
unfolding opened
subset_size_example =
    subset_size 4 1 events tuple
      (tt, (omega arith, (tt, (tt, (omega arith, (omega arith, (omega arith, (tt, tt)))))))) refl
