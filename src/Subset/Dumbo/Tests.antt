-- ===== src/Subset/Dumbo/Tests.antt =====
-- Party 1 of four, whose broadcast returns and is not among those that the validated agreement
-- chooses.
use dumbo_ucy.Shared.{
  ℕ, zero, suc, ◌+◌, ◌≡◌, refl, Option, none, some, List, [], ◌∷◌, ◌++◌, replicate, arith,
}
use dumbo_ucy.Shared.Steps.{run_steps}
use dumbo_ucy.Subset.Dumbo.{
  Event, prbc, vacs, turn, returned, tuple, init, wait_for_prbc_to_continue, check_value, pass,
  on_turn, on_vacs, step,
}
use dumbo_ucy.Subset.Dumbo.Chosen.{chosen, own, subset_chosen}
use dumbo_ucy.Subset.Dumbo.Returns.{HasChosen, subset_returns}

opened : Unit {0}
unfolding tuple wait_for_prbc_to_continue check_value pass on_turn on_vacs step run_steps
opened = tt

abbrev values : ℕ → ℕ
values j = j + 70

abbrev vector : List (Option ℕ)
vector = some 900 ∷ none ∷ some 902 ∷ some 903 ∷ []

-- `dumbocommonsubset` waits for broadcast 2 when it gets its third turn.
abbrev events : List (Event ℕ ℕ)
events =
    prbc 1 71 901
    ∷ prbc 0 70 900
    ∷ vacs (some vector)
    ∷ turn
    ∷ turn
    ∷ turn
    ∷ prbc 3 73 903
    ∷ prbc 2 72 902
    ∷ []

abbrev turns : List (Event ℕ ℕ)
turns = replicate 5 turn

has_chosen : HasChosen {V = ℕ} 1 4 values vector (run_steps (step 1 4) init events).0.0
unfolding opened
has_chosen zero proof e = refl
has_chosen (suc zero) proof e = absurd (ground arith)
has_chosen (suc (suc zero)) proof e = refl
has_chosen (suc (suc (suc zero))) proof e = refl
has_chosen (suc (suc (suc (suc j)))) proof e = absurd (ground arith)

subset_chosen_example :
    (some 70 ∷ none ∷ some 72 ∷ some 73 ∷ [] ≡ chosen 4 vector values)
    × ((run_steps (step 1 4) init (events ++ turns)).1
        ≡ own ((run_steps (step 1 4) init (events ++ turns)).0.0.prbc_proofs 1))
unfolding opened
subset_chosen_example =
    subset_chosen 1 4 values vector refl (events ++ turns) (some 70 ∷ none ∷ some 72 ∷ some 73 ∷ [])
      (refl, (refl, (refl, (tt, (tt, (tt, (refl, (refl, (tt, (tt, (tt, (tt, (tt, tt)))))))))))))
      refl

subset_returns_example :
    (run_steps (step 1 4) (run_steps (step 1 4) init events).0 turns).0.1
    ≡ returned (chosen 4 vector values)
unfolding opened
subset_returns_example =
    subset_returns 1 4 values vector refl events
      (refl, (refl, (refl, (tt, (tt, (tt, (refl, (refl, tt)))))))) (λ e. absurd (ground arith))
      has_chosen
