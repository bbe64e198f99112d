-- ===== src/Subset/Validated/Tests.antt =====
-- Four parties whose values have to be even.
use dumbo_ucy.Shared.{
  ℕ, ◌%◌, ◌≡◌, refl, Bool, true, Option, none, some, List, [], ◌∷◌, ◌==◌, nat_comparable, arith,
}
use dumbo_ucy.Shared.Dict.{add}
use dumbo_ucy.Shared.Loop.{run}
use dumbo_ucy.Subset.Dumbo.{tuple}
use dumbo_ucy.Subset.Validated.{count_below, passes, vaba_predicate, on_value}
use dumbo_ucy.Subset.Validated.Vector.{vector_passes}

opened : Unit {0}
unfolding count_below passes vaba_predicate on_value run tuple add
opened = tt

abbrev is_even : ℕ → ℕ → Bool
is_even i v = v % 2 == 0

-- Party 3 sends twice, and party 0 a value that does not pass.
abbrev inbox : List (ℕ × ℕ)
inbox = (3, 6) ∷ (0, 7) ∷ (3, 8) ∷ (1, 2) ∷ (2, 4) ∷ (0, 0) ∷ []

abbrev vector : List (Option ℕ)
vector = none ∷ some 2 ∷ some 4 ∷ some 8 ∷ []

vector_passes_example : vaba_predicate is_even 4 1 vector ≡ true
unfolding opened
vector_passes_example =
    vector_passes is_even 4 1 inbox vector
      (omega arith, (omega arith, (omega arith, (omega arith, (omega arith, (omega arith, tt))))))
      refl
