-- ===== src/Subset/Validated.antt =====
-- dumbobft/core/validatedcommonsubset.py: the loop that collects the values of the parties, and the
-- predicate that the vectors of the validated agreement are to pass. The predicate on single values
-- is a parameter, as in the code.
mod Vector
mod Tests
use dumbo_ucy.Shared.{
  ℕ, zero, suc, ◌+◌, ◌-◌, Bool, true, false, Option, none, some, List, [], nat_comparable, ◌==◌,
  leb, ltb, ◌&&◌, if◌then◌else◌, length, get_or,
}
use dumbo_ucy.Shared.Dict.{add, assign}
use dumbo_ucy.Shared.Loop.{Turn, next, done}
use dumbo_ucy.Subset.Dumbo.{tuple}

-- The number of those in range(n) for which a test holds.
unfoldable pub count_below : ℕ → (ℕ → Bool) → ℕ
count_below zero test = 0
count_below (suc n) test = if test n then count_below n test + 1 else count_below n test

pub record State (V : Type 0) : Type 0 where
  pub value_senders : List ℕ
  pub values : ℕ → Option V

module _ {V : Type 0} (predicate : ℕ → V → Bool) (n f : ℕ) where
  abbrev pub init : State V
  init = record { value_senders = []; values = λ j. none }

  -- m[i] is not None and predicate(i, m[i])
  unfoldable pub passes : ℕ → Option V → Bool
  passes i none = false
  passes i (some v) = predicate i v

  unfoldable pub vaba_predicate : List (Option V) → Bool
  vaba_predicate m =
      if length m == n
      then leb (n - f) (count_below n (λ i. passes i (get_or m i none)))
      else leb (n - f) 0

  -- One value from `value_recv`; what the loop ends with is the input of the validated agreement.
  -- An exception, of the assertion or of an index out of range, is caught.
  unfoldable pub on_value : State V → ℕ × V → Turn (State V) (ℕ × V) (List (Option V))
  on_value s (j, vj) =
      if predicate j vj
      then (let senders = add s.value_senders j in
          if ltb j n
          then (let s' : State V = record {
            value_senders = senders;
            values = assign s.values j (some vj);
          } in
              if leb (n - f) (length senders) then done [] (tuple n s'.values) else next s' [])
          else next (record s { value_senders = senders }) [])
      else next s []
