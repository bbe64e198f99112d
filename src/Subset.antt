-- ===== src/Subset.antt =====
-- honeybadgerbft/core/commonsubset.py: `commonsubset`, with the outputs of the reliable broadcasts
-- and of the binary agreements as the events that its greenlets wait for.
mod Dumbo
mod Inputs
mod Size
mod Tests
mod Validated
use dumbo_ucy.Shared.{
  ℕ, zero, suc, ◌+◌, ◌-◌, Bool, true, false, not, Option, none, some, List, [], ◌∷◌, ◌++◌, ◌==◌,
  nat_comparable, leb, ltb, ◌&&◌, ◌||◌, if◌then◌else◌,
}
use dumbo_ucy.Shared.Dict.{assign}

-- `aba_in[j](b)`
abbrev pub Input : Type 0
Input = ℕ × ℕ

-- The three lists by index; `rbc_returned` and `aba_returned` say which of the greenlets
-- `_recv_rbc(j)` and `_recv_aba(j)` have come back from their wait.
pub record State (V : Type 0) : Type 0 where
  pub aba_inputted : ℕ → Bool
  pub aba_values : ℕ → ℕ
  pub rbc_values : ℕ → Option V
  pub rbc_returned : ℕ → Bool
  pub aba_returned : ℕ → Bool

-- `rbc_out[j]()` or `aba_out[j]()` returns.
pub data Event (V : Type 0) : Type 0 where
  rbc : ℕ → V → Event V
  aba : ℕ → ℕ → Event V

-- sum(values) over range(n)
unfoldable pub sum_below : ℕ → (ℕ → ℕ) → ℕ
sum_below zero values = 0
sum_below (suc n) values = sum_below n values + values n

-- The inputs of 0 to those of range(n) that have none yet, in order.
unfoldable pub zeros_below : ℕ → (ℕ → Bool) → List Input
zeros_below zero inputted = []
zeros_below (suc n) inputted = zeros_below n inputted ++ (if inputted n then [] else (n, 0) ∷ [])

module _ {V : Type 0} (n f : ℕ) where
  abbrev pub init : State V
  init = record {
    aba_inputted = λ j. false;
    aba_values = λ j. 0;
    rbc_values = λ j. none;
    rbc_returned = λ j. false;
    aba_returned = λ j. false;
  }

  -- `_recv_rbc(j)`, once `rbc_out[j]()` has returned v
  unfoldable pub recv_rbc : State V → ℕ → V → State V × List Input
  recv_rbc s j v =
      let s' = record s {
        rbc_values = assign s.rbc_values j (some v);
        rbc_returned = assign s.rbc_returned j true;
      } in
      if s.aba_inputted j
      then (s', [])
      else (record s' { aba_inputted = assign s.aba_inputted j true }, (j, 1) ∷ [])

  -- `_recv_aba(j)`, once `aba_out[j]()` has returned b
  unfoldable pub recv_aba : State V → ℕ → ℕ → State V × List Input
  recv_aba s j b =
      let s' = record s {
        aba_values = assign s.aba_values j b;
        aba_returned = assign s.aba_returned j true;
      } in
      if leb (n - f) (sum_below n s'.aba_values)
      then (
        record s' { aba_inputted = λ k. ltb k n || s.aba_inputted k },
        zeros_below n s.aba_inputted,
      )
      else (s', [])

  -- There is one greenlet for each j in range(N), and each call returns once.
  unfoldable pub step : State V → Event V → State V × List Input
  step s (rbc j v) = if ltb j n && not (s.rbc_returned j) then recv_rbc s j v else (s, [])
  step s (aba j b) = if ltb j n && not (s.aba_returned j) then recv_aba s j b else (s, [])

  unfoldable pub run : State V → List (Event V) → State V × List Input
  run s [] = (s, [])
  run s (e ∷ events) =
      let (s', inputs) = step s e in let (s'', rest) = run s' events in (s'', inputs ++ rest)

-- What the rest of `commonsubset` does at a state: wait on, fail its assertion, or return.
pub data Outcome (V : Type 0) : Type 0 where
  waits : Outcome V
  fails : Outcome V
  returns : List (Option V) → Outcome V

-- all of the greenlets `_recv_aba(j)` for j in range(n) have ended
unfoldable pub all_returned : ℕ → (ℕ → Bool) → Bool
all_returned zero returned = true
all_returned (suc n) returned = all_returned n returned && returned n

module _ {V : Type 0} where
  -- One pass of the last loop; `none` where `r_threads[j].join()` waits on.
  unfoldable pub entry : ℕ → Option V → Option (Option V)
  entry zero v = some none
  entry (suc b) none = none
  entry (suc b) (some v) = some (some v)

  unfoldable pub append_entry :
      Option (List (Option V)) → Option (Option V) → Option (List (Option V))
  append_entry (some l) (some e) = some (l ++ e ∷ [])
  append_entry (some l) none = none
  append_entry none e = none

  -- The tuple after the last loop.
  unfoldable pub entries : ℕ → State V → Option (List (Option V))
  entries zero s = some []
  entries (suc n) s = append_entry (entries n s) (entry (s.aba_values n) (s.rbc_values n))

  unfoldable pub finish : Option (List (Option V)) → Outcome V
  finish none = waits
  finish (some l) = returns l

  unfoldable pub outcome : ℕ → ℕ → State V → Outcome V
  outcome n f s =
      if all_returned n s.aba_returned
      then if leb (n - f) (sum_below n s.aba_values) then finish (entries n s) else fails
      else waits
