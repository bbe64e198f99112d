-- ===== src/Subset/Dumbo.antt =====
-- dumbobft/core/dumbocommonsubset.py: `dumbocommonsubset`, with the outputs of the provable reliable
-- broadcasts and of the validated agreement as the events that its greenlets wait for.
mod Chosen
mod Returns
mod Tests
use dumbo_ucy.Shared.{
  ℕ, zero, suc, ◌+◌, Bool, true, false, not, Option, none, some, List, [], ◌∷◌, ◌++◌, ◌==◌,
  nat_comparable, leb, ltb, ◌&&◌, if◌then◌else◌, get_elem?,
}
use dumbo_ucy.Shared.Dict.{assign}

-- The three lists by index; `ended` says which of the greenlets `wait_for_prbc_to_continue(leader)`
-- have come to their end or have been killed.
pub record State (V P : Type 0) : Type 0 where
  pub prbc_values : ℕ → Option V
  pub prbc_proofs : ℕ → Option P
  pub is_prbc_delivered : ℕ → ℕ
  pub ended : ℕ → Bool

-- Where `dumbocommonsubset` itself stands: it waits for `vacs_out()`, is about to go through its
-- last loop for j, has raised, or has returned.
pub data Pc (V P : Type 0) : Type 0 where
  waits : Pc V P
  looks_at : ℕ → List (Option P) → Pc V P
  raised : Pc V P
  returned : List (Option V) → Pc V P

-- `prbc_out[leader]()` returns, `vacs_out()` returns, or `dumbocommonsubset` gets its turn.
pub data Event (V P : Type 0) : Type 0 where
  prbc : ℕ → V → P → Event V P
  vacs : Option (List (Option P)) → Event V P
  turn : Event V P

-- tuple(values) of range(n)
unfoldable pub tuple : {A : Type 0} → ℕ → (ℕ → A) → List A
tuple zero values = []
tuple (suc n) values = tuple n values ++ values n ∷ []

abbrev pub Machine : Type 0 → Type 0 → Type 0
Machine V P = State V P × Pc V P

abbrev pub init : {V P : Type 0} → Machine V P
init = (
  record {
    prbc_values = λ j. none;
    prbc_proofs = λ j. none;
    is_prbc_delivered = λ j. 0;
    ended = λ j. false;
  },
  waits,
)

module _ {V P : Type 0} (pid n : ℕ) where
  -- `wait_for_prbc_to_continue(leader)`, once `prbc_out[leader]()` has returned; its second result
  -- is what it gives to `vacs_in`.
  unfoldable pub wait_for_prbc_to_continue : State V P → ℕ → V → P → State V P × List P
  wait_for_prbc_to_continue s leader msg proof = (
    record s {
      prbc_values = assign s.prbc_values leader (some msg);
      prbc_proofs = assign s.prbc_proofs leader (some proof);
      is_prbc_delivered = assign s.is_prbc_delivered leader 1;
      ended = assign s.ended leader true;
    },
    if leader == pid then proof ∷ [] else [],
  )

  -- assert prbc_values[j] is not None
  unfoldable pub check_value : State V P → ℕ → List (Option P) → Option V → Machine V P
  check_value s j vector none = (s, raised)
  check_value s j vector (some v) = (s, looks_at (j + 1) vector)

  -- One pass of the last loop, given the entry of the vector at j.
  unfoldable pub pass : State V P → ℕ → List (Option P) → Option (Option P) → Machine V P
  pass s j vector none = (s, raised)
  pass s j vector (some none) = (
    record s { prbc_values = assign s.prbc_values j none; ended = assign s.ended j true },
    looks_at (j + 1) vector,
  )
  pass s j vector (some (some proof)) =
      if s.ended j then check_value s j vector (s.prbc_values j) else (s, looks_at j vector)

  unfoldable pub on_turn : State V P → Pc V P → Machine V P
  on_turn s (looks_at j vector) =
      if ltb j n
      then pass s j vector (get_elem? vector j)
      else (s, returned (tuple n s.prbc_values))
  on_turn s pc = (s, pc)

  unfoldable pub on_vacs : State V P → Option (List (Option P)) → Machine V P
  on_vacs s none = (s, returned (tuple n s.prbc_values))
  on_vacs s (some vector) = (s, looks_at 0 vector)

  unfoldable pub step : Machine V P → Event V P → Machine V P × List P
  step (s, pc) (prbc leader msg proof) =
      if ltb leader n && not (s.ended leader)
      then (let (s', fed) = wait_for_prbc_to_continue s leader msg proof in ((s', pc), fed))
      else ((s, pc), [])
  step (s, waits) (vacs o) = (on_vacs s o, [])
  step (s, pc) (vacs o) = ((s, pc), [])
  step (s, pc) turn = (on_turn s pc, [])
