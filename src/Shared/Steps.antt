-- ===== src/Shared/Steps.antt =====
-- A machine that takes one event at a time and sends messages: its runs, and the rule by which what
-- every step keeps holds of every run.
use mathlib.Core.List.{List, [], ◌∷◌, ◌++◌, append-nil, append_assoc}
use dumbo_ucy.Shared.Loop.{AllOf}

module _ {S E O : Type 0} (step : S → E → S × List O) where
  unfoldable pub run_steps : S → List E → S × List O
  run_steps s [] = (s, [])
  run_steps s (e ∷ events) =
      let (s', outs) = step s e in let (s'', rest) = run_steps s' events in (s'', outs ++ rest)

-- `P` of the state and all that was sent, after a step.
abbrev pub Then : {S O : Type 0} → (S → List O → Type 0) → List O → S × List O → Type 0
Then P outs r = P r.0 (outs ++ r.1)

module _ {S E O : Type 0} (step : S → E → S × List O) (P : S → List O → Type 0) (Ok : E → Type 0)
    (keep : (s : S) (e : E) (outs : List O) → Ok e → P s outs → Then P outs (step s e)) where
  pub steps_keep :
      (events : List E) (s : S) (outs : List O)
      → AllOf Ok events
      → P s outs
      → Then P outs (run_steps step s events)
  unfolding run_steps
  steps_keep [] s outs ok h = rw append-nil h
  steps_keep (e ∷ events) s outs ok h =
      rw (← append_assoc outs (step s e).1 (run_steps step (step s e).0 events).1)
        (steps_keep events (step s e).0 (outs ++ (step s e).1) ok.1 (keep s e outs ok.0 h))

-- The same for a predicate of the state alone, from `start` on.
module _ {S E O : Type 0} (step : S → E → S × List O) (P : S → Type 0)
    (keep : (s : S) (e : E) → P s → P (step s e).0) where
  pub states_keep : (events : List E) (s : S) → P s → P (run_steps step s events).0
  unfolding run_steps
  states_keep [] s h = h
  states_keep (e ∷ events) s h = states_keep events (step s e).0 (keep s e h)
