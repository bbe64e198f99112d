-- ===== src/Aba/Steps.antt =====
-- What every event keeps, a run keeps; and the case distinctions of the handlers.
use mathlib.Core.List.{append-nil, append_assoc}
use dumbo_ucy.Shared.{List, [], ◌∷◌, ◌++◌}
use dumbo_ucy.Shared.Loop.{AllOf}
use dumbo_ucy.Aba.Defs.{Out, Params, State}
use dumbo_ucy.Aba.Rounds.{Event, step, run}

-- `P` after a step that also sends.
abbrev pub After : (State → List Out → Type 0) → List Out → State × List Out → Type 0
After P outs r = P r.0 (outs ++ r.1)

module _ (p : Params) (P : State → List Out → Type 0) (Ok : Event → Type 0)
    (keep : (s : State) (e : Event) (outs : List Out)
      → Ok e
      → P s outs
      → After P outs (step p s e)) where
  pub run_keeps :
      (events : List Event) (s : State) (outs : List Out)
      → AllOf Ok events
      → P s outs
      → After P outs (run p s events)
  unfolding run
  run_keeps [] s outs ok h = rw append-nil h
  run_keeps (e ∷ events) s outs ok h =
      let h' = keep s e outs ok.0 h in
      rw (← append_assoc outs (step p s e).1 (run p (step p s e).0 events).1)
        (run_keeps events (step p s e).0 (outs ++ (step p s e).1) ok.1 h')
