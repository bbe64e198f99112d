-- ===== src/Mule/TwoValue/Refinement.antt =====
-- A whole call of `twovalueagreement` refines the machine of Phases.antt.
use mathlib.Core.List.{append_assoc}
use dumbo_ucy.Shared.{
  ℕ, ◌-◌, ◌%◌, refl, false, ◌||◌, Option, none, some, List, [], ◌∷◌, ◌++◌, ◌==◌, nat_comparable,
  bytes_comparable, leb, if◌then◌else◌, length, on_if,
}
use dumbo_ucy.Shared.Loop.{AllOf-any}
use dumbo_ucy.Shared.Steps.{run_steps, Then, steps_keep}
use dumbo_ucy.Mule.TwoValue.{
  Params, Out, Pc, at_input, at_bin, at_aux, at_conf, at_coin, ended, State, init, Event, got,
  given, wake, coin, returns,
}
use dumbo_ucy.Mule.TwoValue.Rounds.{
  begin_round, take_bin, enter_conf, aux_total, wake_aux, try_finish, adjacent, next_round,
  set_estimate, take_coin, fetch_coin, wake_conf, on_wake, on_given, on_coin, on_returns, step,
}
use dumbo_ucy.Mule.TwoValue.Phases.{
  undecided, starts, Refines, keep_phase, Quiet, Quiet-Refines, quiet,
}
use dumbo_ucy.Mule.TwoValue.Finish.{try_finish-Refines, receive-Refines}

module _ (p : Params) where
  begin_round-Quiet : (s : State) (v : ℕ) → Quiet s (begin_round p s v)
  unfolding begin_round
  begin_round-Quiet s v =
      on_if (Quiet s) (s.est_sent s.round v)
        (λ _. record { sent = refl; signal = refl; outs = refl })
        (λ _. record { sent = refl; signal = refl; outs = refl })

  ends : (s : State) → Quiet s (record s { pc = ended }, [])
  ends s = record { sent = refl; signal = refl; outs = refl }

  take_bin-Quiet : (s : State) (vals : List ℕ) → Quiet s (take_bin p s vals)
  unfolding take_bin
  take_bin-Quiet s [] = quiet s
  take_bin-Quiet s (w ∷ rest) = record { sent = refl; signal = refl; outs = refl }

  enter_conf-Quiet : (s : State) (vals : List ℕ) → Quiet s (enter_conf p s vals)
  unfolding enter_conf
  enter_conf-Quiet s vals =
      on_if (Quiet s) (s.conf_sent s.round vals)
        (λ _. record { sent = refl; signal = refl; outs = refl })
        (λ _. record { sent = refl; signal = refl; outs = refl })

  wake_aux-Quiet : (s : State) → Quiet s (wake_aux p s)
  unfolding wake_aux
  wake_aux-Quiet s =
      on_if (Quiet s) (length (s.int_values s.round) == 1 || length (s.int_values s.round) == 2)
        (λ _.
          on_if (Quiet s)
            (leb (p.n - p.f) (aux_total p (s.aux_values s.round) (s.int_values s.round)))
            (λ _. enter_conf-Quiet s (p.order (s.int_values s.round))) (λ _. quiet s))
        (λ _. ends s)

  -- A round ends.
  next_round-Refines :
      (s : State) (v : ℕ) (outs : List Out)
      → Refines s outs
      → Then Refines outs (begin_round p (next_round p s) v)
  next_round-Refines s v outs h =
      let q = begin_round-Quiet (next_round p s) v in
      Quiet-Refines s outs (begin_round p (next_round p s) v)
        (record { sent = q.sent; signal = q.signal; outs = q.outs }) h

  set_estimate-Refines :
      (s : State) (vals : List ℕ) (bit : ℕ) (outs : List Out)
      → Refines s outs
      → Then Refines outs (set_estimate p s vals bit)
  unfolding set_estimate
  set_estimate-Refines s [] bit outs h = Quiet-Refines s outs _ (ends s) h
  set_estimate-Refines s (v ∷ []) bit outs h =
      let r = try_finish p s v bit in
      rw (← append_assoc outs r.1 (begin_round p (next_round p r.0) v).1)
        (next_round-Refines r.0 v (outs ++ r.1) (try_finish-Refines p s v bit outs h))
  set_estimate-Refines s (a ∷ b ∷ []) bit outs h =
      on_if (Then Refines outs) (adjacent p a b)
        (λ _. next_round-Refines s (if a % 2 == bit then a else b) outs h)
        (λ _. Quiet-Refines s outs _ (ends s) h)
  set_estimate-Refines s (a ∷ b ∷ c ∷ vals) bit outs h = Quiet-Refines s outs _ (ends s) h

  fetch_coin-Refines :
      (s : State) (c : Option ℕ) (outs : List Out)
      → Refines s outs
      → Then Refines outs (fetch_coin p s c)
  unfolding fetch_coin take_coin
  fetch_coin-Refines s none outs h =
      Quiet-Refines s outs _ (record { sent = refl; signal = refl; outs = refl }) h
  fetch_coin-Refines s (some c) outs h = set_estimate-Refines s (p.order s.values) _ outs h

  on_wake-Refines :
      (pc : Pc) (s : State) (outs : List Out) → Refines s outs → Then Refines outs (on_wake p pc s)
  unfolding on_wake wake_conf
  on_wake-Refines at_bin s outs h =
      Quiet-Refines s outs _ (take_bin-Quiet s (p.order (s.int_values s.round))) h
  on_wake-Refines at_aux s outs h = Quiet-Refines s outs _ (wake_aux-Quiet s) h
  on_wake-Refines at_conf s outs h =
      on_if (Then Refines outs)
        (leb (p.n - p.f) (length (s.conf_values s.round (p.order (s.int_values s.round)))))
        (λ _.
          fetch_coin-Refines (record s { values = s.int_values s.round }) (p.fixed_coin s.round)
            outs
            (record {
              phase = h.phase;
              runs = h.runs;
              state =
                  keep_phase s (record s { values = s.int_values s.round }) h.phase refl refl
                    h.state;
            }))
        (λ _. Quiet-Refines s outs _ (quiet s) h)
  on_wake-Refines at_input s outs h = Quiet-Refines s outs _ (quiet s) h
  on_wake-Refines at_coin s outs h = Quiet-Refines s outs _ (quiet s) h
  on_wake-Refines ended s outs h = Quiet-Refines s outs _ (quiet s) h

  on_given-Refines :
      (pc : Pc) (s : State) (v : ℕ) (outs : List Out)
      → Refines s outs
      → Then Refines outs (on_given p pc s v)
  unfolding on_given
  on_given-Refines at_input s v outs h = Quiet-Refines s outs _ (begin_round-Quiet s v) h
  on_given-Refines at_bin s v outs h = Quiet-Refines s outs _ (quiet s) h
  on_given-Refines at_aux s v outs h = Quiet-Refines s outs _ (quiet s) h
  on_given-Refines at_conf s v outs h = Quiet-Refines s outs _ (quiet s) h
  on_given-Refines at_coin s v outs h = Quiet-Refines s outs _ (quiet s) h
  on_given-Refines ended s v outs h = Quiet-Refines s outs _ (quiet s) h

  on_coin-Refines :
      (pc : Pc) (s : State) (c : ℕ) (outs : List Out)
      → Refines s outs
      → Then Refines outs (on_coin p pc s c)
  unfolding on_coin take_coin
  on_coin-Refines at_coin s c outs h = set_estimate-Refines s (p.order s.values) _ outs h
  on_coin-Refines at_input s c outs h = Quiet-Refines s outs _ (quiet s) h
  on_coin-Refines at_bin s c outs h = Quiet-Refines s outs _ (quiet s) h
  on_coin-Refines at_aux s c outs h = Quiet-Refines s outs _ (quiet s) h
  on_coin-Refines at_conf s c outs h = Quiet-Refines s outs _ (quiet s) h
  on_coin-Refines ended s c outs h = Quiet-Refines s outs _ (quiet s) h

  returns-Quiet :
      (s : State)
      → Quiet s
          (if s.finish_signal then (record s { pc = ended; receiving = false }, []) else (s, []))
  returns-Quiet s =
      on_if (Quiet s) s.finish_signal (λ _. record { sent = refl; signal = refl; outs = refl })
        (λ _. quiet s)

  on_returns-Refines :
      (pc : Pc) (s : State) (outs : List Out)
      → Refines s outs
      → Then Refines outs (on_returns p pc s)
  unfolding on_returns
  on_returns-Refines at_input s outs h = Quiet-Refines s outs _ (quiet s) h
  on_returns-Refines at_bin s outs h = Quiet-Refines s outs _ (returns-Quiet s) h
  on_returns-Refines at_aux s outs h = Quiet-Refines s outs _ (returns-Quiet s) h
  on_returns-Refines at_conf s outs h = Quiet-Refines s outs _ (returns-Quiet s) h
  on_returns-Refines at_coin s outs h = Quiet-Refines s outs _ (returns-Quiet s) h
  on_returns-Refines ended s outs h = Quiet-Refines s outs _ (returns-Quiet s) h

  step-Refines :
      (s : State) (ev : Event) (outs : List Out) → Refines s outs → Then Refines outs (step p s ev)
  unfolding step
  step-Refines s (got sender m) outs h = receive-Refines p s sender m outs h
  step-Refines s (given v) outs h = on_given-Refines s.pc s v outs h
  step-Refines s wake outs h = on_wake-Refines s.pc s outs h
  step-Refines s (coin c) outs h = on_coin-Refines s.pc s c outs h
  step-Refines s returns outs h = on_returns-Refines s.pc s outs h

  -- Whatever arrives and however the greenlets take turns, a call of `twovalueagreement` refines the
  -- abstract machine: it decides at most once, by a message of another party or by a round of its
  -- own; with the decision it tells the others FINISH with that value, and nothing else ever; and
  -- `finish_signal`, on which the call returns, is set only after that.
  pub run-Refines : (events : List Event) → Then Refines [] (run_steps (step p) init events)
  run-Refines events =
      steps_keep (step p) Refines (λ _. Unit {0}) (λ s ev outs _ h. step-Refines s ev outs h) events
        init [] (AllOf-any events)
        (record { phase = undecided; runs = starts; state = (refl, refl) })
