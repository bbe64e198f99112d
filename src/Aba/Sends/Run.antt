-- ===== src/Aba/Sends/Run.antt =====
-- EST messages and decisions over the rounds of the main greenlet.
use mathlib.Core.List.{append-nil, append_assoc}
use dumbo_ucy.Shared.{
  on_if, ℕ, ◌+◌, ◌≡◌, refl, Option, none, some, List, [], ◌++◌, ◌==◌, nat_comparable, ltb, ◌&&◌,
  ◌||◌, if◌then◌else◌, arith, ap, ◌∙◌,
}
use mathlib.Core.Path.{subst}
use dumbo_ucy.Shared.Loop.{AllOf-any}
use dumbo_ucy.Aba.Defs.{
  Values, only_zero, only_one, both, Out, Params, Pc, at_input, at_bin, at_aux, at_conf, at_coin,
  quit, halted, State, init,
}
use dumbo_ucy.Aba.Rounds.{
  begin_round, take_input, wake_bin, enter_conf, aux_ready, wake_aux, conf_ready, wake_conf, wake,
  agree_on, NewEstimate, estimated, abandoned, finish_round, set_new_estimate, take_coin, Event,
  got, woken, given, coin, on_given, on_coin, step, run,
}
use dumbo_ucy.Aba.Steps.{After, run_keeps}
use dumbo_ucy.Aba.Sends.{
  est_count, est_count-append, decided, decided-append, option_list, Fresh, HasSent, quiet, marked,
  still, receive-HasSent,
}

begin_round-HasSent :
    (s : State) (outs : List Out)
    → ((q w : ℕ) → est_count q w outs ≡ (if s.est_sent q w then 1 else 0))
    → decided outs ≡ option_list s.already_decided
    → After HasSent outs (begin_round s)
unfolding begin_round
begin_round-HasSent s outs e d =
    let h : HasSent (record s { pc = at_bin }) outs = record {
      ests = e;
      decisions = d;
      fresh = tt;
    } in
    on_if (After HasSent outs) (s.est_sent s.round s.estimate)
      (λ c. quiet (record s { pc = at_bin }) _ outs [] (λ q w. refl) refl refl refl tt h)
      (λ c. marked (record s { pc = at_bin }) outs s.round s.estimate c h)

take_input-HasSent :
    (s : State) (v : ℕ) (outs : List Out)
    → s.already_decided ≡ none
    → HasSent s outs
    → After HasSent outs (take_input s v)
unfolding take_input
take_input-HasSent s v outs undecided h =
    on_if (After HasSent outs) (ltb v 2)
      (λ c.
        begin_round-HasSent (record s { estimate = v; round = 0; already_decided = none }) outs
          h.ests (rw h.decisions (rw undecided)))
      (λ c. quiet s _ outs [] (λ q w. refl) refl refl refl tt h)

on_given-HasSent :
    (s : State) (pc : Pc) (v : ℕ) (outs : List Out)
    → s.pc ≡ pc
    → HasSent s outs
    → After HasSent outs (on_given pc s v)
unfolding on_given
on_given-HasSent s at_input v outs e h =
    take_input-HasSent s v outs (subst (λ pc. Fresh pc s.already_decided) e h.fresh) h
on_given-HasSent s at_bin v outs e h = still s outs h
on_given-HasSent s at_aux v outs e h = still s outs h
on_given-HasSent s at_conf v outs e h = still s outs h
on_given-HasSent s (at_coin values) v outs e h = still s outs h
on_given-HasSent s quit v outs e h = still s outs h
on_given-HasSent s halted v outs e h = still s outs h

wake_bin-HasSent : (s : State) (outs : List Out) → HasSent s outs → After HasSent outs (wake_bin s)
unfolding wake_bin
wake_bin-HasSent s outs h =
    on_if (After HasSent outs) (s.bin_values s.round 0 || s.bin_values s.round 1)
      (λ c. quiet s _ outs _ (λ q w. refl) refl refl refl tt h) (λ c. still s outs h)

enter_conf-HasSent :
    (s : State) (values : Values) (outs : List Out)
    → HasSent s outs
    → After HasSent outs (enter_conf s values)
unfolding enter_conf
enter_conf-HasSent s values outs h =
    on_if (After HasSent outs) (s.conf_sent s.round values)
      (λ c. quiet s _ outs [] (λ q w. refl) refl refl refl tt h)
      (λ c. quiet s _ outs _ (λ q w. refl) refl refl refl tt h)

-- A new estimate comes with no EST message, and with the decisions that it records.
abbrev Adds : Option ℕ → NewEstimate → Type 0
Adds old (estimated v d o) =
    ((q w : ℕ) → est_count q w o ≡ 0) × (option_list old ++ decided o ≡ option_list d)
Adds old abandoned = Unit

agree_on-Adds : (v c : ℕ) (old : Option ℕ) → Adds old (agree_on v c old)
unfolding agree_on
agree_on-Adds v c none =
    on_if (Adds none) (v == c) (λ e. (λ q w. refl, refl)) (λ e. (λ q w. refl, refl))
agree_on-Adds v c (some d) =
    on_if (Adds (some d)) (v == c && d == v) (λ e. tt) (λ e. (λ q w. refl, refl))

set_new_estimate-Adds :
    (values : Values) (c : ℕ) (old : Option ℕ) → Adds old (set_new_estimate values c old)
unfolding set_new_estimate
set_new_estimate-Adds only_zero c old = agree_on-Adds 0 c old
set_new_estimate-Adds only_one c old = agree_on-Adds 1 c old
set_new_estimate-Adds both c old = (λ q w. refl, append-nil (option_list old))

finish_round-HasSent :
    (s : State) (new : NewEstimate) (outs : List Out)
    → Adds s.already_decided new
    → HasSent s outs
    → After HasSent outs (finish_round s new)
unfolding finish_round
finish_round-HasSent s abandoned outs a h = quiet s _ outs [] (λ q w. refl) refl refl refl tt h
finish_round-HasSent s (estimated v d o) outs (no_est, grows) h =
    let s' = record s { estimate = v; already_decided = d; round = s.round + 1 } in
    rw (← append_assoc outs o (begin_round s').1) (
      begin_round-HasSent s' (outs ++ o)
        (λ q w. omega (arith, est_count-append q w outs o, no_est q w, h.ests q w))
        (decided-append outs o ∙ ap (λ l. l ++ decided o) h.decisions ∙ grows))

module _ (p : Params) where
  wake-HasSent :
      (s : State) (pc : Pc) (outs : List Out) → HasSent s outs → After HasSent outs (wake p pc s)
  unfolding wake wake_aux wake_conf
  wake-HasSent s at_bin outs h = wake_bin-HasSent s outs h
  wake-HasSent s at_aux outs h = aux_case (aux_ready p s)
    where
      aux_case :
          (found : Option Values)
          → After HasSent outs (elim found [ none ↦ (s, []) | some values ↦ enter_conf s values ])
      aux_case none = still s outs h
      aux_case (some values) = enter_conf-HasSent s values outs h
  wake-HasSent s at_conf outs h = conf_case (conf_ready p s)
    where
      conf_case :
          (found : Option Values)
          → After HasSent outs
              (elim found [ none ↦ (s, []) | some values ↦ (record s { pc = at_coin values }, []) ])
      conf_case none = still s outs h
      conf_case (some values) = quiet s _ outs [] (λ q w. refl) refl refl refl tt h
  wake-HasSent s at_input outs h = still s outs h
  wake-HasSent s (at_coin values) outs h = still s outs h
  wake-HasSent s quit outs h = still s outs h
  wake-HasSent s halted outs h = still s outs h

  on_coin-HasSent :
      (s : State) (pc : Pc) (c : ℕ) (outs : List Out)
      → HasSent s outs
      → After HasSent outs (on_coin pc s c)
  unfolding on_coin take_coin
  on_coin-HasSent s (at_coin values) c outs h =
      finish_round-HasSent s (set_new_estimate values c s.already_decided) outs
        (set_new_estimate-Adds values c s.already_decided) h
  on_coin-HasSent s at_input c outs h = still s outs h
  on_coin-HasSent s at_bin c outs h = still s outs h
  on_coin-HasSent s at_aux c outs h = still s outs h
  on_coin-HasSent s at_conf c outs h = still s outs h
  on_coin-HasSent s quit c outs h = still s outs h
  on_coin-HasSent s halted c outs h = still s outs h

  step-HasSent :
      (s : State) (e : Event) (outs : List Out) → HasSent s outs → After HasSent outs (step p s e)
  unfolding step
  step-HasSent s (got i m) outs h = receive-HasSent p s i m outs h
  step-HasSent s woken outs h = wake-HasSent s s.pc outs h
  step-HasSent s (given v) outs h = on_given-HasSent s s.pc v outs refl h
  step-HasSent s (coin c) outs h = on_coin-HasSent s s.pc c outs h

  -- Whatever happens to a party in whatever order: EST(r, v) has been broadcast once if
  -- `est_sent[r][v]` is set and never if it is not, and `decide` was called with the one value of
  -- `already_decided`, or not at all if that is None.
  pub run-HasSent : (events : List Event) → HasSent (run p init events).0 (run p init events).1
  run-HasSent events =
      run_keeps p HasSent (λ e. Unit) (λ s e outs _. step-HasSent s e outs) events init []
        (AllOf-any events) (record { ests = λ q w. refl; decisions = refl; fresh = refl })
