-- ===== src/Aba/Conf/Run.antt =====
-- The CONF phase over the rounds of the main greenlet.
use mathlib.Core.List.{append-nil, append_assoc}
use mathlib.Core.Path.{subst, sym}
use dumbo_ucy.Shared.{
  on_if, ℕ, ◌+◌, ◌≤◌, ◌≡◌, refl, true, false, Option, none, some, List, [], ◌∷◌, ◌++◌, ◌==◌,
  nat_comparable, ltb, ◌&&◌, ◌||◌, length, arith, nat_beq_iff, Bool-cases, inl, inr,
}
use dumbo_ucy.Shared.Loop.{AllOf-any}
use dumbo_ucy.Aba.Defs.{
  Values, only_zero, only_one, both, est, conf, Out, broadcast, Params, Pc, at_input, at_bin,
  at_aux, at_conf, at_coin, quit, halted, State, init, write,
}
use dumbo_ucy.Aba.Rounds.{
  begin_round, take_input, wake_bin, bin_tuple, enter_conf, aux_ready, wake_aux, conf_ready,
  wake_conf, wake, agree_on, NewEstimate, estimated, abandoned, finish_round, set_new_estimate,
  take_coin, Event, got, woken, given, coin, on_given, on_coin, step, run,
}
use dumbo_ucy.Aba.Steps.{After, run_keeps}
use dumbo_ucy.Aba.Conf.{confs, confs-append, AtPc, HasConf, Holds, AtPc-more, stays, heard-HasConf}
use dumbo_ucy.Aba.Conf.Hearing.{receive-Hears}

module _ (p : Params) where
  -- The greenlet waits on.
  idle :
      (s : State) (pc : Pc) (outs : List Out)
      → s.pc ≡ pc
      → HasConf p pc s outs
      → After (Holds p) outs (s, [])
  idle s pc outs e h =
      subst (λ pc'. HasConf p pc' s (outs ++ [])) (sym e)
        (stays p s s pc pc outs [] h.place refl refl (λ q. refl) h)

  begin_round-HasConf :
      (s : State) (outs : List Out)
      → ((q : ℕ) (v : Values) → s.round ≤ q → s.conf_sent q v ≡ false)
      → ((q : ℕ) → s.round ≤ q → confs q outs ≡ [])
      → ((q : ℕ) → length (confs q outs) ≤ 1)
      → After (Holds p) outs (begin_round s)
  unfolding begin_round
  begin_round-HasConf s outs unsent silent once =
      let h : HasConf p at_bin s outs = record {
        place = tt;
        unsent = unsent;
        silent = silent;
        once = once;
      } in
      on_if (After (Holds p) outs) (s.est_sent s.round s.estimate)
        (λ c. stays p s (record s { pc = at_bin }) at_bin at_bin outs [] tt refl refl (λ q. refl) h)
        (λ c.
          stays p s (record s { est_sent = write s.est_sent s.round s.estimate true; pc = at_bin })
            at_bin at_bin outs (broadcast (est s.round s.estimate) ∷ []) tt refl refl (λ q. refl) h)

  on_given-HasConf :
      (s : State) (pc : Pc) (v : ℕ) (outs : List Out)
      → s.pc ≡ pc
      → HasConf p pc s outs
      → After (Holds p) outs (on_given pc s v)
  unfolding on_given take_input
  on_given-HasConf s at_input v outs e h =
      on_if (After (Holds p) outs) (ltb v 2)
        (λ c.
          begin_round-HasConf (record s { estimate = v; round = 0; already_decided = none }) outs
            (rw h.place at h.unsent) (rw h.place at h.silent) h.once)
        (λ c.
          stays p s (record s { pc = halted }) at_input halted outs [] tt refl refl (λ q. refl) h)
  on_given-HasConf s at_bin v outs e h = idle s at_bin outs e h
  on_given-HasConf s at_aux v outs e h = idle s at_aux outs e h
  on_given-HasConf s at_conf v outs e h = idle s at_conf outs e h
  on_given-HasConf s (at_coin values) v outs e h = idle s (at_coin values) outs e h
  on_given-HasConf s quit v outs e h = idle s quit outs e h
  on_given-HasConf s halted v outs e h = idle s halted outs e h

  enter_conf-HasConf :
      (s : State) (values : Values) (outs : List Out)
      → HasConf p at_aux s outs
      → After (Holds p) outs (enter_conf s values)
  unfolding enter_conf
  enter_conf-HasConf s values outs h =
      on_if (After (Holds p) outs) (s.conf_sent s.round values)
        (λ c. absurd (ground (arith, h.unsent s.round values)))
        (λ c. record {
          place = tt;
          unsent = λ q v late. ground (arith, h.unsent q v, nat_beq_iff s.round q);
          silent = λ q late.
              rw
                (
                  confs-append q outs (broadcast (conf s.round (bin_tuple s)) ∷ []),
                  h.silent q (omega arith),
                )
                (ground (arith, nat_beq_iff s.round q));
          once = λ q.
              rw (confs-append q outs (broadcast (conf s.round (bin_tuple s)) ∷ []))
                (elim (Bool-cases (s.round == q)) [
                  | inl now ↦
                      let e : s.round ≡ q = ground (arith, nat_beq_iff s.round q) in
                      rw (now, h.silent q (omega arith)) (omega arith)
                  | inr other ↦ rw (other, append-nil) (h.once q)
                ]);
        })

  conf_ready-AtPc :
      (s : State) (values : Values) → conf_ready p s ≡ some values → AtPc p (at_coin values) s
  unfolding conf_ready
  conf_ready-AtPc s only_zero e = ground arith
  conf_ready-AtPc s only_one e = ground arith
  conf_ready-AtPc s both e = tt

  wake-HasConf :
      (s : State) (pc : Pc) (outs : List Out)
      → s.pc ≡ pc
      → HasConf p pc s outs
      → After (Holds p) outs (wake p pc s)
  unfolding wake wake_bin wake_aux wake_conf
  wake-HasConf s at_bin outs e h =
      on_if (After (Holds p) outs) (s.bin_values s.round 0 || s.bin_values s.round 1)
        (λ c. stays p s (record s { pc = at_aux }) at_bin at_aux outs _ tt refl refl (λ q. refl) h)
        (λ c. idle s at_bin outs e h)
  wake-HasConf s at_aux outs e h = aux_case (aux_ready p s)
    where
      aux_case :
          (found : Option Values)
          → After (Holds p) outs (elim found [ none ↦ (s, []) | some values ↦ enter_conf s values ])
      aux_case none = idle s at_aux outs e h
      aux_case (some values) = enter_conf-HasConf s values outs h
  wake-HasConf s at_conf outs e h = conf_case (conf_ready p s) refl
    where
      conf_case :
          (found : Option Values)
          → conf_ready p s ≡ found
          → After
              (Holds p)
              outs
              (elim found [ none ↦ (s, []) | some values ↦ (record s { pc = at_coin values }, []) ])
      conf_case none c = idle s at_conf outs e h
      conf_case (some values) c =
          stays p s (record s { pc = at_coin values }) at_conf (at_coin values) outs []
            (AtPc-more p s _ (at_coin values) refl (λ r v. omega arith)
              (conf_ready-AtPc s values c))
            refl refl (λ q. refl) h
  wake-HasConf s at_input outs e h = idle s at_input outs e h
  wake-HasConf s (at_coin values) outs e h = idle s (at_coin values) outs e h
  wake-HasConf s quit outs e h = idle s quit outs e h
  wake-HasConf s halted outs e h = idle s halted outs e h

  -- A decision is no CONF message.
  abbrev SaysNoConf : NewEstimate → Type 0
  SaysNoConf (estimated v d o) = (q : ℕ) → confs q o ≡ []
  SaysNoConf abandoned = Unit

  agree_on_quiet : (v c : ℕ) (old : Option ℕ) → SaysNoConf (agree_on v c old)
  unfolding agree_on
  agree_on_quiet v c none = on_if SaysNoConf (v == c) (λ e. λ q. refl) (λ e. λ q. refl)
  agree_on_quiet v c (some d) = on_if SaysNoConf (v == c && d == v) (λ e. tt) (λ e. λ q. refl)

  set_new_estimate_quiet :
      (values : Values) (c : ℕ) (old : Option ℕ) → SaysNoConf (set_new_estimate values c old)
  unfolding set_new_estimate
  set_new_estimate_quiet only_zero c old = agree_on_quiet 0 c old
  set_new_estimate_quiet only_one c old = agree_on_quiet 1 c old
  set_new_estimate_quiet both c old = λ q. refl

  finish_round-HasConf :
      (s : State) (values : Values) (new : NewEstimate) (outs : List Out)
      → SaysNoConf new
      → HasConf p (at_coin values) s outs
      → After (Holds p) outs (finish_round s new)
  unfolding finish_round
  finish_round-HasConf s values abandoned outs quiet h =
      stays p s (record s { pc = quit; receiving = false }) (at_coin values) quit outs [] tt refl
        refl (λ q. refl) h
  finish_round-HasConf s values (estimated v d o) outs quiet h =
      let s' = record s { estimate = v; already_decided = d; round = s.round + 1 } in
      rw (← append_assoc outs o (begin_round s').1) (
        begin_round-HasConf s' (outs ++ o) h.unsent
          (λ q late. rw (confs-append q outs o, quiet q, append-nil) (h.silent q late))
          (λ q. rw (confs-append q outs o, quiet q, append-nil) (h.once q)))

  on_coin-HasConf :
      (s : State) (pc : Pc) (c : ℕ) (outs : List Out)
      → s.pc ≡ pc
      → HasConf p pc s outs
      → After (Holds p) outs (on_coin pc s c)
  unfolding on_coin take_coin
  on_coin-HasConf s (at_coin values) c outs e h =
      finish_round-HasConf s values (set_new_estimate values c s.already_decided) outs
        (set_new_estimate_quiet values c s.already_decided) h
  on_coin-HasConf s at_input c outs e h = idle s at_input outs e h
  on_coin-HasConf s at_bin c outs e h = idle s at_bin outs e h
  on_coin-HasConf s at_aux c outs e h = idle s at_aux outs e h
  on_coin-HasConf s at_conf c outs e h = idle s at_conf outs e h
  on_coin-HasConf s quit c outs e h = idle s quit outs e h
  on_coin-HasConf s halted c outs e h = idle s halted outs e h

  step-HasConf :
      (s : State) (e : Event) (outs : List Out)
      → (Holds p) s outs
      → After (Holds p) outs (step p s e)
  unfolding step
  step-HasConf s (got i m) outs h = heard-HasConf p s _ outs (receive-Hears p s i m) h
  step-HasConf s woken outs h = wake-HasConf s s.pc outs refl h
  step-HasConf s (given v) outs h = on_given-HasConf s s.pc v outs refl h
  step-HasConf s (coin c) outs h = on_coin-HasConf s s.pc c outs refl h

  pub run-HasConf :
      (events : List Event)
      → HasConf p (run p init events).0.pc (run p init events).0 (run p init events).1
  run-HasConf events =
      run_keeps p (Holds p) (λ e. Unit) (λ s e outs _. step-HasConf s e outs) events init []
        (AllOf-any events)
        (record {
          place = refl;
          unsent = λ q v late. refl;
          silent = λ q late. refl;
          once = λ q. omega arith;
        })
