-- ===== src/Aba/Main.antt =====
-- What the main greenlet leaves alone: the tables that the receiving greenlet fills.
use dumbo_ucy.Shared.{
  on_if, ℕ, ◌+◌, ◌≡◌, refl, true, false, Option, none, some, List, [], nat_comparable, ltb, ◌||◌,
  arith,
}
use dumbo_ucy.Shared.Dict.{contains}
use dumbo_ucy.Shared.Loop.{AllOf}
use dumbo_ucy.Aba.Defs.{
  Values, Msg, Out, Params, Pc, at_input, at_bin, at_aux, at_conf, at_coin, quit, halted, State,
  init,
}
use dumbo_ucy.Aba.Rounds.{
  begin_round, take_input, wake_bin, enter_conf, aux_ready, wake_aux, conf_ready, wake_conf, wake,
  NewEstimate, estimated, abandoned, finish_round, set_new_estimate, take_coin, Event, got, woken,
  given, coin, on_given, on_coin, step, run,
}
use dumbo_ucy.Aba.Senders.{Senders}
use dumbo_ucy.Aba.Received.{HasReceived, receive-HasReceived}
use dumbo_ucy.Aba.Steps.{run_keeps}

pub record Keeps (s s' : State) : Type 0 where
  pub est_values : s'.est_values ≡ s.est_values
  pub aux_values : s'.aux_values ≡ s.aux_values
  pub conf_values : s'.conf_values ≡ s.conf_values
  pub bin_values : s'.bin_values ≡ s.bin_values
  pub est_sent : (q w : ℕ) → s.est_sent q w ≡ true → s'.est_sent q w ≡ true
  pub receiving : s.receiving ≡ false → s'.receiving ≡ false

abbrev same : (s : State) → Keeps s s
same s = record {
  est_values = refl;
  aux_values = refl;
  conf_values = refl;
  bin_values = refl;
  est_sent = λ q w e. e;
  receiving = λ e. e;
}

abbrev KeptBy : State → State × List Out → Type 0
KeptBy s o = Keeps s o.0

untouched :
    (s s' : State)
    → s'.est_values ≡ s.est_values
    → s'.aux_values ≡ s.aux_values
    → s'.conf_values ≡ s.conf_values
    → s'.bin_values ≡ s.bin_values
    → s'.est_sent ≡ s.est_sent
    → (s.receiving ≡ false → s'.receiving ≡ false)
    → Keeps s s'
untouched s s' e a c b m r = record {
  est_values = e;
  aux_values = a;
  conf_values = c;
  bin_values = b;
  est_sent = λ q w h. rw m h;
  receiving = r;
}

-- A round begins after assignments that leave the tables alone.
begin_round-Keeps : (s t : State) → Keeps s t → KeptBy s (begin_round t)
unfolding begin_round
begin_round-Keeps s t k =
    on_if (KeptBy s) (t.est_sent t.round t.estimate)
      (λ c. record {
        est_values = k.est_values;
        aux_values = k.aux_values;
        conf_values = k.conf_values;
        bin_values = k.bin_values;
        est_sent = k.est_sent;
        receiving = k.receiving;
      })
      (λ c. record {
        est_values = k.est_values;
        aux_values = k.aux_values;
        conf_values = k.conf_values;
        bin_values = k.bin_values;
        est_sent = λ q w e. ground (arith, k.est_sent q w e);
        receiving = k.receiving;
      })

on_given-Keeps : (s : State) (pc : Pc) (v : ℕ) → KeptBy s (on_given pc s v)
unfolding on_given take_input
on_given-Keeps s at_input v =
    on_if (KeptBy s) (ltb v 2)
      (λ c.
        let t = record s { estimate = v; round = 0; already_decided = none } in
        begin_round-Keeps s t (untouched s t refl refl refl refl refl (λ e. e)))
      (λ c. untouched s _ refl refl refl refl refl (λ e. e))
on_given-Keeps s at_bin v = same s
on_given-Keeps s at_aux v = same s
on_given-Keeps s at_conf v = same s
on_given-Keeps s (at_coin values) v = same s
on_given-Keeps s quit v = same s
on_given-Keeps s halted v = same s

enter_conf-Keeps : (s : State) (values : Values) → KeptBy s (enter_conf s values)
unfolding enter_conf
enter_conf-Keeps s values =
    on_if (KeptBy s) (s.conf_sent s.round values)
      (λ c. untouched s _ refl refl refl refl refl (λ e. e))
      (λ c. untouched s _ refl refl refl refl refl (λ e. e))

finish_round-Keeps : (s : State) (new : NewEstimate) → KeptBy s (finish_round s new)
unfolding finish_round
finish_round-Keeps s abandoned = untouched s _ refl refl refl refl refl (λ e. refl)
finish_round-Keeps s (estimated v d o) =
    let t = record s { estimate = v; already_decided = d; round = s.round + 1 } in
    begin_round-Keeps s t (untouched s t refl refl refl refl refl (λ e. e))

on_coin-Keeps : (s : State) (pc : Pc) (c : ℕ) → KeptBy s (on_coin pc s c)
unfolding on_coin take_coin
on_coin-Keeps s (at_coin values) c =
    finish_round-Keeps s (set_new_estimate values c s.already_decided)
on_coin-Keeps s at_input c = same s
on_coin-Keeps s at_bin c = same s
on_coin-Keeps s at_aux c = same s
on_coin-Keeps s at_conf c = same s
on_coin-Keeps s quit c = same s
on_coin-Keeps s halted c = same s

module _ (p : Params) where
  wake-Keeps : (s : State) (pc : Pc) → KeptBy s (wake p pc s)
  unfolding wake wake_bin wake_aux wake_conf
  wake-Keeps s at_bin =
      on_if (KeptBy s) (s.bin_values s.round 0 || s.bin_values s.round 1)
        (λ c. untouched s _ refl refl refl refl refl (λ e. e)) (λ c. same s)
  wake-Keeps s at_aux = aux_case (aux_ready p s)
    where
      aux_case :
          (found : Option Values)
          → KeptBy s (elim found [ none ↦ (s, []) | some values ↦ enter_conf s values ])
      aux_case none = same s
      aux_case (some values) = enter_conf-Keeps s values
  wake-Keeps s at_conf = conf_case (conf_ready p s)
    where
      conf_case :
          (found : Option Values)
          → KeptBy s
              (elim found [ none ↦ (s, []) | some values ↦ (record s { pc = at_coin values }, []) ])
      conf_case none = same s
      conf_case (some values) = untouched s _ refl refl refl refl refl (λ e. e)
  wake-Keeps s at_input = same s
  wake-Keeps s (at_coin values) = same s
  wake-Keeps s quit = same s
  wake-Keeps s halted = same s

  -- A step without a message.
  abbrev pub IsMain : Event → Type 0
  IsMain (got i m) = ⊥
  IsMain woken = Unit
  IsMain (given v) = Unit
  IsMain (coin c) = Unit

  pub main-Keeps : (s : State) (e : Event) → IsMain e → KeptBy s (step p s e)
  unfolding step
  main-Keeps s (got i m) main = absurd main
  main-Keeps s woken main = wake-Keeps s s.pc
  main-Keeps s (given v) main = on_given-Keeps s s.pc v
  main-Keeps s (coin c) main = on_coin-Keeps s s.pc c

module _ (p : Params) (Rec : ℕ → Msg → Type 0) where
  -- The messages that arrive are all in `Rec`.
  abbrev pub Arrives : Event → Type 0
  Arrives (got i m) = Rec i m
  Arrives woken = Unit
  Arrives (given v) = Unit
  Arrives (coin c) = Unit

  kept-HasReceived : (s s' : State) → Keeps s s' → HasReceived p Rec s → HasReceived p Rec s'
  kept-HasReceived s s' k h = record {
    senders = record {
      ests = rw k.est_values h.senders.ests;
      auxs = rw k.aux_values h.senders.auxs;
      confs = rw k.conf_values h.senders.confs;
    };
    outputs = rw (k.bin_values, k.est_values) h.outputs;
    relays = rw k.est_values (λ q w m. k.est_sent q w (h.relays q w m));
  }

  pub step-HasReceived :
      (s : State) (e : Event) → Arrives e → HasReceived p Rec s → HasReceived p Rec (step p s e).0
  unfolding step
  step-HasReceived s (got i m) a h = receive-HasReceived p Rec s i m a h
  step-HasReceived s woken a h = kept-HasReceived s _ (main-Keeps p s woken tt) h
  step-HasReceived s (given v) a h = kept-HasReceived s _ (main-Keeps p s (given v) tt) h
  step-HasReceived s (coin c) a h = kept-HasReceived s _ (main-Keeps p s (coin c) tt) h

  pub init-HasReceived : HasReceived p Rec init
  unfolding contains
  init-HasReceived = record {
    senders = record { ests = λ r v. nobody; auxs = λ r v. nobody; confs = λ r v. nobody };
    outputs = λ q w. ground arith;
    relays = λ q w m. absurd (omega arith);
  }
    where
      nobody : {R : ℕ → Type 0} → Senders p.n R []
      nobody = record { distinct = tt; below = tt; sent = λ i m. absurd (ground arith) }

  -- In every state that a party reaches, each set of senders is without repetition, its members are
  -- parties, and each sent the message the set is for; a value is in `bin_values[r]` exactly when
  -- `est_values[r]` has at least 2f + 1 senders for it; and `est_sent[r]` is set for every value
  -- that has at least f + 1.
  pub run-HasReceived :
      (events : List Event) → AllOf Arrives events → HasReceived p Rec (run p init events).0
  run-HasReceived events a =
      run_keeps p (λ s outs. HasReceived p Rec s) Arrives
        (λ s e outs a' h. step-HasReceived s e a' h) events init [] a init-HasReceived
