-- ===== src/Aba/Halt.antt =====
-- An exception in the receiving greenlet is final.
use dumbo_ucy.Shared.{
  ℕ, ◌≡◌, ◌⊎◌, refl, true, false, none, some, List, [], nat_comparable, arith, ltb, ◌∙◌,
}
use dumbo_ucy.Shared.Dict.{contains}
use dumbo_ucy.Shared.Loop.{AllOf-any}
use dumbo_ucy.Aba.Defs.{Msg, est, aux, conf, Params, State}
use dumbo_ucy.Aba.Receive.{on_est, on_aux, on_conf, dispatch, receive}
use dumbo_ucy.Aba.Rounds.{Event, got, woken, given, coin, step, run}
use dumbo_ucy.Aba.Main.{Keeps, main-Keeps}
use dumbo_ucy.Aba.Steps.{run_keeps}

-- What a message makes `_recv` raise on, in a given state: a sender or a value out of range, an AUX
-- or a CONF that the sender has sent before.
abbrev pub Raises : Params → State → ℕ → Msg → Type 0
Raises p s i (est r v) = (ltb i p.n ≡ false) ⊎ (ltb v 2 ≡ false)
Raises p s i (aux r v) =
    (ltb i p.n ≡ false) ⊎ ((ltb v 2 ≡ false) ⊎ (contains (s.aux_values r v) i ≡ true))
Raises p s i (conf r none) = Unit
Raises p s i (conf r (some v)) = (ltb i p.n ≡ false) ⊎ (contains (s.conf_values r v) i ≡ true)

-- Dead, with the tables of the state `d`.
pub record IsDead (d s : State) : Type 0 where
  pub receiving : s.receiving ≡ false
  pub est_values : s.est_values ≡ d.est_values
  pub aux_values : s.aux_values ≡ d.aux_values
  pub conf_values : s.conf_values ≡ d.conf_values
  pub bin_values : s.bin_values ≡ d.bin_values

module _ (p : Params) where
  raised :
      (s : State) (i : ℕ) (m : Msg)
      → s.receiving ≡ true
      → Raises p s i m
      → IsDead s (receive p s i m).0
  unfolding receive dispatch on_est on_aux on_conf
  raised s i (est r v) alive e = ground arith
  raised s i (aux r v) alive e = ground arith
  raised s i (conf r none) alive e = ground arith
  raised s i (conf r (some v)) alive e = ground arith

  kept-IsDead : (d s s' : State) → Keeps s s' → IsDead d s → IsDead d s'
  kept-IsDead d s s' k h = record {
    receiving = k.receiving h.receiving;
    est_values = k.est_values ∙ h.est_values;
    aux_values = k.aux_values ∙ h.aux_values;
    conf_values = k.conf_values ∙ h.conf_values;
    bin_values = k.bin_values ∙ h.bin_values;
  }

  deaf : (s : State) (i : ℕ) (m : Msg) → s.receiving ≡ false → receive p s i m ≡ (s, [])
  unfolding receive
  deaf s i m e = rw e refl

  pub step-IsDead : (d s : State) (e : Event) → IsDead d s → IsDead d (step p s e).0
  unfolding step
  step-IsDead d s (got i m) h = rw (deaf s i m h.receiving) h
  step-IsDead d s woken h = kept-IsDead d s _ (main-Keeps p s woken tt) h
  step-IsDead d s (given v) h = kept-IsDead d s _ (main-Keeps p s (given v) tt) h
  step-IsDead d s (coin c) h = kept-IsDead d s _ (main-Keeps p s (coin c) tt) h

  -- When a message makes the receiving greenlet raise (a sender or a value out of range, an AUX or
  -- a CONF for the second time), the greenlet has ended: the message is not recorded, and whatever
  -- happens afterwards, no message is recorded and no value is output any more.
  pub raise-IsDead :
      (s : State) (i : ℕ) (m : Msg) (events : List Event)
      → s.receiving ≡ true
      → Raises p s i m
      → IsDead s (run p (receive p s i m).0 events).0
  raise-IsDead s i m events alive e =
      run_keeps p (λ s' outs. IsDead s s') (λ a. Unit) (λ s' a outs ok h. step-IsDead s s' a h)
        events (receive p s i m).0 [] (AllOf-any events) (raised s i m alive e)
