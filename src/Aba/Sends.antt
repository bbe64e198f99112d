-- ===== src/Aba/Sends.antt =====
-- EST messages and decisions of one party: each at most once.
pub mod Run
use mathlib.Core.List.{append-nil, append_assoc}
use dumbo_ucy.Shared.{
  on_if, ℕ, ◌+◌, ◌*◌, ◌≡◌, refl, true, false, not, Option, none, some, List, [], ◌∷◌, ◌++◌, ◌==◌,
  nat_comparable, ltb, leb, ◌&&◌, ◌||◌, if◌then◌else◌, length, arith, ap, ◌∙◌, nat_beq_iff,
}
use mathlib.Core.Path.{subst}
use dumbo_ucy.Shared.Dict.{contains, add}
use dumbo_ucy.Shared.Loop.{AllOf-any}
use dumbo_ucy.Aba.Defs.{
  Values, only_zero, only_one, both, Msg, est, aux, conf, Out, broadcast, decide, Params, Pc,
  at_input, at_bin, at_aux, at_conf, at_coin, quit, halted, State, init, write,
}
use dumbo_ucy.Aba.Receive.{die, relay, output_bin, on_est, on_aux, on_conf, dispatch, receive}
use dumbo_ucy.Aba.Rounds.{
  begin_round, take_input, wake_bin, enter_conf, aux_ready, wake_aux, conf_ready, wake_conf, wake,
  agree_on, NewEstimate, estimated, abandoned, finish_round, set_new_estimate, take_coin, Event,
  got, woken, given, coin, on_given, on_coin, step, run,
}
use dumbo_ucy.Aba.Steps.{After, run_keeps}

-- How often EST(q, w) was broadcast.
abbrev pub est_count : ℕ → ℕ → List Out → ℕ
est_count q w [] = 0
est_count q w (broadcast (est r v) ∷ outs) =
    (if r == q && v == w then 1 else 0) + est_count q w outs
est_count q w (broadcast (aux r v) ∷ outs) = est_count q w outs
est_count q w (broadcast (conf r v) ∷ outs) = est_count q w outs
est_count q w (decide v ∷ outs) = est_count q w outs

est_count-append :
    (q w : ℕ) (xs ys : List Out) → est_count q w (xs ++ ys) ≡ est_count q w xs + est_count q w ys
est_count-append q w [] ys = omega arith
est_count-append q w (broadcast (est r v) ∷ xs) ys = omega (arith, est_count-append q w xs ys)
est_count-append q w (broadcast (aux r v) ∷ xs) ys = est_count-append q w xs ys
est_count-append q w (broadcast (conf r v) ∷ xs) ys = est_count-append q w xs ys
est_count-append q w (decide v ∷ xs) ys = est_count-append q w xs ys

-- The values that `decide` was called with, in order.
abbrev pub decided : List Out → List ℕ
decided [] = []
decided (broadcast m ∷ outs) = decided outs
decided (decide v ∷ outs) = v ∷ decided outs

pub decided-append : (xs ys : List Out) → decided (xs ++ ys) ≡ decided xs ++ decided ys
decided-append [] ys = refl
decided-append (broadcast m ∷ xs) ys = decided-append xs ys
decided-append (decide v ∷ xs) ys = ap (λ l. v ∷ l) (decided-append xs ys)

abbrev pub option_list : Option ℕ → List ℕ
option_list none = []
option_list (some v) = v ∷ []

-- `already_decided` is set afresh when the input arrives.
abbrev pub Fresh : Pc → Option ℕ → Type 0
Fresh at_input d = d ≡ none
Fresh at_bin d = Unit
Fresh at_aux d = Unit
Fresh at_conf d = Unit
Fresh (at_coin values) d = Unit
Fresh quit d = Unit
Fresh halted d = Unit

pub record HasSent (s : State) (outs : List Out) : Type 0 where
  pub ests : (q w : ℕ) → est_count q w outs ≡ (if s.est_sent q w then 1 else 0)
  pub decisions : decided outs ≡ option_list s.already_decided
  pub fresh : Fresh s.pc s.already_decided

-- A message that is no EST leaves the bookkeeping as it is.
quiet :
    (s s' : State) (outs o : List Out)
    → ((q w : ℕ) → est_count q w o ≡ 0)
    → decided o ≡ []
    → s'.est_sent ≡ s.est_sent
    → s'.already_decided ≡ s.already_decided
    → Fresh s'.pc s'.already_decided
    → HasSent s outs
    → HasSent s' (outs ++ o)
quiet s s' outs o no_est no_decision same_ests same_decision now h = record {
  ests = λ q w. rw same_ests (omega (arith, est_count-append q w outs o, no_est q w, h.ests q w));
  decisions = rw (decided-append outs o, no_decision, append-nil, same_decision) h.decisions;
  fresh = now;
}

-- `est_sent[r][v] = True; broadcast(('EST', r, v))`
marked :
    (s : State) (outs : List Out) (r v : ℕ)
    → s.est_sent r v ≡ false
    → HasSent s outs
    → HasSent (record s { est_sent = write s.est_sent r v true }) (outs ++ broadcast (est r v) ∷ [])
marked s outs r v new h = record {
  ests = λ q w. ground (
    arith,
    est_count-append q w outs (broadcast (est r v) ∷ []),
    nat_beq_iff r q,
    nat_beq_iff v w,
    h.ests q w,
  );
  decisions = rw (decided-append outs (broadcast (est r v) ∷ []), append-nil) h.decisions;
  fresh = h.fresh;
}

die-HasSent : (s : State) (outs : List Out) → HasSent s outs → After HasSent outs (die s)
die-HasSent s outs h = quiet s _ outs [] (λ q w. refl) refl refl refl h.fresh h

still : (s : State) (outs : List Out) → HasSent s outs → HasSent s (outs ++ [])
still s outs h = quiet s s outs [] (λ q w. refl) refl refl refl h.fresh h

module _ (p : Params) where
  relay-HasSent :
      (s : State) (r v : ℕ) (outs : List Out) → HasSent s outs → After HasSent outs (relay p s r v)
  unfolding relay
  relay-HasSent s r v outs h =
      on_if (After HasSent outs) (leb (p.f + 1) (length (s.est_values r v)) && not (s.est_sent r v))
        (λ c. marked s outs r v (ground arith) h)
        (λ c. quiet s s outs [] (λ q w. refl) refl refl refl h.fresh h)

  output_bin-HasSent :
      (s : State) (r v : ℕ) (outs : List Out) → HasSent s outs → HasSent (output_bin p s r v) outs
  unfolding output_bin
  output_bin-HasSent s r v outs h =
      on_if (λ s'. HasSent s' outs) (leb (2 * p.f + 1) (length (s.est_values r v)))
        (λ c. record { ests = h.ests; decisions = h.decisions; fresh = h.fresh }) (λ c. h)

  dispatch-HasSent :
      (s : State) (i : ℕ) (m : Msg) (outs : List Out)
      → HasSent s outs
      → After HasSent outs (dispatch p s i m)
  unfolding dispatch on_est on_aux on_conf
  dispatch-HasSent s i (est r v) outs h =
      on_if (After HasSent outs) (not (ltb v 2)) (λ c. die-HasSent s outs h)
        (λ c.
          on_if (After HasSent outs) (contains (s.est_values r v) i) (λ c'. still s outs h)
            (λ c'. output_bin-HasSent _ r v _ (
              relay-HasSent
                (record s { est_values = write s.est_values r v (add (s.est_values r v) i) }) r v
                outs (record { ests = h.ests; decisions = h.decisions; fresh = h.fresh }))))
  dispatch-HasSent s i (aux r v) outs h =
      on_if (After HasSent outs) (not (ltb v 2)) (λ c. die-HasSent s outs h)
        (λ c.
          on_if (After HasSent outs) (contains (s.aux_values r v) i) (λ c'. die-HasSent s outs h)
            (λ c'. quiet s _ outs [] (λ q w. refl) refl refl refl h.fresh h))
  dispatch-HasSent s i (conf r none) outs h = die-HasSent s outs h
  dispatch-HasSent s i (conf r (some v)) outs h =
      on_if (After HasSent outs) (contains (s.conf_values r v) i) (λ c'. die-HasSent s outs h)
        (λ c'. quiet s _ outs [] (λ q w. refl) refl refl refl h.fresh h)

  receive-HasSent :
      (s : State) (i : ℕ) (m : Msg) (outs : List Out)
      → HasSent s outs
      → After HasSent outs (receive p s i m)
  unfolding receive
  receive-HasSent s i m outs h =
      on_if (After HasSent outs) (not s.receiving) (λ c. still s outs h)
        (λ c.
          on_if (After HasSent outs) (ltb i p.n) (λ c'. dispatch-HasSent s i m outs h)
            (λ c'. die-HasSent s outs h))
