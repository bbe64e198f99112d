-- ===== src/Aba/Conf.antt =====
-- The CONF phase of one party: one CONF message a round, and what it has when it asks for the coin.
mod Hearing
pub mod Run
use mathlib.Core.List.{append-nil, append_assoc}
use mathlib.Core.Path.{subst, sym}
use dumbo_ucy.Shared.{
  ℕ, ◌+◌, ◌-◌, ◌*◌, ◌≤◌, ◌≡◌, refl, true, false, not, Option, none, some, List, [], ◌∷◌, ◌++◌, ◌==◌,
  nat_comparable, ltb, leb, ◌&&◌, ◌||◌, if◌then◌else◌, length, arith, ap, ◌∙◌, nat_beq_iff,
  Bool-cases, inl, inr,
}
use dumbo_ucy.Shared.Dict.{contains, add, length-add}
use dumbo_ucy.Shared.Loop.{AllOf-any}
use dumbo_ucy.Aba.Defs.{
  Values, only_zero, only_one, both, Msg, est, aux, conf, Out, broadcast, decide, Params, Pc,
  at_input, at_bin, at_aux, at_conf, at_coin, quit, halted, State, init, write,
}
use dumbo_ucy.Aba.Receive.{die, relay, output_bin, on_est, on_aux, on_conf, dispatch, receive}
use dumbo_ucy.Aba.Rounds.{
  begin_round, take_input, wake_bin, bin_tuple, enter_conf, aux_ready, wake_aux, conf_ready,
  wake_conf, wake, agree_on, NewEstimate, estimated, abandoned, finish_round, set_new_estimate,
  take_coin, Event, got, woken, given, coin, on_given, on_coin, step, run,
}
use dumbo_ucy.Aba.Senders.{write_conf_each}
use dumbo_ucy.Aba.Steps.{After, run_keeps}

-- The tuples that were broadcast in CONF messages of round q.
abbrev pub confs : ℕ → List Out → List (Option Values)
confs q [] = []
confs q (broadcast (est r v) ∷ outs) = confs q outs
confs q (broadcast (aux r v) ∷ outs) = confs q outs
confs q (broadcast (conf r v) ∷ outs) = let rest = confs q outs in if r == q then v ∷ rest else rest
confs q (decide v ∷ outs) = confs q outs

confs-append : (q : ℕ) (xs ys : List Out) → confs q (xs ++ ys) ≡ confs q xs ++ confs q ys
confs-append q [] ys = refl
confs-append q (broadcast (est r v) ∷ xs) ys = confs-append q xs ys
confs-append q (broadcast (aux r v) ∷ xs) ys = confs-append q xs ys
confs-append q (broadcast (conf r v) ∷ xs) ys = ground (arith, confs-append q xs ys)
confs-append q (decide v ∷ xs) ys = confs-append q xs ys

-- The first round whose CONF phase has not begun.
abbrev next_conf : Pc → ℕ → ℕ
next_conf at_input r = r
next_conf at_bin r = r
next_conf at_aux r = r
next_conf at_conf r = r + 1
next_conf (at_coin values) r = r + 1
next_conf quit r = r + 1
next_conf halted r = r

module _ (p : Params) where
  -- What holds where the main greenlet waits: at the coin with a single value, N - f parties have
  -- sent CONF for just that value.
  abbrev pub AtPc : Pc → State → Type 0
  AtPc at_input s = s.round ≡ 0
  AtPc at_bin s = Unit
  AtPc at_aux s = Unit
  AtPc at_conf s = Unit
  AtPc (at_coin only_zero) s = p.n - p.f ≤ length (s.conf_values s.round only_zero)
  AtPc (at_coin only_one) s = p.n - p.f ≤ length (s.conf_values s.round only_one)
  AtPc (at_coin both) s = Unit
  AtPc quit s = Unit
  AtPc halted s = Unit

  pub record HasConf (pc : Pc) (s : State) (outs : List Out) : Type 0 where
    pub place : AtPc pc s
    pub unsent : (q : ℕ) (v : Values) → next_conf pc s.round ≤ q → s.conf_sent q v ≡ false
    pub silent : (q : ℕ) → next_conf pc s.round ≤ q → confs q outs ≡ []
    pub once : (q : ℕ) → length (confs q outs) ≤ 1

  abbrev Holds : State → List Out → Type 0
  Holds s outs = HasConf s.pc s outs

  -- What a step of the receiving greenlet leaves to the main one.
  record Hears (s : State) (o : State × List Out) : Type 0 where
    pc : o.0.pc ≡ s.pc
    round : o.0.round ≡ s.round
    conf_sent : o.0.conf_sent ≡ s.conf_sent
    more : (r : ℕ) (v : Values) → length (s.conf_values r v) ≤ length (o.0.conf_values r v)
    quiet : (q : ℕ) → confs q o.1 ≡ []

  AtPc-more :
      (s s' : State) (pc : Pc)
      → s'.round ≡ s.round
      → ((r : ℕ) (v : Values) → length (s.conf_values r v) ≤ length (s'.conf_values r v))
      → AtPc pc s
      → AtPc pc s'
  AtPc-more s s' at_input e m h = e ∙ h
  AtPc-more s s' at_bin e m h = tt
  AtPc-more s s' at_aux e m h = tt
  AtPc-more s s' at_conf e m h = tt
  AtPc-more s s' (at_coin only_zero) e m h = rw e (omega (arith, m s.round only_zero))
  AtPc-more s s' (at_coin only_one) e m h = rw e (omega (arith, m s.round only_one))
  AtPc-more s s' (at_coin both) e m h = tt
  AtPc-more s s' quit e m h = tt
  AtPc-more s s' halted e m h = tt

  -- Steps that send no CONF and move to a place with the same bound.
  stays :
      (s s' : State) (pc pc' : Pc) (outs o : List Out)
      → AtPc pc' s'
      → next_conf pc' s'.round ≡ next_conf pc s.round
      → s'.conf_sent ≡ s.conf_sent
      → ((q : ℕ) → confs q o ≡ [])
      → HasConf pc s outs
      → HasConf pc' s' (outs ++ o)
  stays s s' pc pc' outs o at b c quiet h = record {
    place = at;
    unsent = λ q v. rw (b, c) (h.unsent q v);
    silent = λ q. rw (b, confs-append q outs o, quiet q, append-nil) (h.silent q);
    once = λ q. rw (confs-append q outs o, quiet q, append-nil) (h.once q);
  }

  heard-HasConf :
      (s : State) (o : State × List Out) (outs : List Out)
      → Hears s o
      → Holds s outs
      → After Holds outs o
  heard-HasConf s o outs k h =
      subst (λ pc. HasConf pc o.0 (outs ++ o.1)) (sym k.pc)
        (stays s o.0 s.pc s.pc outs o.1 (AtPc-more s o.0 s.pc k.round k.more h.place)
          (ap (next_conf s.pc) k.round) k.conf_sent k.quiet h)
