-- ===== src/Mule/TwoValue.antt =====
-- mulebft/core/twovalueagreement.py: the state of one `twovalueagreement` call. The common coin is a
-- parameter; integers that are values or rounds are natural numbers.
pub mod Receive
pub mod Rounds
pub mod Phases
pub mod Finish
pub mod Refinement
pub mod Forged
mod Tests
use dumbo_ucy.Shared.{
  ℕ, ◌/◌, ◌%◌, ◌^◌, Bool, false, true, Option, none, some, List, [], ltb, ◌==◌, nat_comparable,
  if◌then◌else◌,
}

-- `fixed_coin r` is the coin of the rounds that call no common coin. `order` is the order in which
-- a set, given by its elements in the order of their insertion, is iterated: Python leaves it open.
pub record Params : Type 0 where
  pub pid : ℕ
  pub n : ℕ
  pub f : ℕ
  pub fixed_coin : ℕ → Option ℕ
  pub order : List ℕ → List ℕ

-- `(cheap_coins >> r) & 1`, in the rounds below 10
abbrev pub cheap_coin : ℕ → ℕ → Option ℕ
cheap_coin cheap_coins r = if ltb r 10 then some ((cheap_coins / 2 ^ r) % 2) else none

-- dumbobft/core/haltingtwovalueagreement.py is the same program, but for the coin of round 0.
abbrev pub first_coin : ℕ → Option ℕ
first_coin r = if r == 0 then some 1 else none

-- The payload of FINISH is its third component.
pub data Msg : Type 0 where
  est : ℕ → ℕ → Msg
  aux : ℕ → ℕ → Msg
  conf : ℕ → List ℕ → Msg
  finish : ℕ → Msg

-- `send(-2, m)` and `decide(v)`
pub data Out : Type 0 where
  to_others : Msg → Out
  decide : ℕ → Out

-- Where the main greenlet waits: for its input, for a value, for AUX and CONF messages, for the
-- coin; or it has ended by an exception or with the call.
pub data Pc : Type 0 where
  at_input at_bin at_aux at_conf at_coin ended : Pc

-- `values` is the set that the main greenlet took; `receiving` is false once `recv` has ended;
-- `finish_signal` is whether that event is set.
pub record State : Type 0 where
  pub est_values : ℕ → ℕ → List ℕ
  pub aux_values : ℕ → ℕ → List ℕ
  pub conf_values : ℕ → List ℕ → List ℕ
  pub est_sent : ℕ → ℕ → Bool
  pub conf_sent : ℕ → List ℕ → Bool
  pub int_values : ℕ → List ℕ
  pub finish_sent : Bool
  pub finish_value : List ℕ
  pub finish_cnt : ℕ
  pub finish_signal : Bool
  pub round : ℕ
  pub values : List ℕ
  pub receiving : Bool
  pub pc : Pc

abbrev pub init : State
init = record {
  est_values = λ r v. [];
  aux_values = λ r v. [];
  conf_values = λ r v. [];
  est_sent = λ r v. false;
  conf_sent = λ r v. false;
  int_values = λ r. [];
  finish_sent = false;
  finish_value = [];
  finish_cnt = 0;
  finish_signal = false;
  round = 0;
  values = [];
  receiving = true;
  pc = at_input;
}

-- What happens: a message arrives, `input()` or `coin(r)` returns, the main greenlet looks again at
-- what it waits for, the call returns.
pub data Event : Type 0 where
  got : ℕ → Msg → Event
  given : ℕ → Event
  wake : Event
  coin : ℕ → Event
  returns : Event

abbrev pub Result : Type 0
Result = State × List Out
