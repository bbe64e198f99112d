-- ===== src/Aba/Defs.antt =====
-- honeybadgerbft/core/binaryagreement.py: the state that `binaryagreement` shares between its two
-- greenlets, and its messages.
use dumbo_ucy.Shared.{
  ℕ, Bool, true, false, Option, none, List, [], ◌==◌, nat_comparable, ◌&&◌, if◌then◌else◌,
}

-- The sets {0}, {1} and {0, 1}, also as the tuples (0,), (1,) and (0, 1).
pub data Values : Type 0 where
  only_zero only_one both : Values

abbrev pub same_values : Values → Values → Bool
same_values only_zero only_zero = true
same_values only_one only_one = true
same_values both both = true
same_values _ _ = false

-- A CONF message with any other tuple carries `none`.
pub data Msg : Type 0 where
  est : ℕ → ℕ → Msg
  aux : ℕ → ℕ → Msg
  conf : ℕ → Option Values → Msg

-- `broadcast(o)` and `decide(v)`
pub data Out : Type 0 where
  broadcast : Msg → Out
  decide : ℕ → Out

pub record Params : Type 0 where
  pub pid : ℕ
  pub n : ℕ
  pub f : ℕ

-- Where the main greenlet waits: for `input()`; for a value in `bin_values[r]`; for N - f AUX
-- messages; for N - f CONF messages; for the coin. `halted` is the end by an exception.
pub data Pc : Type 0 where
  at_input at_bin at_aux at_conf : Pc
  at_coin : Values → Pc
  quit : Pc
  halted : Pc

-- The tables go by round and value; a missing entry of a defaultdict is its default.
-- `receiving` is false once an exception has ended the greenlet `_recv`.
pub record State : Type 0 where
  pub est_values : ℕ → ℕ → List ℕ
  pub aux_values : ℕ → ℕ → List ℕ
  pub conf_values : ℕ → Values → List ℕ
  pub est_sent : ℕ → ℕ → Bool
  pub conf_sent : ℕ → Values → Bool
  pub bin_values : ℕ → ℕ → Bool
  pub receiving : Bool
  pub pc : Pc
  pub estimate : ℕ
  pub round : ℕ
  pub already_decided : Option ℕ

abbrev pub init : State
init = record {
  est_values = λ r v. [];
  aux_values = λ r v. [];
  conf_values = λ r v. [];
  est_sent = λ r v. false;
  conf_sent = λ r v. false;
  bin_values = λ r v. false;
  receiving = true;
  pc = at_input;
  estimate = 0;
  round = 0;
  already_decided = none;
}

-- table[r][v] = x
abbrev pub write {ℓ} : {A : Type ℓ} → (ℕ → ℕ → A) → ℕ → ℕ → A → ℕ → ℕ → A
write table r v x q w = if r == q && v == w then x else table q w

abbrev pub write_conf {ℓ} : {A : Type ℓ} → (ℕ → Values → A) → ℕ → Values → A → ℕ → Values → A
write_conf table r v x q w = if r == q && same_values v w then x else table q w
