-- ===== src/Broadcast/Strong.antt =====
-- speedmvba/core/spbc.py: `strongprovablebroadcast`, the start of an instance and one turn of its
-- receive loop. The threshold signatures are parameters.
pub mod Certified
pub mod Leader
mod Tests
use dumbo_ucy.Shared.{
  ℕ, ◌-◌, Bool, true, false, not, Option, none, some, List, [], ◌∷◌, ◌==◌, nat_comparable, ◌&&◌,
  if◌then◌else◌, length,
}
use dumbo_ucy.Shared.Dict.{Dict, put}
use dumbo_ucy.Shared.Loop.{Turn, next, done, fail}

-- The arguments of `strongprovablebroadcast`. `echo_hash m` and `final_hash m` are
-- `PK1.hash_message(str((sid, m, "ECHO")))` and the same with "FINAL"; `verify_share` and
-- `verify_signature` are false where the methods raise `AssertionError`. `has_output` is
-- `output is not None`, and `py_none` the value None.
pub record Params (Val Digest Share Sig : Type 0) : Type 0 where
  pub echo_hash : Val → Digest
  pub final_hash : Val → Digest
  pub sign : Digest → Share
  pub verify_share : Share → ℕ → Digest → Bool
  pub verify_signature : Sig → Digest → Bool
  pub combine_shares : Dict ℕ Share → Sig
  pub py_none : Val
  pub has_output : Bool
  pub pid : ℕ
  pub n : ℕ
  pub f : ℕ
  pub leader : ℕ

pub data Msg (Val Share Sig : Type 0) : Type 0 where
  spbc_send : Val → Msg Val Share Sig
  spbc_echo : Share → Msg Val Share Sig
  spbc_ready : Val → Sig → Msg Val Share Sig
  spbc_final : Share → Msg Val Share Sig
  spbc_done : Val → Sig → Msg Val Share Sig

-- What leaves an instance: `send(i, …)`, `broadcast(…)`, `output((sid, pid, m, sigmas))`, and each
-- use of the secret key.
pub data Out (Val Digest Share Sig : Type 0) : Type 0 where
  to : ℕ → Msg Val Share Sig → Out Val Digest Share Sig
  to_all : Msg Val Share Sig → Out Val Digest Share Sig
  output : Val → Sig → Out Val Digest Share Sig
  signs : Digest → Out Val Digest Share Sig

-- `digest2` is assigned before every use, so it is no part of the state between turns.
pub record State (Val Digest Share : Type 0) : Type 0 where
  pub m : Val
  pub digest1_from_leader : Option Digest
  pub echo_sent : Bool
  pub final_sent : Bool
  pub echo_sshares : Dict ℕ Share
  pub echo_sshares2 : Dict ℕ Share

module _ {Val Digest Share Sig : Type 0} (p : Params Val Digest Share Sig) where
  -- The locals, before the leader's part.
  unfoldable pub init : State Val Digest Share
  init = record {
    m = p.py_none;
    digest1_from_leader = none;
    echo_sent = false;
    final_sent = false;
    echo_sshares = [];
    echo_sshares2 = [];
  }

  -- The part under `if pid == leader`, with `m = input()`.
  unfoldable pub start : Val → State Val Digest Share × List (Out Val Digest Share Sig)
  unfolding init
  start m =
      if p.pid == p.leader
      then (
        record init {
          m = m;
          digest1_from_leader = some (p.echo_hash m);
          echo_sshares = put [] p.pid (p.sign (p.echo_hash m));
        },
        signs (p.echo_hash m) ∷ to_all (spbc_send m) ∷ [],
      )
      else (init, [])

  abbrev pub Step : Type 0
  Step = Turn (State Val Digest Share) (Out Val Digest Share Sig) (Val × Sig)

  -- `m` is assigned before the sender is looked at.
  unfoldable pub on_send : State Val Digest Share → ℕ → Val → Step
  on_send s j m =
      if not (j == p.leader)
      then next (record s { m = m }) []
      else next (record s { m = m; digest1_from_leader = some (p.echo_hash m) })
          (signs (p.echo_hash m) ∷ to p.leader (spbc_echo (p.sign (p.echo_hash m))) ∷ [])

  -- The ECHO branch after the `try` block.
  unfoldable pub accept_echo : State Val Digest Share → ℕ → Share → Step
  accept_echo s j sig1 =
      let sshares = put s.echo_sshares j sig1 in
      if length sshares == p.n - p.f && not s.echo_sent
      then next (record s { echo_sshares = sshares; echo_sent = true })
          (to_all (spbc_ready s.m (p.combine_shares sshares)) ∷ [])
      else next (record s { echo_sshares = sshares }) []

  -- With no digest the pairing raises an exception that is not caught.
  unfoldable pub check_echo : State Val Digest Share → ℕ → Share → Option Digest → Step
  check_echo s j sig1 none = fail []
  check_echo s j sig1 (some d) = if p.verify_share sig1 j d then accept_echo s j sig1 else next s []

  unfoldable pub on_echo : State Val Digest Share → ℕ → Share → Step
  on_echo s j sig1 =
      if not (p.pid == p.leader) then next s [] else check_echo s j sig1 s.digest1_from_leader

  unfoldable pub on_ready : State Val Digest Share → ℕ → Val → Sig → Step
  on_ready s j m sigmas =
      if not (j == p.leader)
      then next s []
      else if p.verify_signature sigmas (p.echo_hash m)
      then next (record s { m = m })
          (signs (p.final_hash m)
            ∷ to p.leader (spbc_final (p.sign (p.final_hash m)))
            ∷ (if p.has_output then output m sigmas ∷ [] else []))
      else next (record s { m = m }) []

  -- The FINAL branch after the `try` block.
  unfoldable pub accept_final : State Val Digest Share → ℕ → Share → Step
  accept_final s j sig2 =
      let sshares = put s.echo_sshares2 j sig2 in
      if length sshares == p.n - p.f && not s.final_sent
      then next (record s { echo_sshares2 = sshares; final_sent = true })
          (to_all (spbc_done s.m (p.combine_shares sshares)) ∷ [])
      else next (record s { echo_sshares2 = sshares }) []

  unfoldable pub on_final : State Val Digest Share → ℕ → Share → Step
  on_final s j sig2 =
      if not (p.pid == p.leader)
      then next s []
      else if p.verify_share sig2 j (p.final_hash s.m)
      then accept_final s j sig2
      else next s []

  unfoldable pub on_done : State Val Digest Share → ℕ → Val → Sig → Step
  on_done s j m sigmas2 =
      if not (j == p.leader)
      then next s []
      else if p.verify_signature sigmas2 (p.final_hash m)
      then done [] (m, sigmas2)
      else next (record s { m = m }) []

  -- One turn of `while True`, for the message that `receive()` returns.
  unfoldable pub handle : State Val Digest Share → ℕ × Msg Val Share Sig → Step
  handle s (j, spbc_send m) = on_send s j m
  handle s (j, spbc_echo sig1) = on_echo s j sig1
  handle s (j, spbc_ready m sigmas) = on_ready s j m sigmas
  handle s (j, spbc_final sig2) = on_final s j sig2
  handle s (j, spbc_done m sigmas2) = on_done s j m sigmas2
