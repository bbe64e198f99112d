-- ===== src/Broadcast/Certificate.antt =====
-- speedydumbobft/core/provablebroadcast.py: `provablebroadcast`, the start of an instance and one
-- turn of its receive loop. ECDSA and `hash` are parameters.
mod Accepted
mod Tests
use dumbo_ucy.Shared.{
  ℕ, ◌-◌, Bool, true, false, not, Option, none, some, List, [], ◌∷◌, ◌==◌, nat_comparable, ltb, leb,
  if◌then◌else◌, length, take,
}
use dumbo_ucy.Shared.Dict.{Dict, put}
use dumbo_ucy.Shared.Loop.{Turn, next, done, fail}

-- The arguments of `provablebroadcast`. `hash m` is `hash(m)`, `digest h` is `hash((sid, h))`,
-- `vrfy i d sig` is whether `ecdsa_vrfy(PK2s[i], d, sig)` returns True, and `raises sig` is whether
-- it raises ValueError, for a signature that cannot be parsed.
pub record Params (Val Hash Digest Sig : Type 0) : Type 0 where
  pub hash : Val → Hash
  pub digest : Hash → Digest
  pub sign : Digest → Sig
  pub vrfy : ℕ → Digest → Sig → Bool
  pub raises : Sig → Bool
  pub pid : ℕ
  pub n : ℕ
  pub f : ℕ
  pub leader : ℕ

pub data Msg (Val Sig : Type 0) : Type 0 where
  pb_send : Val → Msg Val Sig
  pb_echo : Sig → Msg Val Sig

-- `send(i, …)`, `send(-2, …)`, and the call of `value_output`.
pub data Out (Val Sig : Type 0) : Type 0 where
  to : ℕ → Msg Val Sig → Out Val Sig
  to_others : Msg Val Sig → Out Val Sig
  value_output : Val → Out Val Sig

-- `m` is the leader's input, and None elsewhere, where it is never read.
pub record State (Val Digest Sig : Type 0) : Type 0 where
  pub digest_from_leader : Option Digest
  pub echo_sshares : Dict ℕ Sig
  pub m : Option Val

module _ {Val Hash Digest Sig : Type 0} (p : Params Val Hash Digest Sig) where
  abbrev pub init : State Val Digest Sig
  init = record { digest_from_leader = none; echo_sshares = []; m = none }

  -- The part under `if pid == leader`, with `m = input()`.
  unfoldable pub start : Val → State Val Digest Sig × List (Out Val Sig)
  start m =
      if p.pid == p.leader
      then (
        record {
          digest_from_leader = some (p.digest (p.hash m));
          echo_sshares = put [] p.pid (p.sign (p.digest (p.hash m)));
          m = some m;
        },
        value_output m ∷ to_others (pb_send m) ∷ [],
      )
      else (init, [])

  -- The proof without the sid.
  abbrev pub Step : Type 0
  Step = Turn (State Val Digest Sig) (Out Val Sig) (Hash × List (ℕ × Sig))

  unfoldable pub on_send : State Val Digest Sig → ℕ → Val → Option Digest → Step
  on_send s j v (some d) = next s []
  on_send s j v none =
      if not (j == p.leader)
      then next s []
      else next (record s { digest_from_leader = some (p.digest (p.hash v)) })
          (to p.leader (pb_echo (p.sign (p.digest (p.hash v))))
            ∷ (if p.pid == p.leader then [] else value_output v ∷ []))

  -- `return sid, hash(m), sigmas`
  unfoldable pub finish : List (ℕ × Sig) → Option Val → Step
  finish sigmas none = fail []
  finish sigmas (some m) = done [] (p.hash m, sigmas)

  -- The ECHO branch after the `try` block.
  unfoldable pub accept_echo : State Val Digest Sig → ℕ → Sig → Step
  accept_echo s j sig =
      let sshares = put s.echo_sshares j sig in
      if leb (p.n - p.f) (length sshares)
      then finish (take (p.n - p.f) sshares) s.m
      else next (record s { echo_sshares = sshares }) []

  -- `PK2s[j]` is an IndexError for a sender out of range; without a digest the assertion fails.
  unfoldable pub check_echo : State Val Digest Sig → ℕ → Sig → Option Digest → Step
  check_echo s j sig none = if ltb j p.n then next s [] else fail []
  check_echo s j sig (some d) =
      if ltb j p.n
      then (if p.vrfy j d sig
          then accept_echo s j sig
          else if p.raises sig
          then fail []
          else next s [])
      else fail []

  unfoldable pub on_echo : State Val Digest Sig → ℕ → Sig → Step
  on_echo s j sig =
      if not (p.pid == p.leader) then next s [] else check_echo s j sig s.digest_from_leader

  -- One turn of `while True`, for the message that `recv()` returns.
  unfoldable pub handle : State Val Digest Sig → ℕ × Msg Val Sig → Step
  handle s (j, pb_send v) = on_send s j v s.digest_from_leader
  handle s (j, pb_echo sig) = on_echo s j sig
