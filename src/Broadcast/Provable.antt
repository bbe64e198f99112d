-- ===== src/Broadcast/Provable.antt =====
-- dumbobft/core/provablereliablebroadcast.py: reliable broadcast whose READY messages are signed.
-- Merkle trees, the coding and the tables are those of reliable broadcast; ECDSA and `hash` are
-- parameters.
pub mod Signing
use mathlib.Core.List.{append-nil}
use dumbo_ucy.Shared.{
  ℕ, ◌+◌, ◌-◌, ◌*◌, Bool, true, false, not, Option, none, some, List, [], ◌∷◌, ◌++◌, ◌==◌,
  nat_comparable, bytes_comparable, ltb, leb, ◌&&◌, ◌||◌, if◌then◌else◌, length, take, get_or,
}
use dumbo_ucy.Shared.Dict.{Dict, put, contains}
use dumbo_ucy.Shared.Loop.{Turn, next, done, fail}
use dumbo_ucy.Rbc.Merkle.{Bytes, merkle_tree, get_merkle_branch, merkle_verify}
use dumbo_ucy.Rbc.Coding.{encode}
use dumbo_ucy.Rbc.Handler

-- The arguments of `provablereliablebroadcast`: those of reliable broadcast, `digest r` for
-- `hash((sid, r))`, and the ECDSA functions with the party's keys: `vrfy`
-- is whether `ecdsa_vrfy` returns True, and `raises sig` whether it raises ValueError, for a
-- signature that cannot be parsed.
pub record Params (Digest Sig : Type 0) : Type 0 where
  pub rbc : Handler.Params
  pub digest : Bytes → Digest
  pub sign : Digest → Sig
  pub vrfy : ℕ → Digest → Sig → Bool
  pub raises : Sig → Bool

pub data Msg (Sig : Type 0) : Type 0 where
  val : Bytes → List Bytes → Bytes → Msg Sig
  echo : Bytes → List Bytes → Bytes → Msg Sig
  ready : Bytes → Sig → Msg Sig

-- `send(i, …)`, `send(-1, …)` to all, and each use of the secret key.
pub data Out (Digest Sig : Type 0) : Type 0 where
  to : ℕ → Msg Sig → Out Digest Sig
  to_all : Msg Sig → Out Digest Sig
  signs : Digest → Out Digest Sig

pub record State (Sig : Type 0) : Type 0 where
  pub rbc : Handler.State
  pub ready_sig_shares : Dict ℕ Sig

-- `(sid, roothash, sigmas)`
abbrev pub Proof : Type 0 → Type 0
Proof Sig = Bytes × List (ℕ × Sig)

module _ {Digest Sig : Type 0} (p : Params Digest Sig) where
  abbrev pub init : State Sig
  init = record { rbc = Handler.init; ready_sig_shares = [] }

  abbrev pub Step : Type 0
  Step = Turn (State Sig) (Out Digest Sig) (Bytes × Proof Sig)

  abbrev pub output_threshold : ℕ
  output_threshold = p.rbc.n - p.rbc.f

  -- The leader's loop `for i in range(N): send(i, ('VAL', …))`.
  unfoldable pub send_vals : ℕ → List Bytes → List Bytes → List (Out Digest Sig)
  send_vals i mt [] = []
  send_vals i mt (stripe ∷ stripes) =
      to i (val (get_or mt 1 []) (get_merkle_branch i mt) stripe) ∷ send_vals (i + 1) mt stripes

  -- What is sent before the loop, by the leader with input `m`; `none` is an exception.
  unfoldable pub start : Bytes → Option (List (Out Digest Sig))
  start m =
      if p.rbc.pid == p.rbc.leader
      then (elim (encode p.rbc.zfec_encode (Handler.recover_threshold p.rbc) p.rbc.n m) [
        | none ↦ none
        | some stripes ↦ elim (merkle_tree p.rbc.hash stripes) [
          | none ↦ none
          | some mt ↦ some (send_vals 0 mt stripes)
        ]
      ])
      else some []

  unfoldable pub on_val : State Sig → ℕ → Bytes → List Bytes → Bytes → Option Bytes → Step
  on_val s sender roothash branch stripe (some root) = next s []
  on_val s sender roothash branch stripe none =
      if not (sender == p.rbc.leader)
      then next s []
      else if Handler.is_true (merkle_verify p.rbc.hash p.rbc.n stripe roothash branch p.rbc.pid)
      then next (record s { rbc = record s.rbc { from_leader = some roothash } })
          (to_all (echo roothash branch stripe) ∷ [])
      else next s []

  -- if … and not readySent: sign and send READY
  unfoldable pub send_ready : Bool → State Sig → Bytes → State Sig × List (Out Digest Sig)
  send_ready enough s roothash =
      if enough && not s.rbc.ready_sent
      then (
        record s { rbc = record s.rbc { ready_sent = true } },
        signs (p.digest roothash) ∷ to_all (ready roothash (p.sign (p.digest roothash))) ∷ [],
      )
      else (s, [])

  unfoldable pub record_echo : State Sig → ℕ → Bytes → Bytes → State Sig
  record_echo s sender roothash stripe = record s {
    rbc = Handler.record_echo p.rbc s.rbc sender roothash stripe;
  }

  -- The ECHO branch, once `stripes[roothash][sender] is not None` is known; `none` is an
  -- IndexError.
  unfoldable pub check_echo : State Sig → ℕ → Bytes → List Bytes → Bytes → Option Bool → Step
  check_echo s sender roothash branch stripe none = fail []
  check_echo s sender roothash branch stripe (some known) =
      if known || contains s.rbc.echo_senders sender
      then next s []
      else if Handler.is_true (merkle_verify p.rbc.hash p.rbc.n stripe roothash branch sender)
      then (let s' = record_echo s sender roothash stripe in
          let enough = leb (Handler.echo_threshold p.rbc) (Handler.echoes p.rbc s'.rbc roothash) in
          let (s'', sent) = send_ready enough s' roothash in next s'' sent)
      else next s []

  unfoldable pub record_ready : State Sig → ℕ → Bytes → Sig → State Sig
  record_ready s sender roothash sig = record s {
    rbc = Handler.record_ready p.rbc s.rbc sender roothash;
    ready_sig_shares = put s.ready_sig_shares sender sig;
  }

  -- `return value, proof`; `none` is an exception in `decode_output`.
  unfoldable pub finish : State Sig → List (Out Digest Sig) → Bytes → Option Bytes → Step
  finish s sent roothash none = fail sent
  finish s sent roothash (some value) =
      done sent (value, (roothash, take output_threshold s.ready_sig_shares))

  unfoldable pub output : State Sig → List (Out Digest Sig) → Bytes → Step
  output s sent roothash =
      if leb output_threshold (length (Handler.readies_of p.rbc s.rbc roothash))
        && leb (Handler.recover_threshold p.rbc) (Handler.echoes p.rbc s.rbc roothash)
      then finish s sent roothash (Handler.decode_output p.rbc s.rbc roothash)
      else next s sent

  -- The READY branch after the `try` block.
  unfoldable pub accept_ready : State Sig → ℕ → Bytes → Sig → Step
  accept_ready s sender roothash sig =
      let s' = record_ready s sender roothash sig in
      let enough =
        leb (Handler.ready_threshold p.rbc) (length (Handler.readies_of p.rbc s'.rbc roothash)) in
      let (s'', sent) = send_ready enough s' roothash in output s'' sent roothash

  -- `PK2s[sender]` is an IndexError for a sender out of range.
  unfoldable pub on_ready : State Sig → ℕ → Bytes → Sig → Step
  on_ready s sender roothash sig =
      if contains (Handler.readies_of p.rbc s.rbc roothash) sender
        || contains s.rbc.ready_senders sender
      then next s []
      else if ltb sender p.rbc.n
      then (if p.vrfy sender (p.digest roothash) sig
          then accept_ready s sender roothash sig
          else if p.raises sig
          then fail []
          else next s [])
      else fail []

  -- One turn of `while True`, for the message that `receive()` returns.
  unfoldable pub handle : State Sig → ℕ × Msg Sig → Step
  handle s (sender, val roothash branch stripe) =
      on_val s sender roothash branch stripe s.rbc.from_leader
  handle s (sender, echo roothash branch stripe) =
      check_echo s sender roothash branch stripe (Handler.has_stripe p.rbc s.rbc roothash sender)
  handle s (sender, ready roothash sig) = on_ready s sender roothash sig
