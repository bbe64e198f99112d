-- ===== src/Broadcast/Consistent.antt =====
-- dumbobft/core/consistentbroadcast.py: `consistentbroadcast`, the start of an instance and one
-- turn of its receive loop. Values, digests and signatures are abstract; `hash((sid, m))` and the
-- ECDSA functions are parameters.
pub mod Signing
pub mod Agreement
pub mod OneSigner
pub mod Leader
mod Tests
use dumbo_ucy.Shared.{
  ℕ, zero, suc, ◌+◌, ◌-◌, Bool, true, false, not, Option, none, some, List, [], ◌∷◌, ◌++◌,
  Comparable, ◌==◌, nat_comparable, nat_beq, ltb, leb, ◌&&◌, ◌||◌, if◌then◌else◌, length, take,
}
use dumbo_ucy.Shared.Dict.{Dict, put, add}
use dumbo_ucy.Shared.Loop.{Turn, next, done, fail}

-- The arguments of `consistentbroadcast`. `digest m` is `hash((sid, m))`, `sign d` is
-- `ecdsa_sign(SK2, d)`, and `vrfy i d sig` is `ecdsa_vrfy(PK2s[i], d, sig)`.
pub record Params (Val Digest Sig : Type 0) : Type 0 where
  pub digest : Val → Digest
  pub sign : Digest → Sig
  pub vrfy : ℕ → Digest → Sig → Bool
  pub raises : Sig → Bool
  pub py_none : Val
  pub pid : ℕ
  pub n : ℕ
  pub f : ℕ
  pub leader : ℕ

pub data Msg (Val Sig : Type 0) : Type 0 where
  cbc_send : Val → Msg Val Sig
  cbc_echo : Sig → Msg Val Sig
  cbc_final : Val → List (ℕ × Sig) → Msg Val Sig

-- What leaves an instance: `send(i, …)`, `send(-1, …)` to all, and each use of the secret key.
pub data Out (Val Digest Sig : Type 0) : Type 0 where
  to : ℕ → Msg Val Sig → Out Val Digest Sig
  to_all : Msg Val Sig → Out Val Digest Sig
  signs : Digest → Out Val Digest Sig

pub record State (Val Digest Sig : Type 0) : Type 0 where
  pub m : Val
  pub digest_from_leader : Option Digest
  pub final_sent : Bool
  pub echo_sshares : Dict ℕ Sig

-- The outcome of a `try` block of assertions: `crash` is another exception.
pub data Verdict : Type 0 where
  good bad crash : Verdict

module _ {Val Digest Sig : Type 0} ⦃e : Comparable Sig⦄ (p : Params Val Digest Sig) where
  -- The locals, before the leader's part.
  unfoldable pub init : State Val Digest Sig
  init = record { m = p.py_none; digest_from_leader = none; final_sent = false; echo_sshares = [] }

  -- The part under `if pid == leader`, with `m = input()`.
  unfoldable pub start : Val → State Val Digest Sig × List (Out Val Digest Sig)
  unfolding init
  start m =
      if p.pid == p.leader
      then (
        record {
          m = m;
          digest_from_leader = some (p.digest m);
          final_sent = false;
          echo_sshares = put [] p.pid (p.sign (p.digest m));
        },
        signs (p.digest m) ∷ to_all (cbc_send m) ∷ [],
      )
      else (init, [])

  -- for (i, sig_i) in sigmas: assert ecdsa_vrfy(PK2s[i], digest, sig_i)
  unfoldable pub verify_all : Digest → List (ℕ × Sig) → Verdict
  verify_all d [] = good
  verify_all d ((i, sig) ∷ sigmas) =
      let rest = verify_all d sigmas in
      if ltb i p.n
      then if p.vrfy i d sig then rest else if p.raises sig then crash else bad
      else crash

  abbrev pub pair_beq : ℕ × Sig → ℕ × Sig → Bool
  pair_beq a b = a.0 == b.0 && a.1 == b.1

  -- set(sigmas): the pairs without repetition
  unfoldable pub has_pair : List (ℕ × Sig) → ℕ × Sig → Bool
  has_pair [] a = false
  has_pair (x ∷ xs) a = pair_beq x a || has_pair xs a

  unfoldable pub pair_set : List (ℕ × Sig) → List (ℕ × Sig)
  pair_set [] = []
  pair_set (x ∷ xs) = let rest = pair_set xs in if has_pair xs x then rest else x ∷ rest

  -- The assertions on a `CBC_FINAL` message.
  unfoldable pub check_final : Val → List (ℕ × Sig) → Verdict
  check_final m sigmas =
      if length sigmas == p.n - p.f && length (pair_set sigmas) == p.n - p.f
      then verify_all (p.digest m) sigmas
      else bad

  -- `m` is assigned before the sender is looked at.
  unfoldable pub on_send :
      State Val Digest Sig
      → ℕ
      → Val
      → Turn (State Val Digest Sig) (Out Val Digest Sig) (Val × List (ℕ × Sig))
  on_send s j m = elim s.digest_from_leader [
    | some d ↦ next s []
    | none ↦
        if not (j == p.leader)
        then next (record s { m = m }) []
        else next (record s { m = m; digest_from_leader = some (p.digest m) })
            (signs (p.digest m) ∷ to p.leader (cbc_echo (p.sign (p.digest m))) ∷ [])
  ]

  -- assert ecdsa_vrfy(PK2s[j], digestFromLeader, sig): `hash(None)` fails an assertion too
  unfoldable pub check_echo : State Val Digest Sig → ℕ → Sig → Verdict
  check_echo s j sig = elim s.digest_from_leader [
    | none ↦ if ltb j p.n then bad else crash
    | some d ↦
        if ltb j p.n
        then if p.vrfy j d sig then good else if p.raises sig then crash else bad
        else crash
  ]

  unfoldable pub accept_echo :
      State Val Digest Sig
      → ℕ
      → Sig
      → Turn (State Val Digest Sig) (Out Val Digest Sig) (Val × List (ℕ × Sig))
  accept_echo s j sig =
      let s' = record s { echo_sshares = put s.echo_sshares j sig } in
      if leb (p.n - p.f) (length s'.echo_sshares) && not s.final_sent
      then next (record s' { final_sent = true })
          (to_all (cbc_final s.m (take (p.n - p.f) s'.echo_sshares)) ∷ [])
      else next s' []

  -- What follows the `try` block of the ECHO branch.
  unfoldable pub checked_echo :
      State Val Digest Sig
      → ℕ
      → Sig
      → Verdict
      → Turn (State Val Digest Sig) (Out Val Digest Sig) (Val × List (ℕ × Sig))
  checked_echo s j sig good = accept_echo s j sig
  checked_echo s j sig bad = next s []
  checked_echo s j sig crash = fail []

  unfoldable pub on_echo :
      State Val Digest Sig
      → ℕ
      → Sig
      → Turn (State Val Digest Sig) (Out Val Digest Sig) (Val × List (ℕ × Sig))
  on_echo s j sig =
      if not (p.pid == p.leader) then next s [] else checked_echo s j sig (check_echo s j sig)

  -- What follows the `try` block of the FINAL branch.
  unfoldable pub checked_final :
      State Val Digest Sig
      → Val
      → List (ℕ × Sig)
      → Verdict
      → Turn (State Val Digest Sig) (Out Val Digest Sig) (Val × List (ℕ × Sig))
  checked_final s m sigmas good = done [] (m, sigmas)
  checked_final s m sigmas bad = next (record s { m = m }) []
  checked_final s m sigmas crash = fail []

  unfoldable pub on_final :
      State Val Digest Sig
      → ℕ
      → Val
      → List (ℕ × Sig)
      → Turn (State Val Digest Sig) (Out Val Digest Sig) (Val × List (ℕ × Sig))
  on_final s j m sigmas =
      if not (j == p.leader) then next s [] else checked_final s m sigmas (check_final m sigmas)

  -- One turn of `while True`, for the message that `receive()` returns.
  unfoldable pub handle :
      State Val Digest Sig
      → ℕ × Msg Val Sig
      → Turn (State Val Digest Sig) (Out Val Digest Sig) (Val × List (ℕ × Sig))
  handle s (j, cbc_send m) = on_send s j m
  handle s (j, cbc_echo sig) = on_echo s j sig
  handle s (j, cbc_final m sigmas) = on_final s j m sigmas
