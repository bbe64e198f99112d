-- ===== src/Dispersal/Recast.antt =====
-- dumbomvba/core/rebroadcast.py: `recastsubprotocol`.
pub mod Locked
pub mod Gathered
mod Tests
use dumbo_ucy.Shared.{
  ℕ, ◌+◌, Bool, true, false, not, Option, none, some, List, [], ◌∷◌, ◌++◌, ◌==◌, nat_comparable,
  bytes_comparable, ltb, leb, if◌then◌else◌, get_or, set, replicate,
}
use dumbo_ucy.Shared.Dict.{Dict, get_or_default, put, assign}
use dumbo_ucy.Shared.Loop.{Turn, next, done, fail}
use dumbo_ucy.Rbc.Merkle.{Bytes, merkle_tree, merkle_verify}
use dumbo_ucy.Rbc.Coding.{encode, decode}
use dumbo_ucy.Rbc.Coding.RoundTrip.{present}
use dumbo_ucy.Rbc.Handler.{is_true}
use dumbo_ucy.Dispersal.{Params, Store}

pub data Msg (Sid Sig : Type 0) : Type 0 where
  rclock : Sid → Bytes → Sig → Msg Sid Sig
  rcstore : Sid → Store → Msg Sid Sig

pub record State : Type 0 where
  pub rclocksend : Bool
  pub rcstorerec : ℕ → ℕ
  pub commit : Dict Bytes (List (Option Bytes))

abbrev pub init : State
init = record { rclocksend = false; rcstorerec = λ i. 0; commit = [] }

module _ {Sid Digest Share Sig : Type 0} (p : Params Sid Digest Share Sig) where
  -- The result `none` is `return 0`; what is sent is broadcast.
  abbrev pub Step : Type 0
  Step = Turn State (Msg Sid Sig) (Option Bytes)

  abbrev pub commit_of : State → Bytes → List (Option Bytes)
  commit_of s root = get_or_default s.commit (replicate p.n none) root

  -- What is broadcast first; `none` is the empty tuple.
  unfoldable pub own_lock : Option (Bytes × Sig) → List (Msg Sid Sig)
  own_lock none = []
  own_lock (some (root, sigma1)) = rclock p.sid root sigma1 ∷ []

  unfoldable pub own_store : Option Store → List (Msg Sid Sig)
  own_store none = []
  own_store (some store) = rcstore p.sid store ∷ []

  unfoldable pub start : Option Store → Option (Bytes × Sig) → List (Msg Sid Sig)
  start store lock = own_lock lock ++ own_store store

  -- `merkleTree(encode(K, N, v))[1]`, from the inside out; `none` is an exception.
  unfoldable pub top_of : Option (List Bytes) → Option Bytes
  top_of none = none
  top_of (some mt) = some (get_or mt 1 [])

  unfoldable pub root_of : Option (List Bytes) → Option Bytes
  root_of none = none
  root_of (some stripes) = top_of (merkle_tree p.hash stripes)

  unfoldable pub encoded_root : Bytes → Option Bytes
  encoded_root v = root_of (encode p.zfec_encode (p.f + 1) p.n v)

  unfoldable pub compare_root : List (Msg Sid Sig) → Bytes → Bytes → Option Bytes → Step
  compare_root outs root v none = fail outs
  compare_root outs root v (some r) = done outs (if r == root then some v else none)

  unfoldable pub check_value : List (Msg Sid Sig) → Bytes → Option Bytes → Step
  check_value outs root none = fail outs
  check_value outs root (some v) = compare_root outs root v (encoded_root v)

  unfoldable pub try_recast : State → List (Msg Sid Sig) → Bytes → Step
  try_recast s outs root =
      if leb (p.f + 1) (present (commit_of s root))
      then check_value outs root (decode p.zfec_decode (p.f + 1) p.n (commit_of s root))
      else next s outs

  unfoldable pub on_rclock : State → Sid → Bytes → Sig → Step
  on_rclock s sid root sigma1 =
      if p.verify_signature sigma1 (p.stored_hash sid root)
      then try_recast (record s { rclocksend = true })
          (if s.rclocksend then [] else rclock sid root sigma1 ∷ []) root
      else next s []

  -- The sender is the one that the message names; `rcstorerec[sender]` may be an IndexError.
  unfoldable pub on_rcstore : State → Store → Step
  on_rcstore s (root, sender, stripe, branch) =
      if ltb sender p.n
      then if not (s.rcstorerec sender == 0)
        then next s []
        else if is_true (merkle_verify p.hash p.n stripe root branch sender)
        then next
            (record s {
              rcstorerec = assign s.rcstorerec sender (s.rcstorerec sender + 1);
              commit = put s.commit root (set (commit_of s root) sender (some stripe));
            })
            []
        else next s []
      else fail []

  unfoldable pub handle : State → ℕ × Msg Sid Sig → Step
  handle s (from, rclock sid root sigma1) = on_rclock s sid root sigma1
  handle s (from, rcstore sid store) = on_rcstore s store
