-- ===== src/Dispersal/Disperse.antt =====
-- dumbomvba/core/provabledispersal.py: `provabledispersalbroadcast`. Its variable `stop` is 0
-- throughout; the sets of senders that nothing reads are left out.
pub mod Outputs
pub mod Invariant
mod Tests
use dumbo_ucy.Shared.{
  ℕ, suc, ◌+◌, ◌-◌, ◌*◌, Bool, true, false, not, ◌&&◌, Option, none, some, List, [], ◌∷◌, ◌==◌,
  nat_comparable, bytes_comparable, ltb, leb, if◌then◌else◌, length, take, get_or,
}
use dumbo_ucy.Shared.Dict.{Dict, get_or_default, put, add, assign}
use dumbo_ucy.Shared.Loop.{Turn, next, done, fail}
use dumbo_ucy.Rbc.Merkle.{Bytes, merkle_tree, merkle_verify, get_merkle_branch}
use dumbo_ucy.Rbc.Coding.{encode}
use dumbo_ucy.Rbc.Handler.{is_true}
use dumbo_ucy.Dispersal.{Params, Store}

pub data Msg (Sid Share Sig : Type 0) : Type 0 where
  store_msg : Sid → Bytes → Bytes → List Bytes → Msg Sid Share Sig
  stored : Sid → Share → Msg Sid Share Sig
  lock_msg : Sid → Bytes → Sig → Msg Sid Share Sig
  locked : Sid → Share → Msg Sid Share Sig

-- `send(i, m)`, `broadcast(m)` and `output((tag, …, sid, pid))`
pub data Out (Sid Share Sig : Type 0) : Type 0 where
  to : ℕ → Msg Sid Share Sig → Out Sid Share Sig
  to_all : Msg Sid Share Sig → Out Sid Share Sig
  put_store : Store → Sid → Out Sid Share Sig
  put_lock : Bytes → Sig → Sid → Out Sid Share Sig
  put_done : Bytes → Sig → Sid → Out Sid Share Sig

-- `roothash` is the variable that a STORE or a LOCK from anyone writes, before its sender is looked
-- at.
pub record State (Share Sig : Type 0) : Type 0 where
  pub roothash : Bytes
  pub recstorefromleader : ℕ
  pub recstored : ℕ → ℕ
  pub reclockfromleader : ℕ
  pub reclocked : ℕ → ℕ
  pub stored_by : Dict Bytes (List ℕ)
  pub stored_sig_shares : Dict ℕ Share
  pub locked_by : Dict Bytes (List ℕ)
  pub locked_sig_shares : Dict ℕ Share
  pub lock_sent : Bool
  pub done_sent : Bool
  pub store : Option Store
  pub lock : Option (Bytes × Sig)

abbrev pub is_some {ℓ} : {A : Type ℓ} → Option A → Bool
is_some none = false
is_some (some a) = true

module _ {Sid Digest Share Sig : Type 0} (p : Params Sid Digest Share Sig) where
  abbrev pub Step : Type 0
  Step = Turn (State Share Sig) (Out Sid Share Sig) ℕ

  -- `roothash` before the first message, at the leader that of its own value
  abbrev pub init : Bytes → State Share Sig
  init root = record {
    roothash = root;
    recstorefromleader = 0;
    recstored = λ i. 0;
    reclockfromleader = 0;
    reclocked = λ i. 0;
    stored_by = [];
    stored_sig_shares = [];
    locked_by = [];
    locked_sig_shares = [];
    lock_sent = false;
    done_sent = false;
    store = none;
    lock = none;
  }

  -- The leader's loop over `range(N)`.
  unfoldable pub send_stores : ℕ → List Bytes → List Bytes → List (Out Sid Share Sig)
  send_stores i mt [] = []
  send_stores i mt (stripe ∷ stripes) =
      to i (store_msg p.sid (get_or mt 1 []) stripe (get_merkle_branch i mt))
      ∷ send_stores (i + 1) mt stripes

  -- What the leader sends for its input, and the root hash; `none` is an exception.
  unfoldable pub disperse : Bytes → Option (State Share Sig × List (Out Sid Share Sig))
  disperse m = elim (encode p.zfec_encode (p.n - 2 * p.f) p.n m) [
    | none ↦ none
    | some stripes ↦ elim (merkle_tree p.hash stripes) [
      | none ↦ none
      | some mt ↦ some (init (get_or mt 1 []), send_stores 0 mt stripes)
    ]
  ]

  -- The assertions and the leader's part; for the others `roothash` is not bound yet, nor read.
  unfoldable pub start : Bytes → Option (State Share Sig × List (Out Sid Share Sig))
  start m =
      if leb (3 * p.f + 1) p.n && (ltb p.leader p.n && ltb p.pid p.n)
      then (if p.pid == p.leader then disperse m else some (init [], []))
      else none

  -- `if pid != leader and other: return 1`
  unfoldable pub end_with : State Share Sig → List (Out Sid Share Sig) → Bool → Step
  end_with s outs other = if not (p.pid == p.leader) && other then done outs 1 else next s outs

  unfoldable pub on_store : State Share Sig → ℕ → Sid → Bytes → Bytes → List Bytes → Step
  on_store s sender sid root stripe branch =
      let s' = record s { roothash = root } in
      if not (sender == p.leader)
      then next s' []
      else if not (s.recstorefromleader == 0)
      then next s' []
      else if is_true (merkle_verify p.hash p.n stripe root branch p.pid)
      then end_with
          (record s' {
            store = some (root, p.pid, stripe, branch);
            recstorefromleader = s.recstorefromleader + 1;
          })
          (put_store (root, p.pid, stripe, branch) sid
            ∷ to p.leader (stored sid (p.sign (p.stored_hash sid root)))
            ∷ [])
          (is_some s.lock)
      else next s' []

  -- `if len(stored[roothash]) >= SignThreshold and LOCKSEND == False`
  unfoldable pub try_lock : State Share Sig → Sid → Step
  try_lock s sid =
      if leb (2 * p.f + 1) (length (get_or_default s.stored_by [] s.roothash)) && not s.lock_sent
      then next (record s { lock_sent = true })
          (to_all
              (lock_msg sid s.roothash (p.combine_shares (take (p.n - p.f) s.stored_sig_shares)))
            ∷ [])
      else next s []

  -- `recstored[sender]` of a sender out of range is an IndexError.
  unfoldable pub on_stored : State Share Sig → ℕ → Sid → Share → Step
  on_stored s sender sid sigma =
      if not (p.pid == p.leader)
      then next s []
      else if not (ltb sender p.n)
      then fail []
      else if not (s.recstored sender == 0)
      then next s []
      else if p.verify_share sigma sender (p.stored_hash sid s.roothash)
      then try_lock
          (record s {
            recstored = assign s.recstored sender (s.recstored sender + 1);
            stored_by =
                put s.stored_by s.roothash (add (get_or_default s.stored_by [] s.roothash) sender);
            stored_sig_shares = put s.stored_sig_shares sender sigma;
          })
          sid
      else next s []

  unfoldable pub on_lock : State Share Sig → ℕ → Sid → Bytes → Sig → Step
  on_lock s sender sid root sigma1 =
      let s' = record s { roothash = root } in
      if not (sender == p.leader)
      then next s' []
      else if not (s.reclockfromleader == 0)
      then next s' []
      else if p.verify_signature sigma1 (p.stored_hash sid root)
      then end_with
          (record s' { lock = some (root, sigma1); reclockfromleader = s.reclockfromleader + 1 })
          (put_lock root sigma1 sid
            ∷ to p.leader (locked sid (p.sign (p.locked_hash sid root)))
            ∷ [])
          (is_some s.store)
      else next s' []

  -- `if len(locked[roothash]) >= SignThreshold and DONESEND == False`
  unfoldable pub try_done : State Share Sig → Sid → Step
  try_done s sid =
      if leb (2 * p.f + 1) (length (get_or_default s.locked_by [] s.roothash)) && not s.done_sent
      then done
          (put_done s.roothash (p.combine_shares (take (p.n - p.f) s.locked_sig_shares)) sid ∷ []) 1
      else next s []

  unfoldable pub on_locked : State Share Sig → ℕ → Sid → Share → Step
  on_locked s sender sid sigma2 =
      if not (p.pid == p.leader)
      then next s []
      else if not (ltb sender p.n)
      then fail []
      else if not (s.reclocked sender == 0)
      then next s []
      else if p.verify_share sigma2 sender (p.locked_hash sid s.roothash)
      then try_done
          (record s {
            reclocked = assign s.reclocked sender (s.reclocked sender + 1);
            locked_by =
                put s.locked_by s.roothash (add (get_or_default s.locked_by [] s.roothash) sender);
            locked_sig_shares = put s.locked_sig_shares sender sigma2;
          })
          sid
      else next s []

  unfoldable pub handle : State Share Sig → ℕ × Msg Sid Share Sig → Step
  handle s (sender, store_msg sid root stripe branch) = on_store s sender sid root stripe branch
  handle s (sender, stored sid sigma) = on_stored s sender sid sigma
  handle s (sender, lock_msg sid root sigma1) = on_lock s sender sid root sigma1
  handle s (sender, locked sid sigma2) = on_locked s sender sid sigma2
