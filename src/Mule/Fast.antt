-- ===== src/Mule/Fast.antt =====
-- mulebft/core/fastpath.py: `fastpath`, one epoch of the optimistic path. Threshold signatures,
-- ECDSA and the hash of a block are parameters.
pub mod Receive
pub mod Slots
pub mod Quiet
pub mod Chain
pub mod Ballot
pub mod Certified
pub mod Stale
mod Tests
use dumbo_ucy.Shared.{ℕ, Bool, true, false, Option, none, some, List, [], ◌∷◌}
use dumbo_ucy.Shared.Dict.{Dict}

-- The arguments of `fastpath`. `verify_share s i h` is `PK1.verify_share(s, i, PK1.hash_message(h))`,
-- and so for the others; `hash_batches` is `hash(signed_batches)` and `hash_header slot h b` is
-- `hash((sid, slot, h, b))`. `slots` is SLOTS_NUM,
-- `raises m` is whether `ecdsa_vrfy` raises ValueError, for a signature that cannot be parsed, and
-- `count_dummy slot h b` is `str((sid, slot, h, b)).count("Dummy TX")`.
pub record Params (Hash Share Sig Batch Mark : Type 0) : Type 0 where
  pub sign : Hash → Share
  pub verify_share : Share → ℕ → Hash → Bool
  pub combine_shares : Dict ℕ Share → Sig
  pub verify_signature : Sig → Hash → Bool
  pub ecdsa_sign : Batch → Mark
  pub ecdsa_vrfy : ℕ → Batch → Mark → Bool
  pub raises : Mark → Bool
  pub count_dummy : ℕ → Hash → List (ℕ × (Batch × Mark)) → ℕ
  pub hash_batches : List (ℕ × (Batch × Mark)) → Hash
  pub hash_header : ℕ → Hash → Hash → Hash
  pub hash_genesis : Hash
  pub dummy : Batch
  pub slots : ℕ
  pub pid : ℕ
  pub n : ℕ
  pub f : ℕ
  pub leader : ℕ

pub data Msg (Hash Share Sig Batch Mark : Type 0) : Type 0 where
  vote : ℕ → Hash → Share → Batch → Mark → Msg Hash Share Sig Batch Mark
  decide : ℕ → Hash → Sig → List (ℕ × (Batch × Mark)) → Msg Hash Share Sig Batch Mark

-- `(sid, slot, h, signature, signed_batches)`
pub record Block (Hash Sig Batch Mark : Type 0) : Type 0 where
  pub slot : ℕ
  pub parent : Hash
  pub signature : Sig
  pub batches : List (ℕ × (Batch × Mark))

-- `put_output` gets the block without its signature; the model keeps it.
pub data Out (Hash Share Sig Batch Mark : Type 0) : Type 0 where
  to : ℕ → Msg Hash Share Sig Batch Mark → Out Hash Share Sig Batch Mark
  to_others : Msg Hash Share Sig Batch Mark → Out Hash Share Sig Batch Mark
  put_output : Block Hash Sig Batch Mark → Out Hash Share Sig Batch Mark

-- Where the main greenlet is: at the head of its loop, in `decides[slot_cur].get()`, past the loop,
-- or out of the call by an exception.
pub data Pc : Type 0 where
  at_head at_get ended raised : Pc

-- Whether it is still in its loop.
unfoldable pub in_loop : Pc → Bool
in_loop at_head = true
in_loop at_get = true
in_loop ended = false
in_loop raised = false

-- `decides` holds the content of the queues of size 1; `receiving` is false once an exception has
-- ended `handle_messages`; `noncritical` is whether `msg_noncritical_signal` is set while another
-- greenlet runs.
pub record State (Hash Share Sig Batch Mark : Type 0) : Type 0 where
  pub voters : ℕ → List ℕ
  pub votes : ℕ → Dict ℕ Share
  pub batches : ℕ → Dict ℕ (Batch × Mark)
  pub decides : ℕ → Option (Hash × Sig × List (ℕ × (Batch × Mark)))
  pub decide_sent : ℕ → Bool
  pub slot_cur : ℕ
  pub hash_prev : Hash
  pub pending_block : Option (Block Hash Sig Batch Mark)
  pub notraized_block : Option (Block Hash Sig Batch Mark)
  pub txcnt : ℕ → ℕ
  pub epoch_txcnt : ℕ
  pub receiving : Bool
  pub noncritical : Bool
  pub pc : Pc

-- What happens: a message arrives; the main greenlet goes on at the head of its loop or at its wait;
-- the first timer of the slot fires, the receiver is killed and the loop goes on; or the second timer
-- fires, which leaves the loop. That the second fires while the receiver is killed is one event after
-- the other.
pub data Event (Hash Share Sig Batch Mark : Type 0) : Type 0 where
  got : ℕ → Msg Hash Share Sig Batch Mark → Event Hash Share Sig Batch Mark
  slot_starts : Batch → Event Hash Share Sig Batch Mark
  woken : Event Hash Share Sig Batch Mark
  first_timeout : Event Hash Share Sig Batch Mark
  second_timeout : Event Hash Share Sig Batch Mark

module _ {Hash Share Sig Batch Mark : Type 0} (p : Params Hash Share Sig Batch Mark) where
  abbrev pub S : Type 0
  S = State Hash Share Sig Batch Mark

  abbrev pub Result : Type 0
  Result = S × List (Out Hash Share Sig Batch Mark)

  abbrev pub init : S
  init = record {
    voters = λ r. [];
    votes = λ r. [];
    batches = λ r. [];
    decides = λ r. none;
    decide_sent = λ r. false;
    slot_cur = 1;
    hash_prev = p.hash_genesis;
    pending_block = none;
    notraized_block = none;
    txcnt = λ r. 0;
    epoch_txcnt = 0;
    receiving = true;
    noncritical = true;
    pc = at_head;
  }

  -- An exception in the critical block of `handle_messages`: the signal is never set again.
  abbrev pub die : S → List (Out Hash Share Sig Batch Mark) → Result
  die s outs = (record s { receiving = false; noncritical = false }, outs)
