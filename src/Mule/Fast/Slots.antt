-- ===== src/Mule/Fast/Slots.antt =====
-- mulebft/core/fastpath.py: `one_slot`, the loop over the slots and the steps of a call.
use dumbo_ucy.Shared.{
  ℕ, ◌+◌, ◌-◌, Bool, false, ◌&&◌, Option, none, some, List, [], ◌∷◌, Comparable, ◌==◌,
  nat_comparable, leb, if◌then◌else◌,
}
use dumbo_ucy.Shared.Dict.{assign}
use dumbo_ucy.Mule.Fast.{
  Params, vote, Block, Out, to, put_output, Pc, at_head, at_get, ended, raised, in_loop, Event, got,
  slot_starts, woken, first_timeout, second_timeout, S, Result,
}
use dumbo_ucy.Mule.Fast.Receive.{receive}

module _ {Hash Share Sig Batch Mark : Type 0} ⦃e : Comparable Hash⦄
    (p : Params Hash Share Sig Batch Mark) where
  -- `one_slot` up to its wait, with the batch that `get_input` gives.
  unfoldable pub start_slot : S p → Batch → Result p
  start_slot s input =
      let tx_batch =
        if s.slot_cur == p.slots + 1
        then p.dummy
        else if s.slot_cur == p.slots + 2
        then p.dummy
        else input in
      (
        record s { pc = at_get },
        to p.leader
              (vote s.slot_cur s.hash_prev (p.sign s.hash_prev) tx_batch (p.ecdsa_sign tx_batch))
            ∷ [],
      )

  -- `if pending_block is not None: …`, up to the count of its transactions
  unfoldable pub notarize :
      S p → Option (Block Hash Sig Batch Mark) → S p × List (Out Hash Share Sig Batch Mark)
  notarize s none = (s, [])
  notarize s (some b) = (
    record s {
      notraized_block = some b;
      txcnt = assign s.txcnt b.slot (p.count_dummy b.slot b.parent b.batches);
    },
    put_output b ∷ [],
  )

  -- The division for `weighted_delay` raises ZeroDivisionError.
  unfoldable pub no_weight : S p → Option (Block Hash Sig Batch Mark) → Bool
  no_weight s none = false
  no_weight s (some b) = leb 2 b.slot && s.epoch_txcnt + s.txcnt (b.slot - 1) == 0

  -- epoch_txcnt += txcnt[pending_block[1]-1]
  unfoldable pub count_txs : S p → Option (Block Hash Sig Batch Mark) → S p
  count_txs s none = s
  count_txs s (some b) = record s {
    epoch_txcnt = if leb 2 b.slot then s.epoch_txcnt + s.txcnt (b.slot - 1) else s.epoch_txcnt;
  }

  -- The block that the taken decision makes pending.
  unfoldable pub extend : S p → Hash → Sig → List (ℕ × (Batch × Mark)) → S p
  extend s h_p raw_sig signed_batches = record s {
    decides = assign s.decides s.slot_cur none;
    pending_block =
        some (record {
          slot = s.slot_cur;
          parent = h_p;
          signature = raw_sig;
          batches = signed_batches;
        });
    hash_prev = p.hash_header s.slot_cur h_p (p.hash_batches signed_batches);
    slot_cur = s.slot_cur + 1;
    pc = if leb (s.slot_cur + 1) (p.slots + 2) then at_head else ended;
  }

  -- The critical block of `one_slot`, once the entry of the queue is taken.
  unfoldable pub close_slot :
      S p → Option (Block Hash Sig Batch Mark) → Hash → Sig → List (ℕ × (Batch × Mark)) → Result p
  close_slot s pending h_p raw_sig signed_batches =
      let (s', outs) = notarize s pending in
      if no_weight s' pending
      then (record s' { decides = assign s'.decides s'.slot_cur none; pc = raised }, outs)
      else (extend (count_txs s' pending) h_p raw_sig signed_batches, outs)

  -- `one_slot` after its wait.
  unfoldable pub finish_slot : S p → Option (Hash × Sig × List (ℕ × (Batch × Mark))) → Result p
  finish_slot s none = (s, [])
  finish_slot s (some (h_p, raw_sig, signed_batches)) =
      close_slot s s.pending_block h_p raw_sig signed_batches

  unfoldable pub on_start : Pc → S p → Batch → Result p
  on_start at_head s input = start_slot s input
  on_start at_get s input = (s, [])
  on_start ended s input = (s, [])
  on_start raised s input = (s, [])

  unfoldable pub on_wake : Pc → S p → Result p
  on_wake at_head s = (s, [])
  on_wake at_get s = finish_slot s (s.decides s.slot_cur)
  on_wake ended s = (s, [])
  on_wake raised s = (s, [])

  unfoldable pub step : S p → Event Hash Share Sig Batch Mark → Result p
  step s (got sender msg) = receive p s sender msg
  step s (slot_starts input) = if s.noncritical then on_start s.pc s input else (s, [])
  step s woken = if s.noncritical then on_wake s.pc s else (s, [])
  step s first_timeout =
      if s.noncritical && in_loop s.pc
      then (record s { pc = at_head; receiving = false }, [])
      else (s, [])
  step s second_timeout = if in_loop s.pc then (record s { pc = ended }, []) else (s, [])

  -- `pending_block[2], pending_block[3]`, without the counts and delays
  unfoldable pub returned_pair : Option (Block Hash Sig Batch Mark) → Option (Hash × Sig)
  returned_pair none = none
  returned_pair (some b) = some (b.parent, b.signature)

  -- What the call returns, once it is past the loop.
  unfoldable pub result : S p → Option (Hash × Sig)
  result s = elim s.notraized_block [ none ↦ none | some b ↦ returned_pair s.pending_block ]
