-- ===== src/Mule/Fast/Stale.antt =====
-- A replica's DECIDE whose signature is on another hash than that of the block before.
use mathlib.Core.Path.{subst}
use mathlib.Core.List.{append-nil}
use dumbo_ucy.Shared.{
  ◌∙◌, ℕ, ◌+◌, ◌-◌, ◌≤◌, ◌<◌, ◌≡◌, refl, ap, sym, if◌then◌else◌, true, false, Option, none, some,
  List, [], ◌∷◌, Comparable, ◌==◌, nat_comparable, lt→ltb, le→leb, length, ==_refl,
}
use dumbo_ucy.Shared.Dict.{assign, assign_same}
use dumbo_ucy.Shared.Steps.{run_steps}
use dumbo_ucy.Mule.Fast.{Params, Block, Result, decide, at_get, got, woken, S}
use dumbo_ucy.Mule.Fast.Receive.{put_decide, no_item_raises, on_decide, dispatch, receive}
use dumbo_ucy.Mule.Fast.Slots.{
  notarize, no_weight, count_txs, extend, close_slot, finish_slot, on_wake, step,
}

module _ {Hash Share Sig Batch Mark : Type 0} ⦃e : Comparable Hash⦄
    (p : Params Hash Share Sig Batch Mark) where
  -- A replica that waits for the decision of its current slot.
  pub record Waits (s : S p) : Type 0 where
    pub replica : (p.pid == p.leader) ≡ false
    pub receiving : s.receiving ≡ true
    pub noncritical : s.noncritical ≡ true
    pub pc : s.pc ≡ at_get
    pub empty : s.decides s.slot_cur ≡ none

  receive_decide :
      (s : S p) (sender : ℕ) (h : Hash) (sig : Sig) (items : List (ℕ × (Batch × Mark)))
      → Waits s
      → sender < p.n
      → p.verify_signature sig h ≡ true
      → p.n - p.f ≤ length items
      → no_item_raises p items ≡ true
      → receive p s sender (decide s.slot_cur h sig items)
        ≡ (record s { decides = assign s.decides s.slot_cur (some (h, sig, items)) }, [])
  unfolding receive dispatch on_decide put_decide
  receive_decide s sender h sig items w lt v enough range =
      rw
        (
          w.receiving,
          lt→ltb sender p.n lt,
          w.replica,
          ==_refl s.slot_cur,
          v,
          le→leb (p.n - p.f) (length items) enough,
          range,
          w.empty,
        )
        refl

  pub record Moved (s : S p) (h : Hash) (sig : Sig) (items : List (ℕ × (Batch × Mark)))
      (r : Result p) : Type 0 where
    pub slot : r.0.slot_cur ≡ s.slot_cur + 1
    pub hash : r.0.hash_prev ≡ p.hash_header s.slot_cur h (p.hash_batches items)
    pub pending :
        r.0.pending_block
        ≡ some (record { slot = s.slot_cur; parent = h; signature = sig; batches = items })
    pub blocks : r.1 ≡ (notarize p s s.pending_block).1

  -- The end of a slot where the division for the delay has a weight.
  close_slot-Moved :
      (s : S p) (h : Hash) (sig : Sig) (items : List (ℕ × (Batch × Mark)))
      (o : Option (Block Hash Sig Batch Mark))
      → no_weight p (notarize p s o).0 o ≡ false
      → s.pending_block ≡ o
      → Moved s h sig items (close_slot p s o h sig items)
  unfolding close_slot extend notarize count_txs
  close_slot-Moved s h sig items none weighs same =
      rw (weighs, same) (record { slot = refl; hash = refl; pending = refl; blocks = refl })
  close_slot-Moved s h sig items (some b) weighs same =
      rw (weighs, same) (record { slot = refl; hash = refl; pending = refl; blocks = refl })

  same_blocks :
      (s s' : S p) (o : Option (Block Hash Sig Batch Mark))
      → (notarize p s o).1 ≡ (notarize p s' o).1
  unfolding notarize
  same_blocks s s' none = refl
  same_blocks s s' (some b) = refl

  same_weight :
      (s s' : S p) (o : Option (Block Hash Sig Batch Mark))
      → s'.txcnt ≡ s.txcnt
      → s'.epoch_txcnt ≡ s.epoch_txcnt
      → no_weight p (notarize p s o).0 o ≡ no_weight p (notarize p s' o).0 o
  unfolding notarize no_weight
  same_weight s s' none c d = refl
  same_weight s s' (some b) c d = rw (c, d) refl

  woken-Moved :
      (s : S p) (h : Hash) (sig : Sig) (items : List (ℕ × (Batch × Mark)))
      → s.noncritical ≡ true
      → s.pc ≡ at_get
      → s.decides s.slot_cur ≡ some (h, sig, items)
      → no_weight p (notarize p s s.pending_block).0 s.pending_block ≡ false
      → Moved s h sig items (step p s woken)
  unfolding step on_wake finish_slot
  woken-Moved s h sig items nc pc d weighs =
      let taken : step p s woken ≡ finish_slot p s (some (h, sig, items)) =
        ap (λ b. if b then on_wake p s.pc s else (s, [])) nc
        ∙ (ap (λ c. on_wake p c s) pc ∙ ap (finish_slot p s) d) in
      subst (Moved s h sig items) (sym taken)
        (close_slot-Moved s h sig items s.pending_block weighs refl)

  -- A replica that waits in a slot takes a DECIDE for it from any party whose signature verifies on
  -- any hash at all, with N - f pairs of a party in range, a batch and any mark that can be parsed:
  -- woken, and where the weight of the slot's delay is not zero, it outputs the pending block, goes
  -- on to the next slot, and its new pending block names the hash of the message as parent, whether
  -- or not that is `hash_prev`, the hash of the block before.
  pub stale_decide :
      (s : S p) (sender : ℕ) (h : Hash) (sig : Sig) (items : List (ℕ × (Batch × Mark)))
      → Waits s
      → sender < p.n
      → p.verify_signature sig h ≡ true
      → p.n - p.f ≤ length items
      → no_item_raises p items ≡ true
      → no_weight p (notarize p s s.pending_block).0 s.pending_block ≡ false
      → Moved s h sig items
          (run_steps (step p) s (got sender (decide s.slot_cur h sig items) ∷ woken ∷ []))
  unfolding run_steps step
  stale_decide s sender h sig items w lt v enough range weighs =
      let s' = record s { decides = assign s.decides s.slot_cur (some (h, sig, items)) } in
      let m =
        woken-Moved s' h sig items w.noncritical w.pc
          (assign_same s.decides s.slot_cur (some (h, sig, items)))
          (sym (same_weight s s' s.pending_block refl refl) ∙ weighs) in
      rw (receive_decide s sender h sig items w lt v enough range, append-nil (step p s' woken).1)
        (record {
          slot = m.slot;
          hash = m.hash;
          pending = m.pending;
          blocks = m.blocks ∙ same_blocks s' s s.pending_block;
        })
