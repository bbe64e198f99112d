-- ===== src/Mule/Fast/Chain.antt =====
-- The blocks that `fastpath` outputs: one per slot, in order, each the block that was pending.
use dumbo_ucy.Shared.{
  ℕ, zero, suc, ◌+◌, ◌-◌, ◌<◌, ◌≡◌, refl, sym, ap, ◌∙◌, Bool, true, false, Option, none, some, List,
  [], ◌∷◌, ◌++◌, Comparable, nat_comparable, leb, ◌&&◌, arith, on_if, both, if◌then◌else◌,
}
use mathlib.Core.Path.{subst}
use mathlib.Core.List.{append-nil}
use dumbo_ucy.Shared.Dict.{assign}
use dumbo_ucy.Shared.Loop.{AllOf-any}
use dumbo_ucy.Shared.Steps.{run_steps, Then, steps_keep}
use dumbo_ucy.Mule.Fast.{
  Params, Block, Out, put_output, Pc, at_head, at_get, ended, raised, in_loop, Event, got,
  slot_starts, woken, first_timeout, second_timeout, S, Result, init,
}
use dumbo_ucy.Mule.Fast.Receive.{receive}
use dumbo_ucy.Mule.Fast.Slots.{
  notarize, no_weight, count_txs, extend, close_slot, finish_slot, on_start, on_wake, step,
}
use dumbo_ucy.Mule.Fast.Quiet.{
  put_slots, put_slots-append, is_raised, Quiet, nothing, receive-Quiet, on_start-Quiet, left_loop,
}

goes_on : (b : Bool) → is_raised (if b then at_head else ended) ≡ false
goes_on true = refl
goes_on false = refl

-- How many blocks have been output when that of slot k is pending.
abbrev pub put_before : Bool → ℕ → ℕ
put_before true k = k
put_before false k = k - 1

-- 1, 2, …, k
abbrev pub one_to : ℕ → List ℕ
one_to zero = []
one_to (suc k) = one_to k ++ suc k ∷ []

minus_one : (k c : ℕ) → c ≡ k + 1 → k ≡ c - 1
minus_one k c h = omega arith

one_to_step : (k : ℕ) → 0 < k → one_to (k - 1) ++ k ∷ [] ≡ one_to k
one_to_step zero h = absurd (omega arith)
one_to_step (suc k) h = ap (λ j. one_to j ++ suc k ∷ []) (sym (minus_one k (suc k) (omega arith)))

module _ {Hash Share Sig Batch Mark : Type 0} ⦃e : Comparable Hash⦄
    (p : Params Hash Share Sig Batch Mark) where
  -- How the pending block stands to the outputs: it is that of the last slot, `hash_prev` is the
  -- hash of its header, and the blocks of all slots before it have been output in order, and it too
  -- where the call has ended by an exception.
  pub record Extends (s : S p) (outs : List (Out Hash Share Sig Batch Mark))
      (b : Block Hash Sig Batch Mark) : Type 0 where
    pub counted : 0 < b.slot
    pub slot : s.slot_cur ≡ b.slot + 1
    pub hash : s.hash_prev ≡ p.hash_header b.slot b.parent (p.hash_batches b.batches)
    pub blocks : put_slots outs ≡ one_to (put_before (is_raised s.pc) b.slot)

  pub record IsFresh (s : S p) (outs : List (Out Hash Share Sig Batch Mark)) : Type 0 where
    pub slot : s.slot_cur ≡ 1
    pub hash : s.hash_prev ≡ p.hash_genesis
    pub blocks : put_slots outs ≡ []

  abbrev pub HasHead :
      S p → List (Out Hash Share Sig Batch Mark) → Option (Block Hash Sig Batch Mark) → Type 0
  HasHead s outs none = IsFresh s outs
  HasHead s outs (some b) = Extends s outs b

  abbrev pub IsChain : S p → List (Out Hash Share Sig Batch Mark) → Type 0
  IsChain s outs = HasHead s outs s.pending_block

  append_quiet :
      (outs more : List (Out Hash Share Sig Batch Mark))
      → put_slots more ≡ []
      → put_slots (outs ++ more) ≡ put_slots outs
  append_quiet outs more h = rw (put_slots-append outs more, h) (append-nil (put_slots outs))

  Quiet-HasHead :
      (s : S p) (outs : List (Out Hash Share Sig Batch Mark)) (r : Result p)
      → Quiet p s r
      → (o : Option (Block Hash Sig Batch Mark)) → HasHead s outs o
      → HasHead r.0 (outs ++ r.1) o
  Quiet-HasHead s outs r q none h = record {
    slot = q.slot ∙ h.slot;
    hash = q.hash ∙ h.hash;
    blocks = append_quiet outs r.1 q.blocks ∙ h.blocks;
  }
  Quiet-HasHead s outs r q (some b) h = record {
    counted = h.counted;
    slot = q.slot ∙ h.slot;
    hash = q.hash ∙ h.hash;
    blocks =
        append_quiet outs r.1 q.blocks
        ∙ (h.blocks ∙ ap (λ x. one_to (put_before x b.slot)) (sym q.out));
  }

  Quiet-IsChain :
      (s : S p) (outs : List (Out Hash Share Sig Batch Mark)) (r : Result p)
      → Quiet p s r
      → IsChain s outs
      → Then IsChain outs r
  Quiet-IsChain s outs r q h =
      subst (HasHead r.0 (outs ++ r.1)) (sym q.pending) (Quiet-HasHead s outs r q s.pending_block h)

  -- All that was output when the block that was pending is output too.
  one_more :
      (s : S p) (outs : List (Out Hash Share Sig Batch Mark)) (b : Block Hash Sig Batch Mark)
      → is_raised s.pc ≡ false
      → Extends s outs b
      → put_slots (outs ++ put_output b ∷ []) ≡ one_to b.slot
  one_more s outs b live h =
      put_slots-append outs (put_output b ∷ [])
      ∙ (ap (λ l. l ++ b.slot ∷ []) (h.blocks ∙ ap (λ x. one_to (put_before x b.slot)) live)
          ∙ one_to_step b.slot h.counted)

  -- The slot that ends, with the pending block of the one before.
  close_slot-IsChain :
      (s : S p) (outs : List (Out Hash Share Sig Batch Mark))
      (o : Option (Block Hash Sig Batch Mark)) (h_p : Hash) (raw_sig : Sig)
      (signed_batches : List (ℕ × (Batch × Mark)))
      → is_raised s.pc ≡ false
      → s.pending_block ≡ o
      → HasHead s outs o
      → Then IsChain outs (close_slot p s o h_p raw_sig signed_batches)
  unfolding close_slot extend notarize no_weight count_txs
  close_slot-IsChain s outs none h_p raw_sig signed_batches live same h = record {
    counted = omega (arith, h.slot);
    slot = refl;
    hash = refl;
    blocks =
        append_quiet outs [] refl
        ∙ (h.blocks
            ∙ (ap (λ k. one_to (k - 1)) (sym h.slot)
                ∙ ap (λ x. one_to (put_before x s.slot_cur))
                    (sym (goes_on (leb (s.slot_cur + 1) (p.slots + 2))))));
  }
  close_slot-IsChain s outs (some b) h_p raw_sig signed_batches live same h =
      on_if (Then IsChain outs) (no_weight p (notarize p s (some b)).0 (some b))
        (λ _. subst (HasHead (close_raised s b) (outs ++ put_output b ∷ [])) (sym same) (record {
          counted = h.counted;
          slot = h.slot;
          hash = h.hash;
          blocks = one_more s outs b live h;
        }))
        (λ _. record {
          counted = omega (arith, h.slot);
          slot = refl;
          hash = refl;
          blocks =
              one_more s outs b live h
              ∙ (ap one_to (minus_one b.slot s.slot_cur h.slot)
                  ∙ ap (λ x. one_to (put_before x s.slot_cur))
                      (sym (goes_on (leb (s.slot_cur + 1) (p.slots + 2)))));
        })
    where
      close_raised : S p → Block Hash Sig Batch Mark → S p
      close_raised s' b' = record (notarize p s' (some b')).0 {
        decides = assign s'.decides s'.slot_cur none;
        pc = raised;
      }

  finish_slot-IsChain :
      (s : S p) (outs : List (Out Hash Share Sig Batch Mark))
      (o : Option (Hash × Sig × List (ℕ × (Batch × Mark))))
      → is_raised s.pc ≡ false
      → IsChain s outs
      → Then IsChain outs (finish_slot p s o)
  unfolding finish_slot
  finish_slot-IsChain s outs none live h = Quiet-IsChain s outs (s, []) (nothing p s) h
  finish_slot-IsChain s outs (some (h_p, raw_sig, signed_batches)) live h =
      close_slot-IsChain s outs s.pending_block h_p raw_sig signed_batches live refl h

  on_wake-IsChain :
      (pc : Pc) (s : S p) (outs : List (Out Hash Share Sig Batch Mark))
      → s.pc ≡ pc
      → IsChain s outs
      → Then IsChain outs (on_wake p pc s)
  unfolding on_wake
  on_wake-IsChain at_head s outs here h = Quiet-IsChain s outs (s, []) (nothing p s) h
  on_wake-IsChain at_get s outs here h =
      finish_slot-IsChain s outs (s.decides s.slot_cur) (ap is_raised here) h
  on_wake-IsChain ended s outs here h = Quiet-IsChain s outs (s, []) (nothing p s) h
  on_wake-IsChain raised s outs here h = Quiet-IsChain s outs (s, []) (nothing p s) h

  step-IsChain :
      (s : S p) (ev : Event Hash Share Sig Batch Mark) (outs : List (Out Hash Share Sig Batch Mark))
      → IsChain s outs
      → Then IsChain outs (step p s ev)
  unfolding step
  step-IsChain s (got sender m) outs h =
      Quiet-IsChain s outs (receive p s sender m) (receive-Quiet p s sender m) h
  step-IsChain s (slot_starts input) outs h =
      on_if (Then IsChain outs) s.noncritical
        (λ _. Quiet-IsChain s outs (on_start p s.pc s input) (on_start-Quiet p s.pc s input refl) h)
        (λ _. Quiet-IsChain s outs (s, []) (nothing p s) h)
  step-IsChain s woken outs h =
      on_if (Then IsChain outs) s.noncritical (λ _. on_wake-IsChain s.pc s outs refl h)
        (λ _. Quiet-IsChain s outs (s, []) (nothing p s) h)
  step-IsChain s first_timeout outs h =
      on_if (Then IsChain outs) (s.noncritical && in_loop s.pc)
        (λ c.
          Quiet-IsChain s outs (record s { pc = at_head; receiving = false }, [])
            (left_loop p s _ (both s.noncritical _ c).1 refl refl refl refl) h)
        (λ _. Quiet-IsChain s outs (s, []) (nothing p s) h)
  step-IsChain s second_timeout outs h =
      on_if (Then IsChain outs) (in_loop s.pc)
        (λ c.
          Quiet-IsChain s outs (record s { pc = ended }, []) (left_loop p s _ c refl refl refl refl)
            h)
        (λ _. Quiet-IsChain s outs (s, []) (nothing p s) h)

  -- Whatever arrives and whenever the slots start, end or time out: as long as a call of `fastpath`
  -- has not ended by the exception of a division by zero, it has output the blocks of slots 1, 2, …,
  -- each once and in order, up to the slot before that of the pending block, and after that
  -- exception up to the slot of the pending block. The pending block is that of the slot before the
  -- current one, and `hash_prev` is the hash of its header (at first the hash of the genesis block,
  -- with nothing output).
  pub run-IsChain :
      (events : List (Event Hash Share Sig Batch Mark))
      → Then IsChain [] (run_steps (step p) (init p) events)
  run-IsChain events =
      steps_keep (step p) IsChain (λ _. Unit {0}) (λ s ev outs _ h. step-IsChain s ev outs h) events
        (init p) [] (AllOf-any events) (record { slot = refl; hash = refl; blocks = refl })
