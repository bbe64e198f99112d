-- ===== src/Mule/Fast/Quiet.antt =====
-- The steps of `fastpath` that output no block and leave the chain of blocks alone.
use dumbo_ucy.Shared.{
  ℕ, ◌+◌, ◌-◌, ◌≡◌, refl, sym, ap, ◌∙◌, Bool, true, false, not, Option, none, some, List, [], ◌∷◌,
  ◌++◌, Comparable, ◌==◌, nat_comparable, ltb, leb, ◌&&◌, length, on_if,
}
use dumbo_ucy.Shared.Dict.{contains}
use dumbo_ucy.Mule.Fast.{
  Params, Msg, vote, decide, Out, to, to_others, put_output, Pc, at_head, at_get, ended, raised,
  in_loop, S, Result, die,
}
use dumbo_ucy.Mule.Fast.Receive.{
  put_decide, record_vote, count_votes, check_vote, on_vote, no_item_raises, on_decide, dispatch,
  receive,
}
use dumbo_ucy.Mule.Fast.Slots.{start_slot, on_start}

module _ {Hash Share Sig Batch Mark : Type 0} where
  -- The slots of the blocks that were output.
  abbrev pub put_slots : List (Out Hash Share Sig Batch Mark) → List ℕ
  put_slots [] = []
  put_slots (put_output b ∷ outs) = b.slot ∷ put_slots outs
  put_slots (to i m ∷ outs) = put_slots outs
  put_slots (to_others m ∷ outs) = put_slots outs

  pub put_slots-append :
      (outs more : List (Out Hash Share Sig Batch Mark))
      → put_slots (outs ++ more) ≡ put_slots outs ++ put_slots more
  put_slots-append [] more = refl
  put_slots-append (put_output b ∷ outs) more = ap (λ l. b.slot ∷ l) (put_slots-append outs more)
  put_slots-append (to i m ∷ outs) more = put_slots-append outs more
  put_slots-append (to_others m ∷ outs) more = put_slots-append outs more

abbrev pub is_raised : Pc → Bool
is_raised raised = true
is_raised at_head = false
is_raised at_get = false
is_raised ended = false

in_loop-raised : (pc : Pc) → in_loop pc ≡ true → is_raised pc ≡ false
unfolding in_loop
in_loop-raised at_head h = refl
in_loop-raised at_get h = refl
in_loop-raised ended h = refl
in_loop-raised raised h = absurd cc

module _ {Hash Share Sig Batch Mark : Type 0} ⦃e : Comparable Hash⦄
    (p : Params Hash Share Sig Batch Mark) where
  -- A step that leaves the chain alone and outputs no block.
  pub record Quiet (s : S p) (r : Result p) : Type 0 where
    pub slot : r.0.slot_cur ≡ s.slot_cur
    pub hash : r.0.hash_prev ≡ s.hash_prev
    pub pending : r.0.pending_block ≡ s.pending_block
    pub out : is_raised r.0.pc ≡ is_raised s.pc
    pub blocks : put_slots r.1 ≡ []

  pub nothing : (s : S p) → Quiet s (s, [])
  nothing s = record { slot = refl; hash = refl; pending = refl; out = refl; blocks = refl }

  stopped : (s : S p) → Quiet s (die p s [])
  stopped s = record { slot = refl; hash = refl; pending = refl; out = refl; blocks = refl }

  put_decide-Quiet :
      (s : S p) (d : Hash × Sig × List (ℕ × (Batch × Mark)))
      (outs : List (Out Hash Share Sig Batch Mark))
      (o : Option (Hash × Sig × List (ℕ × (Batch × Mark))))
      → put_slots outs ≡ []
      → Quiet s (put_decide p s d outs o)
  unfolding put_decide
  put_decide-Quiet s d outs none h = record {
    slot = refl;
    hash = refl;
    pending = refl;
    out = refl;
    blocks = h;
  }
  put_decide-Quiet s d outs (some old) h = record {
    slot = refl;
    hash = refl;
    pending = refl;
    out = refl;
    blocks = h;
  }

  count_votes-Quiet : (s : S p) (hash_p : Hash) → Quiet s (count_votes p s hash_p)
  unfolding count_votes
  count_votes-Quiet s hash_p =
      on_if (Quiet s) (length (s.voters s.slot_cur) == p.n - p.f)
        (λ c.
          on_if (Quiet s) (ltb s.slot_cur (p.slots + 3))
            (λ c'.
              on_if (Quiet s) (s.decide_sent s.slot_cur) (λ _. nothing s)
                (λ _.
                  let q = put_decide-Quiet _ _ _ (s.decides s.slot_cur) refl in
                  record {
                    slot = q.slot;
                    hash = q.hash;
                    pending = q.pending;
                    out = q.out;
                    blocks = q.blocks;
                  }))
            (λ c'. record { slot = refl; hash = refl; pending = refl; out = refl; blocks = refl }))
        (λ c. nothing s)

  on_vote-Quiet :
      (s : S p) (sender slot : ℕ) (hash_p : Hash) (sig_p : Share) (tx_batch : Batch) (tx_sig : Mark)
      → Quiet s (on_vote p s sender slot hash_p sig_p tx_batch tx_sig)
  unfolding on_vote record_vote
  on_vote-Quiet s sender slot hash_p sig_p tx_batch tx_sig =
      on_if (Quiet s) (p.pid == p.leader && ltb (length (s.voters s.slot_cur)) (p.n - p.f))
        (λ _.
          on_if (Quiet s) (contains (s.voters slot) sender) (λ _. nothing s)
            (λ _.
              on_if (Quiet s) (check_vote p s sender slot hash_p sig_p)
                (λ _.
                  on_if (Quiet s) (p.ecdsa_vrfy sender tx_batch tx_sig)
                    (λ _.
                      let q =
                        count_votes-Quiet (record_vote p s sender sig_p tx_batch tx_sig) hash_p in
                      record {
                        slot = q.slot;
                        hash = q.hash;
                        pending = q.pending;
                        out = q.out;
                        blocks = q.blocks;
                      })
                    (λ _. on_if (Quiet s) (p.raises tx_sig) (λ _. stopped s) (λ _. nothing s)))
                (λ _. nothing s)))
        (λ _. nothing s)

  on_decide-Quiet :
      (s : S p) (slot : ℕ) (hash_p : Hash) (sig_p : Sig)
      (signed_batches : List (ℕ × (Batch × Mark)))
      → Quiet s (on_decide p s slot hash_p sig_p signed_batches)
  unfolding on_decide
  on_decide-Quiet s slot hash_p sig_p signed_batches =
      on_if (Quiet s)
        (not (p.pid == p.leader)
          && (slot == s.slot_cur
              && (p.verify_signature sig_p hash_p && leb (p.n - p.f) (length signed_batches))))
        (λ _.
          on_if (Quiet s) (no_item_raises p signed_batches)
            (λ _. put_decide-Quiet s (hash_p, sig_p, signed_batches) [] (s.decides s.slot_cur) refl)
            (λ _. record { slot = refl; hash = refl; pending = refl; out = refl; blocks = refl }))
        (λ _. nothing s)

  dispatch-Quiet :
      (s : S p) (sender : ℕ) (m : Msg Hash Share Sig Batch Mark) → Quiet s (dispatch p s sender m)
  unfolding dispatch
  dispatch-Quiet s sender (vote slot hash_p sig_p tx_batch tx_sig) =
      on_vote-Quiet s sender slot hash_p sig_p tx_batch tx_sig
  dispatch-Quiet s sender (decide slot hash_p sig_p signed_batches) =
      on_decide-Quiet s slot hash_p sig_p signed_batches

  pub receive-Quiet :
      (s : S p) (sender : ℕ) (m : Msg Hash Share Sig Batch Mark) → Quiet s (receive p s sender m)
  unfolding receive
  receive-Quiet s sender m =
      on_if (Quiet s) s.receiving
        (λ _.
          on_if (Quiet s) (ltb sender p.n) (λ _. dispatch-Quiet s sender m)
            (λ _. record { slot = refl; hash = refl; pending = refl; out = refl; blocks = refl }))
        (λ _. nothing s)

  pub on_start-Quiet :
      (pc : Pc) (s : S p) (input : Batch) → s.pc ≡ pc → Quiet s (on_start p pc s input)
  unfolding on_start start_slot
  on_start-Quiet at_head s input here = record {
    slot = refl;
    hash = refl;
    pending = refl;
    out = ap is_raised (sym here);
    blocks = refl;
  }
  on_start-Quiet at_get s input here = nothing s
  on_start-Quiet ended s input here = nothing s
  on_start-Quiet raised s input here = nothing s

  pub left_loop :
      (s s' : S p)
      → in_loop s.pc ≡ true
      → is_raised s'.pc ≡ false
      → s'.slot_cur ≡ s.slot_cur
      → s'.hash_prev ≡ s.hash_prev
      → s'.pending_block ≡ s.pending_block
      → Quiet s (s', [])
  left_loop s s' live out slot hash pending = record {
    slot = slot;
    hash = hash;
    pending = pending;
    out = out ∙ sym (in_loop-raised s.pc live);
    blocks = refl;
  }
