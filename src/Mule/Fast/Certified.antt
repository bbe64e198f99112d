-- ===== src/Mule/Fast/Certified.antt =====
-- What vouches for the blocks of `fastpath`: a signature of N - f parties on the hash that each
-- names as its parent.
use mathlib.Core.Path.{subst}
use dumbo_ucy.Shared.{
  ℕ, ◌+◌, ◌-◌, ◌<◌, ◌≡◌, refl, sym, ◌∙◌, true, false, not, Option, none, some, List, [], Comparable,
  ◌==◌, nat_comparable, ltb, leb, ◌&&◌, length, arith, on_if, both, nat_beq_iff, leb→le, ◌≢◌,
}
use dumbo_ucy.Shared.Dict.{put, contains, add, assign_same, assign_other}
use dumbo_ucy.Shared.Loop.{AllOf, AllOf-any, AllOf-append}
use dumbo_ucy.Shared.Steps.{run_steps, Then, steps_keep}
use dumbo_ucy.Mule.Fast.{
  Params, Msg, vote, decide, Block, Out, Pc, at_head, at_get, ended, raised, in_loop, Event, got,
  slot_starts, woken, first_timeout, second_timeout, S, Result, init, die,
}
use dumbo_ucy.Mule.Fast.Receive.{
  put_decide, record_vote, count_votes, check_vote, on_vote, no_item_raises, on_decide, dispatch,
  receive,
}
use dumbo_ucy.Mule.Fast.Slots.{
  start_slot, notarize, no_weight, count_txs, extend, close_slot, finish_slot, on_start, on_wake,
  step, returned_pair, result,
}
use dumbo_ucy.Mule.Fast.Ballot.{
  Decision, Certifies, HasDecision, HasBlock, IsCertified, ForHash, Combines, Ballot, no-Ballot,
  add-Ballot,
}

module _ {Hash Share Sig Batch Mark : Type 0} ⦃e : Comparable Hash⦄
    (p : Params Hash Share Sig Batch Mark) where
  pub record Vouches (s : S p) : Type 0 where
    pub ballot :
        Ballot p s.hash_prev (s.voters s.slot_cur) (s.votes s.slot_cur) (s.batches s.slot_cur)
    pub fresh :
        (r : ℕ) → s.slot_cur < r → (s.voters r ≡ []) × ((s.votes r ≡ []) × (s.batches r ≡ []))
    pub decisions : (r : ℕ) → HasDecision p (s.decides r)
    pub pending : HasBlock p s.pending_block

  abbrev Good : Result p → Type 0
  Good r = Vouches r.0 × AllOf (IsCertified p) r.1

  put_decide-Good :
      (s : S p) (d : Decision p) (outs : List (Out Hash Share Sig Batch Mark))
      (o : Option (Decision p))
      → Vouches s
      → HasDecision p (some d)
      → AllOf (IsCertified p) outs
      → Good (put_decide p s d outs o)
  unfolding put_decide
  put_decide-Good s d outs none h c all = (
    record {
      ballot = h.ballot;
      fresh = h.fresh;
      decisions = λ r. on_if (HasDecision p) (s.slot_cur == r) (λ _. c) (λ _. h.decisions r);
      pending = h.pending;
    },
    all,
  )
  put_decide-Good s d outs (some old) h c all = (
    record { ballot = h.ballot; fresh = h.fresh; decisions = h.decisions; pending = h.pending },
    all,
  )

  stop : (s : S p) → Vouches s → Good (record s { receiving = false }, [])
  stop s h = (
    record { ballot = h.ballot; fresh = h.fresh; decisions = h.decisions; pending = h.pending },
    tt,
  )

  died : (s : S p) → Vouches s → Good (die p s [])
  died s h = (
    record { ballot = h.ballot; fresh = h.fresh; decisions = h.decisions; pending = h.pending },
    tt,
  )

  module _ (combines : Combines p) where
    count_votes-Good :
        (s : S p) (hash_p : Hash) → hash_p ≡ s.hash_prev → Vouches s → Good (count_votes p s hash_p)
    unfolding count_votes
    count_votes-Good s hash_p same h =
        on_if Good (length (s.voters s.slot_cur) == p.n - p.f)
          (λ c.
            on_if Good (ltb s.slot_cur (p.slots + 3))
              (λ _.
                on_if Good (s.decide_sent s.slot_cur) (λ _. (h, tt))
                  (λ _.
                    let b = h.ballot in
                    let count : length (s.voters s.slot_cur) ≡ p.n - p.f =
                      ground (arith, nat_beq_iff (length (s.voters s.slot_cur)) (p.n - p.f)) in
                    put_decide-Good _ _ _ (s.decides s.slot_cur)
                      (record {
                        ballot = h.ballot;
                        fresh = h.fresh;
                        decisions = h.decisions;
                        pending = h.pending;
                      })
                      (record {
                        verified =
                            combines hash_p (s.votes s.slot_cur) (b.votes_count ∙ count) b.distinct
                              (subst (λ x. ForHash p x (s.votes s.slot_cur)) (sym same) b.shares);
                        enough = omega (arith, b.items_count, count);
                        leads = λ _. (b.parties, b.signed);
                      })
                      (tt, tt)))
              (λ _. (
                record {
                  ballot = h.ballot;
                  fresh = h.fresh;
                  decisions = h.decisions;
                  pending = h.pending;
                },
                tt,
              )))
          (λ _. (h, tt))

    record_vote-Vouches :
        (s : S p) (j : ℕ) (sig : Share) (tx_batch : Batch) (tx_sig : Mark)
        → p.verify_share sig j s.hash_prev ≡ true
        → p.ecdsa_vrfy j tx_batch tx_sig ≡ true
        → Vouches s
        → Vouches (record_vote p s j sig tx_batch tx_sig)
    unfolding record_vote
    record_vote-Vouches s j sig tx_batch tx_sig v v' h = record {
      ballot =
          rw
            (
              assign_same s.voters s.slot_cur (add (s.voters s.slot_cur) j),
              assign_same s.votes s.slot_cur (put (s.votes s.slot_cur) j sig),
              assign_same s.batches s.slot_cur (put (s.batches s.slot_cur) j (tx_batch, tx_sig)),
            )
            (add-Ballot p s.hash_prev (s.voters s.slot_cur) (s.votes s.slot_cur)
              (s.batches s.slot_cur) j sig tx_batch tx_sig v v' h.ballot);
      fresh = λ r lt.
          let other : s.slot_cur ≢ r = λ eq. omega arith in
          (
            assign_other s.voters s.slot_cur r _ other ∙ (h.fresh r lt).0,
            (
              assign_other s.votes s.slot_cur r _ other ∙ (h.fresh r lt).1.0,
              assign_other s.batches s.slot_cur r _ other ∙ (h.fresh r lt).1.1,
            ),
          );
      decisions = h.decisions;
      pending = h.pending;
    }

    on_vote-Good :
        (s : S p) (sender slot : ℕ) (hash_p : Hash) (sig_p : Share) (tx_batch : Batch)
        (tx_sig : Mark)
        → Vouches s
        → Good (on_vote p s sender slot hash_p sig_p tx_batch tx_sig)
    unfolding on_vote check_vote record_vote
    on_vote-Good s sender slot hash_p sig_p tx_batch tx_sig h =
        on_if Good (p.pid == p.leader && ltb (length (s.voters s.slot_cur)) (p.n - p.f))
          (λ _.
            on_if Good (contains (s.voters slot) sender) (λ _. (h, tt))
              (λ _.
                on_if Good (check_vote p s sender slot hash_p sig_p)
                  (λ c.
                    on_if Good (p.ecdsa_vrfy sender tx_batch tx_sig)
                      (λ mark.
                        let after = both (slot == s.slot_cur) _ c in
                        let same = both (hash_p == s.hash_prev) _ after.1 in
                        let eq = (e.equal_iff hash_p s.hash_prev).0 same.0 in
                        count_votes-Good (record_vote p s sender sig_p tx_batch tx_sig) hash_p eq (
                          record_vote-Vouches s sender sig_p tx_batch tx_sig
                            (subst (λ x. p.verify_share sig_p sender x ≡ true) eq same.1) mark h))
                      (λ _. on_if Good (p.raises tx_sig) (λ _. died s h) (λ _. (h, tt))))
                  (λ _. (h, tt))))
          (λ _. (h, tt))

    on_decide-Good :
        (s : S p) (slot : ℕ) (hash_p : Hash) (sig_p : Sig)
        (signed_batches : List (ℕ × (Batch × Mark)))
        → Vouches s
        → Good (on_decide p s slot hash_p sig_p signed_batches)
    unfolding on_decide
    on_decide-Good s slot hash_p sig_p signed_batches h =
        on_if Good
          (not (p.pid == p.leader)
            && (slot == s.slot_cur
                && (p.verify_signature sig_p hash_p && leb (p.n - p.f) (length signed_batches))))
          (λ c.
            on_if Good (no_item_raises p signed_batches)
              (λ _.
                let checks = both (slot == s.slot_cur) _ (both (not (p.pid == p.leader)) _ c).1 in
                let vouched = both (p.verify_signature sig_p hash_p) _ checks.1 in
                put_decide-Good s (hash_p, sig_p, signed_batches) [] (s.decides s.slot_cur) h
                  (record {
                    verified = vouched.0;
                    enough = leb→le (p.n - p.f) (length signed_batches) vouched.1;
                    leads = λ leader. absurd (ground arith);
                  })
                  tt)
              (λ _. (
                record {
                  ballot = h.ballot;
                  fresh = h.fresh;
                  decisions = h.decisions;
                  pending = h.pending;
                },
                tt,
              )))
          (λ _. (h, tt))

    dispatch-Good :
        (s : S p) (sender : ℕ) (m : Msg Hash Share Sig Batch Mark)
        → Vouches s
        → Good (dispatch p s sender m)
    unfolding dispatch
    dispatch-Good s sender (vote slot hash_p sig_p tx_batch tx_sig) h =
        on_vote-Good s sender slot hash_p sig_p tx_batch tx_sig h
    dispatch-Good s sender (decide slot hash_p sig_p signed_batches) h =
        on_decide-Good s slot hash_p sig_p signed_batches h

    receive-Good :
        (s : S p) (sender : ℕ) (m : Msg Hash Share Sig Batch Mark)
        → Vouches s
        → Good (receive p s sender m)
    unfolding receive
    receive-Good s sender m h =
        on_if Good s.receiving
          (λ _. on_if Good (ltb sender p.n) (λ _. dispatch-Good s sender m h) (λ _. stop s h))
          (λ _. (h, tt))

    on_start-Good : (pc : Pc) (s : S p) (input : Batch) → Vouches s → Good (on_start p pc s input)
    unfolding on_start start_slot
    on_start-Good at_head s input h = (
      record { ballot = h.ballot; fresh = h.fresh; decisions = h.decisions; pending = h.pending },
      (tt, tt),
    )
    on_start-Good at_get s input h = (h, tt)
    on_start-Good ended s input h = (h, tt)
    on_start-Good raised s input h = (h, tt)

    notarize-Good :
        (s : S p) (o : Option (Block Hash Sig Batch Mark))
        → HasBlock p o
        → Vouches s
        → Good (notarize p s o)
    unfolding notarize
    notarize-Good s none b h = (h, tt)
    notarize-Good s (some block) b h = (
      record { ballot = h.ballot; fresh = h.fresh; decisions = h.decisions; pending = h.pending },
      (b, tt),
    )

    extend-Vouches :
        (s : S p) (h_p : Hash) (raw_sig : Sig) (signed_batches : List (ℕ × (Batch × Mark)))
        → Certifies p h_p raw_sig signed_batches
        → Vouches s
        → Vouches (extend p s h_p raw_sig signed_batches)
    unfolding extend
    extend-Vouches s h_p raw_sig signed_batches c h =
        let now = h.fresh (s.slot_cur + 1) (omega arith) in
        record {
          ballot = rw (now.0, now.1.0, now.1.1) (no-Ballot p _);
          fresh = λ r lt. h.fresh r (omega arith);
          decisions = λ r. on_if (HasDecision p) (s.slot_cur == r) (λ _. tt) (λ _. h.decisions r);
          pending = c;
        }

    count_txs-Vouches :
        (s : S p) (o : Option (Block Hash Sig Batch Mark)) → Vouches s → Vouches (count_txs p s o)
    unfolding count_txs
    count_txs-Vouches s none h = h
    count_txs-Vouches s (some b) h = record {
      ballot = h.ballot;
      fresh = h.fresh;
      decisions = h.decisions;
      pending = h.pending;
    }

    close_slot-Good :
        (s : S p) (o : Option (Block Hash Sig Batch Mark)) (h_p : Hash) (raw_sig : Sig)
        (signed_batches : List (ℕ × (Batch × Mark)))
        → HasBlock p o
        → Certifies p h_p raw_sig signed_batches
        → Vouches s
        → Good (close_slot p s o h_p raw_sig signed_batches)
    unfolding close_slot
    close_slot-Good s o h_p raw_sig signed_batches b c h =
        let put = notarize-Good s o b h in
        let s' = (notarize p s o).0 in
        on_if Good (no_weight p s' o)
          (λ _. (
            record {
              ballot = put.0.ballot;
              fresh = put.0.fresh;
              decisions =
                  λ r. on_if (HasDecision p) (s'.slot_cur == r) (λ _. tt) (λ _. put.0.decisions r);
              pending = put.0.pending;
            },
            put.1,
          ))
          (λ _. (
            extend-Vouches (count_txs p s' o) h_p raw_sig signed_batches c
                (count_txs-Vouches s' o put.0),
            put.1,
          ))

    finish_slot-Good :
        (s : S p) (o : Option (Decision p)) → HasDecision p o → Vouches s → Good (finish_slot p s o)
    unfolding finish_slot
    finish_slot-Good s none c h = (h, tt)
    finish_slot-Good s (some (h_p, raw_sig, signed_batches)) c h =
        close_slot-Good s s.pending_block h_p raw_sig signed_batches h.pending c h

    on_wake-Good : (pc : Pc) (s : S p) → Vouches s → Good (on_wake p pc s)
    unfolding on_wake
    on_wake-Good at_head s h = (h, tt)
    on_wake-Good at_get s h = finish_slot-Good s (s.decides s.slot_cur) (h.decisions s.slot_cur) h
    on_wake-Good ended s h = (h, tt)
    on_wake-Good raised s h = (h, tt)

    step-Good : (s : S p) (ev : Event Hash Share Sig Batch Mark) → Vouches s → Good (step p s ev)
    unfolding step
    step-Good s (got sender m) h = receive-Good s sender m h
    step-Good s (slot_starts input) h =
        on_if Good s.noncritical (λ _. on_start-Good s.pc s input h) (λ _. (h, tt))
    step-Good s woken h = on_if Good s.noncritical (λ _. on_wake-Good s.pc s h) (λ _. (h, tt))
    step-Good s first_timeout h =
        on_if Good (s.noncritical && in_loop s.pc)
          (λ _. (
            record {
              ballot = h.ballot;
              fresh = h.fresh;
              decisions = h.decisions;
              pending = h.pending;
            },
            tt,
          ))
          (λ _. (h, tt))
    step-Good s second_timeout h =
        on_if Good (in_loop s.pc)
          (λ _. (
            record {
              ballot = h.ballot;
              fresh = h.fresh;
              decisions = h.decisions;
              pending = h.pending;
            },
            tt,
          ))
          (λ _. (h, tt))

    abbrev AllGood : S p → List (Out Hash Share Sig Batch Mark) → Type 0
    AllGood s outs = Vouches s × AllOf (IsCertified p) outs

    run-Good :
        (events : List (Event Hash Share Sig Batch Mark))
        → Then AllGood [] (run_steps (step p) (init p) events)
    run-Good events =
        steps_keep (step p) AllGood (λ _. Unit {0})
          (λ s ev outs _ h.
            let r = step-Good s ev h.0 in
            (r.0, AllOf-append (IsCertified p) outs (step p s ev).1 h.1 r.1))
          events (init p) [] (AllOf-any events)
          (
            record {
              ballot = no-Ballot p p.hash_genesis;
              fresh = λ r lt. (refl, (refl, refl));
              decisions = λ r. tt;
              pending = tt;
            },
            tt,
          )

  abbrev pub HasSignature : Option (Hash × Sig) → Type 0
  HasSignature none = Unit
  HasSignature (some (h, sig)) = p.verify_signature sig h ≡ true

  returned_pair-HasSignature :
      (o : Option (Block Hash Sig Batch Mark)) → HasBlock p o → HasSignature (returned_pair p o)
  unfolding returned_pair
  returned_pair-HasSignature none h = tt
  returned_pair-HasSignature (some b) h = h.verified

  result-HasSignature : (s : S p) → Vouches s → HasSignature (result p s)
  unfolding result
  result-HasSignature s h =
      elim s.notraized_block
        as (λ o. HasSignature (elim o [ none ↦ none | some b ↦ returned_pair p s.pending_block ])) [
          | none ↦ tt
          | some b ↦ returned_pair-HasSignature s.pending_block h.pending
        ]

  -- Where any N - f shares of different parties on a hash combine to a signature that verifies on
  -- it: whatever arrives and whenever the slots start, end or time out, each block that a call of
  -- `fastpath` outputs has a verified signature on its parent hash and a list of at least N - f
  -- batches, which at the leader are of different parties and each signed by its party (at the other
  -- parties nothing is said of who sent or signed them); and a pair that the call returns is a hash
  -- with a verified signature.
  pub run-IsCertified :
      (combines : Combines p) (events : List (Event Hash Share Sig Batch Mark))
      → AllOf (IsCertified p) (run_steps (step p) (init p) events).1
        × HasSignature (result p (run_steps (step p) (init p) events).0)
  run-IsCertified combines events =
      let good = run-Good combines events in
      (good.1, result-HasSignature (run_steps (step p) (init p) events).0 good.0)
