-- ===== src/Mule/Fast/Receive.antt =====
-- mulebft/core/fastpath.py: the greenlet `handle_messages` of `fastpath`.
use dumbo_ucy.Shared.{
  ℕ, ◌+◌, ◌-◌, Bool, true, false, not, Option, none, some, List, [], ◌∷◌, Comparable, ◌==◌,
  nat_comparable, ltb, leb, ◌&&◌, if◌then◌else◌, length,
}
use dumbo_ucy.Shared.Dict.{put, contains, add, assign}
use dumbo_ucy.Mule.Fast.{Params, Msg, vote, decide, Out, to_others, S, Result, die}

module _ {Hash Share Sig Batch Mark : Type 0} ⦃e : Comparable Hash⦄
    (p : Params Hash Share Sig Batch Mark) where
  -- `decides[slot].put_nowait(d)`: `Full` where the queue holds an entry
  unfoldable pub put_decide :
      S p
      → Hash × Sig × List (ℕ × (Batch × Mark))
      → List (Out Hash Share Sig Batch Mark)
      → Option (Hash × Sig × List (ℕ × (Batch × Mark)))
      → Result p
  put_decide s d outs none = (record s { decides = assign s.decides s.slot_cur (some d) }, outs)
  put_decide s d outs (some old) = die p s outs

  -- The three lines after the checks of a vote.
  unfoldable pub record_vote : S p → ℕ → Share → Batch → Mark → S p
  record_vote s sender sig_p tx_batch tx_sig = record s {
    voters = assign s.voters s.slot_cur (add (s.voters s.slot_cur) sender);
    votes = assign s.votes s.slot_cur (put (s.votes s.slot_cur) sender sig_p);
    batches = assign s.batches s.slot_cur (put (s.batches s.slot_cur) sender (tx_batch, tx_sig));
  }

  -- `decide_sent` has SLOTS_NUM + 3 places; past them is an IndexError.
  unfoldable pub count_votes : S p → Hash → Result p
  count_votes s hash_p =
      if length (s.voters s.slot_cur) == p.n - p.f
      then if ltb s.slot_cur (p.slots + 3)
        then if s.decide_sent s.slot_cur
          then (s, [])
          else (let sigma = p.combine_shares (s.votes s.slot_cur) in
              let signed_batches = s.batches s.slot_cur in
              put_decide (record s { decide_sent = assign s.decide_sent s.slot_cur true })
                (hash_p, sigma, signed_batches)
                (to_others (decide s.slot_cur s.hash_prev sigma signed_batches) ∷ [])
                (s.decides s.slot_cur))
        else die p s []
      else (s, [])

  -- The first three `try` blocks.
  unfoldable pub check_vote : S p → ℕ → ℕ → Hash → Share → Bool
  check_vote s sender slot hash_p sig_p =
      slot == s.slot_cur && (hash_p == s.hash_prev && p.verify_share sig_p sender hash_p)

  unfoldable pub on_vote : S p → ℕ → ℕ → Hash → Share → Batch → Mark → Result p
  on_vote s sender slot hash_p sig_p tx_batch tx_sig =
      if p.pid == p.leader && ltb (length (s.voters s.slot_cur)) (p.n - p.f)
      then if contains (s.voters slot) sender
        then (s, [])
        else if check_vote s sender slot hash_p sig_p
        then (if p.ecdsa_vrfy sender tx_batch tx_sig
            then count_votes (record_vote s sender sig_p tx_batch tx_sig) hash_p
            else if p.raises tx_sig
            then die p s []
            else (s, []))
        else (s, [])
      else (s, [])

  -- `for item in signed_batches` ends without an exception: `PK2s[proposer]` may be an IndexError,
  -- `ecdsa_vrfy` may raise ValueError, and its result is not looked at.
  unfoldable pub no_item_raises : List (ℕ × (Batch × Mark)) → Bool
  no_item_raises [] = true
  no_item_raises ((proposer, (tx_batch, mark)) ∷ rest) =
      ltb proposer p.n && (not (p.raises mark) && no_item_raises rest)

  unfoldable pub on_decide : S p → ℕ → Hash → Sig → List (ℕ × (Batch × Mark)) → Result p
  on_decide s slot hash_p sig_p signed_batches =
      if not (p.pid == p.leader)
        && (slot == s.slot_cur
            && (p.verify_signature sig_p hash_p && leb (p.n - p.f) (length signed_batches)))
      then if no_item_raises signed_batches
        then put_decide s (hash_p, sig_p, signed_batches) [] (s.decides s.slot_cur)
        else die p s []
      else (s, [])

  unfoldable pub dispatch : S p → ℕ → Msg Hash Share Sig Batch Mark → Result p
  dispatch s sender (vote slot hash_p sig_p tx_batch tx_sig) =
      on_vote s sender slot hash_p sig_p tx_batch tx_sig
  dispatch s sender (decide slot hash_p sig_p signed_batches) =
      on_decide s slot hash_p sig_p signed_batches

  -- One turn of `handle_messages`, while the greenlet lives.
  unfoldable pub receive : S p → ℕ → Msg Hash Share Sig Batch Mark → Result p
  receive s sender msg =
      if s.receiving
      then if ltb sender p.n then dispatch s sender msg else (record s { receiving = false }, [])
      else (s, [])
