-- ===== src/Mule/Fast/Tests.antt =====
-- A call of `fastpath` among four parties with toy signatures.
use dumbo_ucy.Shared.{
  ℕ, ◌+◌, ◌*◌, ◌≡◌, refl, List, [], ◌∷◌, some, ◌==◌, nat_comparable, length, arith,
}
use dumbo_ucy.Shared.Dict.{Dict, put, contains, add, has_key}
use dumbo_ucy.Shared.Loop.{AllOf}
use dumbo_ucy.Shared.Steps.{run_steps, Then}
use dumbo_ucy.Mule.Fast.{Params, vote, decide, Event, in_loop, got, slot_starts, woken, S, init}
use dumbo_ucy.Mule.Fast.Receive.{
  put_decide, record_vote, count_votes, check_vote, on_vote, no_item_raises, on_decide, dispatch,
  receive,
}
use dumbo_ucy.Mule.Fast.Slots.{
  start_slot, notarize, no_weight, count_txs, extend, close_slot, finish_slot, on_start, on_wake,
  step, returned_pair, result,
}
use dumbo_ucy.Mule.Fast.Quiet.{put_slots}
use dumbo_ucy.Mule.Fast.Chain.{IsChain, run-IsChain}
use dumbo_ucy.Mule.Fast.Ballot.{Combines, IsCertified}
use dumbo_ucy.Mule.Fast.Certified.{HasSignature, run-IsCertified}
use dumbo_ucy.Mule.Fast.Stale.{Waits, Moved, stale_decide}

abbrev first_share : Dict ℕ ℕ → ℕ
first_share [] = 0
first_share ((i, s) ∷ shares) = s

-- A share on h is h + 1, and so is a signature.
abbrev toy : ℕ → Params ℕ ℕ ℕ ℕ ℕ
toy pid = record {
  sign = λ h. h + 1;
  verify_share = λ s i h. s == h + 1;
  combine_shares = first_share;
  verify_signature = λ s h. s == h + 1;
  ecdsa_sign = λ b. b;
  ecdsa_vrfy = λ i b m. b == m;
  raises = λ m. m == 99;
  count_dummy = λ slot h b. 5;
  hash_batches = length;
  hash_header = λ slot h b. slot + 10 * h + 100 * b;
  hash_genesis = 7;
  dummy = 0;
  slots = 4;
  pid = pid;
  n = 4;
  f = 1;
  leader = 0;
}

toy_combines : (pid : ℕ) → Combines (toy pid)
toy_combines pid h [] count d all = absurd (omega arith)
toy_combines pid h ((i, s) ∷ shares) count d all = all.0

opened : Unit {0}
unfolding run_steps step receive dispatch on_vote on_decide check_vote record_vote count_votes
    put_decide no_item_raises on_start start_slot on_wake finish_slot notarize no_weight count_txs
    extend close_slot in_loop result returned_pair put contains add has_key
opened = tt

-- The leader over two slots: a forged share, a repeated vote and one for a wrong hash come between.
abbrev votes : List (Event ℕ ℕ ℕ ℕ ℕ)
votes =
    slot_starts 50
    ∷ got 1 (vote 1 7 8 51 51)
    ∷ got 3 (vote 1 7 9 53 53)
    ∷ got 1 (vote 1 7 8 51 51)
    ∷ got 0 (vote 1 7 8 50 50)
    ∷ got 2 (vote 1 6 7 52 52)
    ∷ got 2 (vote 1 7 8 52 52)
    ∷ woken
    ∷ slot_starts 60
    ∷ got 1 (vote 2 371 372 61 61)
    ∷ got 0 (vote 2 371 372 60 60)
    ∷ got 3 (vote 2 371 372 63 63)
    ∷ woken
    ∷ []

leader_result : result (toy 0) (run_steps (step (toy 0)) (init (toy 0)) votes).0 ≡ some (371, 372)
unfolding opened
leader_result = refl

leader_slots : put_slots (run_steps (step (toy 0)) (init (toy 0)) votes).1 ≡ 1 ∷ []
unfolding opened
leader_slots = refl

run-IsChain_example : Then (IsChain (toy 0)) [] (run_steps (step (toy 0)) (init (toy 0)) votes)
run-IsChain_example = run-IsChain (toy 0) votes

run-IsCertified_example :
    AllOf (IsCertified (toy 0)) (run_steps (step (toy 0)) (init (toy 0)) votes).1
    × HasSignature (toy 0) (result (toy 0) (run_steps (step (toy 0)) (init (toy 0)) votes).0)
run-IsCertified_example = run-IsCertified (toy 0) (toy_combines 0) votes

-- A replica in slot 2, to which party 3 replays the signature on the genesis hash, with batches that
-- nobody signed.
abbrev items : List (ℕ × (ℕ × ℕ))
items = (1, (0, 9)) ∷ (1, (0, 9)) ∷ (1, (0, 9)) ∷ []

abbrev replica : S (toy 2)
replica =
    (run_steps (step (toy 2)) (init (toy 2))
      (slot_starts 52 ∷ got 0 (decide 1 7 8 items) ∷ woken ∷ slot_starts 62 ∷ [])).0

replica-Waits : Waits (toy 2) replica
unfolding opened
replica-Waits = record {
  replica = refl;
  receiving = refl;
  noncritical = refl;
  pc = refl;
  empty = refl;
}

stale_decide_example :
    Moved
      (toy 2)
      replica
      7
      8
      items
      (run_steps (step (toy 2)) replica (got 3 (decide replica.slot_cur 7 8 items) ∷ woken ∷ []))
unfolding opened
stale_decide_example =
    stale_decide (toy 2) replica 3 7 8 items replica-Waits (omega arith) refl (omega arith) refl
      refl
