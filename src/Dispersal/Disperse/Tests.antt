-- ===== src/Dispersal/Disperse/Tests.antt =====
-- A party of a dispersal that gets its stripe and a lock.
use dumbo_ucy.Shared.{ℕ, ◌+◌, ◌≡◌, refl, List, [], ◌∷◌, ◌==◌, nat_comparable, bytes_comparable}
use dumbo_ucy.Shared.Dict.{get_or_default, put, contains, add}
use dumbo_ucy.Shared.Loop.{AtEnd, run, returned}
use dumbo_ucy.Rbc.Merkle.{Bytes, merkle_verify}
use dumbo_ucy.Rbc.Samples.{toy_hash, copy_encode, copy_decode, toy_stripe, root, branch}
use dumbo_ucy.Dispersal.{Params}
use dumbo_ucy.Dispersal.Disperse.{
  Msg, store_msg, stored, lock_msg, locked, init, handle, end_with, on_store, on_stored, on_lock,
  on_locked, try_lock, try_done,
}
use dumbo_ucy.Dispersal.Disperse.Outputs.{Holds, Ended}
use dumbo_ucy.Dispersal.Disperse.Invariant.{run-Holds}

abbrev toy : ℕ → Params ℕ (ℕ × Bytes) ℕ ℕ
toy pid = record {
  hash = toy_hash;
  zfec_encode = copy_encode;
  zfec_decode = copy_decode;
  stored_hash = λ sid r. (sid, r);
  locked_hash = λ sid r. (sid + 1, r);
  sign = λ d. d.0;
  verify_share = λ s i d. s == d.0;
  verify_signature = λ s d. s == d.0;
  combine_shares = λ shares. 5;
  sid = 5;
  pid = pid;
  n = 4;
  f = 1;
  leader = 0;
}

opened : Unit {0}
unfolding run handle end_with on_store on_stored on_lock on_locked try_lock try_done merkle_verify
    get_or_default put contains add
opened = tt

-- Party 3 sends a lock of its own, and the leader its store twice.
abbrev inbox : List (ℕ × Msg ℕ ℕ ℕ)
inbox =
    (3, lock_msg 5 root 5)
    ∷ (0, store_msg 5 root toy_stripe branch)
    ∷ (0, store_msg 5 root toy_stripe branch)
    ∷ (2, stored 5 5)
    ∷ (0, lock_msg 5 root 5)
    ∷ []

party_returns : (run (handle (toy 1)) (init (toy 1) []) inbox).1 ≡ returned 1
unfolding opened
party_returns = refl

-- The leader locks on three shares and is done on three more.
abbrev answers : List (ℕ × Msg ℕ ℕ ℕ)
answers =
    (1, stored 5 5)
    ∷ (1, stored 5 5)
    ∷ (2, stored 5 7)
    ∷ (2, stored 5 5)
    ∷ (3, stored 5 5)
    ∷ (1, locked 5 6)
    ∷ (2, locked 5 6)
    ∷ (3, locked 5 6)
    ∷ []

leader_returns : (run (handle (toy 0)) (init (toy 0) root) answers).1 ≡ returned 1
unfolding opened
leader_returns = refl

run-Holds_example :
    AtEnd
      (Holds (toy 1))
      (Ended (toy 1))
      (λ _. Unit {0})
      (run (handle (toy 1)) (init (toy 1) []) inbox).0
      (run (handle (toy 1)) (init (toy 1) []) inbox).1
run-Holds_example = run-Holds (toy 1) [] inbox
