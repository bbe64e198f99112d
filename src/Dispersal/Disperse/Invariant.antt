-- ===== src/Dispersal/Disperse/Invariant.antt =====
-- What a party of a dispersal puts out over a run, and when its call returns.
use dumbo_ucy.Shared.{
  ℕ, ◌+◌, ◌*◌, ◌≡◌, refl, true, not, ◌&&◌, List, [], ◌==◌, nat_comparable, bytes_comparable, ltb,
  leb, length, on_if,
}
use dumbo_ucy.Shared.Dict.{get_or_default}
use dumbo_ucy.Shared.Loop.{AtEnd, AllOf-append, run, run_inv}
use dumbo_ucy.Rbc.Merkle.{Bytes, merkle_verify}
use dumbo_ucy.Rbc.Handler.{is_true}
use dumbo_ucy.Dispersal.{Params}
use dumbo_ucy.Dispersal.Disperse.{
  Msg, store_msg, stored, lock_msg, locked, Out, State, is_some, init, on_store, try_lock,
  on_stored, on_lock, try_done, on_locked, handle,
}
use dumbo_ucy.Dispersal.Disperse.Outputs.{
  not-false, Holds, Ended, After, IsSound, quiet, silent, end_with-After, first_store, first_lock,
}

module _ {Sid Digest Share Sig : Type 0} (p : Params Sid Digest Share Sig) where
  on_store-After :
      (s : State Share Sig) (outs : List (Out Sid Share Sig)) (sender : ℕ) (sid : Sid)
      (root stripe : Bytes) (branch : List Bytes)
      → Holds p s outs
      → After p outs (on_store p s sender sid root stripe branch)
  unfolding on_store
  on_store-After s outs sender sid root stripe branch h =
      let kept = silent p s (record s { roothash = root }) outs refl refl refl refl h in
      on_if (After p outs) (not (sender == p.leader)) (λ _. kept)
        (λ _.
          on_if (After p outs) (not (s.recstorefromleader == 0)) (λ _. kept)
            (λ zero.
              on_if (After p outs) (is_true (merkle_verify p.hash p.n stripe root branch p.pid))
                (λ v.
                  end_with-After p _ outs _ (is_some s.lock) (λ c. (refl, c))
                    (first_store p s outs sid root stripe branch _ (not-false _ zero) v h))
                (λ _. kept)))

  on_lock-After :
      (s : State Share Sig) (outs : List (Out Sid Share Sig)) (sender : ℕ) (sid : Sid)
      (root : Bytes) (sigma1 : Sig)
      → Holds p s outs
      → After p outs (on_lock p s sender sid root sigma1)
  unfolding on_lock
  on_lock-After s outs sender sid root sigma1 h =
      let kept = silent p s (record s { roothash = root }) outs refl refl refl refl h in
      on_if (After p outs) (not (sender == p.leader)) (λ _. kept)
        (λ _.
          on_if (After p outs) (not (s.reclockfromleader == 0)) (λ _. kept)
            (λ zero.
              on_if (After p outs) (p.verify_signature sigma1 (p.stored_hash sid root))
                (λ v.
                  end_with-After p _ outs _ (is_some s.store) (λ c. (c, refl))
                    (first_lock p s outs sid root sigma1 _ (not-false _ zero) v h))
                (λ _. kept)))

  try_lock-After :
      (s : State Share Sig) (outs : List (Out Sid Share Sig)) (sid : Sid)
      → Holds p s outs
      → After p outs (try_lock p s sid)
  unfolding try_lock
  try_lock-After s outs sid h =
      on_if (After p outs)
        (leb (2 * p.f + 1) (length (get_or_default s.stored_by [] s.roothash)) && not s.lock_sent)
        (λ _.
          quiet p s (record s { lock_sent = true }) outs _ refl refl refl refl refl refl (tt, tt) h)
        (λ _. silent p s s outs refl refl refl refl h)

  on_stored-After :
      (s : State Share Sig) (outs : List (Out Sid Share Sig)) (sender : ℕ) (sid : Sid)
      (sigma : Share)
      → Holds p s outs
      → After p outs (on_stored p s sender sid sigma)
  unfolding on_stored
  on_stored-After s outs sender sid sigma h =
      let kept = silent p s s outs refl refl refl refl h in
      on_if (After p outs) (not (p.pid == p.leader)) (λ _. kept)
        (λ _.
          on_if (After p outs) (not (ltb sender p.n)) (λ _. tt)
            (λ _.
              on_if (After p outs) (not (s.recstored sender == 0)) (λ _. kept)
                (λ _.
                  on_if (After p outs) (p.verify_share sigma sender (p.stored_hash sid s.roothash))
                    (λ _. try_lock-After _ outs sid (record {
                      stores = h.stores;
                      locks = h.locks;
                      store_count = h.store_count;
                      lock_count = h.lock_count;
                      sound = h.sound;
                    }))
                    (λ _. kept))))

  try_done-After :
      (s : State Share Sig) (outs : List (Out Sid Share Sig)) (sid : Sid)
      → (p.pid == p.leader) ≡ true
      → Holds p s outs
      → After p outs (try_done p s sid)
  unfolding try_done
  try_done-After s outs sid leads h =
      on_if (After p outs)
        (leb (2 * p.f + 1) (length (get_or_default s.locked_by [] s.roothash)) && not s.done_sent)
        (λ _. record {
          sound = AllOf-append (IsSound p) outs _ h.sound (tt, tt);
          result = refl;
          both = λ other. absurd (cc (leads, other));
        })
        (λ _. silent p s s outs refl refl refl refl h)

  on_locked-After :
      (s : State Share Sig) (outs : List (Out Sid Share Sig)) (sender : ℕ) (sid : Sid)
      (sigma2 : Share)
      → Holds p s outs
      → After p outs (on_locked p s sender sid sigma2)
  unfolding on_locked
  on_locked-After s outs sender sid sigma2 h =
      let kept = silent p s s outs refl refl refl refl h in
      on_if (After p outs) (not (p.pid == p.leader)) (λ _. kept)
        (λ leads.
          on_if (After p outs) (not (ltb sender p.n)) (λ _. tt)
            (λ _.
              on_if (After p outs) (not (s.reclocked sender == 0)) (λ _. kept)
                (λ _.
                  on_if (After p outs) (p.verify_share sigma2 sender (p.locked_hash sid s.roothash))
                    (λ _. try_done-After _ outs sid (not-false _ leads) (record {
                      stores = h.stores;
                      locks = h.locks;
                      store_count = h.store_count;
                      lock_count = h.lock_count;
                      sound = h.sound;
                    }))
                    (λ _. kept))))

  handle-After :
      (s : State Share Sig) (a : ℕ × Msg Sid Share Sig) (outs : List (Out Sid Share Sig))
      → Holds p s outs
      → After p outs (handle p s a)
  unfolding handle
  handle-After s (sender, store_msg sid root stripe branch) outs h =
      on_store-After s outs sender sid root stripe branch h
  handle-After s (sender, stored sid sigma) outs h = on_stored-After s outs sender sid sigma h
  handle-After s (sender, lock_msg sid root sigma1) outs h =
      on_lock-After s outs sender sid root sigma1 h
  handle-After s (sender, locked sid sigma2) outs h = on_locked-After s outs sender sid sigma2 h

  -- Whatever arrives: while a call of a dispersal waits, it has put out at most one store and at
  -- most one lock, which
  -- are the store and the lock that its state holds; each store has the party's own stripe, with a branch that
  -- verifies under its root hash, and each lock a signature that verifies for it. A call that
  -- returns has put out one of each, unless the party is the leader.
  pub run-Holds :
      (root : Bytes) (msgs : List (ℕ × Msg Sid Share Sig))
      → AtEnd
          (Holds p)
          (Ended p)
          (λ _. Unit {0})
          (run (handle p) (init p root) msgs).0
          (run (handle p) (init p root) msgs).1
  run-Holds root msgs =
      run_inv (handle p) (Holds p) (Ended p) (λ _. Unit {0}) (λ s a outs h. handle-After s a outs h)
        msgs (init p root) []
        (record { stores = refl; locks = refl; store_count = refl; lock_count = refl; sound = tt })
