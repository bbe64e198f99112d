-- ===== src/Broadcast/Provable/Signing.antt =====
-- A party signs at most one READY of an instance.
use mathlib.Core.List.{append-nil}
use dumbo_ucy.Shared.{
  ℕ, ◌+◌, ◌≤◌, ◌≡◌, refl, Bool, not, Option, none, some, List, [], ◌∷◌, ◌++◌, ◌==◌, nat_comparable,
  bytes_comparable, ltb, leb, ◌&&◌, ◌||◌, if◌then◌else◌, length, arith, on_if,
}
use dumbo_ucy.Shared.Dict.{contains}
use dumbo_ucy.Shared.Loop.{Turn, End, waiting, returned, failed, AfterTurn, AtEnd, run, run_inv}
use dumbo_ucy.Rbc.Merkle.{Bytes, merkle_verify}
use dumbo_ucy.Rbc.Handler
use dumbo_ucy.Broadcast.Provable.{
  Params, Msg, val, echo, ready, Out, to, to_all, signs, State, Proof, init, output_threshold,
  on_val, send_ready, record_echo, check_echo, record_ready, finish, output, accept_ready, on_ready,
  handle,
}

module _ {Digest Sig : Type 0} where
  -- How often the secret key was used.
  abbrev pub signatures : List (Out Digest Sig) → ℕ
  signatures [] = 0
  signatures (to i o ∷ outs) = signatures outs
  signatures (to_all o ∷ outs) = signatures outs
  signatures (signs d ∷ outs) = signatures outs + 1

  -- The digests that were signed, in order.
  abbrev pub signed : List (Out Digest Sig) → List Digest
  signed [] = []
  signed (to i o ∷ outs) = signed outs
  signed (to_all o ∷ outs) = signed outs
  signed (signs d ∷ outs) = d ∷ signed outs

  pub length-signed : (outs : List (Out Digest Sig)) → length (signed outs) ≡ signatures outs
  length-signed [] = refl
  length-signed (to i o ∷ outs) = length-signed outs
  length-signed (to_all o ∷ outs) = length-signed outs
  length-signed (signs d ∷ outs) = omega (arith, length-signed outs)

  signatures-append :
      (xs ys : List (Out Digest Sig)) → signatures (xs ++ ys) ≡ signatures xs + signatures ys
  signatures-append [] ys = omega arith
  signatures-append (to i o ∷ xs) ys = signatures-append xs ys
  signatures-append (to_all o ∷ xs) ys = signatures-append xs ys
  signatures-append (signs d ∷ xs) ys = omega (arith, signatures-append xs ys)

module _ {Digest Sig : Type 0} (p : Params Digest Sig) where
  abbrev Result : Type 0
  Result = Bytes × Proof Sig

  abbrev Signed : State Sig → List (Out Digest Sig) → Type 0
  Signed s outs = signatures outs ≡ (if s.rbc.ready_sent then 1 else 0)

  abbrev AtMostOne : List (Out Digest Sig) → Type 0
  AtMostOne outs = signatures outs ≤ 1

  abbrev After : List (Out Digest Sig) → Turn (State Sig) (Out Digest Sig) Result → Type 0
  After = AfterTurn Signed (λ r outs. AtMostOne outs) AtMostOne

  at_most : (s : State Sig) (outs : List (Out Digest Sig)) → Signed s outs → AtMostOne outs
  at_most s outs h = ground (arith, h)

  send_ready-Signed :
      (enough : Bool) (s : State Sig) (r : Bytes) (outs : List (Out Digest Sig))
      → Signed s outs
      → Signed (send_ready p enough s r).0 (outs ++ (send_ready p enough s r).1)
  unfolding send_ready
  send_ready-Signed enough s r outs h =
      on_if (λ (o : State Sig × List (Out Digest Sig)). Signed o.0 (outs ++ o.1))
        (enough && not s.rbc.ready_sent)
        (λ c. ground (
          arith,
          signatures-append outs (signs (p.digest r) ∷ to_all (ready r (p.sign (p.digest r))) ∷ []),
          h,
        ))
        (λ c. rw append-nil h)

  quiet :
      (s s' : State Sig) (outs o : List (Out Digest Sig))
      → signatures o ≡ 0
      → s'.rbc.ready_sent ≡ s.rbc.ready_sent
      → Signed s outs
      → Signed s' (outs ++ o)
  quiet s s' outs o q e h = ground (arith, signatures-append outs o, q, e, h)

  on_val-After :
      (s : State Sig) (i : ℕ) (r : Bytes) (branch : List Bytes) (b : Bytes) (o : Option Bytes)
      (outs : List (Out Digest Sig))
      → Signed s outs
      → After outs (on_val p s i r branch b o)
  unfolding on_val
  on_val-After s i r branch b (some root) outs h = quiet s s outs [] refl refl h
  on_val-After s i r branch b none outs h =
      on_if (After outs) (not (i == p.rbc.leader)) (λ c. quiet s s outs [] refl refl h)
        (λ c.
          on_if (After outs)
            (Handler.is_true (merkle_verify p.rbc.hash p.rbc.n b r branch p.rbc.pid))
            (λ c'.
              quiet s (record s { rbc = record s.rbc { from_leader = some r } }) outs
                (to_all (echo r branch b) ∷ []) refl refl h)
            (λ c'. quiet s s outs [] refl refl h))

  check_echo-After :
      (s : State Sig) (i : ℕ) (r : Bytes) (branch : List Bytes) (b : Bytes) (o : Option Bool)
      (outs : List (Out Digest Sig))
      → Signed s outs
      → After outs (check_echo p s i r branch b o)
  unfolding check_echo record_echo Handler.record_echo
  check_echo-After s i r branch b none outs h = rw append-nil (at_most s outs h)
  check_echo-After s i r branch b (some known) outs h =
      on_if (After outs) (known || contains s.rbc.echo_senders i)
        (λ c. quiet s s outs [] refl refl h)
        (λ c.
          on_if (After outs) (Handler.is_true (merkle_verify p.rbc.hash p.rbc.n b r branch i))
            (λ c'. send_ready-Signed _ (record_echo p s i r b) r outs h)
            (λ c'. quiet s s outs [] refl refl h))

  finish-After :
      (s : State Sig) (sent : List (Out Digest Sig)) (r : Bytes) (o : Option Bytes)
      (outs : List (Out Digest Sig))
      → Signed s (outs ++ sent)
      → After outs (finish p s sent r o)
  unfolding finish
  finish-After s sent r none outs h = at_most s (outs ++ sent) h
  finish-After s sent r (some value) outs h = at_most s (outs ++ sent) h

  accept_ready-After :
      (s : State Sig) (i : ℕ) (r : Bytes) (sig : Sig) (outs : List (Out Digest Sig))
      → Signed s outs
      → After outs (accept_ready p s i r sig)
  unfolding accept_ready record_ready Handler.record_ready output
  accept_ready-After s i r sig outs h =
      let s' = record_ready p s i r sig in
      let enough =
        leb (Handler.ready_threshold p.rbc) (length (Handler.readies_of p.rbc s'.rbc r)) in
      let (s'', sent) = send_ready p enough s' r in
      let h' = send_ready-Signed enough s' r outs h in
      on_if (After outs)
        (leb (output_threshold p) (length (Handler.readies_of p.rbc s''.rbc r))
          && leb (Handler.recover_threshold p.rbc) (Handler.echoes p.rbc s''.rbc r))
        (λ c. finish-After s'' sent r (Handler.decode_output p.rbc s''.rbc r) outs h') (λ c. h')

  handle-After :
      (s : State Sig) (a : ℕ × Msg Sig) (outs : List (Out Digest Sig))
      → Signed s outs
      → After outs (handle p s a)
  unfolding handle on_ready
  handle-After s (i, val r branch b) outs h = on_val-After s i r branch b s.rbc.from_leader outs h
  handle-After s (i, echo r branch b) outs h =
      check_echo-After s i r branch b (Handler.has_stripe p.rbc s.rbc r i) outs h
  handle-After s (i, ready r sig) outs h =
      on_if (After outs)
        (contains (Handler.readies_of p.rbc s.rbc r) i || contains s.rbc.ready_senders i)
        (λ c. quiet s s outs [] refl refl h)
        (λ c.
          on_if (After outs) (ltb i p.rbc.n)
            (λ c'.
              on_if (After outs) (p.vrfy i (p.digest r) sig)
                (λ v. accept_ready-After s i r sig outs h)
                (λ v.
                  on_if (After outs) (p.raises sig) (λ _. rw append-nil (at_most s outs h))
                    (λ _. quiet s s outs [] refl refl h)))
            (λ c'. rw append-nil (at_most s outs h)))

  at_end :
      (outs : List (Out Digest Sig)) (t : End (State Sig) Result)
      → AtEnd Signed (λ r o. AtMostOne o) AtMostOne outs t
      → AtMostOne outs
  at_end outs (waiting s) h = at_most s outs h
  at_end outs (returned r) h = h
  at_end outs failed h = h

  -- In one instance and whatever messages arrive, a party uses its secret key at most once, so it
  -- signs READY for at most one root hash.
  pub signs_one_ready :
      (msgs : List (ℕ × Msg Sig)) → signatures (run (handle p) (init p) msgs).0 ≤ 1
  signs_one_ready msgs =
      at_end (run (handle p) (init p) msgs).0 (run (handle p) (init p) msgs).1 (
        run_inv (handle p) Signed (λ r o. AtMostOne o) AtMostOne handle-After msgs (init p) [] refl)
