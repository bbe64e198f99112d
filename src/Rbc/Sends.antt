-- ===== src/Rbc/Sends.antt =====
-- What one party sends in a run of `reliablebroadcast` after its start.
use dumbo_ucy.Shared.{
  ℕ, ◌≤◌, ◌<◌, ◌≡◌, ◌⊎◌, refl, Bool, true, false, not, Option, none, some, List, [], ◌++◌, ◌==◌,
  nat_comparable, bytes_comparable, ltb, leb, leb→le, ◌&&◌, ◌||◌, arith, if◌then◌else◌, length,
  list_beq_iff, Bool-cases, inl, inr, ==_refl,
}
use mathlib.Core.List.{append-nil}
use dumbo_ucy.Shared.Dict.{contains, length-add}
use dumbo_ucy.Shared.Loop.{Turn, AfterTurn, AtEnd, run, run_inv}
use dumbo_ucy.Rbc.Merkle.{Bytes, merkle_verify}
use dumbo_ucy.Rbc.Handler.{
  Params, Msg, val, echo, ready, Sent, State, init, echoes, readies_of, decode_output, finish,
  output, send_ready, has_stripe, on_val, on_echo, check_echo, on_ready, record_echo, record_ready,
  handle, is_true, echo_threshold, ready_threshold, output_threshold, recover_threshold, broadcast,
}
use dumbo_ucy.Rbc.Bookkeeping.{echoes-record_echo, readies_of-record_ready}
use dumbo_ucy.Rbc.Counting.{
  is_echo, is_ready, is_ready_for, count, count-append, count-broadcast, count_for-le,
}

abbrev pub is_some : Option Bytes → Bool
is_some none = false
is_some (some b) = true

-- The quorum behind a READY for `r`.
abbrev pub Quorum : Params → State → Bytes → Type 0
Quorum p s r = (echo_threshold p ≤ echoes p s r) ⊎ (ready_threshold p ≤ length (readies_of p s r))

-- The root hash of the one READY broadcast, and its quorum.
pub record Cause (p : Params) (s : State) (outs : List Sent) : Type 0 where
  pub root : Bytes
  pub all : (j : ℕ) → j < p.n → count j (is_ready_for root) outs ≡ 1
  pub quorum : Quorum p s root

pub record SendsOnce (p : Params) (s : State) (outs : List Sent) : Type 0 where
  pub echoed :
      (j : ℕ) → count j is_echo outs ≡ (if is_some s.from_leader && ltb j p.n then 1 else 0)
  pub readied : (j : ℕ) → count j is_ready outs ≡ (if s.ready_sent && ltb j p.n then 1 else 0)
  pub cause : s.ready_sent ≡ true → Cause p s outs

-- At most one message to each party, and none to others.
pub record AtMostOnce (p : Params) (outs : List Sent) : Type 0 where
  pub echoed : (j : ℕ) → count j is_echo outs ≤ (if ltb j p.n then 1 else 0)
  pub readied : (j : ℕ) → count j is_ready outs ≤ (if ltb j p.n then 1 else 0)

module _ (p : Params) where
  abbrev After : List Sent → Turn State Sent Bytes → Type 0
  After = AfterTurn (SendsOnce p) (λ m outs. AtMostOnce p outs) (AtMostOnce p)

  bounded : {s : State} {outs : List Sent} → SendsOnce p s outs → AtMostOnce p outs
  bounded {s} {outs} h = record {
    echoed = λ j. ground (arith, h.echoed j);
    readied = λ j. ground (arith, h.readied j);
  }

  silent : {s : State} {outs : List Sent} → SendsOnce p s outs → SendsOnce p s (outs ++ [])
  silent {s} {outs} h = rw append-nil h

  output_sends :
      (s : State) (sent outs : List Sent) (r : Bytes)
      → SendsOnce p s (outs ++ sent)
      → After outs (output p s sent r)
  unfolding output finish
  output_sends s sent outs r h =
      elim (Bool-cases (
        leb (output_threshold p) (length (readies_of p s r))
        && leb (recover_threshold p) (echoes p s r))) [
          | inl full ↦ rw full (finish_sends (decode_output p s r))
          | inr short ↦ rw short h
        ]
    where
      finish_sends : (o : Option Bytes) → After outs (finish p sent o)
      finish_sends none = bounded h
      finish_sends (some m) = bounded h

  send_ready_sends :
      (enough : Bool) (s : State) (r : Bytes) (outs : List Sent)
      → (enough ≡ true → Quorum p s r)
      → SendsOnce p s outs
      → SendsOnce p (send_ready p enough s r).0 (outs ++ (send_ready p enough s r).1)
  unfolding send_ready
  send_ready_sends enough s r outs q h = elim (Bool-cases (enough && not s.ready_sent)) [
    | inr keeps ↦ rw keeps (silent h)
    | inl sends ↦ rw sends (record {
      echoed = λ j. ground (
        arith,
        h.echoed j,
        count-append j is_echo outs (broadcast p (ready r)),
        count-broadcast p j is_echo (ready r),
      );
      readied = λ j. ground (
        arith,
        h.readied j,
        count-append j is_ready outs (broadcast p (ready r)),
        count-broadcast p j is_ready (ready r),
      );
      cause = λ _. record {
        root = r;
        all = λ j lt. ground (
          arith,
          h.readied j,
          count_for-le j r outs,
          count-append j (is_ready_for r) outs (broadcast p (ready r)),
          count-broadcast p j (is_ready_for r) (ready r),
          ==_refl r,
        );
        quorum = q (ground arith);
      };
    })
  ]

  record_echo_sends :
      (s : State) (sender : ℕ) (r b : Bytes) (outs : List Sent)
      → SendsOnce p s outs
      → SendsOnce p (record_echo p s sender r b) outs
  unfolding record_echo
  record_echo_sends s sender r b outs h = record {
    echoed = h.echoed;
    readied = h.readied;
    cause = λ e.
        let c = h.cause e in
        record {
          root = c.root;
          all = c.all;
          quorum =
              ground
                (arith, c.quorum, echoes-record_echo p s sender r b c.root, list_beq_iff r c.root);
        };
  }

  record_ready_sends :
      (s : State) (sender : ℕ) (r : Bytes) (outs : List Sent)
      → SendsOnce p s outs
      → SendsOnce p (record_ready p s sender r) outs
  unfolding record_ready
  record_ready_sends s sender r outs h = record {
    echoed = h.echoed;
    readied = h.readied;
    cause = λ e.
        let c = h.cause e in
        record {
          root = c.root;
          all = c.all;
          quorum = ground (
            arith,
            c.quorum,
            readies_of-record_ready p s sender r c.root,
            length-add (readies_of p s r) sender,
            list_beq_iff r c.root,
          );
        };
  }

  on_val_sends :
      (s : State) (sender : ℕ) (r b : Bytes) (branch : List Bytes) (outs : List Sent)
      → SendsOnce p s outs
      → After outs (on_val p s sender r branch b)
  unfolding on_val
  on_val_sends s sender r b branch outs h = first s.from_leader refl
    where
      first : (o : Option Bytes) → s.from_leader ≡ o → After outs (on_val p s sender r branch b)
      first (some root) e = rw (e, on_val) (silent h)
      first none e = elim (Bool-cases (sender == p.leader)) [
        | inr other ↦ rw (e, on_val, other) (silent h)
        | inl same ↦ elim (Bool-cases (is_true (merkle_verify p.hash p.n b r branch p.pid))) [
          | inr bad ↦ rw (e, on_val, same, bad) (silent h)
          | inl good ↦
              rw (e, on_val, same, good)
                (record {
                  echoed = λ j. ground (
                    arith,
                    h.echoed j,
                    count-append j is_echo outs (broadcast p (echo r branch b)),
                    count-broadcast p j is_echo (echo r branch b),
                  );
                  readied = λ j. ground (
                    arith,
                    h.readied j,
                    count-append j is_ready outs (broadcast p (echo r branch b)),
                    count-broadcast p j is_ready (echo r branch b),
                  );
                  cause = λ sent.
                      let c = h.cause sent in
                      record {
                        root = c.root;
                        all = λ j lt. ground (
                          arith,
                          c.all j lt,
                          count-append j (is_ready_for c.root) outs (broadcast p (echo r branch b)),
                          count-broadcast p j (is_ready_for c.root) (echo r branch b),
                        );
                        quorum = c.quorum;
                      };
                })
        ]
      ]

  check_echo_sends :
      (s : State) (sender : ℕ) (r b : Bytes) (branch : List Bytes) (o : Option Bool)
      (outs : List Sent)
      → SendsOnce p s outs
      → After outs (check_echo p s sender r branch b o)
  unfolding check_echo
  check_echo_sends s sender r b branch none outs h = bounded (silent h)
  check_echo_sends s sender r b branch (some true) outs h = silent h
  check_echo_sends s sender r b branch (some false) outs h =
      elim (Bool-cases (contains s.echo_senders sender)) [
        | inl old ↦ rw old (silent h)
        | inr new ↦ elim (Bool-cases (is_true (merkle_verify p.hash p.n b r branch sender))) [
          | inr bad ↦ rw (new, bad) (silent h)
          | inl good ↦
              let s' = record_echo p s sender r b in
              rw (new, good)
                (output_sends _ _ outs r (
                  send_ready_sends _ s' r outs
                    (λ e. inl (leb→le (echo_threshold p) (echoes p s' r) e))
                    (record_echo_sends s sender r b outs h)))
        ]
      ]

  on_ready_sends :
      (s : State) (sender : ℕ) (r : Bytes) (outs : List Sent)
      → SendsOnce p s outs
      → After outs (on_ready p s sender r)
  unfolding on_ready
  on_ready_sends s sender r outs h =
      elim (Bool-cases (contains (readies_of p s r) sender || contains s.ready_senders sender)) [
        | inl old ↦ rw old (silent h)
        | inr new ↦
            let s' = record_ready p s sender r in
            rw new (
              output_sends _ _ outs r (
                send_ready_sends _ s' r outs
                  (λ e. inr (leb→le (ready_threshold p) (length (readies_of p s' r)) e))
                  (record_ready_sends s sender r outs h)))
      ]

  handle_sends :
      (s : State) (a : ℕ × Msg) (outs : List Sent) → SendsOnce p s outs → After outs (handle p s a)
  unfolding handle on_echo
  handle_sends s (i, val r branch b) outs h = on_val_sends s i r b branch outs h
  handle_sends s (i, echo r branch b) outs h =
      check_echo_sends s i r b branch (has_stripe p s r i) outs h
  handle_sends s (i, ready r) outs h = on_ready_sends s i r outs h

  init_sends : SendsOnce p init []
  unfolding count
  init_sends = record { echoed = λ j. refl; readied = λ j. refl; cause = λ e. absurd cc }

  -- Whatever messages arrive: while the loop waits, each party has been sent ECHO exactly once if
  -- the leader's VAL was accepted and never otherwise; each party has been sent READY exactly once
  -- if READY is marked as sent and never otherwise, all for one root hash, for which the state
  -- holds N - f ECHO or f + 1 READY messages; where the loop has ended, by a return or an
  -- exception, no party has been sent more than one message of either kind; and no message of
  -- these kinds has ever gone to a number that is not that of a party.
  pub run-SendsOnce :
      (msgs : List (ℕ × Msg))
      → AtEnd
          (SendsOnce p)
          (λ (m : Bytes) outs. AtMostOnce p outs)
          (AtMostOnce p)
          (run (handle p) init msgs).0
          (run (handle p) init msgs).1
  run-SendsOnce msgs =
      run_inv (handle p) (SendsOnce p) (λ m outs. AtMostOnce p outs) (AtMostOnce p) handle_sends
        msgs init [] init_sends
