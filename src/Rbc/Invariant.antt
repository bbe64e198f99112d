-- ===== src/Rbc/Invariant.antt =====
-- What every reachable state of one broadcast instance satisfies.
use dumbo_ucy.Shared.{
  ℕ, ◌≤◌, ◌≡◌, refl, Bool, true, false, not, Option, none, some, List, [], ◌==◌, nat_comparable,
  bytes_comparable, leb, ◌&&◌, ◌||◌, arith, length, Bool-cases, inl, inr, ap,
}
use dumbo_ucy.Shared.Dict.{contains}
use dumbo_ucy.Shared.Loop.{Turn, AfterTurn, AtEnd, run, run_inv}
use dumbo_ucy.Rbc.Merkle.{Bytes, merkle_verify}
use dumbo_ucy.Rbc.Coding.RoundTrip.{present}
use dumbo_ucy.Rbc.Handler.{
  Params, Msg, val, echo, ready, Sent, State, init, stripes_of, echoes, readies_of, decode_output,
  finish, output, send_ready, has_stripe, on_val, on_echo, check_echo, on_ready, record_echo,
  record_ready, handle, is_true, output_threshold, recover_threshold,
}
use dumbo_ucy.Rbc.Bookkeeping.{IsValid, init-IsValid, record_ready-IsValid, record_echo-IsValid}

of_is_true : (o : Option Bool) → is_true o ≡ true → o ≡ some true
of_is_true none h = cc
of_is_true (some b) h = ap some h

-- A value that the loop returned, with the state in which it was decoded.
pub record Delivered (p : Params) (m : Bytes) : Type 0 where
  pub state : State
  pub root : Bytes
  pub valid : IsValid p state
  pub quorum : output_threshold p ≤ length (readies_of p state root)
  pub enough : recover_threshold p ≤ present (stripes_of p state root)
  pub decoded : decode_output p state root ≡ some m

module _ (p : Params) where
  abbrev pub Holds : State → List Sent → Type 0
  Holds s outs = IsValid p s

  abbrev pub Returns : Bytes → List Sent → Type 0
  Returns m outs = Delivered p m

  abbrev pub Fails : List Sent → Type 0
  Fails outs = Unit

  abbrev After : List Sent → Turn State Sent Bytes → Type 0
  After = AfterTurn Holds Returns Fails

  send_ready-IsValid :
      (enough : Bool) (s : State) (r : Bytes) → IsValid p s → IsValid p (send_ready p enough s r).0
  unfolding send_ready
  send_ready-IsValid enough s r v = elim (Bool-cases (enough && not s.ready_sent)) [
    | inl sends ↦ rw sends (record {
      widths = v.widths;
      counted = v.counted;
      checked = v.checked;
      distinct = v.distinct;
      voters = v.voters;
    })
    | inr keeps ↦ rw keeps v
  ]

  finish-After :
      (s : State) (sent outs : List Sent) (r : Bytes) (o : Option Bytes)
      → IsValid p s
      → output_threshold p ≤ length (readies_of p s r)
      → recover_threshold p ≤ present (stripes_of p s r)
      → decode_output p s r ≡ o
      → After outs (finish p sent o)
  unfolding finish
  finish-After s sent outs r none v q k e = tt
  finish-After s sent outs r (some m) v q k e = record {
    state = s;
    root = r;
    valid = v;
    quorum = q;
    enough = k;
    decoded = e;
  }

  output-After :
      (s : State) (sent outs : List Sent) (r : Bytes) → IsValid p s → After outs (output p s sent r)
  unfolding output
  output-After s sent outs r v =
      elim (Bool-cases (
        leb (output_threshold p) (length (readies_of p s r))
        && leb (recover_threshold p) (echoes p s r))) [
          | inl full ↦ rw full (
              finish-After s sent outs r (decode_output p s r) v (ground arith)
                (ground (arith, v.counted r)) refl)
          | inr short ↦ rw short v
        ]

  on_val-After :
      (s : State) (sender : ℕ) (r b : Bytes) (branch : List Bytes) (outs : List Sent)
      → IsValid p s
      → After outs (on_val p s sender r branch b)
  unfolding on_val
  on_val-After s sender r b branch outs v = first (s.from_leader) refl
    where
      first : (o : Option Bytes) → s.from_leader ≡ o → After outs (on_val p s sender r branch b)
      first (some root) e = rw (e, on_val) v
      first none e = elim (Bool-cases (sender == p.leader)) [
        | inr other ↦ rw (e, on_val, other) v
        | inl same ↦ elim (Bool-cases (is_true (merkle_verify p.hash p.n b r branch p.pid))) [
          | inr bad ↦ rw (e, on_val, same, bad) v
          | inl good ↦
              rw (e, on_val, same, good)
                (record {
                  widths = v.widths;
                  counted = v.counted;
                  checked = v.checked;
                  distinct = v.distinct;
                  voters = v.voters;
                })
        ]
      ]

  check_echo-After :
      (s : State) (sender : ℕ) (r b : Bytes) (branch : List Bytes) (o : Option Bool)
      (outs : List Sent)
      → IsValid p s
      → has_stripe p s r sender ≡ o
      → After outs (check_echo p s sender r branch b o)
  unfolding check_echo
  check_echo-After s sender r b branch none outs v e = tt
  check_echo-After s sender r b branch (some true) outs v e = v
  check_echo-After s sender r b branch (some false) outs v e =
      elim (Bool-cases (contains s.echo_senders sender)) [
        | inl old ↦ rw old v
        | inr new ↦ elim (Bool-cases (is_true (merkle_verify p.hash p.n b r branch sender))) [
          | inr bad ↦ rw (new, bad) v
          | inl good ↦
              let v' = record_echo-IsValid p s sender r b branch v e (of_is_true _ good) in
              rw (new, good)
                (output-After _ _ outs r (send_ready-IsValid _ (record_echo p s sender r b) r v'))
        ]
      ]

  on_ready-After :
      (s : State) (sender : ℕ) (r : Bytes) (outs : List Sent)
      → IsValid p s
      → After outs (on_ready p s sender r)
  unfolding on_ready
  on_ready-After s sender r outs v =
      elim (Bool-cases (contains (readies_of p s r) sender || contains s.ready_senders sender)) [
        | inl old ↦ rw old v
        | inr new ↦ rw new (
            output-After _ _ outs r (
              send_ready-IsValid _ (record_ready p s sender r) r
                (record_ready-IsValid p s sender r v)))
      ]

  handle-After :
      (s : State) (a : ℕ × Msg) (outs : List Sent) → IsValid p s → After outs (handle p s a)
  unfolding handle on_echo
  handle-After s (i, val r branch b) outs v = on_val-After s i r b branch outs v
  handle-After s (i, echo r branch b) outs v =
      check_echo-After s i r b branch (has_stripe p s r i) outs v refl
  handle-After s (i, ready r) outs v = on_ready-After s i r outs v

  -- Whatever messages arrive in whatever order: while the loop waits, each stripe list has one
  -- place per party, the ECHO counter of a root hash is the number of stripes kept for it, every
  -- kept stripe passed the Merkle check for its sender, and the READY senders of a root hash are
  -- distinct and recorded; and where the loop returns, it does so in such a state, with at least
  -- 2f + 1 READY senders, at least N - 2f stripes, and the value that they decode to.
  pub run-IsValid :
      (msgs : List (ℕ × Msg))
      → AtEnd Holds Returns Fails (run (handle p) init msgs).0 (run (handle p) init msgs).1
  run-IsValid msgs =
      run_inv (handle p) Holds Returns Fails handle-After msgs init [] (init-IsValid p)
