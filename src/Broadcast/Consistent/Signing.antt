-- ===== src/Broadcast/Consistent/Signing.antt =====
-- A party signs at most one digest in an instance, whatever it receives.
use mathlib.Core.List.{append-nil}
use dumbo_ucy.Shared.{
  ℕ, ◌-◌, ◌≤◌, ◌≡◌, refl, not, Option, none, some, List, [], ◌∷◌, ◌++◌, Comparable, ◌==◌,
  nat_comparable, leb, ◌&&◌, arith, length, Bool-cases, inl, inr, ap, ◌∙◌,
}
use dumbo_ucy.Shared.Dict.{put}
use dumbo_ucy.Shared.Loop.{Turn, End, waiting, returned, failed, AfterTurn, AtEnd, run, run_inv}
use dumbo_ucy.Broadcast.Consistent.{
  Params, Msg, cbc_send, cbc_echo, cbc_final, Out, to, to_all, signs, State, Verdict, good, bad,
  crash, start, check_final, on_send, check_echo, accept_echo, checked_echo, checked_final, on_echo,
  on_final, handle,
}

module _ {Digest : Type 0} where
  abbrev option_list : Option Digest → List Digest
  option_list none = []
  option_list (some d) = d ∷ []

  length-option_list : (o : Option Digest) → length (option_list o) ≤ 1
  length-option_list none = omega arith
  length-option_list (some d) = omega arith

module _ {Val Digest Sig : Type 0} where
  -- The digests that were signed, in order.
  abbrev pub signed : List (Out Val Digest Sig) → List Digest
  signed [] = []
  signed (to i o ∷ outs) = signed outs
  signed (to_all o ∷ outs) = signed outs
  signed (signs d ∷ outs) = d ∷ signed outs

  signed-append : (xs ys : List (Out Val Digest Sig)) → signed (xs ++ ys) ≡ signed xs ++ signed ys
  signed-append [] ys = refl
  signed-append (to i o ∷ xs) ys = signed-append xs ys
  signed-append (to_all o ∷ xs) ys = signed-append xs ys
  signed-append (signs d ∷ xs) ys = ap (λ l. d ∷ l) (signed-append xs ys)

module _ {Val Digest Sig : Type 0} ⦃e : Comparable Sig⦄ (p : Params Val Digest Sig) where
  abbrev Result : Type 0
  Result = Val × List (ℕ × Sig)

  abbrev Signed : State Val Digest Sig → List (Out Val Digest Sig) → Type 0
  Signed s outs = signed outs ≡ option_list s.digest_from_leader

  abbrev AtMostOne : List (Out Val Digest Sig) → Type 0
  AtMostOne outs = length (signed outs) ≤ 1

  abbrev After :
      List (Out Val Digest Sig) → Turn (State Val Digest Sig) (Out Val Digest Sig) Result → Type 0
  After = AfterTurn Signed (λ r outs. AtMostOne outs) AtMostOne

  at_most :
      (s : State Val Digest Sig) (outs : List (Out Val Digest Sig))
      → Signed s outs
      → AtMostOne (outs ++ [])
  at_most s outs h = rw (append-nil, h) (length-option_list s.digest_from_leader)

  -- What is sent without a signature.
  keep :
      (d : Option Digest) (outs o : List (Out Val Digest Sig))
      → signed o ≡ []
      → signed outs ≡ option_list d
      → signed (outs ++ o) ≡ option_list d
  keep d outs o quiet h = rw (signed-append outs o, quiet, append-nil, h)

  send-After :
      (s : State Val Digest Sig) (j : ℕ) (m : Val) (outs : List (Out Val Digest Sig))
      → Signed s outs
      → After outs (on_send p s j m)
  unfolding on_send
  send-After s j m outs h = first s.digest_from_leader refl
    where
      first : (o : Option Digest) → s.digest_from_leader ≡ o → After outs (on_send p s j m)
      first (some d) had = rw (had, on_send) (rw (append-nil, h, had))
      first none fresh = elim (Bool-cases (j == p.leader)) [
        | inr other ↦ rw (fresh, on_send, other) (rw (append-nil, h, fresh))
        | inl same ↦ rw (fresh, on_send, same) (signed-append outs _ ∙ rw (h, fresh))
      ]

  echo-After :
      (s : State Val Digest Sig) (j : ℕ) (sig : Sig) (v : Verdict)
      (outs : List (Out Val Digest Sig))
      → Signed s outs
      → After outs (checked_echo p s j sig v)
  unfolding checked_echo accept_echo
  echo-After s j sig bad outs h = keep s.digest_from_leader outs [] refl h
  echo-After s j sig crash outs h = at_most s outs h
  echo-After s j sig good outs h =
      elim (Bool-cases (leb (p.n - p.f) (length (put s.echo_sshares j sig)) && not s.final_sent)) [
        | inl full ↦ rw full (keep s.digest_from_leader outs _ refl h)
        | inr short ↦ rw short (keep s.digest_from_leader outs [] refl h)
      ]

  final-After :
      (s : State Val Digest Sig) (m : Val) (sigmas : List (ℕ × Sig)) (v : Verdict)
      (outs : List (Out Val Digest Sig))
      → Signed s outs
      → After outs (checked_final p s m sigmas v)
  unfolding checked_final
  final-After s m sigmas good outs h = at_most s outs h
  final-After s m sigmas bad outs h = keep s.digest_from_leader outs [] refl h
  final-After s m sigmas crash outs h = at_most s outs h

  handle-After :
      (s : State Val Digest Sig) (a : ℕ × Msg Val Sig) (outs : List (Out Val Digest Sig))
      → Signed s outs
      → After outs (handle p s a)
  unfolding handle on_echo on_final
  handle-After s (j, cbc_send m) outs h = send-After s j m outs h
  handle-After s (j, cbc_echo sig) outs h = elim (Bool-cases (p.pid == p.leader)) [
    | inl leads ↦ rw leads (echo-After s j sig (check_echo p s j sig) outs h)
    | inr follows ↦ rw follows (keep s.digest_from_leader outs [] refl h)
  ]
  handle-After s (j, cbc_final m sigmas) outs h = elim (Bool-cases (j == p.leader)) [
    | inl leader ↦ rw leader (final-After s m sigmas (check_final p m sigmas) outs h)
    | inr other ↦ rw other (keep s.digest_from_leader outs [] refl h)
  ]

  start-Signed : (m : Val) → Signed (start p m).0 (start p m).1
  unfolding start
  start-Signed m = elim (Bool-cases (p.pid == p.leader)) [
    | inl leads ↦ rw leads
    | inr follows ↦ rw follows
  ]

  -- All that leaves one instance with input `m`, from its start on.
  abbrev pub total : Val → List (ℕ × Msg Val Sig) → List (Out Val Digest Sig)
  total m msgs = (start p m).1 ++ (run (handle p) (start p m).0 msgs).0

  at_end :
      (outs : List (Out Val Digest Sig)) (t : End (State Val Digest Sig) Result)
      → AtEnd Signed (λ r o. AtMostOne o) AtMostOne outs t
      → AtMostOne outs
  at_end outs (waiting s) h = rw h (length-option_list s.digest_from_leader)
  at_end outs (returned r) h = h
  at_end outs failed h = h

  -- In one instance, from its start on and whatever messages arrive, a party uses its secret key
  -- at most once.
  pub signs_once : (m : Val) (msgs : List (ℕ × Msg Val Sig)) → length (signed (total m msgs)) ≤ 1
  signs_once m msgs = at_end (total m msgs) (run (handle p) (start p m).0 msgs).1 (
      run_inv (handle p) Signed (λ r o. AtMostOne o) AtMostOne handle-After msgs (start p m).0
        (start p m).1 (start-Signed m))
