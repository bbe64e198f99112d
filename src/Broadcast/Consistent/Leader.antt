-- ===== src/Broadcast/Consistent/Leader.antt =====
-- The leader's own certificate passes the receivers' check.
use dumbo_ucy.Shared.{
  ℕ, zero, suc, ◌-◌, ◌≤◌, ◌<◌, ◌≡◌, refl, sym, Bool, true, false, not, ◌||◌, some, List, [], ◌∷◌,
  ◌++◌, Comparable, ◌==◌, nat_comparable, nat_beq_iff, leb, lt→ltb, ◌&&◌, arith, length, take,
  length-take, Bool-cases, inl, inr, ap, ◌∙◌,
}
use mathlib.Core.List.{append-nil}
use mathlib.Core.Path.{subst}
use dumbo_ucy.Shared.Dict.{Dict, put, contains, IsDistinct, length-put}
use dumbo_ucy.Shared.Loop.{AllOf, Turn, next, AfterTurn, AtEnd, run, gather, run_gathers}
use dumbo_ucy.Broadcast.Consistent.{
  Params, Msg, cbc_send, cbc_echo, cbc_final, Out, to, to_all, signs, State, good, bad, start,
  verify_all, has_pair, pair_set, check_final, check_echo, accept_echo, checked_echo, on_send,
  on_echo, on_final, handle,
}
use dumbo_ucy.Shared.Quorum.{count_below, count_below_added, count_below_only}
use dumbo_ucy.Shared.Signers.{
  contains-signers, contains-signers-put, signers, signers-put-IsDistinct, signers-take-IsDistinct,
}

module _ {Val Digest Sig : Type 0} ⦃e : Comparable Sig⦄ (p : Params Val Digest Sig) where
  verify_all-put :
      (d : Digest) (shares : Dict ℕ Sig) (j : ℕ) (sig : Sig)
      → verify_all p d shares ≡ good
      → j < p.n
      → p.vrfy j d sig ≡ true
      → verify_all p d (put shares j sig) ≡ good
  unfolding verify_all put
  verify_all-put d [] j sig h lt ok = ground arith
  verify_all-put d ((k, x) ∷ shares) j sig h lt ok =
      ground (arith, nat_beq_iff k j, verify_all-put d shares j sig)

  verify_all-take :
      (d : Digest) (n : ℕ) (shares : List (ℕ × Sig))
      → verify_all p d shares ≡ good
      → verify_all p d (take n shares) ≡ good
  unfolding verify_all
  verify_all-take d zero shares h = refl
  verify_all-take d (suc n) [] h = refl
  verify_all-take d (suc n) ((k, x) ∷ shares) h = ground (arith, verify_all-take d n shares)

  has_pair_absent :
      (sigmas : List (ℕ × Sig)) (a : ℕ × Sig)
      → contains (signers sigmas) a.0 ≡ false
      → has_pair p sigmas a ≡ false
  unfolding has_pair contains
  has_pair_absent [] a h = refl
  has_pair_absent (x ∷ sigmas) a h = ground (arith, has_pair_absent sigmas a)

  pair_set_distinct :
      (sigmas : List (ℕ × Sig)) → IsDistinct (signers sigmas) → pair_set p sigmas ≡ sigmas
  unfolding pair_set
  pair_set_distinct [] d = refl
  pair_set_distinct (a ∷ sigmas) d = rw (pair_set_distinct sigmas d.1, has_pair_absent sigmas a d.0)

  -- A certificate that the leader assembles passes `check_final`.
  assembled :
      (m : Val) (shares : Dict ℕ Sig)
      → verify_all p (p.digest m) shares ≡ good
      → IsDistinct (signers shares)
      → p.n - p.f ≤ length shares
      → check_final p m (take (p.n - p.f) shares) ≡ good
  unfolding check_final
  assembled m shares h d enough = ground (
    arith,
    length-take (p.n - p.f) shares,
    pair_set_distinct (take (p.n - p.f) shares) (signers-take-IsDistinct (p.n - p.f) shares d),
    verify_all-take (p.digest m) (p.n - p.f) shares h,
  )

  -- The certificates that were sent.
  abbrev pub finals : List (Out Val Digest Sig) → List (Val × List (ℕ × Sig))
  finals [] = []
  finals (to i o ∷ outs) = finals outs
  finals (signs d ∷ outs) = finals outs
  finals (to_all (cbc_send m) ∷ outs) = finals outs
  finals (to_all (cbc_echo sig) ∷ outs) = finals outs
  finals (to_all (cbc_final m sigmas) ∷ outs) = (m, sigmas) ∷ finals outs

  finals-append : (xs ys : List (Out Val Digest Sig)) → finals (xs ++ ys) ≡ finals xs ++ finals ys
  finals-append [] ys = refl
  finals-append (to i o ∷ xs) ys = finals-append xs ys
  finals-append (signs d ∷ xs) ys = finals-append xs ys
  finals-append (to_all (cbc_send m) ∷ xs) ys = finals-append xs ys
  finals-append (to_all (cbc_echo sig) ∷ xs) ys = finals-append xs ys
  finals-append (to_all (cbc_final m sigmas) ∷ xs) ys =
      ap (λ l. (m, sigmas) ∷ l) (finals-append xs ys)

  -- Messages that the leader gets from the N parties before it receives a certificate of its own,
  -- with signatures that can be parsed.
  abbrev pub FromParty : ℕ × Msg Val Sig → Type 0
  FromParty (j, cbc_send m) = j < p.n
  FromParty (j, cbc_echo sig) = (j < p.n) × (p.raises sig ≡ false)
  FromParty (j, cbc_final m sigmas) = (j < p.n) × (j == p.leader ≡ false)

  -- The one certificate that was sent.
  pub record Certificate (m : Val) (outs : List (Out Val Digest Sig)) : Type 0 where
    pub sigmas : List (ℕ × Sig)
    pub only : finals outs ≡ (m, sigmas) ∷ []
    pub accepted : check_final p m sigmas ≡ good

  -- Who has signed m, when one more message has arrived.
  abbrev pub hears : Val → (ℕ → Bool) → ℕ × Msg Val Sig → ℕ → Bool
  hears m signed (j, cbc_echo sig) i = (p.vrfy j (p.digest m) sig && j == i) || signed i
  hears m signed (j, cbc_send v) i = signed i
  hears m signed (j, cbc_final v sigmas) i = signed i

  -- The parties whose signature on m is among these messages, and the leader.
  abbrev pub have_signed : Val → List (ℕ × Msg Val Sig) → ℕ → Bool
  have_signed m = gather (hears m) (λ i. p.pid == i)

  -- The leader's state with input `m`, when those of `signed` have signed it, and what it has sent.
  pub record IsLeading (m : Val) (signed : ℕ → Bool) (s : State Val Digest Sig)
      (outs : List (Out Val Digest Sig)) : Type 0 where
    pub value : s.m ≡ m
    pub digest : s.digest_from_leader ≡ some (p.digest m)
    pub shares : verify_all p (p.digest m) s.echo_sshares ≡ good
    pub keys : IsDistinct (signers s.echo_sshares)
    pub before : s.final_sent ≡ false → finals outs ≡ []
    pub after : s.final_sent ≡ true → Certificate m outs
    pub has : (i : ℕ) → contains (signers s.echo_sshares) i ≡ signed i
    pub many : length s.echo_sshares ≡ count_below p.n signed
    pub sent : s.final_sent ≡ leb (p.n - p.f) (count_below p.n signed)

  module _ (leads : p.pid ≡ p.leader) (m : Val) where
    abbrev After :
        (ℕ → Bool)
        → List (Out Val Digest Sig)
        → Turn (State Val Digest Sig) (Out Val Digest Sig) (Val × List (ℕ × Sig))
        → Type 0
    After signed = AfterTurn (IsLeading m signed) (λ r outs. ⊥) (λ outs. ⊥)

    quiet :
        {signed : ℕ → Bool} {s : State Val Digest Sig} {outs : List (Out Val Digest Sig)}
        → IsLeading m signed s outs
        → IsLeading m signed s (outs ++ [])
    quiet h = rw append-nil h

    accept_echo-IsLeading :
        (signed : ℕ → Bool) (s : State Val Digest Sig) (j : ℕ) (sig : Sig)
        (outs : List (Out Val Digest Sig))
        → IsLeading m signed s outs
        → j < p.n
        → p.vrfy j (p.digest m) sig ≡ true
        → After (λ i. j == i || signed i) outs (accept_echo p s j sig)
    unfolding accept_echo
    accept_echo-IsLeading signed s j sig outs h lt ok =
        elim (Bool-cases (leb (p.n - p.f) (length shares) && not s.final_sent)) [
          | inl full ↦ rw full (record {
            value = h.value;
            digest = h.digest;
            shares = good_shares;
            keys = good_keys;
            before = λ q. cc;
            after = λ q. record {
              sigmas = take (p.n - p.f) shares;
              only =
                  (let unsent : s.final_sent ≡ false = ground arith in
                    finals-append outs _ ∙ rw (h.before unsent, h.value));
              accepted = assembled m shares good_shares good_keys (ground arith);
            };
            has = good_has;
            many = good_many;
            sent = ground (arith, good_many);
          })
          | inr short ↦ rw short (
              quiet (record {
                value = h.value;
                digest = h.digest;
                shares = good_shares;
                keys = good_keys;
                before = h.before;
                after = h.after;
                has = good_has;
                many = good_many;
                sent = ground (arith, h.sent, h.many, good_many, length-put s.echo_sshares j sig);
              }))
        ]
      where
        shares : Dict ℕ Sig
        shares = put s.echo_sshares j sig

        good_shares : verify_all p (p.digest m) shares ≡ good
        good_shares = verify_all-put (p.digest m) s.echo_sshares j sig h.shares lt ok

        good_keys : IsDistinct (signers shares)
        good_keys = signers-put-IsDistinct s.echo_sshares j sig h.keys

        good_has : (i : ℕ) → contains (signers shares) i ≡ (j == i || signed i)
        good_has i = rw (← h.has i) (contains-signers-put s.echo_sshares j i sig)

        good_many : length shares ≡ count_below p.n (λ i. j == i || signed i)
        good_many = ground (
          arith,
          length-put s.echo_sshares j sig,
          count_below_added p.n j signed lt,
          contains-signers s.echo_sshares j,
          h.has j,
          h.many,
        )

    checked_echo-IsLeading :
        (signed : ℕ → Bool) (s : State Val Digest Sig) (j : ℕ) (sig : Sig)
        (outs : List (Out Val Digest Sig))
        → IsLeading m signed s outs
        → j < p.n
        → p.raises sig ≡ false
        → After
            (λ i. (p.vrfy j (p.digest m) sig && j == i) || signed i)
            outs
            (checked_echo p s j sig (check_echo p s j sig))
    unfolding checked_echo check_echo
    checked_echo-IsLeading signed s j sig outs h lt parses =
        elim (Bool-cases (p.vrfy j (p.digest m) sig)) [
          | inl ok ↦ rw (verdict ok) (
              subst (λ b. After (λ i. (b && j == i) || signed i) outs (accept_echo p s j sig))
                (sym ok) (accept_echo-IsLeading signed s j sig outs h lt ok))
          | inr no_sig ↦ rw (verdict_bad no_sig) (
              subst (λ b. After (λ i. (b && j == i) || signed i) outs (next s [])) (sym no_sig)
                (quiet h))
        ]
      where
        verdict : p.vrfy j (p.digest m) sig ≡ true → check_echo p s j sig ≡ good
        verdict ok = rw (h.digest, check_echo) (rw (lt→ltb j p.n lt, ok))

        verdict_bad : p.vrfy j (p.digest m) sig ≡ false → check_echo p s j sig ≡ bad
        verdict_bad refused = rw (h.digest, check_echo) (rw (lt→ltb j p.n lt, refused, parses))

    leader_test : (p.pid == p.leader) ≡ true
    leader_test = (nat_beq_iff p.pid p.leader).1 leads

    handle-IsLeading :
        (signed : ℕ → Bool) (s : State Val Digest Sig) (a : ℕ × Msg Val Sig)
        (outs : List (Out Val Digest Sig))
        → FromParty a
        → IsLeading m signed s outs
        → After (hears m signed a) outs (handle p s a)
    unfolding handle on_send on_echo on_final
    handle-IsLeading signed s (j, cbc_send v) outs ok h = rw (h.digest, on_send) (quiet h)
    handle-IsLeading signed s (j, cbc_echo sig) outs ok h =
        rw leader_test (checked_echo-IsLeading signed s j sig outs h ok.0 ok.1)
    handle-IsLeading signed s (j, cbc_final v sigmas) outs ok h = rw ok.1 (quiet h)

    start-IsLeading :
        p.pid < p.n
        → p.vrfy p.pid (p.digest m) (p.sign (p.digest m)) ≡ true
        → 2 ≤ p.n - p.f
        → IsLeading m (λ i. p.pid == i) (start p m).0 (start p m).1
    unfolding start verify_all put contains
    start-IsLeading lt own many = rw leader_test (record {
      value = refl;
      digest = refl;
      shares = rw (lt→ltb p.pid p.n lt, own);
      keys = (refl, tt);
      before = λ q. refl;
      after = λ q. cc;
      has = λ i. ground arith;
      many = sym (count_below_only p.n p.pid lt);
      sent = ground (arith, count_below_only p.n p.pid lt);
    })

    -- An honest leader with input `m`, over messages from the N parties other than a certificate of
    -- its own, with signatures that can be parsed: the loop neither returns nor fails; the leader
    -- has sent a certificate exactly if N - f parties, itself among them, have signed `m` by then,
    -- that is, have sent an ECHO whose signature verifies; it has sent at most one, which is for `m`
    -- and passes the check of every receiver. Assumed: its own signature verifies, and N - f is at
    -- least 2.
    pub leader_final :
        (msgs : List (ℕ × Msg Val Sig))
        → p.pid < p.n
        → p.vrfy p.pid (p.digest m) (p.sign (p.digest m)) ≡ true
        → 2 ≤ p.n - p.f
        → AllOf FromParty msgs
        → AtEnd
            (IsLeading m (have_signed m msgs))
            (λ r outs. ⊥)
            (λ outs. ⊥)
            ((start p m).1 ++ (run (handle p) (start p m).0 msgs).0)
            (run (handle p) (start p m).0 msgs).1
    leader_final msgs lt own many ok =
        run_gathers (handle p) (hears m) (IsLeading m) (λ r outs. ⊥) (λ outs. ⊥) FromParty
          handle-IsLeading msgs (λ i. p.pid == i) (start p m).0 (start p m).1 ok
          (start-IsLeading lt own many)
