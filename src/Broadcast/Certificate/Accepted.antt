-- ===== src/Broadcast/Certificate/Accepted.antt =====
-- The leader's proof passes the validator.
use mathlib.Core.Path.{subst, sym}
use dumbo_ucy.Shared.{
  ℕ, zero, suc, ◌-◌, ◌≤◌, ◌≡◌, refl, true, false, not, some, List, [], ◌∷◌, ◌++◌, Comparable, ◌==◌,
  nat_comparable, ltb, leb, length, take, length-take, arith, on_if, nat_beq_iff, ==_refl,
}
use dumbo_ucy.Shared.Dict.{Dict, put, contains, IsDistinct}
use dumbo_ucy.Shared.Signers.{signers, signers-put-IsDistinct, signers-take-IsDistinct}
use dumbo_ucy.Shared.Loop.{
  Turn, next, done, fail, End, waiting, returned, failed, AfterTurn, AtEnd, run, run_inv,
}
use dumbo_ucy.Broadcast.Validators.{has_pair, count_pairs, verify_all, certified, pb_validate}
use dumbo_ucy.Broadcast.Certificate.{
  Params, Msg, pb_send, pb_echo, Out, State, start, on_send, finish, accept_echo, check_echo,
  on_echo, handle,
}

module _ {Sig : Type 0} ⦃e : Comparable Sig⦄ where
  has_pair_absent :
      (sigmas : List (ℕ × Sig)) (a : ℕ × Sig)
      → contains (signers sigmas) a.0 ≡ false
      → has_pair sigmas a ≡ false
  unfolding has_pair contains
  has_pair_absent [] a h = refl
  has_pair_absent (x ∷ sigmas) a h = ground (arith, has_pair_absent sigmas a)

  count_pairs_distinct :
      (sigmas : List (ℕ × Sig)) → IsDistinct (signers sigmas) → count_pairs sigmas ≡ length sigmas
  unfolding count_pairs
  count_pairs_distinct [] d = refl
  count_pairs_distinct (a ∷ sigmas) d =
      ground (arith, count_pairs_distinct sigmas d.1, has_pair_absent sigmas a d.0)

module _ {Val Hash Digest Sig : Type 0} ⦃e : Comparable Sig⦄ (p : Params Val Hash Digest Sig) where
  verify_all-put :
      (d : Digest) (shares : Dict ℕ Sig) (j : ℕ) (sig : Sig)
      → verify_all p.n p.f p.vrfy d shares ≡ true
      → ltb j p.n ≡ true
      → p.vrfy j d sig ≡ true
      → verify_all p.n p.f p.vrfy d (put shares j sig) ≡ true
  unfolding verify_all put
  verify_all-put d [] j sig h lt ok = ground arith
  verify_all-put d ((k, x) ∷ shares) j sig h lt ok =
      ground (arith, nat_beq_iff k j, verify_all-put d shares j sig)

  verify_all-take :
      (d : Digest) (n : ℕ) (shares : List (ℕ × Sig))
      → verify_all p.n p.f p.vrfy d shares ≡ true
      → verify_all p.n p.f p.vrfy d (take n shares) ≡ true
  unfolding verify_all
  verify_all-take d zero shares h = refl
  verify_all-take d (suc n) [] h = refl
  verify_all-take d (suc n) ((k, x) ∷ shares) h = ground (arith, verify_all-take d n shares)

  module _ (m : Val) where
    -- The leader between turns.
    pub record Leads (s : State Val Digest Sig) : Type 0 where
      pub digest : s.digest_from_leader ≡ some (p.digest (p.hash m))
      pub value : s.m ≡ some m
      pub distinct : IsDistinct (signers s.echo_sshares)
      pub verified : verify_all p.n p.f p.vrfy (p.digest (p.hash m)) s.echo_sshares ≡ true

    -- The proof is for the leader's value, and the signatures are a full certificate.
    abbrev pub IsProof : Hash × List (ℕ × Sig) → Type 0
    IsProof r = (r.0 ≡ p.hash m) × (certified p.n p.f p.vrfy (p.digest (p.hash m)) r.1 ≡ true)

    certified-take :
        (shares : Dict ℕ Sig)
        → IsDistinct (signers shares)
        → verify_all p.n p.f p.vrfy (p.digest (p.hash m)) shares ≡ true
        → p.n - p.f ≤ length shares
        → certified p.n p.f p.vrfy (p.digest (p.hash m)) (take (p.n - p.f) shares) ≡ true
    unfolding certified
    certified-take shares d v enough =
        let all = verify_all-take (p.digest (p.hash m)) (p.n - p.f) shares v in
        let size : length (take (p.n - p.f) shares) ≡ p.n - p.f =
          omega (arith, length-take (p.n - p.f) shares, enough) in
        let pairs =
          count_pairs_distinct (take (p.n - p.f) shares)
            (signers-take-IsDistinct (p.n - p.f) shares d) in
        rw (pairs, size, all) (ground (arith, nat_beq_iff (p.n - p.f) (p.n - p.f)))

    abbrev Good : Turn (State Val Digest Sig) (Out Val Sig) (Hash × List (ℕ × Sig)) → Type 0
    Good = AfterTurn (λ s outs. Leads s) (λ r outs. IsProof r) (λ outs. Unit {0}) []

    accept_echo-Leads :
        (s : State Val Digest Sig) (j : ℕ) (sig : Sig)
        → Leads s
        → ltb j p.n ≡ true
        → p.vrfy j (p.digest (p.hash m)) sig ≡ true
        → Good (accept_echo p s j sig)
    unfolding accept_echo finish
    accept_echo-Leads s j sig h lt ok =
        let d = signers-put-IsDistinct s.echo_sshares j sig h.distinct in
        let v = verify_all-put (p.digest (p.hash m)) s.echo_sshares j sig h.verified lt ok in
        on_if Good (leb (p.n - p.f) (length (put s.echo_sshares j sig)))
          (λ c.
            subst (λ o. Good (finish p (take (p.n - p.f) (put s.echo_sshares j sig)) o))
              (sym h.value) (refl, certified-take (put s.echo_sshares j sig) d v (ground arith)))
          (λ c. record { digest = h.digest; value = h.value; distinct = d; verified = v })

    handle-Leads : (s : State Val Digest Sig) (a : ℕ × Msg Val Sig) → Leads s → Good (handle p s a)
    unfolding handle on_send on_echo check_echo
    handle-Leads s (j, pb_send v) h = subst (λ o. Good (on_send p s j v o)) (sym h.digest) h
    handle-Leads s (j, pb_echo sig) h =
        on_if Good (not (p.pid == p.leader)) (λ c. h)
          (λ c.
            subst (λ o. Good (check_echo p s j sig o)) (sym h.digest)
              (on_if Good (ltb j p.n)
                (λ lt.
                  on_if Good (p.vrfy j (p.digest (p.hash m)) sig)
                    (λ ok. accept_echo-Leads s j sig h lt ok)
                    (λ _. on_if Good (p.raises sig) (λ _. tt) (λ _. h)))
                (λ lt. tt)))

    any_outs :
        (t : Turn (State Val Digest Sig) (Out Val Sig) (Hash × List (ℕ × Sig)))
        (outs : List (Out Val Sig))
        → Good t
        → AfterTurn (λ s outs'. Leads s) (λ r outs'. IsProof r) (λ outs'. Unit) outs t
    any_outs (next s o) outs h = h
    any_outs (done o r) outs h = h
    any_outs (fail o) outs h = h

    start-Leads :
        p.pid ≡ p.leader
        → ltb p.pid p.n ≡ true
        → p.vrfy p.pid (p.digest (p.hash m)) (p.sign (p.digest (p.hash m))) ≡ true
        → Leads (start p m).0
    unfolding start put verify_all contains
    start-Leads leads lt own =
        on_if (λ (o : State Val Digest Sig × List (Out Val Sig)). Leads o.0) (p.pid == p.leader)
          (λ c. record {
            digest = refl;
            value = refl;
            distinct = (refl, tt);
            verified = ground (arith, lt, own);
          })
          (λ c. absurd (ground (arith, nat_beq_iff p.pid p.leader)))

    run-Leads_lem :
        (msgs : List (ℕ × Msg Val Sig))
        → Leads (start p m).0
        → AtEnd
            (λ s outs. Leads s)
            (λ r outs. IsProof r)
            (λ outs. Unit)
            ((start p m).1 ++ (run (handle p) (start p m).0 msgs).0)
            (run (handle p) (start p m).0 msgs).1
    run-Leads_lem msgs h =
        run_inv (handle p) (λ s outs. Leads s) (λ r outs. IsProof r) (λ outs. Unit)
          (λ s a outs k. any_outs (handle p s a) outs (handle-Leads s a k)) msgs (start p m).0
          (start p m).1 h

    at_return :
        (outs : List (Out Val Sig)) (t : End (State Val Digest Sig) (Hash × List (ℕ × Sig)))
        (r : Hash × List (ℕ × Sig))
        → AtEnd (λ s o. Leads s) (λ r' o. IsProof r') (λ o. Unit) outs t
        → t ≡ returned r
        → IsProof r
    at_return outs (waiting s) r h e = absurd (ground arith)
    at_return outs (returned r') r h e = let same : r' ≡ r = cc in subst IsProof same h
    at_return outs failed r h e = absurd (ground arith)

-- Whatever messages arrive: what the leader with input m returns carries the hash of m, and it
-- passes `pb_validate` for the instance. Assumed: the leader's own signature verifies.
pub leader_proof :
    {Sid Val Hash Digest Sig : Type 0} ⦃e : Comparable Sig⦄ ⦃e' : Comparable Sid⦄
    (digest : Sid → Hash → Digest) (sid : Sid) (p : Params Val Hash Digest Sig) (m : Val)
    (msgs : List (ℕ × Msg Val Sig)) (h : Hash) (sigmas : List (ℕ × Sig))
    → p.digest ≡ digest sid
    → p.pid ≡ p.leader
    → ltb p.pid p.n ≡ true
    → p.vrfy p.pid (p.digest (p.hash m)) (p.sign (p.digest (p.hash m))) ≡ true
    → (run (handle p) (start p m).0 msgs).1 ≡ returned (h, sigmas)
    → (h ≡ p.hash m) × (pb_validate p.n p.f p.vrfy digest sid (sid, (h, sigmas)) ≡ true)
unfolding pb_validate
leader_proof digest sid p m msgs h sigmas same leads lt own e =
    let (is_hash, good) =
      at_return p m ((start p m).1 ++ (run (handle p) (start p m).0 msgs).0)
        (run (handle p) (start p m).0 msgs).1 (h, sigmas)
        (run-Leads_lem p m msgs (start-Leads p m leads lt own)) e in
    let here : certified p.n p.f p.vrfy (digest sid h) sigmas ≡ true =
      subst (λ x. certified p.n p.f p.vrfy (digest sid x) sigmas ≡ true) (sym is_hash)
        (subst (λ d. certified p.n p.f p.vrfy (d (p.hash m)) sigmas ≡ true) same good) in
    (is_hash, rw (==_refl sid) here)
