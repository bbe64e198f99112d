-- ===== src/Broadcast/Strong/Leader.antt =====
-- What the leader broadcasts when no other party sends SPBC_SEND.
use mathlib.Core.Path.{subst}
use dumbo_ucy.Shared.{
  ℕ, ◌-◌, ◌≡◌, refl, true, not, some, List, [], ◌∷◌, ◌++◌, ◌==◌, nat_comparable, ◌&&◌, length,
  arith, on_if, nat_beq_iff, ap, sym,
}
use dumbo_ucy.Shared.Dict.{Dict, put}
use dumbo_ucy.Shared.Loop.{
  Turn, next, done, fail, End, waiting, returned, failed, AfterTurn, AtEnd, AllOf, AllOf-append,
  run, run_inv_where,
}
use dumbo_ucy.Broadcast.Strong.{
  Params, Msg, spbc_send, spbc_echo, spbc_ready, spbc_final, spbc_done, Out, to_all, State, start,
  on_send, accept_echo, check_echo, on_echo, on_ready, accept_final, on_final, on_done, handle,
}

module _ {Val Digest Share Sig : Type 0} (p : Params Val Digest Share Sig) where
  -- Shares for a digest, each of the party that it is filed under.
  abbrev pub ForDigest : Digest → Dict ℕ Share → Type 0
  ForDigest d = AllOf (λ (a : ℕ × Share). p.verify_share a.1 a.0 d ≡ true)

  put-ForDigest :
      (d : Digest) (shares : Dict ℕ Share) (j : ℕ) (sig : Share)
      → p.verify_share sig j d ≡ true
      → ForDigest d shares
      → ForDigest d (put shares j sig)
  unfolding put
  put-ForDigest d [] j sig v h = (v, tt)
  put-ForDigest d ((i, sig') ∷ shares) j sig v h =
      on_if (ForDigest d) (i == j)
        (λ c.
          let e : i ≡ j = ground (arith, nat_beq_iff i j) in
          (subst (λ k. p.verify_share sig k d ≡ true) (sym e) v, h.1))
        (λ c. (h.0, put-ForDigest d shares j sig v h.1))

  -- A signature combined from N - f shares for a digest.
  pub record Combined (d : Digest) (sig : Sig) : Type 0 where
    pub shares : Dict ℕ Share
    pub count : length shares ≡ p.n - p.f
    pub verified : ForDigest d shares
    pub combined : sig ≡ p.combine_shares shares

  module _ (m : Val) where
    -- The messages that reach the leader: any shares from anyone, and only `m` in what carries a
    -- value and comes from the leader; nobody else sends SPBC_SEND.
    abbrev pub Undisturbed : ℕ × Msg Val Share Sig → Type 0
    Undisturbed (j, spbc_send v) = (j ≡ p.leader) × (v ≡ m)
    Undisturbed (j, spbc_echo sig) = Unit
    Undisturbed (j, spbc_ready v sig) = j ≡ p.leader → v ≡ m
    Undisturbed (j, spbc_final sig) = Unit
    Undisturbed (j, spbc_done v sig) = j ≡ p.leader → v ≡ m

    abbrev pub IsGood : Out Val Digest Share Sig → Type 0
    IsGood (to_all (spbc_ready v sig)) = (v ≡ m) × Combined (p.echo_hash m) sig
    IsGood (to_all (spbc_done v sig)) = (v ≡ m) × Combined (p.final_hash m) sig
    IsGood _ = Unit

    -- How the leader stands between turns.
    pub record Leads (s : State Val Digest Share) : Type 0 where
      pub value : s.m ≡ m
      pub digest : s.digest1_from_leader ≡ some (p.echo_hash m)
      pub echoes : ForDigest (p.echo_hash m) s.echo_sshares
      pub finals : ForDigest (p.final_hash m) s.echo_sshares2

    abbrev TurnIsGood :
        Turn (State Val Digest Share) (Out Val Digest Share Sig) (Val × Sig) → Type 0
    TurnIsGood (next s o) = Leads s × AllOf IsGood o
    TurnIsGood (done o r) = AllOf IsGood o
    TurnIsGood (fail o) = AllOf IsGood o

    check_echo-Leads :
        (s : State Val Digest Share) (j : ℕ) (sig1 : Share)
        → Leads s
        → TurnIsGood (check_echo p s j sig1 (some (p.echo_hash m)))
    unfolding check_echo accept_echo
    check_echo-Leads s j sig1 h =
        on_if TurnIsGood (p.verify_share sig1 j (p.echo_hash m))
          (λ v.
            let more = put-ForDigest (p.echo_hash m) s.echo_sshares j sig1 v h.echoes in
            on_if TurnIsGood (length (put s.echo_sshares j sig1) == p.n - p.f && not s.echo_sent)
              (λ c. (
                record { value = h.value; digest = h.digest; echoes = more; finals = h.finals },
                (
                  (
                    h.value,
                    record {
                      shares = put s.echo_sshares j sig1;
                      count =
                          ground
                            (arith, nat_beq_iff (length (put s.echo_sshares j sig1)) (p.n - p.f));
                      verified = more;
                      combined = refl;
                    },
                  ),
                  tt,
                ),
              ))
              (λ c. (
                record { value = h.value; digest = h.digest; echoes = more; finals = h.finals },
                tt,
              )))
          (λ v. (h, tt))

    on_final-Leads :
        (s : State Val Digest Share) (j : ℕ) (sig2 : Share)
        → Leads s
        → TurnIsGood (on_final p s j sig2)
    unfolding on_final accept_final
    on_final-Leads s j sig2 h =
        on_if TurnIsGood (not (p.pid == p.leader)) (λ c. (h, tt))
          (λ c.
            on_if TurnIsGood (p.verify_share sig2 j (p.final_hash s.m))
              (λ v.
                let v' = subst (λ x. p.verify_share sig2 j (p.final_hash x) ≡ true) h.value v in
                let more = put-ForDigest (p.final_hash m) s.echo_sshares2 j sig2 v' h.finals in
                on_if TurnIsGood
                  (length (put s.echo_sshares2 j sig2) == p.n - p.f && not s.final_sent)
                  (λ c'. (
                    record { value = h.value; digest = h.digest; echoes = h.echoes; finals = more },
                    (
                      (
                        h.value,
                        record {
                          shares = put s.echo_sshares2 j sig2;
                          count = ground (
                            arith,
                            nat_beq_iff (length (put s.echo_sshares2 j sig2)) (p.n - p.f),
                          );
                          verified = more;
                          combined = refl;
                        },
                      ),
                      tt,
                    ),
                  ))
                  (λ c'. (
                    record { value = h.value; digest = h.digest; echoes = h.echoes; finals = more },
                    tt,
                  )))
              (λ v. (h, tt)))

    set_value :
        (s : State Val Digest Share) (v : Val) → v ≡ m → Leads s → Leads (record s { m = v })
    set_value s v e h = record {
      value = e;
      digest = h.digest;
      echoes = h.echoes;
      finals = h.finals;
    }

    handle-Leads :
        (s : State Val Digest Share) (a : ℕ × Msg Val Share Sig)
        → Undisturbed a
        → Leads s
        → TurnIsGood (handle p s a)
    unfolding handle on_send on_echo on_ready on_done
    handle-Leads s (j, spbc_send v) ok h =
        on_if TurnIsGood (not (j == p.leader)) (λ c. (set_value s v ok.1 h, tt))
          (λ c. (
            record {
              value = ok.1;
              digest = ap (λ x. some (p.echo_hash x)) ok.1;
              echoes = h.echoes;
              finals = h.finals;
            },
            (tt, (tt, tt)),
          ))
    handle-Leads s (j, spbc_echo sig1) ok h =
        on_if TurnIsGood (not (p.pid == p.leader)) (λ c. (h, tt))
          (λ c.
            subst (λ o. TurnIsGood (check_echo p s j sig1 o)) (sym h.digest)
              (check_echo-Leads s j sig1 h))
    handle-Leads s (j, spbc_ready v sigmas) ok h =
        on_if TurnIsGood (not (j == p.leader)) (λ c. (h, tt))
          (λ c.
            let e = ok (ground (arith, nat_beq_iff j p.leader)) in
            on_if TurnIsGood (p.verify_signature sigmas (p.echo_hash v))
              (λ c'. (
                set_value s v e h,
                (tt, (tt, on_if (AllOf IsGood) p.has_output (λ c''. (tt, tt)) (λ c''. tt))),
              ))
              (λ c'. (set_value s v e h, tt)))
    handle-Leads s (j, spbc_final sig2) ok h = on_final-Leads s j sig2 h
    handle-Leads s (j, spbc_done v sigmas2) ok h =
        on_if TurnIsGood (not (j == p.leader)) (λ c. (h, tt))
          (λ c.
            let e = ok (ground (arith, nat_beq_iff j p.leader)) in
            on_if TurnIsGood (p.verify_signature sigmas2 (p.final_hash v)) (λ c'. tt)
              (λ c'. (set_value s v e h, tt)))

    abbrev Holds : State Val Digest Share → List (Out Val Digest Share Sig) → Type 0
    Holds s outs = Leads s × AllOf IsGood outs

    abbrev Ends : Val × Sig → List (Out Val Digest Share Sig) → Type 0
    Ends r outs = AllOf IsGood outs

    turn-After :
        (t : Turn (State Val Digest Share) (Out Val Digest Share Sig) (Val × Sig))
        (outs : List (Out Val Digest Share Sig))
        → AllOf IsGood outs
        → TurnIsGood t
        → AfterTurn Holds Ends (AllOf IsGood) outs t
    turn-After (next s o) outs h t = (t.0, AllOf-append IsGood outs o h t.1)
    turn-After (done o r) outs h t = AllOf-append IsGood outs o h t
    turn-After (fail o) outs h t = AllOf-append IsGood outs o h t

    at_end :
        (outs : List (Out Val Digest Share Sig)) (t : End (State Val Digest Share) (Val × Sig))
        → AtEnd Holds Ends (AllOf IsGood) outs t
        → AllOf IsGood outs
    at_end outs (waiting s) h = h.1
    at_end outs (returned r) h = h
    at_end outs failed h = h

    start-Leads :
        p.pid ≡ p.leader
        → p.verify_share (p.sign (p.echo_hash m)) p.pid (p.echo_hash m) ≡ true
        → Holds (start p m).0 (start p m).1
    unfolding start put
    start-Leads leads own =
        on_if (λ (o : State Val Digest Share × List (Out Val Digest Share Sig)). Holds o.0 o.1)
          (p.pid == p.leader)
          (λ c. (
            record { value = refl; digest = refl; echoes = (own, tt); finals = tt },
            (tt, (tt, tt)),
          ))
          (λ c. absurd (ground (arith, nat_beq_iff p.pid p.leader)))

    -- The leader with input m, over any messages in which no other party sends SPBC_SEND and its
    -- own carry m: every SPBC_READY that it broadcasts has m and a signature combined from N - f
    -- shares that verify for the ECHO digest of m, and every SPBC_DONE has m and one combined from
    -- N - f shares that verify for its FINAL digest. Assumed: its own first share verifies.
    pub run-Leads :
        (msgs : List (ℕ × Msg Val Share Sig))
        → p.pid ≡ p.leader
        → p.verify_share (p.sign (p.echo_hash m)) p.pid (p.echo_hash m) ≡ true
        → AllOf Undisturbed msgs
        → AllOf IsGood ((start p m).1 ++ (run (handle p) (start p m).0 msgs).0)
    run-Leads msgs leads own ok =
        at_end ((start p m).1 ++ (run (handle p) (start p m).0 msgs).0)
          (run (handle p) (start p m).0 msgs).1
          (run_inv_where (handle p) Holds Ends (AllOf IsGood) Undisturbed
            (λ s a outs u h. turn-After (handle p s a) outs h.1 (handle-Leads s a u h.0)) msgs
            (start p m).0 (start p m).1 ok (start-Leads leads own))
