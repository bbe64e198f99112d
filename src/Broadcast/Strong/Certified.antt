-- ===== src/Broadcast/Strong/Certified.antt =====
-- What a party vouches for and returns, and what the leader sends when nobody interferes.
use dumbo_ucy.Shared.{
  on_if, ℕ, ◌-◌, ◌≡◌, ◌⊎◌, inl, inr, refl, true, false, not, Option, none, some, List, [], ◌∷◌,
  ◌++◌, ◌==◌, nat_comparable, ◌&&◌, length, arith, map, ap, nat_beq_iff,
}
use dumbo_ucy.Shared.Dict.{put}
use dumbo_ucy.Shared.Loop.{
  Turn, next, done, fail, AfterTurn, AtEnd, AllOf, AllOf-append, run, run_inv,
}
use dumbo_ucy.Broadcast.Strong.{
  Params, Msg, spbc_send, spbc_echo, spbc_ready, spbc_final, spbc_done, Out, to, to_all, output,
  signs, State, start, on_send, accept_echo, check_echo, on_echo, on_ready, accept_final, on_final,
  on_done, handle,
}

nat_beq_refl : (a : ℕ) → (a == a) ≡ true
nat_beq_refl a = ground (arith, nat_beq_iff a a)

module _ {Val Digest Share Sig : Type 0} (p : Params Val Digest Share Sig) where
  -- A digest to sign: that of a value as sent, or that of a value with a certificate for the
  -- first round.
  abbrev pub IsDue : Digest → Type 0
  IsDue d =
      ((m : Val) × (d ≡ p.echo_hash m))
      ⊎ ((m : Val) × (sig : Sig) × (d ≡ p.final_hash m)
          × (p.verify_signature sig (p.echo_hash m) ≡ true))

  abbrev pub Vouched : Out Val Digest Share Sig → Type 0
  Vouched (to i msg) = Unit
  Vouched (to_all msg) = Unit
  Vouched (output m sig) = p.verify_signature sig (p.echo_hash m) ≡ true
  Vouched (signs d) = IsDue d

  -- What one turn sends, and what it returns.
  abbrev TurnIsVouched :
      Turn (State Val Digest Share) (Out Val Digest Share Sig) (Val × Sig) → Type 0
  TurnIsVouched (next s o) = AllOf Vouched o
  TurnIsVouched (done o r) = AllOf Vouched o × (p.verify_signature r.1 (p.final_hash r.0) ≡ true)
  TurnIsVouched (fail o) = AllOf Vouched o

  check_echo-Vouched :
      (s : State Val Digest Share) (j : ℕ) (sig1 : Share) (o : Option Digest)
      → TurnIsVouched (check_echo p s j sig1 o)
  unfolding check_echo accept_echo
  check_echo-Vouched s j sig1 none = tt
  check_echo-Vouched s j sig1 (some d) =
      on_if TurnIsVouched (p.verify_share sig1 j d)
        (λ v.
          on_if TurnIsVouched (length (put s.echo_sshares j sig1) == p.n - p.f && not s.echo_sent)
            (λ c. (tt, tt)) (λ c. tt))
        (λ v. tt)

  handle-Vouched :
      (s : State Val Digest Share) (a : ℕ × Msg Val Share Sig) → TurnIsVouched (handle p s a)
  unfolding handle on_send on_echo on_ready on_final on_done accept_echo accept_final
  handle-Vouched s (j, spbc_send m) =
      on_if TurnIsVouched (not (j == p.leader)) (λ c. tt) (λ c. (inl (m, refl), (tt, tt)))
  handle-Vouched s (j, spbc_echo sig1) =
      on_if TurnIsVouched (not (p.pid == p.leader)) (λ c. tt)
        (λ c. check_echo-Vouched s j sig1 s.digest1_from_leader)
  handle-Vouched s (j, spbc_ready m sigmas) =
      on_if TurnIsVouched (not (j == p.leader)) (λ c. tt)
        (λ c.
          on_if TurnIsVouched (p.verify_signature sigmas (p.echo_hash m))
            (λ v. (
              inr (m, sigmas, refl, v),
              (tt, on_if (AllOf Vouched) p.has_output (λ c'. (v, tt)) (λ c'. tt)),
            ))
            (λ v. tt))
  handle-Vouched s (j, spbc_final sig2) =
      on_if TurnIsVouched (not (p.pid == p.leader)) (λ c. tt)
        (λ c.
          on_if TurnIsVouched (p.verify_share sig2 j (p.final_hash s.m))
            (λ v.
              on_if TurnIsVouched
                (length (put s.echo_sshares2 j sig2) == p.n - p.f && not s.final_sent)
                (λ c'. (tt, tt)) (λ c'. tt))
            (λ v. tt))
  handle-Vouched s (j, spbc_done m sigmas2) =
      on_if TurnIsVouched (not (j == p.leader)) (λ c. tt)
        (λ c.
          on_if TurnIsVouched (p.verify_signature sigmas2 (p.final_hash m)) (λ v. (tt, v))
            (λ v. tt))

  abbrev AllVouched : State Val Digest Share → List (Out Val Digest Share Sig) → Type 0
  AllVouched s outs = AllOf Vouched outs

  abbrev pub Returned : Val × Sig → List (Out Val Digest Share Sig) → Type 0
  Returned r outs = AllOf Vouched outs × (p.verify_signature r.1 (p.final_hash r.0) ≡ true)

  turn-After :
      (t : Turn (State Val Digest Share) (Out Val Digest Share Sig) (Val × Sig))
      (outs : List (Out Val Digest Share Sig))
      → AllOf Vouched outs
      → TurnIsVouched t
      → AfterTurn AllVouched Returned (AllOf Vouched) outs t
  turn-After (next s o) outs h t = AllOf-append Vouched outs o h t
  turn-After (done o r) outs h t = (AllOf-append Vouched outs o h t.0, t.1)
  turn-After (fail o) outs h t = AllOf-append Vouched outs o h t

  start-Vouched : (m : Val) → AllOf Vouched (start p m).1
  unfolding start
  start-Vouched m =
      on_if (λ (o : State Val Digest Share × List (Out Val Digest Share Sig)). AllOf Vouched o.1)
        (p.pid == p.leader) (λ c. (inl (m, refl), (tt, tt))) (λ c. tt)

  -- From its start on and whatever messages arrive, a party uses its key only on the ECHO digest
  -- of a value or on the FINAL digest of a value with a signature that verifies for its ECHO
  -- digest, it outputs a value only with such a signature, and it returns a value only with a
  -- signature that verifies for its FINAL digest.
  pub run-Vouched :
      (m : Val) (msgs : List (ℕ × Msg Val Share Sig))
      → AtEnd AllVouched Returned
          (AllOf Vouched)
          ((start p m).1 ++ (run (handle p) (start p m).0 msgs).0)
          (run (handle p) (start p m).0 msgs).1
  run-Vouched m msgs =
      run_inv (handle p) AllVouched Returned (AllOf Vouched)
        (λ s a outs h. turn-After (handle p s a) outs h (handle-Vouched s a)) msgs (start p m).0
        (start p m).1 (start-Vouched m)

  -- What one SPBC_SEND of the leader makes a party do.
  abbrev pub answer : Val → List (Out Val Digest Share Sig)
  answer m = signs (p.echo_hash m) ∷ to p.leader (spbc_echo (p.sign (p.echo_hash m))) ∷ []

  abbrev pub answers : List Val → List (Out Val Digest Share Sig)
  answers [] = []
  answers (m ∷ ms) = answer m ++ answers ms

  abbrev pub from_leader : Val → ℕ × Msg Val Share Sig
  from_leader m = (p.leader, spbc_send m)

  -- In any state, a party that gets several SPBC_SEND messages from the leader signs the ECHO
  -- digest of each of them and sends the leader the share, so that one leader can collect shares
  -- for different values.
  pub signs_every :
      (ms : List Val) (s : State Val Digest Share)
      → (run (handle p) s (map from_leader ms)).0 ≡ answers ms
  unfolding run handle on_send
  signs_every [] s = refl
  signs_every (m ∷ ms) s =
      let rest = signs_every ms (record s { m = m; digest1_from_leader = some (p.echo_hash m) }) in
      rw (nat_beq_refl p.leader) (ap (λ l. answer m ++ l) rest)

  -- When a leader whose digest is that of its value gets an SPBC_SEND from another party, it goes
  -- on with the other party's value: with the share that completes the N - f shares it broadcasts
  -- SPBC_READY with the other value and the signature combined from shares for its own.
  pub foreign_send :
      (s : State Val Digest Share) (j i : ℕ) (m' : Val) (d : Digest) (sig : Share)
      → p.pid ≡ p.leader
      → (j == p.leader) ≡ false
      → s.digest1_from_leader ≡ some d
      → p.verify_share sig i d ≡ true
      → length (put s.echo_sshares i sig) ≡ p.n - p.f
      → s.echo_sent ≡ false
      → (run (handle p) s ((j, spbc_send m') ∷ (i, spbc_echo sig) ∷ [])).0
        ≡ to_all (spbc_ready m' (p.combine_shares (put s.echo_sshares i sig))) ∷ []
  unfolding run handle on_send on_echo check_echo accept_echo
  foreign_send s j i m' d sig leads foreign digest ok full unsent =
      ground (arith, nat_beq_iff p.leader p.leader, nat_beq_iff (p.n - p.f) (p.n - p.f))
