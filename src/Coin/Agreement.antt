-- ===== src/Coin/Agreement.antt =====
-- All parties get the same coin.
use mathlib.Core.Path.{subst}
use dumbo_ucy.Shared.{
  ℕ, ◌+◌, ◌≡◌, inl, inr, refl, sym, ap, ◌∙◌, true, not, ◌&&◌, Option, none, some, List, [], ◌∷◌,
  Comparable, ◌==◌, nat_comparable, ltb, length, take, on_if, Member,
}
use dumbo_ucy.Shared.Dict.{put, has_key}
use dumbo_ucy.Shared.Loop.{AllOf, AllOf-any, AllOf-append}
use dumbo_ucy.Shared.Steps.{run_steps, steps_keep}
use dumbo_ucy.Coin.{
  Params, State, init, Out, coin_share, returned_coin, Event, got, called, waited, shares_of,
  set_queue, value, put_coin, output_coin, accept_share, receive, get_coin, step,
}

module _ {Round Digest Share Sig : Type 0} ⦃e : Comparable Round⦄
    (p : Params Round Digest Share Sig) where
  -- A coin of the round: the value of a signature on it that verifies.
  pub record IsCoin (r : Round) (c : ℕ) : Type 0 where
    pub sig : Sig
    pub verified : p.verify_signature sig (p.hash_round r) ≡ true
    pub coin : c ≡ value p sig

  abbrev pub IsSound : Out Round Share → Type 0
  IsSound (coin_share r sig) = Unit
  IsSound (returned_coin r c) = IsCoin r c

  abbrev InQueue : Round → Option ℕ → Type 0
  InQueue r none = Unit
  InQueue r (some c) = IsCoin r c

  abbrev Holds : State Round Share → Type 0
  Holds s = (r : Round) → InQueue r (s.output_queue r)

  set_queue-Holds :
      (s : State Round Share) (r : Round) (c : Option ℕ)
      → InQueue r c
      → Holds s
      → Holds (set_queue p s r c)
  set_queue-Holds s r c q h r' =
      on_if (InQueue r') (r == r') (λ eq. subst (λ x. InQueue x c) ((e.equal_iff r r').0 eq) q)
        (λ _. h r')

  put_coin-Holds :
      (s : State Round Share) (r : Round) (c : ℕ) (o : Option ℕ)
      → IsCoin r c
      → Holds s
      → Holds (put_coin p s r c o)
  unfolding put_coin
  put_coin-Holds s r c none q h = set_queue-Holds s r (some c) q h
  put_coin-Holds s r c (some old) q h = h

  output_coin-Holds :
      (s : State Round Share) (r : Round) (sig : Sig) → Holds s → Holds (output_coin p s r sig)
  unfolding output_coin
  output_coin-Holds s r sig h =
      on_if Holds (p.verify_signature sig (p.hash_round r))
        (λ v.
          put_coin-Holds s r (value p sig) (s.output_queue r)
            (record { sig = sig; verified = v; coin = refl }) h)
        (λ _. h)

  receive-Holds :
      (s : State Round Share) (i : ℕ) (r : Round) (sig : Share)
      → Holds s
      → Holds (receive p s i r sig)
  unfolding receive accept_share
  receive-Holds s i r sig h =
      on_if Holds (ltb i p.n)
        (λ _.
          on_if Holds (has_key (shares_of p s r) i) (λ _. h)
            (λ _.
              on_if Holds (not (i == p.pid) && not (p.verify_share sig i (p.hash_round r))) (λ _. h)
                (λ _.
                  let s' = record s { received = put s.received r (put (shares_of p s r) i sig) } in
                  on_if Holds (length (shares_of p s' r) == p.f + 1)
                    (λ _.
                      output_coin-Holds s' r (p.combine_shares (take (p.f + 1) (shares_of p s' r)))
                        h)
                    (λ _. h))))
        (λ _. h)

  abbrev Good : State Round Share → List (Out Round Share) → Type 0
  Good s outs = Holds s × AllOf IsSound outs

  get_coin-Good :
      (s : State Round Share) (r : Round) (o : Option ℕ)
      → InQueue r o
      → Holds s
      → Good (get_coin p s r o).0 (get_coin p s r o).1
  unfolding get_coin
  get_coin-Good s r none q h = (h, tt)
  get_coin-Good s r (some c) q h = (set_queue-Holds s r none tt h, (q, tt))

  step-Good :
      (s : State Round Share) (ev : Event Round Share)
      → Holds s
      → Good (step p s ev).0 (step p s ev).1
  unfolding step
  step-Good s (got i r sig) h =
      on_if (λ (x : State Round Share × List (Out Round Share)). Good x.0 x.1) s.receiving
        (λ _. (receive-Holds s i r sig h, tt)) (λ _. (h, tt))
  step-Good s (called r) h = (h, (tt, tt))
  step-Good s (waited r) h = get_coin-Good s r (s.output_queue r) (h r) h

  run-IsSound :
      (events : List (Event Round Share)) → AllOf IsSound (run_steps (step p) init events).1
  run-IsSound events =
      (steps_keep (step p) Good (λ _. Unit {0})
        (λ s ev outs _ h.
          let g = step-Good s ev h.0 in (g.0, AllOf-append IsSound outs (step p s ev).1 h.1 g.1))
        events init [] (AllOf-any events) ((λ r. tt), tt)).1

sound_member : {A : Type 0} (P : A → Type 0) (a : A) (l : List A) → AllOf P l → Member a l → P a
sound_member P a [] all m = absurd m
sound_member P a (x ∷ l) all (inl eq) = subst P (sym eq) all.0
sound_member P a (x ∷ l) all (inr m) = sound_member P a l all.1 m

module _ {Round Digest Share Sig : Type 0} ⦃e : Comparable Round⦄
    (p : Params Round Digest Share Sig) where
  -- Where at most one signature verifies for each round: two parties, whatever shares reach them and
  -- whenever they ask, get the same coin for a round from `getCoin`.
  pub coin_agreement :
      ((r : Round) (sig sig' : Sig)
        → p.verify_signature sig (p.hash_round r) ≡ true
        → p.verify_signature sig' (p.hash_round r) ≡ true
        → sig ≡ sig')
      → (j : ℕ) (sign_j : Digest → Share) (events events' : List (Event Round Share)) (r : Round)
        (c c' : ℕ)
      → Member (returned_coin r c) (run_steps (step p) init events).1
      → Member
          (returned_coin r c')
          (run_steps (step (record p { pid = j; sign = sign_j })) init events').1
      → c ≡ c'
  unfolding value
  coin_agreement unique j sign_j events events' r c c' m m' =
      let mine = sound_member (IsSound p) (returned_coin r c) _ (run-IsSound p events) m in
      let theirs =
        sound_member (IsSound (record p { pid = j; sign = sign_j })) (returned_coin r c') _
          (run-IsSound (record p { pid = j; sign = sign_j }) events') m' in
      mine.coin
      ∙ (ap (value p) (unique r mine.sig theirs.sig mine.verified theirs.verified)
          ∙ sym theirs.coin)
