-- ===== src/Aba/Heard.antt =====
-- The EST messages that arrive, and what a party whose receiving greenlet lives makes of them.
use dumbo_ucy.Shared.{
  ℕ, ◌+◌, ◌*◌, ◌≤◌, ◌≡◌, refl, ap, ◌∙◌, Bool, true, false, none, some, List, [], ◌∷◌, ◌==◌,
  nat_comparable, leb, ◌&&◌, ◌||◌, length, arith, nat_beq_iff, Bool-cases, inl, inr,
}
use dumbo_ucy.Shared.Dict.{contains, contains-add}
use dumbo_ucy.Shared.Loop.{AllOf, AllOf-any}
use dumbo_ucy.Shared.Quorum.{count_below, count_below-equal, count_below-members}
use dumbo_ucy.Aba.Defs.{est, aux, conf, Out, Params, State, init}
use dumbo_ucy.Aba.Receive.{relay, output_bin, on_est, on_aux, on_conf, dispatch, receive}
use dumbo_ucy.Aba.Rounds.{Event, got, woken, given, coin, step, run}
use dumbo_ucy.Aba.Steps.{run_keeps}
use dumbo_ucy.Aba.Sends.{est_count}
use dumbo_ucy.Aba.Sends.Run.{run-HasSent}
use dumbo_ucy.Aba.Main.{Arrives, main-Keeps, run-HasReceived}
use dumbo_ucy.Aba.Halt.{IsDead, step-IsDead}

-- An event is EST(q, w) from party j.
abbrev pub hears : Event → ℕ → ℕ → ℕ → Bool
hears (got i (est r v)) q w j = i == j && (r == q && v == w)
hears (got i (aux r v)) q w j = false
hears (got i (conf r v)) q w j = false
hears woken q w j = false
hears (given v) q w j = false
hears (coin c) q w j = false

-- Party j has sent EST(q, w).
abbrev pub heard : List Event → ℕ → ℕ → ℕ → Bool
heard [] q w j = false
heard (e ∷ events) q w j = hears e q w j || heard events q w j

module _ (p : Params) where
  step-hears :
      (s : State) (e : Event) (q w j : ℕ)
      → (step p s e).0.receiving ≡ true
      → contains ((step p s e).0.est_values q w) j
        ≡ (hears e q w j || contains (s.est_values q w) j)
  unfolding step receive dispatch on_est on_aux on_conf relay output_bin
  step-hears s (got i (est r v)) q w j alive = ground (
    arith,
    contains-add (s.est_values r v) i j,
    nat_beq_iff r q,
    nat_beq_iff v w,
    nat_beq_iff i j,
  )
  step-hears s (got i (aux r v)) q w j alive = ground arith
  step-hears s (got i (conf r none)) q w j alive = ground arith
  step-hears s (got i (conf r (some v))) q w j alive = ground arith
  step-hears s woken q w j alive = rw (main-Keeps p s woken tt).est_values refl
  step-hears s (given v) q w j alive = rw (main-Keeps p s (given v) tt).est_values refl
  step-hears s (coin c) q w j alive = rw (main-Keeps p s (coin c) tt).est_values refl

  -- A receiving greenlet that lives has always lived.
  alive_before :
      (events : List Event) (s : State) → (run p s events).0.receiving ≡ true → s.receiving ≡ true
  alive_before events s alive = elim (Bool-cases s.receiving) [
    | inl lives ↦ lives
    | inr dead ↦
        let start : IsDead s s = record {
          receiving = dead;
          est_values = refl;
          aux_values = refl;
          conf_values = refl;
          bin_values = refl;
        } in
        let still =
          run_keeps p (λ s' outs. IsDead s s') (λ a. Unit)
            (λ s' a outs ok h. step-IsDead p s s' a h) events s [] (AllOf-any events) start in
        absurd (cc (alive, still.receiving))
  ]

  run-hears :
      (events : List Event) (s : State) (q w j : ℕ)
      → (run p s events).0.receiving ≡ true
      → contains ((run p s events).0.est_values q w) j
        ≡ (heard events q w j || contains (s.est_values q w) j)
  unfolding run
  run-hears [] s q w j alive = refl
  run-hears (e ∷ events) s q w j alive =
      let s' = (step p s e).0 in
      ground (
        arith,
        run-hears events s' q w j alive,
        step-hears s e q w j (alive_before events s' alive),
      )

  nobody : (j : ℕ) → contains [] j ≡ false
  unfolding contains
  nobody j = refl

  -- What a party whose receiving greenlet lives has made of the EST messages.
  pub record Answers (events : List Event) (s : State) (outs : List Out) : Type 0 where
    pub recorded : (q w j : ℕ) → contains (s.est_values q w) j ≡ heard events q w j
    pub outputs :
        (q w : ℕ) → s.bin_values q w ≡ leb (2 * p.f + 1) (count_below p.n (heard events q w))
    pub relays : (q w : ℕ) → p.f + 1 ≤ count_below p.n (heard events q w) → est_count q w outs ≡ 1

  -- As long as its receiving greenlet lives, and whatever has happened in whatever order:
  -- `est_values[r][v]` holds exactly the parties from which EST(r, v) has arrived; v is in
  -- `bin_values[r]` exactly when EST(r, v) has arrived from at least 2f + 1 parties; and the party
  -- has itself broadcast EST(r, v) exactly once where it has arrived from at least f + 1 parties.
  pub run-Answers :
      (events : List Event)
      → (run p init events).0.receiving ≡ true
      → Answers events (run p init events).0 (run p init events).1
  run-Answers events alive =
      let s = (run p init events).0 in
      let h = run-HasReceived p (λ i m. Unit) events (any_arrives events) in
      let sent = run-HasSent p events in
      let recorded : (q w j : ℕ) → contains (s.est_values q w) j ≡ heard events q w j =
        λ q w j. ground (arith, run-hears events init q w j alive, nobody j) in
      let many : (q w : ℕ) → length (s.est_values q w) ≡ count_below p.n (heard events q w) = λ q w.
        let e = h.senders.ests q w in
        count_below-members p.n (s.est_values q w) e.distinct e.below
        ∙ count_below-equal p.n _ _ (recorded q w) in
      record {
        recorded = recorded;
        outputs = λ q w. h.outputs q w ∙ ap (leb (2 * p.f + 1)) (many q w);
        relays = λ q w enough.
            ground (arith, sent.ests q w, h.relays q w (omega (arith, many q w, enough)));
      }
    where
      any_arrives : (es : List Event) → AllOf (Arrives p (λ i m. Unit)) es
      any_arrives [] = tt
      any_arrives (got i m ∷ es) = (tt, any_arrives es)
      any_arrives (woken ∷ es) = (tt, any_arrives es)
      any_arrives (given v ∷ es) = (tt, any_arrives es)
      any_arrives (coin c ∷ es) = (tt, any_arrives es)
