-- ===== src/Mule/TwoValue/Finish.antt =====
-- How `recv` and the end of a round keep to the phases of a decision.
use mathlib.Core.List.{append-nil}
use dumbo_ucy.Shared.{
  ℕ, ◌+◌, ◌*◌, ◌%◌, ◌≡◌, refl, true, false, not, ◌&&◌, ◌||◌, List, [], ◌∷◌, ◌++◌, ◌==◌,
  nat_comparable, bytes_comparable, ltb, leb, length, arith, on_if, both,
}
use dumbo_ucy.Shared.Dict.{contains, add, assign_at}
use dumbo_ucy.Shared.Steps.{Then}
use dumbo_ucy.Mule.TwoValue.{Params, Msg, est, aux, conf, finish, Out, to_others, decide, State}
use dumbo_ucy.Mule.TwoValue.Receive.{
  relay, output_bin, on_est, on_aux, on_conf, signal_finish, accept_finish, on_finish, dispatch,
  receive,
}
use dumbo_ucy.Mule.TwoValue.Rounds.{try_finish}
use dumbo_ucy.Mule.TwoValue.Phases.{
  decided, starts, decides, visible, visible-append, Refines, keep_phase, Quiet, Quiet-Refines,
  undecided_empty, completes_now, quiet,
}

module _ (p : Params) where
  pub signal_finish-Refines :
      (s : State) (outs : List Out)
      → (leb (2 * p.f + 1) s.finish_cnt ≡ true → s.finish_sent ≡ true)
      → Refines s outs
      → Refines (signal_finish p s) outs
  unfolding signal_finish
  signal_finish-Refines s outs sent h =
      on_if (λ t. Refines t outs) (leb (2 * p.f + 1) s.finish_cnt)
        (λ c. completes_now s outs h.phase (sent c) h.runs h.state) (λ _. h)

  -- The party decides, having not done so.
  pub finish_now-Refines :
      (s : State) (v : ℕ) (outs : List Out)
      → s.finish_sent ≡ false
      → Refines s outs
      → Refines
          (signal_finish p (record s { finish_cnt = s.finish_cnt + 1; finish_sent = true }))
          (outs ++ decide v ∷ to_others (finish v) ∷ [])
  finish_now-Refines s v outs sent h =
      let before = undecided_empty s (visible outs) h.phase sent h.runs h.state in
      let s' = record s { finish_cnt = s.finish_cnt + 1; finish_sent = true } in
      signal_finish-Refines s' (outs ++ decide v ∷ to_others (finish v) ∷ []) (λ _. refl)
        (record {
          phase = decided v;
          runs =
              rw (visible-append outs (decide v ∷ to_others (finish v) ∷ []), before.0)
                (decides v starts);
          state = (refl, before.1);
        })

  pub accept_finish-Refines :
      (s : State) (v : ℕ) (outs : List Out)
      → Refines s outs
      → Then Refines outs (accept_finish p s v)
  unfolding accept_finish
  accept_finish-Refines s v outs h =
      on_if (Then Refines outs) (not s.finish_sent && leb (p.f + 1) s.finish_cnt)
        (λ c.
          finish_now-Refines s v outs
            (ground (arith, both (not s.finish_sent) (leb (p.f + 1) s.finish_cnt) c)) h)
        (λ c. rw append-nil (signal_finish-Refines s outs (λ d. ground arith) h))

  pub on_finish-Refines :
      (s : State) (v : ℕ) (outs : List Out) → Refines s outs → Then Refines outs (on_finish p s v)
  unfolding on_finish
  on_finish-Refines s v outs h =
      let s' = record s { finish_cnt = s.finish_cnt + 1; finish_value = add s.finish_value v } in
      let h' : Refines s' outs = record {
        phase = h.phase;
        runs = h.runs;
        state = keep_phase s s' h.phase refl refl h.state;
      } in
      on_if (Then Refines outs) (length s'.finish_value == 1)
        (λ _. accept_finish-Refines s' v outs h')
        (λ _.
          Quiet-Refines s outs (record s' { receiving = false }, [])
            (record { sent = refl; signal = refl; outs = refl }) h)

  pub try_finish-Refines :
      (s : State) (v bit : ℕ) (outs : List Out)
      → Refines s outs
      → Then Refines outs (try_finish p s v bit)
  unfolding try_finish
  try_finish-Refines s v bit outs h =
      on_if (Then Refines outs) (v % 2 == bit && not s.finish_sent)
        (λ c.
          let checks = both (v % 2 == bit) (not s.finish_sent) c in
          finish_now-Refines s v outs (ground (arith, checks.1)) h)
        (λ _. rw append-nil h)

  pub relay-Quiet : (s : State) (r v : ℕ) → Quiet s (relay p s r v)
  unfolding relay
  relay-Quiet s r v =
      on_if (Quiet s) (leb (p.f + 1) (length (s.est_values r v)) && not (s.est_sent r v))
        (λ _. record { sent = refl; signal = refl; outs = refl }) (λ _. quiet s)

  pub output_bin-Quiet :
      (s t : State) (outs : List Out) (r v : ℕ)
      → Quiet s (t, outs)
      → Quiet s (output_bin p t r v, outs)
  unfolding output_bin
  output_bin-Quiet s t outs r v q =
      on_if (λ u. Quiet s (u, outs)) (leb (2 * p.f + 1) (length (t.est_values r v)))
        (λ _. record { sent = q.sent; signal = q.signal; outs = q.outs }) (λ _. q)

  pub on_est-Quiet : (s : State) (sender r v : ℕ) → Quiet s (on_est p s sender r v)
  unfolding on_est
  on_est-Quiet s sender r v =
      on_if (Quiet s) (contains (s.est_values r v) sender) (λ _. quiet s)
        (λ _.
          let q =
            relay-Quiet
              (record s { est_values = assign_at s.est_values r v (add (s.est_values r v) sender) })
              r v in
          output_bin-Quiet s _ _ r v (record { sent = q.sent; signal = q.signal; outs = q.outs }))

  pub on_aux-Quiet : (s : State) (sender r v : ℕ) → Quiet s (on_aux p s sender r v)
  unfolding on_aux
  on_aux-Quiet s sender r v =
      on_if (Quiet s) (contains (s.aux_values r v) sender) (λ _. quiet s)
        (λ _. record { sent = refl; signal = refl; outs = refl })

  pub on_conf-Quiet : (s : State) (sender r : ℕ) (v : List ℕ) → Quiet s (on_conf p s sender r v)
  unfolding on_conf
  on_conf-Quiet s sender r v =
      on_if (Quiet s) (length v == 1 || length v == 2)
        (λ _.
          on_if (Quiet s) (contains (s.conf_values r v) sender) (λ _. quiet s)
            (λ _. record { sent = refl; signal = refl; outs = refl }))
        (λ _. record { sent = refl; signal = refl; outs = refl })

  pub dispatch-Refines :
      (s : State) (sender : ℕ) (m : Msg) (outs : List Out)
      → Refines s outs
      → Then Refines outs (dispatch p s sender m)
  unfolding dispatch
  dispatch-Refines s sender (est r v) outs h = Quiet-Refines s outs _ (on_est-Quiet s sender r v) h
  dispatch-Refines s sender (aux r v) outs h = Quiet-Refines s outs _ (on_aux-Quiet s sender r v) h
  dispatch-Refines s sender (conf r v) outs h =
      Quiet-Refines s outs _ (on_conf-Quiet s sender r v) h
  dispatch-Refines s sender (finish v) outs h = on_finish-Refines s v outs h

  pub receive-Refines :
      (s : State) (sender : ℕ) (m : Msg) (outs : List Out)
      → Refines s outs
      → Then Refines outs (receive p s sender m)
  unfolding receive
  receive-Refines s sender m outs h =
      on_if (Then Refines outs) s.receiving
        (λ _.
          on_if (Then Refines outs) (ltb sender p.n) (λ _. dispatch-Refines s sender m outs h)
            (λ _.
              Quiet-Refines s outs (record s { receiving = false }, [])
                (record { sent = refl; signal = refl; outs = refl }) h))
        (λ _. Quiet-Refines s outs (s, []) (quiet s) h)
