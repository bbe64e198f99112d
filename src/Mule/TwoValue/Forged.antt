-- ===== src/Mule/TwoValue/Forged.antt =====
-- One party sends FINISH f + 1 times.
use dumbo_ucy.Shared.{
  ℕ, zero, suc, ◌+◌, ◌*◌, ◌<◌, ◌≡◌, refl, ap, ◌∙◌, true, false, not, ◌&&◌, List, [], ◌∷◌, ◌==◌,
  nat_comparable, leb, ltb, if◌then◌else◌, length, replicate, arith, on_if, both, ==_refl, lt→ltb,
}
use native.Mathlib.Nat.{suc-add}
use mathlib.Core.List.{append-nil}
use dumbo_ucy.Shared.Dict.{add}
use dumbo_ucy.Shared.Steps.{run_steps}
use dumbo_ucy.Mule.TwoValue.{Params, finish, to_others, decide, State, got, Result}
use dumbo_ucy.Mule.TwoValue.Receive.{
  signal_finish, accept_finish, on_finish, die, dispatch, receive,
}
use dumbo_ucy.Mule.TwoValue.Rounds.{step}

module _ (p : Params) (v : ℕ) where
  -- A party that has not decided, and lacks k + 1 FINISH messages with `v` to do so.
  pub record Lacks (s : State) (k : ℕ) : Type 0 where
    pub receiving : s.receiving ≡ true
    pub sent : s.finish_sent ≡ false
    pub count : s.finish_cnt + k ≡ p.f
    pub single : add s.finish_value v ≡ v ∷ []

  add_again : (l : List ℕ) → add l v ≡ v ∷ [] → add (add l v) v ≡ v ∷ []
  unfolding add
  add_again l e = rw e (rw (==_refl v) refl)

  signal_finish-Lacks : (s : State) (k : ℕ) → Lacks s k → Lacks (signal_finish p s) k
  unfolding signal_finish
  signal_finish-Lacks s k h =
      on_if (λ t. Lacks t k) (leb (2 * p.f + 1) s.finish_cnt)
        (λ _. record { receiving = h.receiving; sent = h.sent; count = h.count; single = h.single })
        (λ _. h)

  -- Its value is the only one.
  single_passes : (l : List ℕ) → l ≡ v ∷ [] → (length l == 1) ≡ false → ⊥
  single_passes l e c = absurd (ground (arith, e))

  early :
      (s : State) (k : ℕ)
      → Lacks s (suc k)
      → Lacks (on_finish p s v).0 k × ((on_finish p s v).1 ≡ [])
  unfolding on_finish accept_finish
  early s k h =
      on_if (λ (r : Result). Lacks r.0 k × (r.1 ≡ [])) (length (add s.finish_value v) == 1)
        (λ _.
          on_if (λ (r : Result). Lacks r.0 k × (r.1 ≡ []))
            (not s.finish_sent && leb (p.f + 1) (s.finish_cnt + 1))
            (λ c. absurd (ground (arith, h.count, both (not s.finish_sent) _ c)))
            (λ _. (
              signal_finish-Lacks
                  (record s { finish_cnt = s.finish_cnt + 1; finish_value = add s.finish_value v })
                  k
                  (record {
                    receiving = h.receiving;
                    sent = h.sent;
                    count = omega (arith, h.count);
                    single = add_again s.finish_value h.single;
                  }),
              refl,
            )))
        (λ c. absurd (single_passes (add s.finish_value v) h.single c))

  last : (s : State) → Lacks s 0 → (on_finish p s v).1 ≡ decide v ∷ to_others (finish v) ∷ []
  unfolding on_finish accept_finish
  last s h =
      on_if (λ (r : Result). r.1 ≡ decide v ∷ to_others (finish v) ∷ [])
        (length (add s.finish_value v) == 1)
        (λ _.
          on_if (λ (r : Result). r.1 ≡ decide v ∷ to_others (finish v) ∷ [])
            (not s.finish_sent && leb (p.f + 1) (s.finish_cnt + 1)) (λ _. refl)
            (λ c. absurd (ground (arith, h.count, h.sent))))
        (λ c. absurd (single_passes (add s.finish_value v) h.single c))

  module _ (j : ℕ) (lt : j < p.n) where
    finish_arrives :
        (s : State) → s.receiving ≡ true → step p s (got j (finish v)) ≡ on_finish p s v
    unfolding step receive dispatch
    finish_arrives s r =
        ap (λ b. if b then if ltb j p.n then on_finish p s v else die p s else (s, [])) r
        ∙ ap (λ b. if b then on_finish p s v else die p s) (lt→ltb j p.n lt)

    -- The same party j sends FINISH with `v` again and again: a party that has not decided, and has
    -- room for `v` in `finish_value`, decides `v` on the message that brings `finish_cnt` to f + 1,
    -- whoever its earlier ones came from.
    pub forged_finish :
        (k : ℕ) (s : State)
        → Lacks s k
        → (run_steps (step p) s (replicate (k + 1) (got j (finish v)))).1
          ≡ decide v ∷ to_others (finish v) ∷ []
    unfolding run_steps
    forged_finish zero s h = rw (finish_arrives s h.receiving) (rw append-nil (last s h))
    forged_finish (suc k) s h =
        let e = early s k h in
        rw (suc-add, finish_arrives s h.receiving, e.1) (forged_finish k (on_finish p s v).0 e.0)
