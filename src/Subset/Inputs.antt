-- ===== src/Subset/Inputs.antt =====
-- What a party feeds to the binary agreements.
use mathlib.Core.List.{append-nil, append_assoc}
use dumbo_ucy.Shared.{
  ℕ, zero, suc, ◌+◌, ◌-◌, ◌≤◌, ◌≡◌, refl, Bool, true, false, not, List, [], ◌∷◌, ◌++◌, ◌==◌,
  nat_comparable, leb, ltb, ◌&&◌, if◌then◌else◌, arith, on_if, nat_beq_iff,
}
use dumbo_ucy.Shared.Dict.{assign}
use dumbo_ucy.Subset.{
  Input, State, Event, rbc, aba, sum_below, zeros_below, init, recv_rbc, recv_aba, step, run,
}

-- How often b was fed to agreement k.
abbrev pub fed : ℕ → ℕ → List Input → ℕ
fed k b [] = 0
fed k b ((j, c) ∷ inputs) = (if j == k && c == b then 1 else 0) + fed k b inputs

-- How often agreement k was fed.
abbrev pub fed_any : ℕ → List Input → ℕ
fed_any k [] = 0
fed_any k ((j, c) ∷ inputs) = (if j == k then 1 else 0) + fed_any k inputs

fed-append : (k b : ℕ) (xs ys : List Input) → fed k b (xs ++ ys) ≡ fed k b xs + fed k b ys
fed-append k b [] ys = omega arith
fed-append k b ((j, c) ∷ xs) ys = omega (arith, fed-append k b xs ys)

fed_any-append : (k : ℕ) (xs ys : List Input) → fed_any k (xs ++ ys) ≡ fed_any k xs + fed_any k ys
fed_any-append k [] ys = omega arith
fed_any-append k ((j, c) ∷ xs) ys = omega (arith, fed_any-append k xs ys)

fed_any-zeros_below :
    (n k : ℕ) (inputted : ℕ → Bool)
    → fed_any k (zeros_below n inputted) ≡ (if ltb k n && not (inputted k) then 1 else 0)
unfolding zeros_below
fed_any-zeros_below zero k inputted = ground arith
fed_any-zeros_below (suc n) k inputted = ground (
  arith,
  fed_any-append k (zeros_below n inputted) (if inputted n then [] else (n, 0) ∷ []),
  fed_any-zeros_below n k inputted,
  nat_beq_iff n k,
)

-- An assignment at a place that was 0.
sum_below-assign :
    (n j b : ℕ) (values : ℕ → ℕ)
    → values j ≡ 0
    → sum_below n values ≤ sum_below n (assign values j b)
unfolding sum_below
sum_below-assign zero j b values z = omega arith
sum_below-assign (suc n) j b values z =
    ground (arith, sum_below-assign n j b values z, nat_beq_iff j n)

fed-zeros_below : (n k : ℕ) (inputted : ℕ → Bool) → fed k 1 (zeros_below n inputted) ≡ 0
unfolding zeros_below
fed-zeros_below zero k inputted = refl
fed-zeros_below (suc n) k inputted = ground (
  arith,
  fed-append k 1 (zeros_below n inputted) (if inputted n then [] else (n, 0) ∷ []),
  fed-zeros_below n k inputted,
)

module _ {V : Type 0} (n f : ℕ) where
  pub record HasFed (s : State V) (inputs : List Input) : Type 0 where
    pub once : (k : ℕ) → fed_any k inputs ≡ (if s.aba_inputted k then 1 else 0)
    pub zeros : (k : ℕ) → 1 ≤ fed k 0 inputs → n - f ≤ sum_below n s.aba_values
    pub ones : (k : ℕ) → 1 ≤ fed k 1 inputs → s.rbc_returned k ≡ true
    pub waiting : (j : ℕ) → s.aba_returned j ≡ false → s.aba_values j ≡ 0

  abbrev After : List Input → State V × List Input → Type 0
  After inputs o = HasFed o.0 (inputs ++ o.1)

  still : (s : State V) (inputs : List Input) → HasFed s inputs → After inputs (s, [])
  still s inputs h = rw append-nil h

  recv_rbc-HasFed :
      (s : State V) (j : ℕ) (v : V) (inputs : List Input)
      → HasFed s inputs
      → After inputs (recv_rbc n f s j v)
  unfolding recv_rbc
  recv_rbc-HasFed s j v inputs h =
      on_if (After inputs) (s.aba_inputted j)
        (λ c. record {
          once = λ k. rw append-nil (h.once k);
          zeros = λ k. rw append-nil (h.zeros k);
          ones = λ k. rw append-nil (λ m. ground (arith, h.ones k m));
          waiting = h.waiting;
        })
        (λ c. record {
          once =
              λ k. ground (arith, fed_any-append k inputs ((j, 1) ∷ []), h.once k, nat_beq_iff j k);
          zeros = λ k m. ground (arith, fed-append k 0 inputs ((j, 1) ∷ []), h.zeros k);
          ones =
              λ k m. ground (arith, fed-append k 1 inputs ((j, 1) ∷ []), h.ones k, nat_beq_iff j k);
          waiting = h.waiting;
        })

  recv_aba-HasFed :
      (s : State V) (j b : ℕ) (inputs : List Input)
      → s.aba_returned j ≡ false
      → HasFed s inputs
      → After inputs (recv_aba n f s j b)
  unfolding recv_aba
  recv_aba-HasFed s j b inputs new h =
      on_if (After inputs) (leb (n - f) (sum_below n (assign s.aba_values j b)))
        (λ c. record {
          once = λ k. ground (
            arith,
            fed_any-append k inputs (zeros_below n s.aba_inputted),
            fed_any-zeros_below n k s.aba_inputted,
            h.once k,
          );
          zeros = λ k m. ground arith;
          ones = λ k m. ground (
            arith,
            fed-append k 1 inputs (zeros_below n s.aba_inputted),
            fed-zeros_below n k s.aba_inputted,
            h.ones k,
          );
          waiting = λ k w. ground (arith, h.waiting k, nat_beq_iff j k);
        })
        (λ c. record {
          once = λ k. rw append-nil (h.once k);
          zeros = λ k. rw append-nil (λ m.
              omega (arith, h.zeros k m, sum_below-assign n j b s.aba_values (h.waiting j new)));
          ones = λ k. rw append-nil (h.ones k);
          waiting = λ k w. ground (arith, h.waiting k, nat_beq_iff j k);
        })

  step-HasFed :
      (s : State V) (e : Event V) (inputs : List Input)
      → HasFed s inputs
      → After inputs (step n f s e)
  unfolding step
  step-HasFed s (rbc j v) inputs h =
      on_if (After inputs) (ltb j n && not (s.rbc_returned j)) (λ c. recv_rbc-HasFed s j v inputs h)
        (λ c. still s inputs h)
  step-HasFed s (aba j b) inputs h =
      on_if (After inputs) (ltb j n && not (s.aba_returned j))
        (λ c. recv_aba-HasFed s j b inputs (ground arith) h) (λ c. still s inputs h)

  from :
      (events : List (Event V)) (s : State V) (inputs : List Input)
      → HasFed s inputs
      → After inputs (run n f s events)
  unfolding run
  from [] s inputs h = still s inputs h
  from (e ∷ events) s inputs h =
      rw (← append_assoc inputs (step n f s e).1 (run n f (step n f s e).0 events).1)
        (from events (step n f s e).0 (inputs ++ (step n f s e).1) (step-HasFed s e inputs h))

  -- In whatever order the broadcasts and the agreements return: agreement k has been fed once if
  -- `aba_inputted[k]` is set and never if it is not; it is fed 1 only after broadcast k has
  -- returned, and any agreement is fed 0 only when the agreements that have returned sum up to at
  -- least N - f.
  pub run-HasFed :
      (events : List (Event V)) → HasFed (run n f (init n f) events).0 (run n f (init n f) events).1
  run-HasFed events = from events (init n f) [] (record {
    once = λ k. refl;
    zeros = λ k m. absurd (omega arith);
    ones = λ k m. absurd (omega arith);
    waiting = λ j w. refl;
  })
