-- ===== src/Subset/Dumbo/Chosen.antt =====
-- What `dumbocommonsubset` returns: the values of the broadcasts that the validated agreement chose.
use mathlib.Core.List.{append-nil}
use mathlib.Core.Path.{subst}
use dumbo_ucy.Shared.{
  ℕ, zero, suc, ◌≤◌, ◌<◌, ◌≡◌, refl, sym, ltb→lt, true, false, not, Option, none, some, List, [],
  ◌∷◌, ◌++◌, nat_comparable, ltb, ◌&&◌, if◌then◌else◌, get_elem?, length, arith, on_if, nat_beq_iff,
}
use dumbo_ucy.Shared.Loop.{AllOf}
use dumbo_ucy.Shared.Steps.{run_steps, steps_keep, Then}
use dumbo_ucy.Subset.Dumbo.{
  State, Pc, waits, looks_at, raised, returned, Event, prbc, vacs, turn, tuple, Machine, init,
  wait_for_prbc_to_continue, check_value, pass, on_turn, on_vacs, step,
}

-- What is given to `vacs_in`, by the proof that the party holds of its own broadcast.
abbrev pub own : {P : Type 0} → Option P → List P
own none = []
own (some proof) = proof ∷ []

tuple-equal :
    {A : Type 0} (n : ℕ) (xs ys : ℕ → A) → ((j : ℕ) → j < n → xs j ≡ ys j) → tuple n xs ≡ tuple n ys
unfolding tuple
tuple-equal zero xs ys h = refl
tuple-equal (suc n) xs ys h =
    rw (tuple-equal n xs ys (λ j lt. h j (omega arith)), h n (omega arith)) refl

pub get_elem?_there :
    {A : Type 0} (xs : List A) (j : ℕ) → j < length xs → (x : A) × (get_elem? xs j ≡ some x)
get_elem?_there [] j lt = absurd (omega arith)
get_elem?_there (x ∷ xs) zero lt = (x, refl)
get_elem?_there (x ∷ xs) (suc j) lt = get_elem?_there xs j (omega arith)

module _ {V P : Type 0} where
  -- The value of the broadcast where the vector has a proof for it.
  abbrev pub pick : V → Option (Option P) → Option V
  pick v (some (some proof)) = some v
  pick v _ = none

  -- The entries of the vector that have a proof, filled with the values of the broadcasts.
  abbrev pub chosen : ℕ → List (Option P) → (ℕ → V) → List (Option V)
  chosen n vector values = tuple n (λ j. pick (values j) (get_elem? vector j))

  -- Broadcast j returns `values j`, and the validated agreement returns `vector`.
  abbrev pub Given : (ℕ → V) → List (Option P) → Event V P → Type 0
  Given values vector (prbc j v proof) = v ≡ values j
  Given values vector (vacs o) = o ≡ some vector
  Given values vector turn = Unit

  module _ (pid n : ℕ) (values : ℕ → V) (vector : List (Option P)) where
    abbrev picked : ℕ → Option V
    picked j = pick (values j) (get_elem? vector j)

    -- The passes of the last loop that are over.
    abbrev passed : Pc V P → ℕ
    passed waits = 0
    passed (looks_at j w) = j
    passed raised = 0
    passed (returned l) = n

    abbrev pub At : Pc V P → Type 0
    At waits = Unit
    At (looks_at j w) = (w ≡ vector) × (j ≤ n)
    At raised = zero ≡ 1
    At (returned l) = l ≡ chosen n vector values

    pub record Good (m : Machine V P) (fed : List P) : Type 0 where
      pub over : (j : ℕ) → j < passed m.1 → m.0.ended j ≡ true
      pub kept : (j : ℕ) → j < passed m.1 → m.0.prbc_values j ≡ picked j
      pub ready :
          (j : ℕ) → passed m.1 ≤ j → m.0.ended j ≡ true → m.0.prbc_values j ≡ some (values j)
      pub at : At m.1
      pub fresh : (j : ℕ) → m.0.ended j ≡ false → m.0.prbc_proofs j ≡ none
      pub inputs : fed ≡ own (m.0.prbc_proofs pid)

    prbc-Good :
        (s : State V P) (pc : Pc V P) (fed : List P) (leader : ℕ) (proof : P)
        → s.ended leader ≡ false
        → Good (s, pc) fed
        → Good
            ((wait_for_prbc_to_continue pid n s leader (values leader) proof).0, pc)
            (fed ++ (wait_for_prbc_to_continue pid n s leader (values leader) proof).1)
    unfolding wait_for_prbc_to_continue
    prbc-Good s pc fed leader proof e g = record {
      over = λ j lt. ground (arith, g.over j lt, nat_beq_iff leader j);
      kept = λ j lt. ground (arith, g.kept j lt, g.over j lt, nat_beq_iff leader j);
      ready = λ j le d. ground (arith, g.ready j le, nat_beq_iff leader j);
      at = g.at;
      fresh = λ j d. ground (arith, g.fresh j, nat_beq_iff leader j);
      inputs = ground (arith, g.inputs, g.fresh leader e, append-nil fed, nat_beq_iff leader pid);
    }

    pass-Good :
        (s : State V P) (fed : List P) (j : ℕ) (o : Option P)
        → get_elem? vector j ≡ some o
        → j < n
        → Good (s, looks_at j vector) fed
        → Good (pass pid n s j vector (some o)) fed
    unfolding pass check_value
    pass-Good s fed j none e lt' g = record {
      over = λ k lt. ground (arith, g.over k, nat_beq_iff j k);
      kept = λ k lt. ground (arith, e, g.kept k, nat_beq_iff j k);
      ready = λ k le d. ground (arith, g.ready k (omega arith), nat_beq_iff j k);
      at = (refl, omega arith);
      fresh = λ k d. ground (arith, g.fresh k, nat_beq_iff j k);
      inputs = g.inputs;
    }
    pass-Good s fed j (some proof) e lt' g =
        on_if (λ m. Good m fed) (s.ended j)
          (λ d. rw (g.ready j (omega arith) d) (record {
            over = λ k lt. ground (arith, d, g.over k, nat_beq_iff j k);
            kept = λ k lt. ground (arith, e, d, g.kept k, g.ready j, nat_beq_iff j k);
            ready = λ k le d'. g.ready k (omega arith) d';
            at = (refl, omega arith);
            fresh = g.fresh;
            inputs = g.inputs;
          }))
          (λ d. g)

    returned-Good :
        (s : State V P) (fed : List P) (j : ℕ)
        → n ≤ j
        → Good (s, looks_at j vector) fed
        → Good (s, returned (tuple n s.prbc_values)) fed
    returned-Good s fed j le g = record {
      over = λ k lt. g.over k (omega arith);
      kept = λ k lt. g.kept k (omega arith);
      ready = λ k le' d. g.ready k (omega (arith, g.at.1)) d;
      at = tuple-equal n s.prbc_values picked (λ k lt. g.kept k (omega arith));
      fresh = g.fresh;
      inputs = g.inputs;
    }

    pub looks_vector :
        (s : State V P) (fed : List P) (j : ℕ) (w : List (Option P))
        → Good (s, looks_at j w) fed
        → Good (s, looks_at j vector) fed
    looks_vector s fed j w g = subst (λ u. Good (s, looks_at j u) fed) g.at.0 g

    module _ (full : length vector ≡ n) where
      pub on_turn-Good :
          (s : State V P) (pc : Pc V P) (fed : List P)
          → Good (s, pc) fed
          → Good (on_turn pid n s pc) fed
      unfolding on_turn
      on_turn-Good s waits fed g = g
      on_turn-Good s raised fed g = g
      on_turn-Good s (returned l) fed g = g
      on_turn-Good s (looks_at j w) fed g =
          subst
            (λ u.
              Good
                (if ltb j n
                  then pass pid n s j u (get_elem? u j)
                  else (s, returned (tuple n s.prbc_values)))
                fed)
            (sym g.at.0)
            (on_if (λ m. Good m fed) (ltb j n)
              (λ c.
                let lt = ltb→lt j n c in
                let there = get_elem?_there vector j (omega arith) in
                rw there.1 (pass-Good s fed j there.0 there.1 lt (looks_vector s fed j w g)))
              (λ c. returned-Good s fed j (ground arith) (looks_vector s fed j w g)))

      step-Good :
          (m : Machine V P) (e : Event V P) (fed : List P)
          → Given values vector e
          → Good m fed
          → Then Good fed (step pid n m e)
      unfolding step on_vacs
      step-Good (s, pc) (prbc leader msg proof) fed h g =
          on_if (Then Good fed) (ltb leader n && not (s.ended leader))
            (λ c. rw h (prbc-Good s pc fed leader proof (ground arith) g)) (λ c. rw append-nil g)
      step-Good (s, pc) turn fed h g = rw append-nil (on_turn-Good s pc fed g)
      step-Good (s, waits) (vacs o) fed h g =
          rw (append-nil, h)
            (record {
              over = λ k lt. absurd (omega arith);
              kept = λ k lt. absurd (omega arith);
              ready = g.ready;
              at = (refl, omega arith);
              fresh = g.fresh;
              inputs = g.inputs;
            })
      step-Good (s, raised) (vacs o) fed h g = rw append-nil g
      step-Good (s, returned l) (vacs o) fed h g = rw append-nil g
      step-Good (s, looks_at j w) (vacs o) fed h g = rw append-nil g

      pub run-Good :
          (events : List (Event V P))
          → AllOf (Given values vector) events
          → Then Good [] (run_steps (step pid n) init events)
      run-Good events given =
          steps_keep (step pid n) Good (Given values vector) step-Good events init [] given
            (record {
              over = λ j lt. absurd (omega arith);
              kept = λ j lt. absurd (omega arith);
              ready = λ j le d. absurd (ground arith);
              at = tt;
              fresh = λ j d. refl;
              inputs = refl;
            })

      -- Whatever arrives in whatever order, where the vector of the validated agreement has N
      -- entries: a tuple that `dumbocommonsubset` returns is `chosen`, which has the value of the
      -- j-th broadcast where the vector has a proof for j, and None elsewhere. What the party has
      -- given to `vacs_in` is the proof with which its own broadcast has returned, once, and
      -- nothing if it has not.
      pub subset_chosen :
          (events : List (Event V P)) (l : List (Option V))
          → AllOf (Given values vector) events
          → (run_steps (step pid n) init events).0.1 ≡ returned l
          → (l ≡ chosen n vector values)
            × ((run_steps (step pid n) init events).1
                ≡ own ((run_steps (step pid n) init events).0.0.prbc_proofs pid))
      subset_chosen events l given e = let g = run-Good events given in (subst At e g.at, g.inputs)
