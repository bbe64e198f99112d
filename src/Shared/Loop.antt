-- ===== src/Shared/Loop.antt =====
-- `while True: receive(); …`: what one turn of a receive loop does, and a run over the messages
-- that arrive.
use mathlib.Core.List.{List, [], ◌∷◌, ◌++◌, append-nil, append_assoc}

-- One turn: `continue` or the end of the body, with what was sent; `return`; an exception that
-- leaves the loop.
pub data Turn (S O R : Type 0) : Type 0 where
  next : S → List O → Turn S O R
  done : List O → R → Turn S O R
  fail : List O → Turn S O R

-- What a run is at when its messages have been handled.
pub data End (S R : Type 0) : Type 0 where
  waiting : S → End S R
  returned : R → End S R
  failed : End S R

-- The rest of a run, after one turn.
abbrev resume : {S O R : Type 0} → (S → List O × End S R) → Turn S O R → List O × End S R
resume f (next s o) = (o ++ (f s).0, (f s).1)
resume f (done o r) = (o, returned r)
resume f (fail o) = (o, failed)

module _ {S A O R : Type 0} (handle : S → A → Turn S O R) where
  unfoldable pub run : S → List A → List O × End S R
  run s [] = ([], waiting s)
  run s (a ∷ rest) = resume (λ s'. run s' rest) (handle s a)

-- `P` holds of the state and all that was sent so far, `Q` where the loop returns, `F` where it
-- ends by an exception.
module _ {S O R : Type 0} (P : S → List O → Type 0) (Q : R → List O → Type 0)
    (F : List O → Type 0) where
  abbrev pub AfterTurn : List O → Turn S O R → Type 0
  AfterTurn outs (next s o) = P s (outs ++ o)
  AfterTurn outs (done o r) = Q r (outs ++ o)
  AfterTurn outs (fail o) = F (outs ++ o)

  abbrev pub AtEnd : List O → End S R → Type 0
  AtEnd outs (waiting s) = P s outs
  AtEnd outs (returned r) = Q r outs
  AtEnd outs failed = F outs

  resume_inv :
      (f : S → List O × End S R)
      → ((s : S) (outs : List O) → P s outs → AtEnd (outs ++ (f s).0) (f s).1)
      → (outs : List O) (t : Turn S O R) → AfterTurn outs t
      → AtEnd (outs ++ (resume f t).0) (resume f t).1
  resume_inv f ih outs (next s o) h = rw (← append_assoc outs o (f s).0) (ih s (outs ++ o) h)
  resume_inv f ih outs (done o r) h = h
  resume_inv f ih outs (fail o) h = h

abbrev pub AllOf {ℓ κ} : {A : Type ℓ} → (A → Type κ) → List A → Type κ
AllOf P [] = Unit
AllOf P (x ∷ xs) = P x × AllOf P xs

-- What one turn keeps, for messages of a certain kind, is kept by every run over such messages.
module _ {S A O R : Type 0} (handle : S → A → Turn S O R) (P : S → List O → Type 0)
    (Q : R → List O → Type 0) (F : List O → Type 0) (Ok : A → Type 0)
    (keep : (s : S) (a : A) (outs : List O)
      → Ok a
      → P s outs
      → AfterTurn P Q F outs (handle s a)) where
  pub run_inv_where :
      (msgs : List A) (s : S) (outs : List O)
      → AllOf Ok msgs
      → P s outs
      → AtEnd P Q F (outs ++ (run handle s msgs).0) (run handle s msgs).1
  unfolding run
  run_inv_where [] s outs ok h = rw append-nil h
  run_inv_where (a ∷ rest) s outs ok h =
      resume_inv P Q F (λ s'. run handle s' rest) (λ s' outs'. run_inv_where rest s' outs' ok.1)
        outs (handle s a) (keep s a outs ok.0 h)

abbrev pub gather : {T A : Type 0} → (T → A → T) → T → List A → T
gather record_one t [] = t
gather record_one t (a ∷ rest) = gather record_one (record_one t a) rest

-- The same where the invariant also speaks of what has arrived, as `record_one` gathers it.
module _ {S A O R T : Type 0} (handle : S → A → Turn S O R) (record_one : T → A → T)
    (P : T → S → List O → Type 0) (Q : R → List O → Type 0) (F : List O → Type 0) (Ok : A → Type 0)
    (keep : (t : T) (s : S) (a : A) (outs : List O)
      → Ok a
      → P t s outs
      → AfterTurn (P (record_one t a)) Q F outs (handle s a)) where
  resume_gathers :
      (t t' : T) (f : S → List O × End S R)
      → ((s : S) (outs : List O) → P t s outs → AtEnd (P t') Q F (outs ++ (f s).0) (f s).1)
      → (outs : List O) (turn : Turn S O R) → AfterTurn (P t) Q F outs turn
      → AtEnd (P t') Q F (outs ++ (resume f turn).0) (resume f turn).1
  resume_gathers t t' f ih outs (next s o) h =
      rw (← append_assoc outs o (f s).0) (ih s (outs ++ o) h)
  resume_gathers t t' f ih outs (done o r) h = h
  resume_gathers t t' f ih outs (fail o) h = h

  pub run_gathers :
      (msgs : List A) (t : T) (s : S) (outs : List O)
      → AllOf Ok msgs
      → P t s outs
      → AtEnd
          (P (gather record_one t msgs))
          Q
          F
          (outs ++ (run handle s msgs).0)
          (run handle s msgs).1
  unfolding run
  run_gathers [] t s outs ok h = rw append-nil h
  run_gathers (a ∷ rest) t s outs ok h =
      resume_gathers (record_one t a) (gather record_one (record_one t a) rest)
        (λ s'. run handle s' rest) (λ s' outs'. run_gathers rest (record_one t a) s' outs' ok.1)
        outs (handle s a) (keep t s a outs ok.0 h)

pub AllOf-append {ℓ κ} :
    {A : Type ℓ} (P : A → Type κ) (xs ys : List A) → AllOf P xs → AllOf P ys → AllOf P (xs ++ ys)
AllOf-append P [] ys h k = k
AllOf-append P (x ∷ xs) ys h k = (h.0, AllOf-append P xs ys h.1 k)

pub AllOf-any : {A : Type 0} (msgs : List A) → AllOf (λ _. Unit {0}) msgs
AllOf-any [] = tt
AllOf-any (a ∷ rest) = (tt, AllOf-any rest)

-- An invariant of one turn is an invariant of every run.
module _ {S A O R : Type 0} (handle : S → A → Turn S O R) (P : S → List O → Type 0)
    (Q : R → List O → Type 0) (F : List O → Type 0)
    (keep : (s : S) (a : A) (outs : List O) → P s outs → AfterTurn P Q F outs (handle s a)) where
  pub run_inv :
      (msgs : List A) (s : S) (outs : List O)
      → P s outs
      → AtEnd P Q F (outs ++ (run handle s msgs).0) (run handle s msgs).1
  run_inv msgs s outs h =
      run_inv_where handle P Q F (λ _. Unit) (λ s' a outs' _. keep s' a outs') msgs s outs
        (AllOf-any msgs) h
