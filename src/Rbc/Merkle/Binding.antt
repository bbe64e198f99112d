-- ===== src/Rbc/Merkle/Binding.antt =====
-- Two values that `merkleVerify` accepts at one index under one root are equal, or two inputs of
-- the hash function collide.
use dumbo_ucy.Shared.{
  ℕ, ◌/◌, ◌%◌, ◌≡◌, ◌≢◌, ◌⊎◌, inl, inr, refl, Bool, true, false, some, List, [], ◌∷◌, ◌++◌, ◌==◌,
  nat_comparable, bytes_comparable, arith, if◌then◌else◌, length, take, drop, take-append,
  length-append, drop-append, Bool-cases, ◌∙◌, sym, ap, list_beq_iff,
}
use dumbo_ucy.Rbc.Merkle.{Bytes, climb, merkle_verify}

-- Two different inputs with one hash.
abbrev pub Collision : (Bytes → Bytes) → Type 0
Collision hash = (x : Bytes) × (y : Bytes) × (x ≢ y) × (hash x ≡ hash y)

append_split :
    (n : ℕ) (a b c d : Bytes) → length a ≡ n → length b ≡ n → a ++ c ≡ b ++ d → (a ≡ b) × (c ≡ d)
append_split n a b c d la lb e = (
  sym (take-append n a c la) ∙ ap (take n) e ∙ take-append n b d lb,
  sym (drop-append n a c la) ∙ ap (drop n) e ∙ drop-append n b d lb,
)

same_input : (hash : Bytes → Bytes) (x y : Bytes) → hash x ≡ hash y → (x ≡ y) ⊎ Collision hash
same_input hash x y h = elim (Bool-cases (x == y)) [
  | inl e ↦ inl ((list_beq_iff x y).0 e)
  | inr ne ↦ inr (x, y, (λ e. ground (arith, list_beq_iff x y)), h)
]

-- The node's own half of the hash input.
own_half :
    (odd : Bool) (l r a b : Bytes)
    → length a ≡ length b
    → (if odd then l ++ a else a ++ l) ≡ (if odd then r ++ b else b ++ r)
    → a ≡ b
own_half true l r a b e h =
    let total : length (l ++ a) ≡ length (r ++ b) = ap length h in
    (append_split (length r) l r a b (omega (arith, length-append l a, length-append r b)) refl h).1
own_half false l r a b e h = (append_split (length b) a b l r e refl h).0

or_else {ℓ κ} : {A B : Type ℓ} {C : Type κ} → A ⊎ C → (A → B ⊎ C) → B ⊎ C
or_else (inl a) f = f a
or_else (inr c) f = inr c

module _ (hash : Bytes → Bytes) (digest_size : ℕ)
    (sized : (x : Bytes) → length (hash x) ≡ digest_size) where
  climb_binding :
      (left right : List Bytes) (a b : Bytes) (tindex : ℕ)
      → length a ≡ digest_size
      → length b ≡ digest_size
      → length left ≡ length right
      → climb hash a tindex left ≡ climb hash b tindex right
      → (a ≡ b) ⊎ Collision hash
  unfolding climb
  climb_binding [] [] a b tindex la lb e h = inl h
  climb_binding [] (r ∷ right) a b tindex la lb e h = absurd (omega arith)
  climb_binding (l ∷ left) [] a b tindex la lb e h = absurd (omega arith)
  climb_binding (l ∷ left) (r ∷ right) a b tindex la lb e h =
      let odd : Bool = tindex % 2 == 1 in
      let x : Bytes = if odd then l ++ a else a ++ l in
      let y : Bytes = if odd then r ++ b else b ++ r in
      or_else
        (climb_binding left right (hash x) (hash y) (tindex / 2) (sized x) (sized y) (omega arith)
          h)
        (λ same.
          or_else (same_input hash x y same)
            (λ inputs. inl (own_half odd l r a b (la ∙ sym lb) inputs)))

  -- A root commits to one value at each index: two accepted values are equal, or a collision of
  -- the hash function is at hand. Of the hash only the fixed length of its digests is assumed.
  pub merkle_binding :
      (n i : ℕ) (root v w : Bytes) (left right : List Bytes)
      → merkle_verify hash n v root left i ≡ some true
      → merkle_verify hash n w root right i ≡ some true
      → (v ≡ w) ⊎ Collision hash
  unfolding merkle_verify
  merkle_binding n i root v w left right hv hw =
      or_else
        (climb_binding left right (hash v) (hash w) i (sized v) (sized w) (ground arith) (
          ground (
            arith,
            list_beq_iff (climb hash (hash v) i left) root,
            list_beq_iff (climb hash (hash w) i right) root,
          )))
        (same_input hash v w)
