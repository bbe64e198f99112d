-- ===== src/Rbc/Encoding.antt =====
-- Two values whose encodings have one Merkle root are the same value.
use dumbo_ucy.Shared.{
  ℕ, suc, ◌≤◌, ◌<◌, ◌≡◌, ◌⊎◌, refl, true, some, List, [], ◌∷◌, nat_comparable, arith, length,
  length-map, get_or, map, inl, inr, ap, sym, ◌∙◌,
}
use mathlib.Core.Path.{subst, ap₂}
use dumbo_ucy.Rbc.Merkle.{Bytes, merkle_tree, merkle_verify, get_merkle_branch}
use dumbo_ucy.Rbc.Merkle.Branch.{merkle_verify-get_merkle_branch}
use dumbo_ucy.Rbc.Merkle.Binding.{Collision, merkle_binding}
use dumbo_ucy.Rbc.Coding.{encode, decode}
use dumbo_ucy.Rbc.Coding.RoundTrip.{Recovers, IsPartOf-self, present_all, encode_lem, decode-encode}

both :
    {hash : Bytes → Bytes} {x y : Bytes} {xs ys : List Bytes}
    → (x ≡ y) ⊎ Collision hash
    → (xs ≡ ys) ⊎ Collision hash
    → (◌≡◌ {A = List Bytes} (x ∷ xs) (y ∷ ys)) ⊎ Collision hash
both (inl e) (inl d) = inl (ap₂ ◌∷◌ e d)
both (inl e) (inr c) = inr c
both (inr c) d = inr c

-- Leaf by leaf, or a collision on the way.
same_leaves :
    (hash : Bytes → Bytes) (xs ys : List Bytes)
    → length xs ≡ length ys
    → ((i : ℕ) → i < length xs → (get_or xs i [] ≡ get_or ys i []) ⊎ Collision hash)
    → (xs ≡ ys) ⊎ Collision hash
same_leaves hash [] [] e h = inl refl
same_leaves hash [] (y ∷ ys) e h = absurd (omega arith)
same_leaves hash (x ∷ xs) [] e h = absurd (omega arith)
same_leaves hash (x ∷ xs) (y ∷ ys) e h =
    both (h 0 (omega arith))
      (same_leaves hash xs ys (omega arith) (λ i lt. h (suc i) (omega arith)))

module _ (hash : Bytes → Bytes) (zfec_encode : ℕ → ℕ → List Bytes → List Bytes) (k n : ℕ) where
  -- A value whose encoding has a Merkle tree with that root.
  pub record Encoded (root m : Bytes) : Type 0 where
    pub stripes : List Bytes
    pub mt : List Bytes
    pub encoded : encode zfec_encode k n m ≡ some stripes
    pub tree : merkle_tree hash stripes ≡ some mt
    pub top : get_or mt 1 [] ≡ root

module _ (hash : Bytes → Bytes) (zfec_encode : ℕ → ℕ → List Bytes → List Bytes)
    (zfec_decode : ℕ → ℕ → List Bytes → List ℕ → List Bytes) (k n digest_size : ℕ)
    (sized : (x : Bytes) → length (hash x) ≡ digest_size)
    (zfec : Recovers k n zfec_encode zfec_decode)
    (yields : (blocks : List Bytes) → length (zfec_encode k n blocks) ≡ n) (pos : 0 < k)
    (small : k ≤ 128) (fits : k ≤ n) where
  length-Encoded : {root m : Bytes} (e : Encoded hash zfec_encode k n root m) → length e.stripes ≡ n
  length-Encoded {root} {m} e =
      ap length (encode_lem zfec_encode k n m e.stripes e.encoded) ∙ yields _

  -- Every stripe of an encoding verifies under its root hash.
  stripe_verifies :
      {root m : Bytes} (e : Encoded hash zfec_encode k n root m) (i : ℕ)
      → i < n
      → merkle_verify hash n (get_or e.stripes i []) root (get_merkle_branch i e.mt) i ≡ some true
  stripe_verifies {root} e i h =
      let size = length-Encoded e in
      subst
        (λ size'.
          merkle_verify hash size' (get_or e.stripes i []) root (get_merkle_branch i e.mt) i
          ≡ some true)
        size
        (subst
          (λ r.
            merkle_verify hash (length e.stripes) (get_or e.stripes i []) r
              (get_merkle_branch i e.mt) i
            ≡ some true)
          e.top (merkle_verify-get_merkle_branch hash e.stripes e.mt i e.tree (omega arith)))

  same_stripes :
      {root m m' : Bytes} (e : Encoded hash zfec_encode k n root m)
      (e' : Encoded hash zfec_encode k n root m')
      → (e.stripes ≡ e'.stripes) ⊎ Collision hash
  same_stripes {root} e e' =
      same_leaves hash e.stripes e'.stripes (length-Encoded e ∙ sym (length-Encoded e')) (λ i lt.
        let below : i < n = omega (arith, length-Encoded e) in
        merkle_binding hash digest_size sized n i root (get_or e.stripes i [])
          (get_or e'.stripes i []) (get_merkle_branch i e.mt) (get_merkle_branch i e'.mt)
          (stripe_verifies e i below) (stripe_verifies e' i below))

  decode_all :
      {root m : Bytes} (e : Encoded hash zfec_encode k n root m)
      → decode zfec_decode k n (map some e.stripes) ≡ some m
  decode_all {root} {m} e =
      decode-encode zfec_encode zfec_decode k n m e.stripes (map some e.stripes) zfec pos small
        e.encoded (length-map some e.stripes ∙ length-Encoded e) (IsPartOf-self e.stripes)
        (omega (arith, present_all e.stripes, length-Encoded e))

  pub one_value_per_root :
      {root m m' : Bytes} (e : Encoded hash zfec_encode k n root m)
      (e' : Encoded hash zfec_encode k n root m')
      → (m ≡ m') ⊎ Collision hash
  one_value_per_root {root} {m} {m'} e e' = agree (same_stripes e e')
    where
      agree : (e.stripes ≡ e'.stripes) ⊎ Collision hash → (m ≡ m') ⊎ Collision hash
      agree (inr c) = inr c
      agree (inl q) =
          let one : decode zfec_decode k n (map some e.stripes) ≡ some m = decode_all e in
          let other : decode zfec_decode k n (map some e.stripes) ≡ some m' =
            rw q (decode_all e') in
          inl (ground arith)
