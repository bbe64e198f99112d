-- ===== src/Rbc/Merkle/Heap.antt =====
-- What `merkleTree` writes where: the leaves in the bottom row, and in each inner node the hash of
-- its two children.
use native.Mathlib.Nat.{add-zero, zero-add, pow-suc}
use mathlib.Core.Path.{subst}
use native.Mathlib.Decide.{dec_lt}
use dumbo_ucy.Shared.{
  ℕ, zero, suc, ◌+◌, ◌-◌, ◌*◌, ◌^◌, ◌≤◌, ◌<◌, ◌≡◌, refl, some, List, [], ◌∷◌, ◌++◌, ltb, arith,
  length, get_or, set, replicate, length-set, get_or-set, length-replicate, Bool-cases, inl, inr,
  ◌∙◌,
}
use dumbo_ucy.Rbc.Merkle.{Bytes, ceil_log2, ceil_log2_from, fill_leaves, fill_inner, merkle_tree}

le-ceil_log2_from : (fuel c n : ℕ) → n ≤ 2 ^ (c + fuel) → n ≤ 2 ^ ceil_log2_from fuel c n
unfolding ceil_log2_from
le-ceil_log2_from zero c n h = rw add-zero at h
le-ceil_log2_from (suc fuel) c n h = elim (Bool-cases (ltb (2 ^ c) n)) [
  | inl more ↦ rw more (le-ceil_log2_from fuel (c + 1) n (subst (λ k. n ≤ 2 ^ k) (omega arith) h))
  | inr found ↦ rw found (ground arith)
]

pub lt-pow2 : (n : ℕ) → n < 2 ^ n
lt-pow2 zero = omega arith
lt-pow2 (suc n) = rw pow-suc (omega (arith, lt-pow2 n))

-- The bottom row has room for every leaf.
pub le-ceil_log2 : (n : ℕ) → n ≤ 2 ^ ceil_log2 n
unfolding ceil_log2
le-ceil_log2 n = le-ceil_log2_from n 0 n room
  where
    room : n ≤ 2 ^ (0 + n)
    room = rw zero-add (omega (arith, lt-pow2 n))

module _ (hash : Bytes → Bytes) where
  length-fill_leaves : (i : ℕ) (xs mt : List Bytes) → length (fill_leaves hash i xs mt) ≡ length mt
  unfolding fill_leaves
  length-fill_leaves i [] mt = refl
  length-fill_leaves i (x ∷ xs) mt =
      length-fill_leaves (i + 1) xs (set mt i (hash x)) ∙ length-set mt i (hash x)

  get-fill_leaves_below :
      (i j : ℕ) (xs mt : List Bytes)
      → j < i
      → get_or (fill_leaves hash i xs mt) j [] ≡ get_or mt j []
  unfolding fill_leaves
  get-fill_leaves_below i j [] mt h = refl
  get-fill_leaves_below i j (x ∷ xs) mt h =
      ground (
        arith,
        get-fill_leaves_below (i + 1) j xs (set mt i (hash x)),
        get_or-set mt i j (hash x) [],
      )

  -- Leaf `k` is at `i + k`.
  get-fill_leaves :
      (i k j : ℕ) (xs mt : List Bytes)
      → i + k ≡ j
      → k < length xs
      → i + length xs ≤ length mt
      → get_or (fill_leaves hash i xs mt) j [] ≡ hash (get_or xs k [])
  unfolding fill_leaves
  get-fill_leaves i k j [] mt e h fits = absurd (omega arith)
  get-fill_leaves i zero j (x ∷ xs) mt e h fits =
      ground (
        arith,
        get-fill_leaves_below (i + 1) j xs (set mt i (hash x)),
        get_or-set mt i j (hash x) [],
      )
  get-fill_leaves i (suc k) j (x ∷ xs) mt e h fits =
      get-fill_leaves (i + 1) k j xs (set mt i (hash x)) (omega arith) (omega arith)
        (omega (arith, length-set mt i (hash x)))

  -- What stands at `j` once its children are final.
  abbrev node : List Bytes → ℕ → Bytes
  node mt j = hash (get_or mt (j * 2) [] ++ get_or mt (j * 2 + 1) [])

  get-fill_inner_above :
      (i j : ℕ) (mt : List Bytes) → i < j → get_or (fill_inner hash i mt) j [] ≡ get_or mt j []
  unfolding fill_inner
  get-fill_inner_above zero j mt h = refl
  get-fill_inner_above (suc i) j mt h = ground (
    arith,
    get-fill_inner_above i j (set mt (suc i) (node mt (suc i))),
    get_or-set mt (suc i) j (node mt (suc i)) [],
  )

  length-fill_inner : (i : ℕ) (mt : List Bytes) → length (fill_inner hash i mt) ≡ length mt
  unfolding fill_inner
  length-fill_inner zero mt = refl
  length-fill_inner (suc i) mt =
      length-fill_inner i (set mt (suc i) (node mt (suc i)))
      ∙ length-set mt (suc i) (node mt (suc i))

  -- Each inner node is the hash of its children, as they are in the finished tree.
  get-fill_inner :
      (i j : ℕ) (mt : List Bytes)
      → 0 < j
      → j ≤ i
      → i < length mt
      → get_or (fill_inner hash i mt) j [] ≡ node (fill_inner hash i mt) j
  unfolding fill_inner
  get-fill_inner zero j mt pos h fits = absurd (omega arith)
  get-fill_inner (suc i) j mt pos h fits = elim (dec_lt j (suc i)) [
    | yes below ↦
        get-fill_inner i j (set mt (suc i) (node mt (suc i))) pos (omega arith)
          (omega (arith, length-set mt (suc i) (node mt (suc i))))
    | no last ↦
        let e : j ≡ suc i = omega arith in
        let mt' = set mt (suc i) (node mt (suc i)) in
        rw e (
          ground (
            arith,
            get-fill_inner_above i (suc i) mt',
            get-fill_inner_above i (suc i * 2) mt',
            get-fill_inner_above i (suc i * 2 + 1) mt',
            get_or-set mt (suc i) (suc i) (node mt (suc i)) [],
            get_or-set mt (suc i) (suc i * 2) (node mt (suc i)) [],
            get_or-set mt (suc i) (suc i * 2 + 1) (node mt (suc i)) [],
          ))
  ]

-- The finished tree, over a bottom row of `2 ^ c` nodes.
pub record IsTree (hash : Bytes → Bytes) (xs mt : List Bytes) (c : ℕ) : Type 0 where
  pub size : length mt ≡ 2 * 2 ^ c
  pub leaf : (k : ℕ) → k < length xs → get_or mt (2 ^ c + k) [] ≡ hash (get_or xs k [])
  pub inner :
      (j : ℕ)
      → 0 < j
      → j < 2 ^ c
      → get_or mt j [] ≡ hash (get_or mt (j * 2) [] ++ get_or mt (j * 2 + 1) [])

module _ (hash : Bytes → Bytes) (xs : List Bytes) (c : ℕ) (room : length xs ≤ 2 ^ c) where
  abbrev leaves : List Bytes
  leaves = fill_leaves hash (2 ^ c) xs (replicate (2 * 2 ^ c) [])

  abbrev tree : List Bytes
  tree = fill_inner hash (2 ^ c - 1) leaves

  length-leaves : length leaves ≡ 2 * 2 ^ c
  length-leaves =
      length-fill_leaves hash (2 ^ c) xs (replicate (2 * 2 ^ c) [])
      ∙ length-replicate (2 * 2 ^ c) []

  tree-IsTree : IsTree hash xs tree c
  tree-IsTree = record {
    size = length-fill_inner hash (2 ^ c - 1) leaves ∙ length-leaves;
    leaf = λ k h.
        get-fill_inner_above hash (2 ^ c - 1) (2 ^ c + k) leaves (omega arith)
        ∙ get-fill_leaves hash (2 ^ c) k (2 ^ c + k) xs (replicate (2 * 2 ^ c) []) refl h
            (omega (arith, length-replicate {A = Bytes} (2 * 2 ^ c) []));
    inner = λ j pos h.
        get-fill_inner hash (2 ^ c - 1) j leaves pos (omega arith) (omega (arith, length-leaves));
  }

pub merkle_tree-IsTree :
    (hash : Bytes → Bytes) (xs mt : List Bytes)
    → merkle_tree hash xs ≡ some mt
    → IsTree hash xs mt (ceil_log2 (length xs))
unfolding merkle_tree
merkle_tree-IsTree hash xs mt h =
    subst (λ t. IsTree hash xs t (ceil_log2 (length xs))) (ground arith)
      (tree-IsTree hash xs (ceil_log2 (length xs)) (le-ceil_log2 (length xs)))
