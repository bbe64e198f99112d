-- ===== src/Rbc/Merkle/Branch.antt =====
-- `getMerkleBranch` against `merkleVerify`: every branch of a built tree is accepted.
use native.Mathlib.Nat.{pow-suc}
use dumbo_ucy.Shared.{
  ℕ, zero, suc, ◌+◌, ◌-◌, ◌*◌, ◌/◌, ◌%◌, ◌^◌, ◌≤◌, ◌<◌, ◌≡◌, true, some, List, [], ◌∷◌, ◌++◌, ◌==◌,
  nat_comparable, bytes_comparable, arith, if◌then◌else◌, length, get_or, Bool-cases, lt→ltb, inl,
  inr, ap, ==_refl,
}
use dumbo_ucy.Rbc.Merkle.{
  Bytes, ceil_log2, merkle_tree, climb, merkle_verify, sibling, siblings, get_merkle_branch,
}
use dumbo_ucy.Rbc.Merkle.Heap.{IsTree, lt-pow2, merkle_tree-IsTree, le-ceil_log2}

siblings_step :
    (fuel t : ℕ) (mt : List Bytes)
    → 1 < t
    → siblings (suc fuel) t mt ≡ get_or mt (sibling t) [] ∷ siblings fuel (t / 2) mt
unfolding siblings
siblings_step fuel t mt h = rw (lt→ltb 1 t h)

siblings_root : (fuel t : ℕ) (mt : List Bytes) → t ≤ 1 → siblings (suc fuel) t mt ≡ []
unfolding siblings
siblings_root fuel t mt h = ground arith

module _ {hash : Bytes → Bytes} {xs mt : List Bytes} {c : ℕ} (tree : IsTree hash xs mt c) where
  -- One level: the parent's hash out of a node and its sibling.
  parent :
      (t tindex : ℕ)
      → t % 2 ≡ tindex % 2
      → 1 < t
      → t / 2 < 2 ^ c
      → hash (
          if tindex % 2 == 1
          then get_or mt (sibling t) [] ++ get_or mt t []
          else get_or mt t [] ++ get_or mt (sibling t) [])
        ≡ get_or mt (t / 2) []
  unfolding sibling
  parent t tindex e more below = elim (Bool-cases (t % 2 == 0)) [
    | inl even ↦
        let left : t / 2 * 2 ≡ t = ground arith in
        ground (arith, tree.inner (t / 2) (omega arith) below)
    | inr odd ↦
        let left : t / 2 * 2 ≡ t - 1 = ground arith in
        let right : t / 2 * 2 + 1 ≡ t = ground arith in
        ground (arith, tree.inner (t / 2) (omega arith) below)
  ]

  climb-siblings :
      (k fuel t tindex : ℕ)
      → t ≡ 2 ^ k + tindex
      → tindex < 2 ^ k
      → 2 ^ k ≤ 2 ^ c
      → t ≤ fuel
      → climb hash (get_or mt t []) tindex (siblings fuel t mt) ≡ get_or mt 1 []
  unfolding climb
  climb-siblings k zero t tindex e h le enough = absurd (omega arith)
  climb-siblings zero (suc fuel) t tindex e h le enough =
      let root : t ≡ 1 = omega arith in rw (siblings_root fuel t mt (omega arith), root)
  climb-siblings (suc k) (suc fuel) t tindex e h le enough =
      let double : 2 ^ suc k ≡ 2 ^ k * 2 = pow-suc 2 k in
      rw (siblings_step fuel t mt (omega arith)) (
        rw (parent t tindex (omega arith) (omega arith) (omega arith), climb)
          (climb-siblings k fuel (t / 2) (tindex / 2) (omega arith) (omega arith) (omega arith)
            (omega arith)))

  length-siblings :
      (k fuel t : ℕ) → 2 ^ k ≤ t → t < 2 ^ k * 2 → t ≤ fuel → length (siblings fuel t mt) ≡ k
  length-siblings k zero t lo hi enough = absurd (omega (arith, lt-pow2 k))
  length-siblings zero (suc fuel) t lo hi enough = rw (siblings_root fuel t mt (omega arith))
  length-siblings (suc k) (suc fuel) t lo hi enough =
      let double : 2 ^ suc k ≡ 2 ^ k * 2 = pow-suc 2 k in
      rw (siblings_step fuel t mt (omega (arith, lt-pow2 k)))
        (ap suc (length-siblings k fuel (t / 2) (omega arith) (omega arith) (omega arith)))

-- In a tree built over any non-empty list, the branch of each leaf verifies at that leaf's index.
pub merkle_verify-get_merkle_branch :
    (hash : Bytes → Bytes) (xs mt : List Bytes) (i : ℕ)
    → merkle_tree hash xs ≡ some mt
    → i < length xs
    → merkle_verify hash (length xs) (get_or xs i []) (get_or mt 1 []) (get_merkle_branch i mt) i
      ≡ some true
unfolding merkle_verify get_merkle_branch
merkle_verify-get_merkle_branch hash xs mt i built h =
    let tree = merkle_tree-IsTree hash xs mt built in
    let c = ceil_log2 (length xs) in
    let room : i < 2 ^ c = omega (arith, le-ceil_log2 (length xs)) in
    let t = i + length mt / 2 in
    let place : t ≡ 2 ^ c + i = omega (arith, tree.size) in
    ground (
      arith,
      tree.leaf i h,
      climb-siblings tree c t t i place room,
      length-siblings tree c t t,
      ==_refl (get_or mt 1 []),
    )
