-- ===== src/Rbc/Merkle.antt =====
-- honeybadgerbft/core/reliablebroadcast.py: `merkleTree`, `getMerkleBranch`, `merkleVerify`.
-- `hash` of that file is SHA-256 of the standard library, a parameter of each definition.
pub mod Heap
pub mod Branch
pub mod Binding
use dumbo_ucy.Shared.{
  ℕ, zero, suc, ◌+◌, ◌-◌, ◌*◌, ◌/◌, ◌%◌, ◌^◌, Bool, true, false, Option, none, some, List, [], ◌∷◌,
  ◌++◌, ◌==◌, nat_comparable, bytes_comparable, ltb, ◌&&◌, if◌then◌else◌, length, get_or, set,
  replicate,
}

abbrev pub Bytes : Type 0
Bytes = List ℕ

-- ceil(math.log(n, 2)), in exact arithmetic: the least c with n ≤ 2 ^ c, searched from c upwards.
ceil_log2_from : ℕ → ℕ → ℕ → ℕ
ceil_log2_from zero c n = c
ceil_log2_from (suc fuel) c n =
    let rest = ceil_log2_from fuel (c + 1) n in if ltb (2 ^ c) n then rest else c

-- `n` rounds are enough, since n ≤ 2 ^ n.
unfoldable pub ceil_log2 : ℕ → ℕ
unfolding ceil_log2_from
ceil_log2 n = ceil_log2_from n 0 n

module _ (hash : Bytes → Bytes) where
  -- `for i in range(N): mt[bottomrow + i] = hash(strList[i])`, from leaf `i` on
  unfoldable pub fill_leaves : ℕ → List Bytes → List Bytes → List Bytes
  fill_leaves at [] mt = mt
  fill_leaves at (x ∷ xs) mt = fill_leaves (at + 1) xs (set mt at (hash x))

  -- `for i in range(bottomrow - 1, 0, -1)`: `i` is the index to be written next
  unfoldable pub fill_inner : ℕ → List Bytes → List Bytes
  fill_inner zero mt = mt
  fill_inner (suc i) mt =
      fill_inner i
        (set mt (suc i) (hash (get_or mt (suc i * 2) [] ++ get_or mt (suc i * 2 + 1) [])))

  -- `none` is the failed `assert N >= 1`.
  unfoldable pub merkle_tree : List Bytes → Option (List Bytes)
  unfolding fill_leaves fill_inner ceil_log2
  merkle_tree str_list =
      let bottomrow = 2 ^ ceil_log2 (length str_list) in
      if ltb 0 (length str_list)
      then some (
          fill_inner (bottomrow - 1)
            (fill_leaves bottomrow str_list (replicate (2 * bottomrow) [])))
      else none

  -- The loop over `branch`: `odd` is `tindex & 1`, and then `tindex >>= 1`.
  unfoldable pub climb : Bytes → ℕ → List Bytes → Bytes
  climb tmp tindex [] = tmp
  climb tmp tindex (br ∷ branch) =
      climb (hash (if tindex % 2 == 1 then br ++ tmp else tmp ++ br)) (tindex / 2) branch

  -- `none` is a failed assertion: the index out of range, or a branch of another length.
  unfoldable pub merkle_verify : ℕ → Bytes → Bytes → List Bytes → ℕ → Option Bool
  unfolding climb ceil_log2
  merkle_verify n val roothash branch index =
      if ltb index n && (length branch == ceil_log2 n)
      then some (climb (hash val) index branch == roothash)
      else none

-- `t ^ 1`: the other child of the same parent
unfoldable pub sibling : ℕ → ℕ
sibling t = if t % 2 == 0 then t + 1 else t - 1

-- `while t > 1: res.append(mt[t ^ 1]); t //= 2`
unfoldable pub siblings : ℕ → ℕ → List Bytes → List Bytes
unfolding sibling
siblings zero t mt = []
siblings (suc fuel) t mt =
    let rest = siblings fuel (t / 2) mt in if ltb 1 t then get_or mt (sibling t) [] ∷ rest else []

-- The loop halves `t`, so `t` rounds are enough.
unfoldable pub get_merkle_branch : ℕ → List Bytes → List Bytes
unfolding siblings
get_merkle_branch index mt = let t = index + length mt / 2 in siblings t t mt
