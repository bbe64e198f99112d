-- ===== src/Shared/Dict.antt =====
-- Python's `dict` and `set`: entries in the order in which their keys were first written.
use Prim.Native.Nat.{ℕ, ◌+◌}
use mathlib.Core.Path.{◌≡◌, refl}
use mathlib.Core.Logic.{◌≢◌}
use mathlib.Core.Bool.{Bool, false, ◌&&◌, ◌||◌}
use mathlib.Core.List.{List, [], ◌∷◌}
use mathlib.Core.Option.{Option, none, some}
use native.Mathlib.Omega.{arith}
use dumbo_ucy.Shared.Tests.{Comparable, nat_comparable, nat_beq_iff, ◌==◌, ==_refl, if◌then◌else◌}
use dumbo_ucy.Shared.Lists.{length}

abbrev pub Dict {ℓ κ} : Type ℓ → Type κ → Type (ℓ ⊔ κ)
Dict K V = List (K × V)

-- `table[j] = x` for a table on numbers that is kept as a function
abbrev pub assign {ℓ} : {A : Type ℓ} → (ℕ → A) → ℕ → A → ℕ → A
assign table j x k = if j == k then x else table k

-- `table[r][k] = x`
abbrev pub assign_at {ℓ κ} :
    {K : Type ℓ} {A : Type κ} ⦃e : Comparable K⦄ → (ℕ → K → A) → ℕ → K → A → ℕ → K → A
assign_at table r k x q j = if r == q && k == j then x else table q j

module _ {ℓ} {A : Type ℓ} (table : ℕ → A) where
  pub assign_same : (j : ℕ) (x : A) → assign table j x j ≡ x
  assign_same j x = rw (==_refl j) refl

  pub assign_other : (j k : ℕ) (x : A) → j ≢ k → assign table j x k ≡ table k
  assign_other j k x ne = ground (arith, nat_beq_iff j k)

module _ {ℓ κ} {K : Type ℓ} {V : Type κ} ⦃e : Comparable K⦄ where
  -- d.get(k)
  unfoldable pub get : Dict K V → K → Option V
  get [] k = none
  get ((j, v) ∷ d) k = if j == k then some v else get d k

  -- d[k] for a defaultdict
  unfoldable pub get_or_default : Dict K V → V → K → V
  get_or_default [] v k = v
  get_or_default ((j, w) ∷ d) v k = if j == k then w else get_or_default d v k

  -- d[k] = v: a key that is there keeps its place
  unfoldable pub put : Dict K V → K → V → Dict K V
  put [] k v = (k, v) ∷ []
  put ((j, w) ∷ d) k v = if j == k then (j, v) ∷ d else (j, w) ∷ put d k v

  -- k in d
  unfoldable pub has_key : Dict K V → K → Bool
  has_key [] k = false
  has_key ((j, v) ∷ d) k = j == k || has_key d k

  pub get-put :
      (d : Dict K V) (k j : K) (v : V) → get (put d k v) j ≡ (if k == j then some v else get d j)
  unfolding get put
  get-put [] k j v = refl
  get-put ((i, w) ∷ d) k j v =
      ground (arith, e.equal_iff i k, e.equal_iff i j, e.equal_iff k j, get-put d k j v)

  pub get_or_default-put :
      (d : Dict K V) (u : V) (k j : K) (v : V)
      → get_or_default (put d k v) u j ≡ (if k == j then v else get_or_default d u j)
  unfolding get_or_default put
  get_or_default-put [] u k j v = refl
  get_or_default-put ((i, w) ∷ d) u k j v =
      ground
        (arith, e.equal_iff i k, e.equal_iff i j, e.equal_iff k j, get_or_default-put d u k j v)

  pub has_key-put :
      (d : Dict K V) (k j : K) (v : V) → has_key (put d k v) j ≡ (k == j || has_key d j)
  unfolding has_key put
  has_key-put [] k j v = refl
  has_key-put ((i, w) ∷ d) k j v =
      ground (arith, e.equal_iff i k, e.equal_iff i j, e.equal_iff k j, has_key-put d k j v)

  pub length-put :
      (d : Dict K V) (k : K) (v : V)
      → length (put d k v) ≡ (if has_key d k then length d else length d + 1)
  unfolding has_key put
  length-put [] k v = refl
  length-put ((i, w) ∷ d) k v = ground (arith, length-put d k v)

  pub get_or_default_of_missing :
      (d : Dict K V) (u : V) (k : K) → has_key d k ≡ false → get_or_default d u k ≡ u
  unfolding get_or_default has_key
  get_or_default_of_missing [] u k h = refl
  get_or_default_of_missing ((i, w) ∷ d) u k h = ground (arith, get_or_default_of_missing d u k)

module _ {ℓ} {A : Type ℓ} ⦃e : Comparable A⦄ where
  -- a in s
  unfoldable pub contains : List A → A → Bool
  contains [] a = false
  contains (x ∷ xs) a = x == a || contains xs a

  -- s.add(a)
  unfoldable pub add : List A → A → List A
  add [] a = a ∷ []
  add (x ∷ xs) a = if x == a then x ∷ xs else x ∷ add xs a

  pub contains-add : (s : List A) (a b : A) → contains (add s a) b ≡ (a == b || contains s b)
  unfolding contains add
  contains-add [] a b = refl
  contains-add (x ∷ xs) a b =
      ground (arith, e.equal_iff x a, e.equal_iff x b, e.equal_iff a b, contains-add xs a b)

  pub length-add :
      (s : List A) (a : A) → length (add s a) ≡ (if contains s a then length s else length s + 1)
  unfolding contains add
  length-add [] a = refl
  length-add (x ∷ xs) a = ground (arith, length-add xs a)

  -- No element twice, as in every set that `add` builds.
  abbrev pub IsDistinct : List A → Type 0
  IsDistinct [] = Unit
  IsDistinct (x ∷ xs) = (contains xs x ≡ false) × IsDistinct xs

  pub add-IsDistinct : (s : List A) (a : A) → IsDistinct s → IsDistinct (add s a)
  unfolding add contains
  add-IsDistinct [] a d = (refl, tt)
  add-IsDistinct (x ∷ xs) a d =
      ground (arith, contains-add xs a x, e.equal_iff x a, e.equal_iff a x, add-IsDistinct xs a)
