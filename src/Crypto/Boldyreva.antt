-- ===== src/Crypto/Boldyreva.antt =====
-- crypto/threshsig/boldyreva.py: threshold BLS signatures. The pairing group (charm) is a parameter:
-- its exponents, its groups and the pairing.
pub mod Horner
pub mod Shares
pub mod Combined
pub mod Samples
mod Tests
use dumbo_ucy.Shared.{
  ℕ, zero, suc, ◌+◌, Bool, true, false, ◌&&◌, Option, none, some, List, [], ◌∷◌, ◌++◌, Comparable,
  ◌==◌, nat_comparable, ltb, leb, if◌then◌else◌, length, get_elem?,
}
use dumbo_ucy.Shared.Dict.{Dict, contains}
use dumbo_ucy.Shared.Signers.{signers}

-- `of_nat` is the coercion of a Python integer, and `1` of G1 is `unit1`.
pub record Group (F G1 G2 GT : Type 0) : Type 0 where
  pub zero_f : F
  pub one_f : F
  pub add_f : F → F → F
  pub sub_f : F → F → F
  pub mul_f : F → F → F
  pub div_f : F → F → F
  pub of_nat : ℕ → F
  pub unit1 : G1
  pub mul1 : G1 → G1 → G1
  pub exp1 : G1 → F → G1
  pub exp2 : G2 → F → G2
  pub g2 : G2
  pub pair : G1 → G2 → GT

-- TBLSPublicKey; a TBLSPrivateKey has `i` and `SK` besides.
pub record PublicKey (G2 : Type 0) : Type 0 where
  pub l : ℕ
  pub k : ℕ
  pub vk : G2
  pub vks : List G2

-- set.issubset(range(0, l))
abbrev pub all_below : ℕ → List ℕ → Bool
all_below l [] = true
all_below l (j ∷ js) = ltb j l && all_below l js

-- sorted(S)
unfoldable pub insert : ℕ → List ℕ → List ℕ
insert j [] = j ∷ []
insert j (i ∷ is) = let rest = insert j is in if leb j i then j ∷ i ∷ is else i ∷ rest

unfoldable pub sorted : List ℕ → List ℕ
sorted [] = []
sorted (j ∷ js) = insert j (sorted js)

-- range(start, start + count)
abbrev pub range_from : ℕ → ℕ → List ℕ
range_from start zero = []
range_from start (suc count) = start ∷ range_from (start + 1) count

module _ {F G1 G2 GT : Type 0} (g : Group F G1 G2 GT) where
  -- The loop of `polynom_eval`, with its variables `y` and `xx`.
  unfoldable pub eval_from : F → F → F → List F → F
  eval_from x y xx [] = y
  eval_from x y xx (coeff ∷ coefficients) =
      eval_from x (g.add_f y (g.mul_f coeff xx)) (g.mul_f xx x) coefficients

  unfoldable pub polynom_eval : F → List F → F
  polynom_eval x coefficients = eval_from x g.zero_f g.one_f coefficients

  -- reduce(mul, [0 - jj - 1 for jj in S if jj != j], acc)
  unfoldable pub numerator : ℕ → F → List ℕ → F
  numerator j acc [] = acc
  numerator j acc (jj ∷ s) =
      numerator j
        (if jj == j
          then acc
          else g.mul_f acc (g.sub_f (g.sub_f (g.of_nat 0) (g.of_nat jj)) (g.of_nat 1)))
        s

  -- reduce(mul, [j - jj for jj in S if jj != j], acc)
  unfoldable pub denominator : ℕ → F → List ℕ → F
  denominator j acc [] = acc
  denominator j acc (jj ∷ s) =
      denominator j (if jj == j then acc else g.mul_f acc (g.sub_f (g.of_nat j) (g.of_nat jj))) s

  -- `none` is an AssertionError.
  unfoldable pub lagrange : PublicKey G2 → List ℕ → ℕ → Option F
  lagrange pk s j =
      if length s == pk.k && (all_below pk.l s && (contains s j && ltb j pk.l))
      then some (g.div_f (numerator j g.one_f (sorted s)) (denominator j g.one_f (sorted s)))
      else none

  unfoldable pub sign : F → G1 → G1
  sign sk h = g.exp1 h sk

  -- The product of `combine_shares` from `acc` on.
  unfoldable pub times_share : G1 → G1 → Option F → Option G1
  times_share acc sig none = none
  times_share acc sig (some weight) = some (g.mul1 acc (g.exp1 sig weight))

  unfoldable pub product_from : PublicKey G2 → List ℕ → Option G1 → List (ℕ × G1) → Option G1
  product_from pk s none sigs = none
  product_from pk s (some acc) [] = some acc
  product_from pk s (some acc) ((j, sig) ∷ sigs) =
      product_from pk s (times_share acc sig (lagrange pk s j)) sigs

  unfoldable pub combine_shares : PublicKey G2 → Dict ℕ G1 → Option G1
  combine_shares pk sigs =
      if all_below pk.l (signers sigs)
      then product_from pk (signers sigs) (some g.unit1) sigs
      else none

  -- SKs, from the party `i` on, and VKs
  unfoldable pub secret_keys : List F → ℕ → ℕ → List F
  secret_keys a i zero = []
  secret_keys a i (suc count) = polynom_eval (g.of_nat i) a ∷ secret_keys a (i + 1) count

  unfoldable pub verification_keys : List F → List G2
  verification_keys [] = []
  verification_keys (xx ∷ sks) = g.exp2 g.g2 xx ∷ verification_keys sks

  -- The sum of the check that reconstructs 0, from `acc` on.
  unfoldable pub plus_share : F → F → Option F → Option F
  plus_share acc value none = none
  plus_share acc value (some weight) = some (g.add_f acc (g.mul_f weight value))

  unfoldable pub sum_from : PublicKey G2 → List F → List ℕ → Option F → List ℕ → Option F
  sum_from pk a s none js = none
  sum_from pk a s (some acc) [] = some acc
  sum_from pk a s (some acc) (j ∷ js) =
      sum_from pk a s (plus_share acc (polynom_eval (g.of_nat (j + 1)) a) (lagrange pk s j)) js

module _ {F G1 G2 GT : Type 0} ⦃gt : Comparable GT⦄ (g : Group F G1 G2 GT) where
  -- The assertion on the pairings, with VKs[i].
  unfoldable pub check_share : G1 → G1 → Option G2 → Bool
  check_share sig h none = false
  check_share sig h (some b) = g.pair sig g.g2 == g.pair h b

  -- False where the method raises.
  unfoldable pub verify_share : PublicKey G2 → G1 → ℕ → G1 → Bool
  verify_share pk sig i h = ltb i pk.l && check_share sig h (get_elem? pk.vks i)

  unfoldable pub verify_signature : PublicKey G2 → G1 → G1 → Bool
  verify_signature pk sig h = g.pair sig g.g2 == g.pair h pk.vk

module _ {F G1 G2 GT : Type 0} ⦃f : Comparable F⦄ (g : Group F G1 G2 GT) where
  -- `assert lhs == rhs`
  unfoldable pub check_sum : PublicKey G2 → List F → F → Option F → Option (PublicKey G2 × List F)
  check_sum pk sks lhs none = none
  check_sum pk sks lhs (some rhs) = if lhs == rhs then some (pk, sks) else none

  -- The key for `a`, of which `secret` is the first coefficient.
  unfoldable pub public_key : ℕ → F → List F → PublicKey G2
  public_key players secret a = record {
    l = players;
    k = length a;
    vk = g.exp2 g.g2 secret;
    vks = verification_keys g (secret_keys g a 1 players);
  }

  -- The right hand side of the check, over `S = set(range(0, k))`.
  unfoldable pub reconstructed : PublicKey G2 → List F → Option F
  reconstructed pk a =
      sum_from g pk a (range_from 0 (length a)) (some (g.of_nat 0)) (range_from 0 (length a))

  -- The public key and the secret keys for random coefficients; `none` is a failed assertion, or the
  -- IndexError on no coefficient.
  unfoldable pub dealer : ℕ → List F → Option (PublicKey G2 × List F)
  dealer players [] = none
  dealer players (secret ∷ coefficients) =
      let a = secret ∷ coefficients in
      let pk = public_key players secret a in
      if polynom_eval g (g.of_nat 0) a == secret
      then check_sum pk (secret_keys g a 1 players) (polynom_eval g (g.of_nat 0) a)
          (reconstructed pk a)
      else none
