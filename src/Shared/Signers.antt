-- ===== src/Shared/Signers.antt =====
-- The parties of a list or dictionary of signatures.
use Prim.Native.Nat.{ℕ, zero, suc}
use mathlib.Core.Path.{◌≡◌, refl}
use mathlib.Core.Bool.{false, ◌||◌}
use mathlib.Core.List.{List, [], ◌∷◌, map}
use native.Mathlib.Omega.{arith}
use dumbo_ucy.Shared.Tests.{◌==◌, nat_comparable, nat_beq_iff}
use dumbo_ucy.Shared.Lists.{take}
use dumbo_ucy.Shared.Dict.{Dict, put, has_key, contains, IsDistinct}

abbrev pub signers {ℓ} : {Sig : Type ℓ} → List (ℕ × Sig) → List ℕ
signers = map (λ a. a.0)

module _ {ℓ} {Sig : Type ℓ} where
  pub contains-signers :
      (shares : Dict ℕ Sig) (i : ℕ) → contains (signers shares) i ≡ has_key shares i
  unfolding contains has_key
  contains-signers [] i = refl
  contains-signers ((k, x) ∷ shares) i = ground (arith, contains-signers shares i)

  pub contains-signers-put :
      (shares : Dict ℕ Sig) (j i : ℕ) (sig : Sig)
      → contains (signers (put shares j sig)) i ≡ (j == i || contains (signers shares) i)
  unfolding contains put
  contains-signers-put [] j i sig = refl
  contains-signers-put ((k, x) ∷ shares) j i sig = ground (
    arith,
    nat_beq_iff k j,
    nat_beq_iff k i,
    nat_beq_iff j i,
    contains-signers-put shares j i sig,
  )

  pub signers-put-IsDistinct :
      (shares : Dict ℕ Sig) (j : ℕ) (sig : Sig)
      → IsDistinct (signers shares)
      → IsDistinct (signers (put shares j sig))
  unfolding put contains
  signers-put-IsDistinct [] j sig d = (refl, tt)
  signers-put-IsDistinct ((k, x) ∷ shares) j sig d = ground (
    arith,
    nat_beq_iff k j,
    nat_beq_iff j k,
    contains-signers-put shares j k sig,
    signers-put-IsDistinct shares j sig,
  )

  pub contains-signers-take :
      (n : ℕ) (shares : List (ℕ × Sig)) (i : ℕ)
      → contains (signers shares) i ≡ false
      → contains (signers (take n shares)) i ≡ false
  unfolding contains
  contains-signers-take zero shares i h = refl
  contains-signers-take (suc n) [] i h = refl
  contains-signers-take (suc n) ((k, x) ∷ shares) i h =
      ground (arith, contains-signers-take n shares i)

  pub signers-take-IsDistinct :
      (n : ℕ) (shares : List (ℕ × Sig))
      → IsDistinct (signers shares)
      → IsDistinct (signers (take n shares))
  signers-take-IsDistinct zero shares d = tt
  signers-take-IsDistinct (suc n) [] d = tt
  signers-take-IsDistinct (suc n) ((k, x) ∷ shares) d =
      (contains-signers-take n shares k d.0, signers-take-IsDistinct n shares d.1)
