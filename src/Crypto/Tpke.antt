-- ===== src/Crypto/Tpke.antt =====
-- crypto/threshenc/tpke.py: threshold encryption, in a group with g1 = g2. Its dealer and its Lagrange
-- coefficients are those of crypto/threshsig/boldyreva.py, line for line, and are taken from there.
pub mod Xor
pub mod RoundTrip
mod Tests
use Prim.Native.Nat.{bit_xor}
use dumbo_ucy.Shared.{
  ℕ, Bool, true, false, ◌&&◌, Option, none, some, List, [], ◌∷◌, Comparable, ◌==◌, nat_comparable,
  if◌then◌else◌, length,
}
use dumbo_ucy.Shared.Dict.{Dict}
use dumbo_ucy.Rbc.Merkle.{Bytes}
use dumbo_ucy.Crypto.Boldyreva
use dumbo_ucy.Crypto.Boldyreva.{Group, PublicKey, verify_share}

-- [x_ ^ y_ for x_, y_ in zip(x, y)]
unfoldable pub zip_xor : Bytes → Bytes → Bytes
zip_xor [] y = []
zip_xor (x_ ∷ x) [] = []
zip_xor (x_ ∷ x) (y_ ∷ y) = bit_xor x_ y_ ∷ zip_xor x y

-- `none` is an AssertionError.
unfoldable pub xor : Bytes → Bytes → Option Bytes
xor x y = if length x == 32 && length y == 32 then some (zip_xor x y) else none

module _ {F G GT : Type 0} ⦃gt : Comparable GT⦄ (g : Group F G G GT) (hash_g : G → Bytes)
    (hash_h : G → Bytes → G) where
  -- (U, V, W)
  abbrev pub Ciphertext : Type 0
  Ciphertext = G × Bytes × G

  unfoldable pub seal : G → F → Option Bytes → Option Ciphertext
  seal u r none = none
  seal u r (some v) = if length v == 32 then some (u, v, g.exp1 (hash_h u v) r) else none

  -- With the random exponent r.
  unfoldable pub encrypt : PublicKey G → F → Bytes → Option Ciphertext
  encrypt pk r m =
      if length m == 32 then seal (g.exp1 g.g2 r) r (xor m (hash_g (g.exp1 pk.vk r))) else none

  -- False is an AssertionError.
  unfoldable pub verify_ciphertext : Ciphertext → Bool
  verify_ciphertext (u, v, w) = length v == 32 && g.pair g.g2 w == g.pair u (hash_h u v)

  unfoldable pub decrypt_share : F → Ciphertext → Option G
  decrypt_share sk (u, v, w) = if verify_ciphertext (u, v, w) then some (g.exp1 u sk) else none

  unfoldable pub verify_shares : PublicKey G → G → Dict ℕ G → Bool
  verify_shares pk u [] = true
  verify_shares pk u ((j, share) ∷ shares) =
      verify_share g pk share j u && verify_shares pk u shares

  -- `reduce` starts from ONE here, and from 1 in boldyreva.py: the product is the same.
  unfoldable pub unmask : Bytes → Option G → Option Bytes
  unmask v none = none
  unmask v (some res) = xor (hash_g res) v

  unfoldable pub combine_shares : PublicKey G → Ciphertext → Dict ℕ G → Option Bytes
  combine_shares pk (u, v, w) shares =
      if verify_shares pk u shares then unmask v (Boldyreva.combine_shares g pk shares) else none
