-- ===== src/Crypto/Tpke/Tests.antt =====
-- Threshold encryption over the field of three elements.
use dumbo_ucy.Shared.{ℕ, zero, suc, ◌<◌, ◌≡◌, refl, some, [], ◌∷◌, replicate, length, arith}
use dumbo_ucy.Rbc.Merkle.{Bytes}
use dumbo_ucy.Crypto.Boldyreva.{sign}
use dumbo_ucy.Crypto.Boldyreva.Combined.{first_shares}
use dumbo_ucy.Crypto.Boldyreva.Samples.{
  Three, n0, n1, n2, three_comparable, toy, toy-IsPairing, law2, law3, times, key, dealt,
}
use dumbo_ucy.Crypto.Tpke.{encrypt, decrypt_share, combine_shares}
use dumbo_ucy.Crypto.Tpke.Xor.{AreBytes}
use dumbo_ucy.Crypto.Tpke.RoundTrip.{IsSymmetric, sealed, decrypts_again}

abbrev toy_hash_g : Three → Bytes
toy_hash_g n0 = replicate 32 200
toy_hash_g n1 = replicate 32 17
toy_hash_g n2 = replicate 32 99

abbrev toy_hash_h : Three → Bytes → Three
toy_hash_h u v = n2

toy-IsSymmetric : IsSymmetric toy
toy-IsSymmetric = record {
  pairing = toy-IsPairing;
  one_group = λ h s. refl;
  moves = law3 (λ h k s. times h (times k s)) (λ h k s. times (times h s) k) refl;
  commutes = law2 times (λ a b. times b a) refl;
}

hash_size : (h : Three) → length (toy_hash_g h) ≡ 32
hash_size n0 = refl
hash_size n1 = refl
hash_size n2 = refl

repeated : (k b : ℕ) → b < 256 → AreBytes (replicate k b)
repeated zero b h = tt
repeated (suc k) b h = (h, repeated k b h)

hash_bytes : (h : Three) → AreBytes (toy_hash_g h)
hash_bytes n0 = repeated 32 200 (omega arith)
hash_bytes n1 = repeated 32 17 (omega arith)
hash_bytes n2 = repeated 32 99 (omega arith)

abbrev message : Bytes
message = replicate 32 7

decrypts_again_example :
    (encrypt toy toy_hash_g toy_hash_h key n2 message
      ≡ some (sealed toy toy_hash_g toy_hash_h key n2 message))
    × (((sk : Three)
          → decrypt_share toy toy_hash_g toy_hash_h sk
              (sealed toy toy_hash_g toy_hash_h key n2 message)
            ≡ some (sign toy sk (toy.exp1 toy.g2 n2)))
        × (combine_shares toy toy_hash_g toy_hash_h key
              (sealed toy toy_hash_g toy_hash_h key n2 message)
              (first_shares toy (toy.exp1 toy.g2 n2) 2 (n0 ∷ n1 ∷ []))
            ≡ some message))
decrypts_again_example =
    decrypts_again toy toy_hash_g toy_hash_h toy-IsSymmetric hash_size hash_bytes 2 (n2 ∷ n1 ∷ [])
      key (n0 ∷ n1 ∷ []) n2 message dealt (omega arith) refl (repeated 32 7 (omega arith))
