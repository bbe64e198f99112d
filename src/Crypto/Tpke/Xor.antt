-- ===== src/Crypto/Tpke/Xor.antt =====
-- `xor` with the same string twice.
use Prim.Native.Nat.{bit_xor}
use mathlib.Core.Path.{ap₂}
use dumbo_ucy.Shared.{
  ℕ, zero, suc, ◌<◌, ◌≡◌, refl, ap, Bool, true, ◌&&◌, both, [], ◌∷◌, ◌==◌, nat_comparable,
  nat_beq_iff, length, arith,
}
use dumbo_ucy.Shared.Loop.{AllOf}
use dumbo_ucy.Rbc.Merkle.{Bytes}
use dumbo_ucy.Crypto.Tpke.{zip_xor}

-- A test at every number below n.
abbrev every_below : ℕ → (ℕ → Bool) → Bool
every_below zero test = true
every_below (suc n) test = test n && every_below n test

at_each : (n : ℕ) (test : ℕ → Bool) (x : ℕ) → every_below n test ≡ true → x < n → test x ≡ true
at_each zero test x h lt = absurd (omega arith)
at_each (suc n) test x h lt =
    let parts = both (test n) (every_below n test) h in
    let earlier = at_each n test x parts.1 in ground arith

xor_table : every_below 256 (λ a. every_below 256 (λ b. bit_xor b (bit_xor a b) == a)) ≡ true
xor_table = refl

byte_twice : (a b : ℕ) → a < 256 → b < 256 → bit_xor b (bit_xor a b) ≡ a
byte_twice a b la lb = (nat_beq_iff (bit_xor b (bit_xor a b)) a).0 (
    at_each 256 (λ y. bit_xor y (bit_xor a y) == a) b
      (at_each 256 (λ x. every_below 256 (λ y. bit_xor y (bit_xor x y) == x)) a xor_table la) lb)

abbrev pub AreBytes : Bytes → Type 0
AreBytes = AllOf (λ b. b < 256)

pub length-zip_xor : (x y : Bytes) → length x ≡ length y → length (zip_xor x y) ≡ length x
unfolding zip_xor
length-zip_xor [] y h = refl
length-zip_xor (a ∷ x) [] h = absurd (omega arith)
length-zip_xor (a ∷ x) (b ∷ y) h = ap suc (length-zip_xor x y (omega arith))

pub zip_xor_twice :
    (m k : Bytes) → length m ≡ length k → AreBytes m → AreBytes k → zip_xor k (zip_xor m k) ≡ m
unfolding zip_xor
zip_xor_twice [] [] h bm bk = refl
zip_xor_twice [] (b ∷ k) h bm bk = absurd (omega arith)
zip_xor_twice (a ∷ m) [] h bm bk = absurd (omega arith)
zip_xor_twice (a ∷ m) (b ∷ k) h bm bk =
    ap₂ ◌∷◌ (byte_twice a b bm.0 bk.0) (zip_xor_twice m k (omega arith) bm.1 bk.1)
