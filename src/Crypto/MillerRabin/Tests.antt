-- ===== src/Crypto/MillerRabin/Tests.antt =====
-- The test on small numbers.
use native.Mathlib.Nat.{add-mul, mul_assoc, mul-add, mul_left_comm, div-add-mod, mod-lt}
use dumbo_ucy.Shared.{
  ℕ, zero, suc, ◌+◌, ◌*◌, ◌%◌, ◌/◌, ◌<◌, sym, ap, ◌∙◌, ◌≡◌, ◌⊎◌, inl, inr, refl, Bool, true, false,
  some, [], ◌∷◌, arith, map,
}
use dumbo_ucy.Crypto.MillerRabin.{
  hits, try_composite, with_parts, test_bases, halve, is_probable_prime,
}
use dumbo_ucy.Crypto.MillerRabin.Halving.{prime_test_returns}
use dumbo_ucy.Crypto.MillerRabin.Primes.{IsPrime, prime_passes}

opened : Unit {0}
unfolding is_probable_prime with_parts test_bases try_composite hits halve
opened = tt

-- 561 is a Carmichael number: 2 is a witness, and 1 less than it is none.
carmichael : map (λ a. is_probable_prime 561 (a ∷ [])) (2 ∷ 560 ∷ []) ≡ some false ∷ some true ∷ []
unfolding opened
carmichael = refl

seventeen : is_probable_prime 17 (2 ∷ 3 ∷ 16 ∷ []) ≡ some true
unfolding opened
seventeen = refl

prime_test_returns_example : (b : Bool) × (is_probable_prime 561 (5 ∷ 7 ∷ []) ≡ some b)
prime_test_returns_example = prime_test_returns 561 (5 ∷ 7 ∷ []) (omega arith)

-- 7 is prime, first among the residues.
residues : (r b : ℕ) → r < 7 → b < 7 → (r * b) % 7 ≡ 0 → (r ≡ 0) ⊎ (b ≡ 0)
residues zero b lt lt' h = inl refl
residues (suc zero) b lt lt' h = inr (omega arith)
residues (suc (suc zero)) b lt lt' h = inr (omega arith)
residues (suc (suc (suc zero))) b lt lt' h = inr (omega arith)
residues (suc (suc (suc (suc zero)))) b lt lt' h = inr (omega arith)
residues (suc (suc (suc (suc (suc zero))))) b lt lt' h = inr (omega arith)
residues (suc (suc (suc (suc (suc (suc zero)))))) b lt lt' h = inr (omega arith)
residues (suc (suc (suc (suc (suc (suc (suc r))))))) b lt lt' h = absurd (omega arith)

product_residue : (q r q' r' : ℕ) → ((7 * q + r) * (7 * q' + r')) % 7 ≡ (r * r') % 7
product_residue q r q' r' = omega (
  arith,
  add-mul (7 * q) r (7 * q' + r'),
  mul_assoc 7 q (7 * q' + r'),
  mul-add r (7 * q') r',
  mul_left_comm r 7 q',
)

seven-IsPrime : IsPrime 7
seven-IsPrime a b h =
    let whole : 7 * (a / 7) + a % 7 ≡ a = div-add-mod a 7 in
    let whole' : 7 * (b / 7) + b % 7 ≡ b = div-add-mod b 7 in
    residues (a % 7) (b % 7) (mod-lt a {m = 7} (omega arith)) (mod-lt b {m = 7} (omega arith)) (
      sym (product_residue (a / 7) (a % 7) (b / 7) (b % 7))
      ∙ (ap (λ x. (x * (7 * (b / 7) + b % 7)) % 7) whole ∙ (ap (λ y. (a * y) % 7) whole' ∙ h)))

prime_passes_example : is_probable_prime 7 (2 ∷ 3 ∷ 6 ∷ []) ≡ some true
prime_passes_example =
    prime_passes 7 (2 ∷ 3 ∷ 6 ∷ []) (omega arith) refl seven-IsPrime (refl, (refl, (refl, tt)))
