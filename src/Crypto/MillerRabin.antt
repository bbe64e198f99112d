-- ===== src/Crypto/MillerRabin.antt =====
-- crypto/threshsig/millerrabin.py: `is_probable_prime`. The bases that `random.randrange(2, n)` draws
-- are an argument.
pub mod Halving
pub mod Primes
mod Tests
use dumbo_ucy.Shared.{
  ℕ, zero, suc, ◌+◌, ◌-◌, ◌*◌, ◌/◌, ◌%◌, ◌^◌, Bool, true, false, Option, none, some, List, [], ◌∷◌,
  ◌==◌, nat_comparable, leb, if◌then◌else◌,
}

-- The loop that divides `d` by 2 while it is even, with `s` counting; `none` is a loop that makes
-- more turns than `fuel`.
unfoldable pub halve : ℕ → ℕ → ℕ → Option (ℕ × ℕ)
halve zero s d = none
halve (suc fuel) s d =
    let rest = halve fuel (s + 1) (d / 2) in if d % 2 == 1 then some (s, d) else rest

-- `for i in range(s): if pow(a, 2**i * d, n) == n-1: …`, with `count` values left from `i` on: is
-- there one?
unfoldable pub hits : ℕ → ℕ → ℕ → ℕ → ℕ → Bool
hits n a d i zero = false
hits n a d i (suc count) =
    let later = hits n a d (i + 1) count in if (a ^ (2 ^ i * d)) % n == n - 1 then true else later

unfoldable pub try_composite : ℕ → ℕ → ℕ → ℕ → Bool
try_composite n s d a = if (a ^ d) % n == 1 then false else if hits n a d 0 s then false else true

-- The loop over the bases.
unfoldable pub test_bases : ℕ → ℕ → ℕ → List ℕ → Bool
test_bases n s d [] = true
test_bases n s d (a ∷ bases) =
    let rest = test_bases n s d bases in if try_composite n s d a then false else rest

-- `assert 2**s * d == n-1`, and the loop over the bases.
unfoldable pub with_parts : ℕ → List ℕ → Option (ℕ × ℕ) → Option Bool
with_parts n bases none = none
with_parts n bases (some (s, d)) =
    if 2 ^ s * d == n - 1 then some (test_bases n s d bases) else none

-- `none` is a failed assertion or a loop without end. n - 1 turns are allowed for the halving.
unfoldable pub is_probable_prime : ℕ → List ℕ → Option Bool
is_probable_prime n bases =
    if leb 2 n
    then if n == 2
      then some true
      else if n % 2 == 0
      then some false
      else with_parts n bases (halve (n - 1) 0 (n - 1))
    else none
