-- ===== src/Crypto/MillerRabin/Primes.antt =====
-- An odd prime passes the test for the bases that satisfy the congruence of Fermat.
use native.Mathlib.Nat.{
  pow-suc, pow-zero, add-suc, add-zero, mul-one, one-mul, mul_assoc, mul-add, two-mul, suc-mul,
  mul-suc, zero-mul, mod-lt, suc-mod, mod_self, mod-eq_of_lt,
}
use native.Mathlib.Decide.{dec_lt}
use dumbo_ucy.Shared.{
  ℕ, zero, suc, ◌+◌, ◌-◌, ◌*◌, ◌%◌, ◌^◌, ◌≤◌, ◌<◌, ◌≡◌, ◌≢◌, ◌⊎◌, inl, inr, refl, sym, ap, ◌∙◌,
  true, false, some, List, [], ◌∷◌, ◌==◌, nat_comparable, nat_beq_iff, leb, arith, on_if,
}
use dumbo_ucy.Shared.Loop.{AllOf}
use dumbo_ucy.Crypto.MillerRabin.{hits, try_composite, test_bases, is_probable_prime}
use dumbo_ucy.Crypto.MillerRabin.Halving.{Halved, halving_ends, with_parts_lem}

pow-add : (a m k : ℕ) → a ^ (m + k) ≡ a ^ m * a ^ k
pow-add a m zero =
    ap (λ x. a ^ x) (add-zero m) ∙ (sym (mul-one (a ^ m)) ∙ ap (λ x. a ^ m * x) (sym (pow-zero a)))
pow-add a m (suc k) =
    ap (λ x. a ^ x) (add-suc m k)
    ∙ (pow-suc a (m + k)
        ∙ (ap (λ x. x * a) (pow-add a m k)
            ∙ (mul_assoc (a ^ m) (a ^ k) a ∙ ap (λ x. a ^ m * x) (sym (pow-suc a k)))))

-- a ^ (2 ^ (i + 1) * d) is a square.
square : (a i d : ℕ) → a ^ (2 ^ suc i * d) ≡ a ^ (2 ^ i * d) * a ^ (2 ^ i * d)
square a i d =
    ap (λ x. a ^ x)
      (ap (λ x. x * d) (pow-suc 2 i)
        ∙ (mul_assoc (2 ^ i) 2 d ∙ (ap (λ x. 2 ^ i * x) (two-mul d) ∙ mul-add (2 ^ i) d d)))
    ∙ pow-add a (2 ^ i * d) (2 ^ i * d)

module _ (n : ℕ) (roots : (x : ℕ) → (x * x) % n ≡ 1 → (x % n ≡ 1) ⊎ (x % n ≡ n - 1)) where
  -- One of the powers from i on is n - 1.
  record Hit (a d i count : ℕ) : Type 0 where
    at : ℕ
    from : i ≤ at
    before : at < i + count
    value : (a ^ (2 ^ at * d)) % n ≡ n - 1

  -- Not at i itself.
  later :
      (a d i count : ℕ) (h : Hit a d i (suc count))
      → ((a ^ (2 ^ i * d)) % n == n - 1) ≡ false
      → Hit a d (i + 1) count
  later a d i count h c =
      let elsewhere : h.at ≢ i = λ eq. cc (
        c,
        (nat_beq_iff ((a ^ (2 ^ i * d)) % n) (n - 1)).1
            (ap (λ k. (a ^ (2 ^ k * d)) % n) (sym eq) ∙ h.value),
      ) in
      record {
        at = h.at;
        from = omega (arith, h.from, elsewhere);
        before = omega (arith, h.before);
        value = h.value;
      }

  hits-Hit : (a d count i : ℕ) → Hit a d i count → hits n a d i count ≡ true
  unfolding hits
  hits-Hit a d zero i h = absurd (omega (arith, h.from, h.before))
  hits-Hit a d (suc count) i h =
      on_if (λ b. b ≡ true) ((a ^ (2 ^ i * d)) % n == n - 1) (λ _. refl)
        (λ c. hits-Hit a d count (i + 1) (later a d i count h c))

  -- From a power that is 1, back to the first one.
  chain : (a d k : ℕ) → (a ^ (2 ^ k * d)) % n ≡ 1 → ((a ^ d) % n ≡ 1) ⊎ Hit a d 0 k
  chain a d zero e =
      inl (ap (λ x. (a ^ x) % n) (sym (ap (λ x. x * d) (pow-zero 2) ∙ one-mul d)) ∙ e)
  chain a d (suc k) e = elim (roots (a ^ (2 ^ k * d)) (ap (λ x. x % n) (sym (square a k d)) ∙ e)) [
    | inl one ↦ elim (chain a d k one) [
      | inl first ↦ inl first
      | inr h ↦
          inr
            (record { at = h.at; from = h.from; before = omega (arith, h.before); value = h.value })
    ]
    | inr minus ↦ inr (record { at = k; from = omega arith; before = omega arith; value = minus })
  ]

  base_passes : (h : Halved n) (a : ℕ) → (a ^ (n - 1)) % n ≡ 1 → try_composite n h.s h.d a ≡ false
  unfolding try_composite
  base_passes h a fermat =
      on_if (λ b. b ≡ false) ((a ^ h.d) % n == 1) (λ _. refl)
        (λ first. elim (chain a h.d h.s (ap (λ x. (a ^ x) % n) h.product ∙ fermat)) [
          | inl one ↦ absurd (cc (first, (nat_beq_iff ((a ^ h.d) % n) 1).1 one))
          | inr hit ↦ rw (hits-Hit a h.d h.s 0 hit) refl
        ])

  bases_pass :
      (h : Halved n) (bases : List ℕ)
      → AllOf (λ a. (a ^ (n - 1)) % n ≡ 1) bases
      → test_bases n h.s h.d bases ≡ true
  unfolding test_bases
  bases_pass h [] all = refl
  bases_pass h (a ∷ bases) all = rw (base_passes h a all.0) (bases_pass h bases all.1)

  passes :
      (bases : List ℕ)
      → 3 ≤ n
      → n % 2 ≡ 1
      → AllOf (λ a. (a ^ (n - 1)) % n ≡ 1) bases
      → is_probable_prime n bases ≡ some true
  unfolding is_probable_prime
  passes bases ge odd fermat =
      let h = halving_ends n (omega arith) in
      on_if (λ o. o ≡ some true) (leb 2 n)
        (λ _.
          on_if (λ o. o ≡ some true) (n == 2) (λ _. refl)
            (λ _.
              on_if (λ o. o ≡ some true) (n % 2 == 0) (λ c. absurd (ground arith))
                (λ _. with_parts_lem n bases h ∙ ap some (bases_pass h bases fermat))))
        (λ c. absurd (ground arith))

-- n divides a product only if it divides one of the factors.
abbrev pub IsPrime : ℕ → Type 0
IsPrime n = (a b : ℕ) → (a * b) % n ≡ 0 → (a % n ≡ 0) ⊎ (b % n ≡ 0)

module _ (n : ℕ) (two : 2 ≤ n) where
  -- A residue and the next one.
  next_residue : (k : ℕ) → (suc k % n ≡ suc (k % n)) ⊎ ((suc k % n ≡ 0) × (suc (k % n) ≡ n))
  next_residue k =
      let below : k % n < n = mod-lt k {m = n} (omega arith) in
      elim (dec_lt (suc (k % n)) n) [
        | yes lt ↦ inl (suc-mod k n ∙ mod-eq_of_lt lt)
        | no ge ↦
            let whole : suc (k % n) ≡ n = omega (arith, below, ge) in
            inr (suc-mod k n ∙ (ap (λ x. x % n) whole ∙ mod_self n), whole)
      ]

  before_one : (k : ℕ) → suc k % n ≡ 1 → k % n ≡ 0
  before_one k h = elim (next_residue k) [
    | inl s ↦ omega (arith, s, h)
    | inr s ↦ absurd (omega (arith, s.0, h))
  ]

  after_zero : (k : ℕ) → k % n ≡ 0 → suc k % n ≡ 1
  after_zero k h = elim (next_residue k) [
    | inl s ↦ omega (arith, s, h)
    | inr s ↦ absurd (omega (arith, s.1, h))
  ]

  before_zero : (k : ℕ) → suc k % n ≡ 0 → k % n ≡ n - 1
  before_zero k h = elim (next_residue k) [
    | inl s ↦ absurd (omega (arith, s, h))
    | inr s ↦ omega (arith, s.1)
  ]

  square_minus_one : (y : ℕ) → suc y * suc y ≡ suc (y * suc (suc y))
  square_minus_one y = omega (arith, suc-mul y (suc y), mul-suc y (suc y))

  -- 1 has no other square roots modulo a prime.
  roots_of_one : IsPrime n → (x : ℕ) → (x * x) % n ≡ 1 → (x % n ≡ 1) ⊎ (x % n ≡ n - 1)
  roots_of_one prime zero h = absurd (
      omega (
        arith,
        zero-mul 0,
        mod-eq_of_lt {n = 0} {m = n} (omega arith),
        ap (λ x. x % n) (zero-mul 0),
        h,
      ))
  roots_of_one prime (suc y) h =
      elim (prime y (suc (suc y))
        (before_one (y * suc (suc y)) (ap (λ x. x % n) (sym (square_minus_one y)) ∙ h))) [
          | inl zero_y ↦ inl (after_zero y zero_y)
          | inr zero_y ↦ inr (before_zero (suc y) zero_y)
        ]

-- An odd prime n passes the test for all bases a with a^(n-1) ≡ 1 (mod n).
pub prime_passes :
    (n : ℕ) (bases : List ℕ)
    → 3 ≤ n
    → n % 2 ≡ 1
    → IsPrime n
    → AllOf (λ a. (a ^ (n - 1)) % n ≡ 1) bases
    → is_probable_prime n bases ≡ some true
prime_passes n bases ge odd prime fermat =
    passes n (roots_of_one n (omega arith) prime) bases ge odd fermat
