-- ===== src/Crypto/Boldyreva/Combined.antt =====
-- The signature that the shares of the first k parties combine to.
use mathlib.Core.Path.{subst}
use dumbo_ucy.Shared.{
  ℕ, zero, suc, ◌+◌, ◌≤◌, ◌≡◌, refl, sym, ap, ◌∙◌, true, Option, none, some, List, [], ◌∷◌,
  Comparable, nat_comparable, ==_refl, length, take, map, length-map, arith, lt→ltb,
}
use dumbo_ucy.Shared.Dict.{Dict}
use dumbo_ucy.Shared.Signers.{signers}
use dumbo_ucy.Crypto.Boldyreva.{
  Group, PublicKey, all_below, range_from, polynom_eval, lagrange, sign, times_share, product_from,
  combine_shares, secret_keys, plus_share, sum_from, verify_signature, public_key, reconstructed,
  dealer,
}
use dumbo_ucy.Crypto.Boldyreva.Shares.{IsPairing, dealer-Dealt}

-- The keys of a dictionary that has the parties j, j + 1, …
abbrev pub numbered : {A : Type 0} → ℕ → List A → Dict ℕ A
numbered j [] = []
numbered j (x ∷ xs) = (j, x) ∷ numbered (j + 1) xs

signers-numbered :
    {A : Type 0} (j : ℕ) (xs : List A) → signers (numbered j xs) ≡ range_from j (length xs)
signers-numbered j [] = refl
signers-numbered j (x ∷ xs) = ap (λ l. j ∷ l) (signers-numbered (j + 1) xs)

all_below-range_from : (l j count : ℕ) → j + count ≤ l → all_below l (range_from j count) ≡ true
all_below-range_from l j zero h = refl
all_below-range_from l j (suc count) h =
    rw (lt→ltb j l (omega arith)) (all_below-range_from l (j + 1) count (omega arith))

module _ {F G1 G2 GT : Type 0} (g : Group F G1 G2 GT) where
  length-secret_keys : (a : List F) (j count : ℕ) → length (secret_keys g a j count) ≡ count
  unfolding secret_keys
  length-secret_keys a j zero = refl
  length-secret_keys a j (suc count) = ap suc (length-secret_keys a (j + 1) count)

  pub take-secret_keys :
      (a : List F) (j k count : ℕ)
      → k ≤ count
      → take k (secret_keys g a j count) ≡ secret_keys g a j k
  unfolding secret_keys
  take-secret_keys a j zero count h = refl
  take-secret_keys a j (suc k) zero h = absurd (omega arith)
  take-secret_keys a j (suc k) (suc count) h =
      ap (λ l. polynom_eval g (g.of_nat j) a ∷ l) (take-secret_keys a (j + 1) k count (omega arith))

  -- The shares of parties 0, …, k - 1 on h.
  abbrev pub first_shares : G1 → ℕ → List F → Dict ℕ G1
  first_shares h k sks = numbered 0 (map (λ sk. sign g sk h) (take k sks))

  module _ (pairing : IsPairing g) (h : G1) where
    -- h to the power of a sum, if there is one.
    abbrev power : Option F → Option G1
    power none = none
    power (some s) = some (g.exp1 h s)

    times_share-power :
        (acc v : F) (w : Option F)
        → times_share g (g.exp1 h acc) (sign g v h) w ≡ power (plus_share g acc v w)
    unfolding times_share plus_share sign
    times_share-power acc v none = refl
    times_share-power acc v (some w) =
        ap some
          (ap (g.mul1 (g.exp1 h acc)) (pairing.exp_exp h v w) ∙ pairing.exp_add h acc (g.mul_f w v))

    -- The product in the exponent.
    product_from-power :
        (pk : PublicKey G2) (a : List F) (s : List ℕ) (count j : ℕ) (acc : Option F)
        → product_from g pk s
            (power acc)
            (numbered j (map (λ sk. sign g sk h) (secret_keys g a (j + 1) count)))
          ≡ power (sum_from g pk a s acc (range_from j count))
    unfolding product_from sum_from secret_keys
    product_from-power pk a s count j none = refl
    product_from-power pk a s zero j (some acc) = refl
    product_from-power pk a s (suc count) j (some acc) =
        ap
          (λ o.
            product_from g pk s o
              (numbered (j + 1) (map (λ sk. sign g sk h) (secret_keys g a (j + 1 + 1) count))))
          (times_share-power acc (polynom_eval g (g.of_nat (j + 1)) a) (lagrange g pk s j))
        ∙ product_from-power pk a s count (j + 1) _

module _ {F G1 G2 GT : Type 0} ⦃f : Comparable F⦄ ⦃gt : Comparable GT⦄ (g : Group F G1 G2 GT)
    (pairing : IsPairing g) where
  signature_verifies :
      (players : ℕ) (secret : F) (a : List F) (h : G1)
      → verify_signature g (public_key g players secret a) (g.exp1 h secret) h ≡ true
  unfolding verify_signature public_key
  signature_verifies players secret a h =
      rw (pairing.bilinear h secret, ==_refl (g.pair h (g.exp2 g.g2 secret))) refl

  pub combined :
      (players : ℕ) (secret : F) (a : List F) (h : G1)
      → length a ≤ players
      → reconstructed g (public_key g players secret a) a ≡ some secret
      → combine_shares g
          (public_key g players secret a)
          (first_shares g h (length a) (secret_keys g a 1 players))
        ≡ some (g.exp1 h secret)
  unfolding combine_shares reconstructed public_key
  combined players secret a h le sum =
      let pk = public_key g players secret a in
      let k = length a in
      let sigs = numbered 0 (map (λ sk. sign g sk h) (secret_keys g a 1 k)) in
      let same : signers sigs ≡ range_from 0 k =
        signers-numbered 0 (map (λ sk. sign g sk h) (secret_keys g a 1 k))
        ∙ ap (range_from 0)
            (length-map (λ sk. sign g sk h) (secret_keys g a 1 k) ∙ length-secret_keys g a 1 k) in
      let within : all_below players (range_from 0 k) ≡ true =
        all_below-range_from players 0 k (omega (arith, le)) in
      rw (take-secret_keys g a 1 k players le, same, within)
        (ap (λ u. product_from g pk (range_from 0 k) (some u) sigs) (sym (pairing.exp_zero h))
          ∙ (product_from-power g pairing h pk a (range_from 0 k) k 0 (some (g.of_nat 0))
              ∙ ap (power g pairing h) sum))

  -- Where the dealer returns keys for k ≤ players coefficients, in a pairing group: the shares of the
  -- first k parties on any h, under their numbers, combine to a signature that verifies.
  pub combine_verifies :
      (players : ℕ) (a : List F) (pk : PublicKey G2) (sks : List F) (h : G1)
      → dealer g players a ≡ some (pk, sks)
      → length a ≤ players
      → (sig : G1) × ((combine_shares g pk (first_shares g h (length a) sks) ≡ some sig)
          × (verify_signature g pk sig h ≡ true))
  combine_verifies players a pk sks h d le =
      let dealt = dealer-Dealt g players a pk sks d in
      let key = public_key g players dealt.secret a in
      let whole : combine_shares g key (first_shares g h (length a) (secret_keys g a 1 players))
          ≡ some (g.exp1 h dealt.secret) =
        combined players dealt.secret a h le
          (ap (λ k. reconstructed g k a) (sym dealt.key) ∙ dealt.sum) in
      (
        g.exp1 h dealt.secret,
        (
          ap (λ k. combine_shares g k (first_shares g h (length a) sks)) dealt.key
              ∙ (ap (λ l. combine_shares g key (first_shares g h (length a) l)) dealt.shares
                  ∙ whole),
          subst (λ k. verify_signature g k (g.exp1 h dealt.secret) h ≡ true) (sym dealt.key)
              (signature_verifies players dealt.secret a h),
        ),
      )
