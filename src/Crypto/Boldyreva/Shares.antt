-- ===== src/Crypto/Boldyreva/Shares.antt =====
-- The keys that the dealer hands out: shares verify, and those of the first k parties combine.
use mathlib.Core.Path.{subst}
use dumbo_ucy.Shared.{
  ℕ, zero, suc, ◌+◌, ◌<◌, ◌≡◌, refl, sym, ap, ◌∙◌, true, Option, none, some, List, [], ◌∷◌,
  Comparable, ◌==◌, ==_refl, get_elem?, arith, on_if, lt→ltb,
}
use dumbo_ucy.Crypto.Boldyreva.{
  Group, PublicKey, polynom_eval, sign, secret_keys, verification_keys, check_share, verify_share,
  check_sum, public_key, reconstructed, dealer,
}

-- What the pairing group has that signing needs.
pub record IsPairing {F G1 G2 GT : Type 0} (g : Group F G1 G2 GT) : Type 0 where
  pub bilinear : (h : G1) (s : F) → g.pair (g.exp1 h s) g.g2 ≡ g.pair h (g.exp2 g.g2 s)
  pub exp_exp : (h : G1) (s w : F) → g.exp1 (g.exp1 h s) w ≡ g.exp1 h (g.mul_f w s)
  pub exp_add : (h : G1) (a b : F) → g.mul1 (g.exp1 h a) (g.exp1 h b) ≡ g.exp1 h (g.add_f a b)
  pub exp_zero : (h : G1) → g.exp1 h (g.of_nat 0) ≡ g.unit1

module _ {F G1 G2 GT : Type 0} ⦃f : Comparable F⦄ (g : Group F G1 G2 GT) where
  -- What the dealer has checked of its result.
  pub record Dealt (players : ℕ) (a : List F) (pk : PublicKey G2) (sks : List F) : Type 0 where
    pub secret : F
    pub key : pk ≡ public_key g players secret a
    pub shares : sks ≡ secret_keys g a 1 players
    pub sum : reconstructed g pk a ≡ some secret

  check_sum-Dealt :
      (players : ℕ) (a : List F) (secret : F) (o : Option F) (pk : PublicKey G2) (sks : List F)
      → (polynom_eval g (g.of_nat 0) a == secret) ≡ true
      → reconstructed g (public_key g players secret a) a ≡ o
      → check_sum g
          (public_key g players secret a)
          (secret_keys g a 1 players)
          (polynom_eval g (g.of_nat 0) a)
          o
        ≡ some (pk, sks)
      → Dealt players a pk sks
  unfolding check_sum
  check_sum-Dealt players a secret none pk sks c e h = absurd cc
  check_sum-Dealt players a secret (some rhs) pk sks c e h =
      on_if (λ o. o ≡ some (pk, sks) → Dealt players a pk sks)
        (polynom_eval g (g.of_nat 0) a == rhs)
        (λ c' h.
          let first = (f.equal_iff (polynom_eval g (g.of_nat 0) a) secret).0 c in
          let second = (f.equal_iff (polynom_eval g (g.of_nat 0) a) rhs).0 c' in
          let parts : ◌≡◌ {A = PublicKey G2 × List F}
              (public_key g players secret a, secret_keys g a 1 players) (pk, sks) =
            cc in
          record {
            secret = secret;
            key = ap (λ x. x.0) (sym parts);
            shares = ap (λ x. x.1) (sym parts);
            sum = ap (λ x. reconstructed g x.0 a) (sym parts) ∙ (e ∙ ap some (sym second ∙ first));
          })
        (λ c' h. absurd cc) h

  pub dealer-Dealt :
      (players : ℕ) (a : List F) (pk : PublicKey G2) (sks : List F)
      → dealer g players a ≡ some (pk, sks)
      → Dealt players a pk sks
  unfolding dealer
  dealer-Dealt players [] pk sks h = absurd cc
  dealer-Dealt players (secret ∷ cs) pk sks h =
      on_if (λ o. o ≡ some (pk, sks) → Dealt players (secret ∷ cs) pk sks)
        (polynom_eval g (g.of_nat 0) (secret ∷ cs) == secret)
        (λ c h. check_sum-Dealt players (secret ∷ cs) secret _ pk sks c refl h) (λ c h. absurd cc) h

-- The keys of the dealer, from the party `i` on.
module _ {F G1 G2 GT : Type 0} (g : Group F G1 G2 GT) where
  key_of :
      (a : List F) (j i count : ℕ) (sk : F)
      → get_elem? (secret_keys g a j count) i ≡ some sk
      → (get_elem? (verification_keys g (secret_keys g a j count)) i ≡ some (g.exp2 g.g2 sk))
        × (i < count)
  unfolding secret_keys verification_keys
  key_of a j i zero sk h = absurd cc
  key_of a j zero (suc count) sk h = (ap some (ap (g.exp2 g.g2) cc), omega arith)
  key_of a j (suc i) (suc count) sk h =
      let r = key_of a (j + 1) i count sk h in (r.0, omega (arith, r.1))

module _ {F G1 G2 GT : Type 0} ⦃f : Comparable F⦄ ⦃gt : Comparable GT⦄ (g : Group F G1 G2 GT)
    (pairing : IsPairing g) where
  pub key_verifies :
      (players : ℕ) (secret : F) (a : List F) (i : ℕ) (sk : F) (h : G1)
      → get_elem? (secret_keys g a 1 players) i ≡ some sk
      → verify_share g (public_key g players secret a) (sign g sk h) i h ≡ true
  unfolding public_key verify_share check_share sign
  key_verifies players secret a i sk h e =
      let k = key_of g a 1 i players sk e in
      rw (lt→ltb i players k.1, k.0, pairing.bilinear h sk, ==_refl (g.pair h (g.exp2 g.g2 sk)))
        refl

  -- Where the dealer returns keys, each party's share of a signature verifies under its number, in a
  -- pairing group.
  pub share_verifies :
      (players : ℕ) (a : List F) (pk : PublicKey G2) (sks : List F) (i : ℕ) (sk : F) (h : G1)
      → dealer g players a ≡ some (pk, sks)
      → get_elem? sks i ≡ some sk
      → verify_share g pk (sign g sk h) i h ≡ true
  share_verifies players a pk sks i sk h d e =
      let dealt = dealer-Dealt g players a pk sks d in
      subst (λ k. verify_share g k (sign g sk h) i h ≡ true) (sym dealt.key)
        (key_verifies players dealt.secret a i sk h
          (ap (λ l. get_elem? l i) (sym dealt.shares) ∙ e))
