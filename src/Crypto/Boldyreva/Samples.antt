-- ===== src/Crypto/Boldyreva/Samples.antt =====
-- Keys over the field of three elements, whose addition serves as the groups.
use dumbo_ucy.Shared.{
  ℕ, ◌%◌, ◌≡◌, refl, ap, sym, ◌∙◌, Bool, true, false, ◌&&◌, both, some, [], ◌∷◌, Comparable, ◌==◌,
  nat_comparable, if◌then◌else◌,
}
use dumbo_ucy.Shared.Dict.{contains}
use dumbo_ucy.Crypto.Boldyreva.{
  Group, PublicKey, insert, sorted, eval_from, polynom_eval, numerator, denominator, lagrange,
  secret_keys, verification_keys, plus_share, sum_from, check_sum, public_key, reconstructed,
  dealer,
}
use dumbo_ucy.Crypto.Boldyreva.Horner.{IsRing}
use dumbo_ucy.Crypto.Boldyreva.Shares.{IsPairing}

pub data Three : Type 0 where
  n0 n1 n2 : Three

abbrev pub plus : Three → Three → Three
plus n0 b = b
plus n1 n0 = n1
plus n1 n1 = n2
plus n1 n2 = n0
plus n2 n0 = n2
plus n2 n1 = n0
plus n2 n2 = n1

abbrev pub times : Three → Three → Three
times n0 b = n0
times n1 b = b
times n2 n0 = n0
times n2 n1 = n2
times n2 n2 = n1

abbrev pub equal3 : Three → Three → Bool
equal3 n0 n0 = true
equal3 n1 n1 = true
equal3 n2 n2 = true
equal3 _ _ = false

pub equal3_eq : (a b : Three) → equal3 a b ≡ true → a ≡ b
equal3_eq n0 n0 h = refl
equal3_eq n0 n1 h = absurd cc
equal3_eq n0 n2 h = absurd cc
equal3_eq n1 n0 h = absurd cc
equal3_eq n1 n1 h = refl
equal3_eq n1 n2 h = absurd cc
equal3_eq n2 n0 h = absurd cc
equal3_eq n2 n1 h = absurd cc
equal3_eq n2 n2 h = refl

pub equal3_refl : (a : Three) → equal3 a a ≡ true
equal3_refl n0 = refl
equal3_refl n1 = refl
equal3_refl n2 = refl

instance abbrev pub three_comparable : Comparable Three
three_comparable = record {
  equal = equal3;
  equal_iff = λ a b. (equal3_eq a b, λ e. ap (equal3 a) (sym e) ∙ equal3_refl a);
}

-- A law is checked at every element.
abbrev pub all3 : (Three → Bool) → Bool
all3 p = p n0 && (p n1 && p n2)

all3_at : (p : Three → Bool) → all3 p ≡ true → (a : Three) → p a ≡ true
all3_at p h n0 = (both (p n0) _ h).0
all3_at p h n1 = (both (p n1) _ (both (p n0) _ h).1).0
all3_at p h n2 = (both (p n1) _ (both (p n0) _ h).1).1

pub law1 : (l r : Three → Three) → all3 (λ a. equal3 (l a) (r a)) ≡ true → (a : Three) → l a ≡ r a
law1 l r h a = equal3_eq (l a) (r a) (all3_at (λ x. equal3 (l x) (r x)) h a)

pub law2 :
    (l r : Three → Three → Three)
    → all3 (λ a. all3 (λ b. equal3 (l a b) (r a b))) ≡ true
    → (a b : Three) → l a b ≡ r a b
law2 l r h a = law1 (l a) (r a) (all3_at (λ x. all3 (λ b. equal3 (l x b) (r x b))) h a)

pub law3 :
    (l r : Three → Three → Three → Three)
    → all3 (λ a. all3 (λ b. all3 (λ c. equal3 (l a b c) (r a b c)))) ≡ true
    → (a b c : Three) → l a b c ≡ r a b c
law3 l r h a =
    law2 (l a) (r a) (all3_at (λ x. all3 (λ b. all3 (λ c. equal3 (l x b c) (r x b c)))) h a)

abbrev pub of_three : ℕ → Three
of_three n = if n % 3 == 0 then n0 else if n % 3 == 1 then n1 else n2

-- Minus is twice, and 1 and 2 are their own inverses.
abbrev pub toy : Group Three Three Three Three
toy = record {
  zero_f = n0;
  one_f = n1;
  add_f = plus;
  sub_f = λ a b. plus a (times n2 b);
  mul_f = times;
  div_f = times;
  of_nat = of_three;
  unit1 = n0;
  mul1 = plus;
  exp1 = times;
  exp2 = times;
  g2 = n1;
  pair = times;
}

pub toy-IsRing : IsRing toy
toy-IsRing = record {
  zero_add = λ a. refl;
  add_zero = law1 (λ a. plus a n0) (λ a. a) refl;
  add_assoc = law3 (λ a b c. plus (plus a b) c) (λ a b c. plus a (plus b c)) refl;
  one_mul = λ a. refl;
  mul_zero = law1 (λ a. times a n0) (λ a. n0) refl;
  mul_assoc = law3 (λ a b c. times (times a b) c) (λ a b c. times a (times b c)) refl;
  mul_comm = law2 times (λ a b. times b a) refl;
  mul_add = law3 (λ a b c. times a (plus b c)) (λ a b c. plus (times a b) (times a c)) refl;
}

pub toy-IsPairing : IsPairing toy
toy-IsPairing = record {
  bilinear = law2 (λ h s. times (times h s) n1) (λ h s. times h (times n1 s)) refl;
  exp_exp = law3 (λ h s w. times (times h s) w) (λ h s w. times h (times w s)) refl;
  exp_add = law3 (λ h a b. plus (times h a) (times h b)) (λ h a b. times h (plus a b)) refl;
  exp_zero = law1 (λ h. times h n0) (λ h. n0) refl;
}

opened : Unit {0}
unfolding dealer check_sum public_key reconstructed sum_from plus_share lagrange numerator
    denominator sorted insert polynom_eval eval_from secret_keys verification_keys contains
opened = tt

-- Two parties, of which both must sign; the polynomial is 2 + x.
abbrev pub key : PublicKey Three
key = record { l = 2; k = 2; vk = n2; vks = n0 ∷ n1 ∷ [] }

pub dealt : dealer toy 2 (n2 ∷ n1 ∷ []) ≡ some (key, n0 ∷ n1 ∷ [])
unfolding opened
dealt = refl
