-- ===== src/Crypto/Boldyreva/Horner.antt =====
-- `polynom_eval` against Horner's rule.
use dumbo_ucy.Shared.{◌≡◌, sym, ap, ◌∙◌, List, [], ◌∷◌}
use dumbo_ucy.Crypto.Boldyreva.{Group, eval_from, polynom_eval}

-- What a ring has that evaluation needs.
pub record IsRing {F G1 G2 GT : Type 0} (g : Group F G1 G2 GT) : Type 0 where
  pub zero_add : (a : F) → g.add_f g.zero_f a ≡ a
  pub add_zero : (a : F) → g.add_f a g.zero_f ≡ a
  pub add_assoc : (a b c : F) → g.add_f (g.add_f a b) c ≡ g.add_f a (g.add_f b c)
  pub one_mul : (a : F) → g.mul_f g.one_f a ≡ a
  pub mul_zero : (a : F) → g.mul_f a g.zero_f ≡ g.zero_f
  pub mul_assoc : (a b c : F) → g.mul_f (g.mul_f a b) c ≡ g.mul_f a (g.mul_f b c)
  pub mul_comm : (a b : F) → g.mul_f a b ≡ g.mul_f b a
  pub mul_add : (a b c : F) → g.mul_f a (g.add_f b c) ≡ g.add_f (g.mul_f a b) (g.mul_f a c)

module _ {F G1 G2 GT : Type 0} (g : Group F G1 G2 GT) where
  -- a0 + x (a1 + x (a2 + …))
  abbrev pub horner : F → List F → F
  horner x [] = g.zero_f
  horner x (c ∷ cs) = g.add_f c (g.mul_f x (horner x cs))

  eval_from-horner :
      (ring : IsRing g) (x y xx : F) (cs : List F)
      → eval_from g x y xx cs ≡ g.add_f y (g.mul_f xx (horner x cs))
  unfolding eval_from
  eval_from-horner ring x y xx [] = sym (ap (g.add_f y) (ring.mul_zero xx) ∙ ring.add_zero y)
  eval_from-horner ring x y xx (c ∷ cs) =
      eval_from-horner ring x (g.add_f y (g.mul_f c xx)) (g.mul_f xx x) cs
      ∙ (ring.add_assoc y (g.mul_f c xx) (g.mul_f (g.mul_f xx x) (horner x cs))
          ∙ ap (g.add_f y) (
              ap (λ t. g.add_f t (g.mul_f (g.mul_f xx x) (horner x cs))) (ring.mul_comm c xx)
              ∙ (ap (g.add_f (g.mul_f xx c)) (ring.mul_assoc xx x (horner x cs))
                  ∙ sym (ring.mul_add xx c (g.mul_f x (horner x cs))))))

  -- In a commutative ring, the loop of `polynom_eval`, which keeps the powers of x, computes what
  -- Horner's rule does.
  pub polynom_eval-horner :
      (ring : IsRing g) (x : F) (cs : List F) → polynom_eval g x cs ≡ horner x cs
  unfolding polynom_eval
  polynom_eval-horner ring x cs =
      eval_from-horner ring x g.zero_f g.one_f cs
      ∙ (ring.zero_add (g.mul_f g.one_f (horner x cs)) ∙ ring.one_mul (horner x cs))
