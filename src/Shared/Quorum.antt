-- ===== src/Shared/Quorum.antt =====
-- Counting parties: two quorums of N - f among N ≥ 3f + 1 parties share a party that is not one of
-- the at most f faulty ones.
use Prim.Native.Nat.{ℕ, zero, suc, ◌+◌, ◌*◌, ◌-◌, ◌≤◌, ◌<◌}
use mathlib.Core.Path.{◌≡◌, refl}
use mathlib.Core.Logic.{inl, inr}
use mathlib.Core.Bool.{Bool, true, false, not, ◌&&◌, ◌||◌}
use mathlib.Core.List.{List, [], ◌∷◌}
use native.Mathlib.Omega.{arith}
use dumbo_ucy.Shared.Tests.{◌==◌, nat_comparable, nat_beq_iff, if◌then◌else◌, Bool-cases}
use dumbo_ucy.Shared.Lists.{length}
use dumbo_ucy.Shared.Dict.{contains, IsDistinct}

-- How many of the parties 0, …, n - 1 pass a test.
unfoldable pub count_below : ℕ → (ℕ → Bool) → ℕ
count_below zero test = 0
count_below (suc n) test = count_below n test + (if test n then 1 else 0)

count_below-and :
    (n : ℕ) (a b : ℕ → Bool)
    → count_below n a + count_below n b ≤ n + count_below n (λ i. a i && b i)
unfolding count_below
count_below-and zero a b = omega arith
count_below-and (suc n) a b = ground (arith, count_below-and n a b)

count_below_split :
    (n : ℕ) (a honest : ℕ → Bool)
    → count_below n a ≤ count_below n (λ i. a i && honest i) + count_below n (λ i. not (honest i))
unfolding count_below
count_below_split zero a honest = omega arith
count_below_split (suc n) a honest = ground (arith, count_below_split n a honest)

record Found (n : ℕ) (test : ℕ → Bool) : Type 0 where
  party : ℕ
  below : party < n
  passes : test party ≡ true

find : (n : ℕ) (test : ℕ → Bool) → 0 < count_below n test → Found n test
unfolding count_below
find zero test h = absurd (omega arith)
find (suc n) test h = elim (Bool-cases (test n)) [
  | inl e ↦ record { party = n; below = omega arith; passes = e }
  | inr e ↦
      let rest = find n test (ground arith) in
      record { party = rest.party; below = omega (arith, rest.below); passes = rest.passes }
]

-- One more member, which was not there.
count_below_insert_ge :
    (n x : ℕ) (test : ℕ → Bool) → n ≤ x → count_below n (λ i. x == i || test i) ≡ count_below n test
unfolding count_below
count_below_insert_ge zero x test h = refl
count_below_insert_ge (suc n) x test h = ground (arith, count_below_insert_ge n x test)

count_below_insert :
    (n x : ℕ) (test : ℕ → Bool)
    → x < n
    → test x ≡ false
    → count_below n (λ i. x == i || test i) ≡ suc (count_below n test)
unfolding count_below
count_below_insert zero x test h e = absurd (omega arith)
count_below_insert (suc n) x test h e = elim (Bool-cases (x == n)) [
  | inl same ↦ ground (arith, count_below_insert_ge n x test, nat_beq_iff x n)
  | inr other ↦ ground (arith, count_below_insert n x test, nat_beq_iff x n)
]

count_below_again :
    (n x : ℕ) (test : ℕ → Bool)
    → test x ≡ true
    → count_below n (λ i. x == i || test i) ≡ count_below n test
unfolding count_below
count_below_again zero x test e = refl
count_below_again (suc n) x test e = ground (arith, count_below_again n x test e, nat_beq_iff x n)

-- One more party, which may have been there.
pub count_below_added :
    (n x : ℕ) (test : ℕ → Bool)
    → x < n
    → count_below n (λ i. x == i || test i) ≡ count_below n test + (if test x then 0 else 1)
count_below_added n x test lt = elim (Bool-cases (test x)) [
  | inl old ↦ rw old (omega (arith, count_below_again n x test old))
  | inr new ↦ rw new (omega (arith, count_below_insert n x test lt new))
]

count_below_only_ge : (n x : ℕ) → n ≤ x → count_below n (λ i. x == i) ≡ 0
unfolding count_below
count_below_only_ge zero x le = refl
count_below_only_ge (suc n) x le = ground (arith, count_below_only_ge n x, nat_beq_iff x n)

pub count_below_only : (n x : ℕ) → x < n → count_below n (λ i. x == i) ≡ 1
unfolding count_below
count_below_only zero x lt = absurd (omega arith)
count_below_only (suc n) x lt =
    ground (arith, count_below_only n x, count_below_only_ge n x, nat_beq_iff x n)

-- All elements are parties.
abbrev pub AllBelow : ℕ → List ℕ → Type 0
AllBelow n [] = Unit
AllBelow n (x ∷ xs) = (x < n) × AllBelow n xs

count_below-contains :
    (n : ℕ) (xs : List ℕ) → IsDistinct xs → AllBelow n xs → length xs ≤ count_below n (contains xs)
unfolding contains
count_below-contains n [] d b = omega arith
count_below-contains n (x ∷ xs) d b =
    omega (arith, count_below-contains n xs d.1 b.1, count_below_insert n x (contains xs) b.0 d.0)

pub count_below-equal :
    (n : ℕ) (a b : ℕ → Bool) → ((i : ℕ) → a i ≡ b i) → count_below n a ≡ count_below n b
unfolding count_below
count_below-equal zero a b h = refl
count_below-equal (suc n) a b h = rw (count_below-equal n a b h, h n) refl

none_below : (n : ℕ) → count_below n (contains []) ≡ 0
unfolding count_below contains
none_below zero = refl
none_below (suc n) = omega (arith, none_below n)

-- The size of a set of parties.
pub count_below-members :
    (n : ℕ) (xs : List ℕ) → IsDistinct xs → AllBelow n xs → length xs ≡ count_below n (contains xs)
unfolding contains
count_below-members n [] d b = omega (arith, none_below n)
count_below-members n (x ∷ xs) d b =
    omega (arith, count_below-members n xs d.1 b.1, count_below_insert n x (contains xs) b.0 d.0)

-- Two sets of at least N - f distinct parties have a member in common that is not faulty.
pub quorum_intersection :
    (n f : ℕ) (honest : ℕ → Bool) (xs ys : List ℕ)
    → 3 * f + 1 ≤ n
    → count_below n (λ i. not (honest i)) ≤ f
    → IsDistinct xs
    → IsDistinct ys
    → AllBelow n xs
    → AllBelow n ys
    → n - f ≤ length xs
    → n - f ≤ length ys
    → (i : ℕ) × (contains xs i ≡ true) × (contains ys i ≡ true) × (honest i ≡ true)
quorum_intersection n f honest xs ys many few dx dy bx by lx ly =
    let both = λ (i : ℕ). contains xs i && contains ys i in
    let common =
      find n (λ i. both i && honest i)
        (omega (
          arith,
          count_below-contains n xs dx bx,
          count_below-contains n ys dy by,
          count_below-and n (contains xs) (contains ys),
          count_below_split n both honest,
        )) in
    (
      common.party,
      ground (arith, common.passes),
      ground (arith, common.passes),
      ground (arith, common.passes),
    )
