-- ===== src/Broadcast/Consistent/Agreement.antt =====
-- Two accepted `CBC_FINAL` messages of one instance that name no party twice are for one digest.
use dumbo_ucy.Shared.{
  ℕ, ◌+◌, ◌-◌, ◌*◌, ◌≤◌, ◌≡◌, Bool, true, not, List, [], ◌∷◌, Comparable, ◌==◌, nat_comparable,
  nat_beq_iff, arith, length, length-map, Bool-cases, inl, inr, Member, only_element,
}
use dumbo_ucy.Shared.Dict.{contains, IsDistinct}
use dumbo_ucy.Shared.Signers.{signers}
use dumbo_ucy.Shared.Quorum.{count_below, AllBelow, quorum_intersection}
use dumbo_ucy.Broadcast.Consistent.{Params, Msg, good, verify_all, check_final}
use dumbo_ucy.Broadcast.Consistent.Signing.{signed, total, signs_once}

module _ {Val Digest Sig : Type 0} ⦃e : Comparable Sig⦄ (p : Params Val Digest Sig) where
  record Signature (d : Digest) (i : ℕ) : Type 0 where
    sig : Sig
    accepted : p.vrfy i d sig ≡ true

  verify_all-AllBelow :
      (d : Digest) (sigmas : List (ℕ × Sig))
      → verify_all p d sigmas ≡ good
      → AllBelow p.n (signers sigmas)
  unfolding verify_all
  verify_all-AllBelow d [] h = tt
  verify_all-AllBelow d ((i, sig) ∷ sigmas) h =
      (ground arith, verify_all-AllBelow d sigmas (ground arith))

  verify_all-contains :
      (d : Digest) (sigmas : List (ℕ × Sig)) (i : ℕ)
      → verify_all p d sigmas ≡ good
      → contains (signers sigmas) i ≡ true
      → Signature d i
  unfolding verify_all contains
  verify_all-contains d [] i h m = absurd (ground arith)
  verify_all-contains d ((j, sig) ∷ sigmas) i h m = elim (Bool-cases (j == i)) [
    | inl same ↦ record { sig = sig; accepted = ground (arith, nat_beq_iff j i) }
    | inr other ↦ verify_all-contains d sigmas i (ground arith) (ground arith)
  ]

  check_final-good :
      (m : Val) (sigmas : List (ℕ × Sig))
      → check_final p m sigmas ≡ good
      → (verify_all p (p.digest m) sigmas ≡ good) × (length sigmas ≡ p.n - p.f)
  unfolding check_final
  check_final-good m sigmas h = ground arith

  -- Party `i` of the instance, with its own secret key.
  abbrev pub party : (ℕ → Digest → Sig) → ℕ → Params Val Digest Sig
  party sign_of i = record p { pid = i; sign = sign_of i }

  -- Among N ≥ 3f + 1 parties of which at most f are faulty, two certificates that the receivers
  -- check and that name no party twice are for one digest. Assumed of ECDSA: a signature that
  -- verifies for a party that is not faulty was made by that party in this instance.
  pub final_agreement :
      (sign_of : ℕ → Digest → Sig) (input : ℕ → Val) (msgs : ℕ → List (ℕ × Msg Val Sig))
      (honest : ℕ → Bool) (m m' : Val) (xs ys : List (ℕ × Sig))
      → 3 * p.f + 1 ≤ p.n
      → count_below p.n (λ i. not (honest i)) ≤ p.f
      → ((i : ℕ) (d : Digest) (sig : Sig)
          → honest i ≡ true
          → p.vrfy i d sig ≡ true
          → Member d (signed (total (party sign_of i) (input i) (msgs i))))
      → check_final p m xs ≡ good
      → check_final p m' ys ≡ good
      → IsDistinct (signers xs)
      → IsDistinct (signers ys)
      → p.digest m ≡ p.digest m'
  final_agreement sign_of input msgs honest m m' xs ys many few unforgeable gx gy dx dy =
      let cx = check_final-good m xs gx in
      let cy = check_final-good m' ys gy in
      let (i, inx, iny, h) =
        quorum_intersection p.n p.f honest (signers xs) (signers ys) many few dx dy
          (verify_all-AllBelow (p.digest m) xs cx.0) (verify_all-AllBelow (p.digest m') ys cy.0)
          (omega (arith, cx.1, length-map (λ (a : ℕ × Sig). a.0) xs))
          (omega (arith, cy.1, length-map (λ (a : ℕ × Sig). a.0) ys)) in
      let sx = verify_all-contains (p.digest m) xs i cx.0 inx in
      let sy = verify_all-contains (p.digest m') ys i cy.0 iny in
      only_element (p.digest m) (p.digest m') (signed (total (party sign_of i) (input i) (msgs i)))
        (signs_once (party sign_of i) (input i) (msgs i))
        (unforgeable i (p.digest m) sx.sig h sx.accepted)
        (unforgeable i (p.digest m') sy.sig h sy.accepted)
