-- ===== src/Broadcast/Validators/Agreement.antt =====
-- Two proofs of one provable reliable broadcast that pass the validator and name no party twice are for
-- root hashes with one digest.
use dumbo_ucy.Shared.{
  ℕ, ◌+◌, ◌-◌, ◌*◌, ◌≤◌, ◌≡◌, Bool, true, not, List, [], ◌∷◌, Comparable, ◌==◌, nat_comparable,
  nat_beq_iff, arith, length, length-map, Bool-cases, inl, inr, Member, only_element,
}
use dumbo_ucy.Shared.Dict.{contains, IsDistinct}
use dumbo_ucy.Shared.Loop.{run}
use dumbo_ucy.Shared.Signers.{signers}
use dumbo_ucy.Shared.Quorum.{count_below, AllBelow, quorum_intersection}
use dumbo_ucy.Rbc.Merkle.{Bytes}
use dumbo_ucy.Rbc.Handler
use dumbo_ucy.Broadcast.Provable.{Params, Msg, init, handle}
use dumbo_ucy.Broadcast.Provable.Signing.{signed, signs_one_ready, length-signed}
use dumbo_ucy.Broadcast.Validators.{verify_all, certified, prbc_validate}

-- Party `i` of the instance, with its own secret key.
abbrev pub party :
    {Digest Sig : Type 0}
    → (ℕ → Digest → Sig → Bool)
    → (Sig → Bool)
    → (Bytes → Digest)
    → Handler.Params
    → (ℕ → Digest → Sig)
    → ℕ
    → Params Digest Sig
party vrfy raises digest rbc sign_of i = record {
  rbc = record rbc { pid = i };
  digest = digest;
  sign = sign_of i;
  vrfy = vrfy;
  raises = raises;
}

module _ {Digest Sig : Type 0} ⦃e' : Comparable Sig⦄ (n f : ℕ)
    (vrfy : ℕ → Digest → Sig → Bool) where
  record Signature (d : Digest) (i : ℕ) : Type 0 where
    sig : Sig
    accepted : vrfy i d sig ≡ true

  verify_all-AllBelow :
      (d : Digest) (sigmas : List (ℕ × Sig))
      → verify_all n f vrfy d sigmas ≡ true
      → AllBelow n (signers sigmas)
  unfolding verify_all
  verify_all-AllBelow d [] h = tt
  verify_all-AllBelow d ((i, sig) ∷ sigmas) h =
      (ground arith, verify_all-AllBelow d sigmas (ground arith))

  verify_all-contains :
      (d : Digest) (sigmas : List (ℕ × Sig)) (i : ℕ)
      → verify_all n f vrfy d sigmas ≡ true
      → contains (signers sigmas) i ≡ true
      → Signature d i
  unfolding verify_all contains
  verify_all-contains d [] i h m = absurd (ground arith)
  verify_all-contains d ((j, sig) ∷ sigmas) i h m = elim (Bool-cases (j == i)) [
    | inl same ↦ record { sig = sig; accepted = ground (arith, nat_beq_iff j i) }
    | inr other ↦ verify_all-contains d sigmas i (ground arith) (ground arith)
  ]

  prbc_validate-parts :
      {Sid : Type 0} ⦃e : Comparable Sid⦄ (digest : Sid → Bytes → Digest) (sid q : Sid) (r : Bytes)
      (sigmas : List (ℕ × Sig))
      → prbc_validate n f vrfy digest sid (q, (r, sigmas)) ≡ true
      → (verify_all n f vrfy (digest sid r) sigmas ≡ true) × (length sigmas ≡ n - f)
  unfolding prbc_validate certified
  prbc_validate-parts digest sid q r sigmas h =
      (ground arith, ground (arith, nat_beq_iff (length sigmas) (n - f)))

  -- Among n ≥ 3f + 1 parties of which at most f are faulty, two proofs that pass `prbc_validate`
  -- for one instance and name no party twice are for root hashes with one digest. Assumed of
  -- ECDSA: a signature that verifies for a party that is not faulty was made by that party in
  -- this instance.
  pub prbc_proof_agreement :
      {Sid : Type 0} ⦃e : Comparable Sid⦄ (raises : Sig → Bool) (digest : Sid → Bytes → Digest)
      (rbc : Handler.Params) (sign_of : ℕ → Digest → Sig) (msgs : ℕ → List (ℕ × Msg Sig))
      (honest : ℕ → Bool) (sid q q' : Sid) (r r' : Bytes) (xs ys : List (ℕ × Sig))
      → 3 * f + 1 ≤ n
      → count_below n (λ i. not (honest i)) ≤ f
      → ((i : ℕ) (d : Digest) (sig : Sig)
          → honest i ≡ true
          → vrfy i d sig ≡ true
          → Member d (
              signed
                (run
                  (handle (party vrfy raises (digest sid) rbc sign_of i))
                  (init (party vrfy raises (digest sid) rbc sign_of i))
                  (msgs i)).0))
      → prbc_validate n f vrfy digest sid (q, (r, xs)) ≡ true
      → prbc_validate n f vrfy digest sid (q', (r', ys)) ≡ true
      → IsDistinct (signers xs)
      → IsDistinct (signers ys)
      → digest sid r ≡ digest sid r'
  prbc_proof_agreement raises digest rbc sign_of msgs honest sid q q' r r' xs ys many few
        unforgeable vx vy dx dy =
      let (allx, lx) = prbc_validate-parts digest sid q r xs vx in
      let (ally, ly) = prbc_validate-parts digest sid q' r' ys vy in
      let (i, inx, iny, h) =
        quorum_intersection n f honest (signers xs) (signers ys) many few dx dy
          (verify_all-AllBelow (digest sid r) xs allx) (verify_all-AllBelow (digest sid r') ys ally)
          (omega (arith, lx, length-map (λ (a : ℕ × Sig). a.0) xs))
          (omega (arith, ly, length-map (λ (a : ℕ × Sig). a.0) ys)) in
      let sx = verify_all-contains (digest sid r) xs i allx inx in
      let sy = verify_all-contains (digest sid r') ys i ally iny in
      let me = party vrfy raises (digest sid) rbc sign_of i in
      let outs = (run (handle me) (init me) (msgs i)).0 in
      only_element (digest sid r) (digest sid r') (signed outs)
        (omega (arith, length-signed outs, signs_one_ready me (msgs i)))
        (unforgeable i (digest sid r) sx.sig h sx.accepted)
        (unforgeable i (digest sid r') sy.sig h sy.accepted)
