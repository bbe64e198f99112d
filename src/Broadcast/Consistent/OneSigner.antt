-- ===== src/Broadcast/Consistent/OneSigner.antt =====
-- `len(set(sigmas)) == N - f` counts pairs of a party and a signature, not parties.
use dumbo_ucy.Shared.{
  ℕ, ◌-◌, ◌<◌, ◌≡◌, refl, true, List, [], ◌∷◌, Comparable, nat_comparable, lt→ltb, arith, length,
  map, length-map, ==_refl,
}
use dumbo_ucy.Shared.Dict.{contains, IsDistinct}
use dumbo_ucy.Shared.Loop.{AllOf, done}
use dumbo_ucy.Broadcast.Consistent.{
  Params, cbc_final, State, good, verify_all, has_pair, pair_set, check_final, checked_final,
  on_final, handle,
}

module _ {Val Digest Sig : Type 0} ⦃e : Comparable Sig⦄ (p : Params Val Digest Sig) (i : ℕ) where
  abbrev pub pairs_of : List Sig → List (ℕ × Sig)
  pairs_of = map (λ sig. (i, sig))

  has_pair-pairs_of :
      (sigs : List Sig) (sig : Sig) → has_pair p (pairs_of sigs) (i, sig) ≡ contains sigs sig
  unfolding has_pair contains
  has_pair-pairs_of [] sig = refl
  has_pair-pairs_of (x ∷ sigs) sig = ground (arith, has_pair-pairs_of sigs sig)

  pair_set-pairs_of :
      (sigs : List Sig) → IsDistinct sigs → pair_set p (pairs_of sigs) ≡ pairs_of sigs
  unfolding pair_set
  pair_set-pairs_of [] d = refl
  pair_set-pairs_of (x ∷ sigs) d = rw (pair_set-pairs_of sigs d.1, has_pair-pairs_of sigs x, d.0)

  verify_all-pairs_of :
      (d : Digest) (sigs : List Sig)
      → i < p.n
      → AllOf (λ sig. p.vrfy i d sig ≡ true) sigs
      → verify_all p d (pairs_of sigs) ≡ good
  unfolding verify_all
  verify_all-pairs_of d [] lt ok = refl
  verify_all-pairs_of d (x ∷ sigs) lt ok =
      rw (lt→ltb i p.n lt, ok.0) (verify_all-pairs_of d sigs lt ok.1)

  -- N - f different signatures of one party are accepted as a certificate: in any state, a
  -- `CBC_FINAL` that carries them returns its value.
  pub one_signer :
      (s : State Val Digest Sig) (m : Val) (sigs : List Sig)
      → i < p.n
      → length sigs ≡ p.n - p.f
      → IsDistinct sigs
      → AllOf (λ sig. p.vrfy i (p.digest m) sig ≡ true) sigs
      → handle p s (p.leader, cbc_final m (pairs_of sigs)) ≡ done [] (m, pairs_of sigs)
  unfolding handle on_final check_final checked_final
  one_signer s m sigs lt size distinct ok = ground (
    arith,
    ==_refl p.leader,
    pair_set-pairs_of sigs distinct,
    verify_all-pairs_of (p.digest m) sigs lt ok,
    length-map {B = ℕ × Sig} (λ sig. (i, sig)) sigs,
  )
