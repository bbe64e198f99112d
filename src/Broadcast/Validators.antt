-- ===== src/Broadcast/Validators.antt =====
-- dumbobft/core/validators.py and speedydumbobft/core/validators.py: the checks of a certificate.
-- A bare `except` makes every exception a False.
mod Agreement
mod Tests
use dumbo_ucy.Shared.{
  suc, ℕ, ◌-◌, Bool, true, false, List, [], ◌∷◌, Comparable, ◌==◌, nat_comparable, ltb, ◌&&◌, ◌||◌,
  if◌then◌else◌, length,
}
use dumbo_ucy.Rbc.Merkle.{Bytes}

module _ {Sig : Type 0} ⦃e : Comparable Sig⦄ where
  -- x in sigmas
  unfoldable pub has_pair : List (ℕ × Sig) → ℕ × Sig → Bool
  has_pair [] a = false
  has_pair (x ∷ xs) a = (x.0 == a.0 && x.1 == a.1) || has_pair xs a

  -- len(set(sigmas))
  unfoldable pub count_pairs : List (ℕ × Sig) → ℕ
  count_pairs [] = 0
  count_pairs (x ∷ xs) = let rest = count_pairs xs in if has_pair xs x then rest else suc rest

module _ {Digest Sig : Type 0} ⦃e' : Comparable Sig⦄ (n f : ℕ)
    (vrfy : ℕ → Digest → Sig → Bool) where
  -- for (i, sig_i) in sigmas: assert ecdsa_vrfy(PK2s[i], digest, sig_i)
  unfoldable pub verify_all : Digest → List (ℕ × Sig) → Bool
  verify_all d [] = true
  verify_all d ((i, sig) ∷ sigmas) = ltb i n && (vrfy i d sig && verify_all d sigmas)

  unfoldable pub certified : Digest → List (ℕ × Sig) → Bool
  certified d sigmas =
      (length sigmas == n - f && count_pairs sigmas == n - f) && verify_all d sigmas

  -- `digest sid r` is `hash((sid, r))`.
  unfoldable pub prbc_validate :
      {Sid : Type 0} ⦃e : Comparable Sid⦄
      → (Sid → Bytes → Digest)
      → Sid
      → Sid × (Bytes × List (ℕ × Sig))
      → Bool
  prbc_validate digest sid (proof_sid, (roothash, sigmas)) =
      proof_sid == sid && certified (digest sid roothash) sigmas

  unfoldable pub cbc_validate {ℓ} :
      {Sid Val : Type ℓ} → (Sid → Val → Digest) → Sid → Val → List (ℕ × Sig) → Bool
  cbc_validate digest sid value sigmas = certified (digest sid value) sigmas

  -- `pb_validate`, where the proof has the hash of the value.
  unfoldable pub pb_validate {ℓ} :
      {Sid : Type 0} {Hash : Type ℓ} ⦃e : Comparable Sid⦄
      → (Sid → Hash → Digest)
      → Sid
      → Sid × (Hash × List (ℕ × Sig))
      → Bool
  pb_validate digest sid (pb_sid, (h, sigmas)) = pb_sid == sid && certified (digest sid h) sigmas
