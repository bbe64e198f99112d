-- ===== src/Broadcast/Validators/Tests.antt =====
-- Proofs of provable reliable broadcast among four parties, of which party 3 is faulty.
use dumbo_ucy.Shared.{
  ℕ, ◌+◌, ◌*◌, ◌%◌, ◌≡◌, refl, Bool, true, not, List, [], ◌∷◌, ◌==◌, nat_comparable, ◌&&◌,
  if◌then◌else◌, arith, inl, get_or, Member,
}
use dumbo_ucy.Shared.Dict.{put, contains, add, get_or_default}
use dumbo_ucy.Shared.Loop.{run}
use dumbo_ucy.Shared.Quorum.{count_below}
use dumbo_ucy.Rbc.Merkle.{Bytes}
use dumbo_ucy.Rbc.Handler
use dumbo_ucy.Rbc.Samples.{toy}
use dumbo_ucy.Broadcast.Provable.{
  Msg, ready, init, handle, send_ready, record_ready, output, accept_ready, on_ready,
}
use dumbo_ucy.Broadcast.Provable.Signing.{signed}
use dumbo_ucy.Broadcast.Validators.{has_pair, count_pairs, verify_all, certified, prbc_validate}
use dumbo_ucy.Broadcast.Validators.Agreement.{party, prbc_proof_agreement}

abbrev toy_digest : ℕ → Bytes → ℕ
toy_digest sid r = get_or r 0 0 + 1

-- Only the digest 6 was ever signed by the others; party 3 signs at will.
abbrev toy_vrfy : ℕ → ℕ → ℕ → Bool
toy_vrfy i d sig = if i == 3 then sig % 10 == 3 else (d == 6 && sig == 60 + i)

abbrev sign_of : ℕ → ℕ → ℕ
sign_of i d = d * 10 + i

-- Two READY messages for the root hash 5 make a party sign its own.
abbrev inbox : ℕ → List (ℕ × Msg ℕ)
inbox i = (3, ready (5 ∷ []) 3) ∷ (1, ready (5 ∷ []) 61) ∷ []

abbrev honest : ℕ → Bool
honest i = not (i == 3)

opened : Unit {0}
unfolding run handle on_ready accept_ready output record_ready send_ready Handler.record_ready put
    contains add get_or_default count_below prbc_validate certified verify_all count_pairs has_pair
opened = tt

unforgeable :
    (i d sig : ℕ)
    → honest i ≡ true
    → toy_vrfy i d sig ≡ true
    → Member d (
        signed
          (run
            (handle (party toy_vrfy (λ sig. sig == 0) (toy_digest 0) toy sign_of i))
            (init (party toy_vrfy (λ sig. sig == 0) (toy_digest 0) toy sign_of i))
            (inbox i)).0)
unfolding opened
unforgeable i d sig h v = inl (ground arith)

prbc_proof_agreement_example : toy_digest 0 (5 ∷ []) ≡ toy_digest 0 (5 ∷ [])
unfolding opened
prbc_proof_agreement_example =
    prbc_proof_agreement 4 1 toy_vrfy (λ sig. sig == 0) toy_digest toy sign_of inbox honest 0 0 0
      (5 ∷ []) (5 ∷ []) ((0, 60) ∷ (1, 61) ∷ (2, 62) ∷ []) ((1, 61) ∷ (3, 3) ∷ (2, 62) ∷ [])
      (omega arith) (omega arith) unforgeable refl refl (refl, (refl, (refl, tt)))
      (refl, (refl, (refl, tt)))
