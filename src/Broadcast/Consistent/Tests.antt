-- ===== src/Broadcast/Consistent/Tests.antt =====
-- Consistent broadcast among four parties, of which party 3 is faulty.
use dumbo_ucy.Shared.{
  ℕ, zero, suc, ◌+◌, ◌*◌, ◌%◌, ◌≤◌, ◌≡◌, refl, Bool, true, false, not, some, List, [], ◌∷◌, ◌++◌,
  ◌==◌, nat_comparable, nat_beq, ◌&&◌, arith, if◌then◌else◌, length, inl, Member,
}
use dumbo_ucy.Shared.Dict.{put, contains}
use dumbo_ucy.Shared.Loop.{run, done}
use dumbo_ucy.Shared.Quorum.{count_below}
use dumbo_ucy.Broadcast.Consistent.{
  Params, Msg, cbc_send, cbc_echo, cbc_final, State, init, start, handle, check_final, verify_all,
  has_pair, pair_set, check_echo, accept_echo, checked_echo, checked_final, on_send, on_echo,
  on_final,
}
use dumbo_ucy.Broadcast.Consistent.Signing.{signed, total, signs_once}
use dumbo_ucy.Broadcast.Consistent.Agreement.{final_agreement}
use dumbo_ucy.Broadcast.Consistent.OneSigner.{pairs_of, one_signer}
use dumbo_ucy.Broadcast.Consistent.Leader.{IsLeading, have_signed, leader_final}

-- Only the digest 6 of the value 5 was ever signed by the others; party 3 signs at will.
abbrev toy_vrfy : ℕ → ℕ → ℕ → Bool
toy_vrfy i d sig = if i == 3 then sig % 10 == 3 else d == 6 && sig == d * 10 + i

abbrev toy : Params ℕ ℕ ℕ
toy = record {
  digest = λ m. m + 1;
  sign = λ d. d * 10;
  vrfy = toy_vrfy;
  raises = λ sig. sig == 0;
  py_none = 0;
  pid = 0;
  n = 4;
  f = 1;
  leader = 0;
}

opened : Unit {0}
unfolding run handle start init on_send on_echo on_final check_echo accept_echo checked_echo
    checked_final check_final verify_all has_pair pair_set put contains count_below
opened = tt

abbrev sign_of : ℕ → ℕ → ℕ
sign_of i d = d * 10 + i

abbrev inbox : ℕ → List (ℕ × Msg ℕ ℕ)
inbox i = (0, cbc_send 5) ∷ []

abbrev honest : ℕ → Bool
honest i = not (i == 3)

signs_once_example : length (signed (total toy 5 ((1, cbc_echo 61) ∷ (0, cbc_send 9) ∷ []))) ≤ 1
signs_once_example = signs_once toy 5 ((1, cbc_echo 61) ∷ (0, cbc_send 9) ∷ [])

unforgeable :
    (i d sig : ℕ)
    → honest i ≡ true
    → toy_vrfy i d sig ≡ true
    → Member d (signed (total (record toy { pid = i; sign = sign_of i }) 5 (inbox i)))
unfolding opened
unforgeable zero d sig h v = inl (ground arith)
unforgeable (suc i) d sig h v =
    let follows : nat_beq (suc i) 0 ≡ false = ground arith in rw follows (inl (ground arith))

abbrev first_certificate : List (ℕ × ℕ)
first_certificate = (0, 60) ∷ (1, 61) ∷ (2, 62) ∷ []

abbrev second_certificate : List (ℕ × ℕ)
second_certificate = (1, 61) ∷ (2, 62) ∷ (3, 3) ∷ []

final_agreement_example : toy.digest 5 ≡ toy.digest 5
unfolding opened
final_agreement_example =
    final_agreement toy sign_of (λ i. 5) inbox honest 5 5 first_certificate second_certificate
      (omega arith) (omega arith) unforgeable refl refl (refl, (refl, (refl, tt)))
      (refl, (refl, (refl, tt)))

-- Three signatures of party 3 for the value 9, which no other party has signed.
one_signer_example :
    handle toy
      (start (record toy { pid = 1 }) 0).0
      (0, cbc_final 9 (pairs_of toy 3 (3 ∷ 13 ∷ 23 ∷ [])))
    ≡ done [] (9, (3, 3) ∷ (3, 13) ∷ (3, 23) ∷ [])
unfolding opened
one_signer_example =
    one_signer toy 3 (start (record toy { pid = 1 }) 0).0 9 (3 ∷ 13 ∷ 23 ∷ []) (omega arith) refl
      (refl, (refl, (refl, tt))) (refl, (refl, (refl, tt)))

abbrev echoes_in : List (ℕ × Msg ℕ ℕ)
echoes_in = (1, cbc_echo 61) ∷ (3, cbc_final 9 []) ∷ (3, cbc_echo 4) ∷ (2, cbc_echo 62) ∷ []

abbrev after_echoes : State ℕ ℕ ℕ
after_echoes = record {
  m = 5;
  digest_from_leader = some 6;
  final_sent = true;
  echo_sshares = (0, 60) ∷ (1, 61) ∷ (2, 62) ∷ [];
}

leader_final_example :
    IsLeading toy 5
      (have_signed toy 5 echoes_in)
      after_echoes
      ((start toy 5).1 ++ (run (handle toy) (start toy 5).0 echoes_in).0)
unfolding opened
leader_final_example =
    leader_final toy refl 5 echoes_in (omega arith) refl (omega arith)
      ((omega arith, refl), ((omega arith, refl), ((omega arith, refl), ((omega arith, refl), tt))))
