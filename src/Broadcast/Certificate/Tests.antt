-- ===== src/Broadcast/Certificate/Tests.antt =====
-- Provable broadcast of the value 2 among four parties, the leader being party 0.
use dumbo_ucy.Shared.{ℕ, ◌+◌, ◌*◌, ◌≡◌, refl, true, List, [], ◌∷◌, ◌==◌, nat_comparable}
use dumbo_ucy.Shared.Dict.{put}
use dumbo_ucy.Shared.Loop.{run}
use dumbo_ucy.Broadcast.Validators.{pb_validate}
use dumbo_ucy.Broadcast.Certificate.{
  Params, Msg, pb_send, pb_echo, start, on_send, finish, accept_echo, check_echo, on_echo, handle,
}
use dumbo_ucy.Broadcast.Certificate.Accepted.{leader_proof}

abbrev toy_digest : ℕ → ℕ → ℕ
toy_digest sid h = sid + 2 * h

abbrev toy : Params ℕ ℕ ℕ ℕ
toy = record {
  hash = λ m. m + 3;
  digest = toy_digest 1;
  sign = λ d. 10 * d;
  vrfy = λ i d sig. sig == 10 * d + i;
  raises = λ sig. sig == 0;
  pid = 0;
  n = 4;
  f = 1;
  leader = 0;
}

-- A wrong signature of party 3, and two good ones.
abbrev inbox : List (ℕ × Msg ℕ ℕ)
inbox = (3, pb_echo 7) ∷ (2, pb_echo 112) ∷ (0, pb_send 2) ∷ (1, pb_echo 111) ∷ []

abbrev proof : List (ℕ × ℕ)
proof = (0, 110) ∷ (2, 112) ∷ (1, 111) ∷ []

leader_proof_example :
    (5 ≡ toy.hash 2) × (pb_validate toy.n toy.f toy.vrfy toy_digest 1 (1, (5, proof)) ≡ true)
unfolding run handle start on_send finish accept_echo check_echo on_echo put
leader_proof_example = leader_proof toy_digest 1 toy 2 inbox 5 proof refl refl refl refl refl
