-- ===== src/Broadcast/Strong/Tests.antt =====
-- Strong provable broadcast among four parties with toy signatures, the leader being party 0.
use dumbo_ucy.Shared.{ℕ, ◌+◌, ◌*◌, refl, true, List, [], ◌∷◌, ◌++◌, ◌==◌, nat_comparable, arith}
use dumbo_ucy.Shared.Dict.{Dict, put}
use dumbo_ucy.Shared.Loop.{AllOf, AtEnd, run}
use dumbo_ucy.Broadcast.Strong.{
  Params, Msg, spbc_send, spbc_echo, spbc_ready, spbc_final, spbc_done, init, start, on_send,
  accept_echo, check_echo, on_echo, on_ready, accept_final, on_final, on_done, handle,
}
use dumbo_ucy.Broadcast.Strong.Certified.{Vouched, Returned, run-Vouched}
use dumbo_ucy.Broadcast.Strong.Leader.{IsGood, run-Leads}

-- A combined signature is the number of its shares with the sum of what they sign.
abbrev sum_shares : Dict ℕ ℕ → ℕ
sum_shares [] = 0
sum_shares ((i, s) ∷ shares) = s + sum_shares shares

abbrev toy : Params ℕ ℕ ℕ ℕ
toy = record {
  echo_hash = λ m. 2 * m;
  final_hash = λ m. 2 * m + 1;
  sign = λ d. 10 * d;
  verify_share = λ s i d. s == 10 * d + i;
  verify_signature = λ s d. s == 30 * d + 3;
  combine_shares = sum_shares;
  py_none = 0;
  has_output = true;
  pid = 0;
  n = 4;
  f = 1;
  leader = 0;
}

opened : Unit {0}
unfolding run handle start init on_send accept_echo check_echo on_echo on_ready accept_final
    on_final on_done put
opened = tt

-- The leader's own messages come back to it; party 3 sends a wrong share and a stray SPBC_DONE.
abbrev inbox : List (ℕ × Msg ℕ ℕ ℕ)
inbox =
    (0, spbc_send 7)
    ∷ (3, spbc_echo 1)
    ∷ (1, spbc_echo 141)
    ∷ (3, spbc_done 9 0)
    ∷ (2, spbc_echo 142)
    ∷ (0, spbc_ready 7 423)
    ∷ (0, spbc_final 150)
    ∷ (1, spbc_final 151)
    ∷ (2, spbc_final 152)
    ∷ []

run-Leads_example :
    AllOf (IsGood toy 7) ((start toy 7).1 ++ (run (handle toy) (start toy 7).0 inbox).0)
run-Leads_example = run-Leads toy 7 inbox refl refl (
  (refl, refl),
  (tt, (tt, ((λ e. absurd (ground arith)), (tt, ((λ e. refl), (tt, (tt, (tt, tt)))))))),
)

run-Vouched_example :
    AtEnd
      (λ s outs. AllOf (Vouched toy) outs)
      (Returned toy)
      (AllOf (Vouched toy))
      ((start toy 7).1 ++ (run (handle toy) (start toy 7).0 inbox).0)
      (run (handle toy) (start toy 7).0 inbox).1
run-Vouched_example = run-Vouched toy 7 inbox
