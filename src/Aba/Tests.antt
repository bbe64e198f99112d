-- ===== src/Aba/Tests.antt =====
-- Binary agreement among four parties with input 1, of which party 3 is faulty.
use dumbo_ucy.Shared.{
  ◌≡◌, true, ℕ, refl, Bool, not, some, List, [], ◌∷◌, ◌==◌, nat_comparable, arith, inl, inr,
}
use dumbo_ucy.Shared.Dict.{contains, add}
use dumbo_ucy.Shared.Loop.{AllOf}
use dumbo_ucy.Shared.Quorum.{count_below}
use dumbo_ucy.Aba.Defs.{only_one, est, aux, conf, init}
use dumbo_ucy.Aba.Receive.{relay, output_bin, on_est, on_aux, on_conf, dispatch, receive}
use dumbo_ucy.Aba.Rounds.{
  begin_round, take_input, first_bin, wake_bin, aux_total, bin_tuple, enter_conf, aux_ready,
  wake_aux, conf_total, conf_ready, wake_conf, wake, agree_on, finish_round, set_new_estimate,
  take_coin, Event, got, woken, given, coin, on_given, on_coin, step, run,
}
use dumbo_ucy.Aba.Sends.{HasSent}
use dumbo_ucy.Aba.Sends.Run.{run-HasSent}
use dumbo_ucy.Aba.Main.{Arrives}
use dumbo_ucy.Aba.Estimate.{Follows}
use dumbo_ucy.Aba.Heard.{Answers, run-Answers}
use dumbo_ucy.Aba.Halt.{IsDead, raise-IsDead}
use dumbo_ucy.Aba.Lock.{party, Authentic, coin_locks}

opened : Unit {0}
unfolding run step on_given on_coin take_coin set_new_estimate agree_on finish_round wake wake_conf
    conf_ready conf_total wake_aux aux_ready enter_conf bin_tuple aux_total wake_bin first_bin
    take_input begin_round receive dispatch on_est on_aux on_conf relay output_bin contains add
    count_below
opened = tt

abbrev honest : ℕ → Bool
honest i = not (i == 3)

-- What each of the others goes through; party 3 sends EST and AUX for 0.
abbrev history : List Event
history =
    given 1
    ∷ got 3 (est 0 0)
    ∷ got 0 (est 0 1)
    ∷ got 1 (est 0 1)
    ∷ woken
    ∷ got 2 (est 0 1)
    ∷ woken
    ∷ got 3 (aux 0 0)
    ∷ got 1 (aux 0 1)
    ∷ got 2 (aux 0 1)
    ∷ got 0 (aux 0 1)
    ∷ woken
    ∷ got 2 (conf 0 (some only_one))
    ∷ got 0 (conf 0 (some only_one))
    ∷ got 1 (conf 0 (some only_one))
    ∷ woken
    ∷ []

abbrev histories : ℕ → List Event
histories i = history

arrivals : AllOf (Arrives (party 4 1 0) (Authentic 4 1 honest histories)) history
unfolding opened
arrivals = (
  tt,
  (
    λ h. absurd (ground arith),
    (
      λ h. inl refl,
      (
        λ h. inl refl,
        (
          tt,
          (
            λ h. inl refl,
            (
              tt,
              (
                λ h. absurd (ground arith),
                (
                  λ h. inr (inl refl),
                  (
                    λ h. inr (inl refl),
                    (
                      λ h. inr (inl refl),
                      (
                        tt,
                        (
                          λ h. inr (inr (inl refl)),
                          (λ h. inr (inr (inl refl)), (λ h. inr (inr (inl refl)), (tt, tt))),
                        ),
                      ),
                    ),
                  ),
                ),
              ),
            ),
          ),
        ),
      ),
    ),
  ),
)

still_receives : (run (party 4 1 0) init history).0.receiving ≡ true
unfolding opened
still_receives = refl

coin_locks_example : Follows 1 (step (party 4 1 2) (run (party 4 1 2) init history).0 (coin 1))
unfolding opened
coin_locks_example =
    coin_locks 4 1 honest histories 0 2 history history only_one only_one 1 1 (omega arith)
      (omega arith) arrivals arrivals refl refl refl (inl refl)

run-Answers_example :
    Answers
      (party 4 1 0)
      history
      (run (party 4 1 0) init history).0
      (run (party 4 1 0) init history).1
run-Answers_example = run-Answers (party 4 1 0) history still_receives

run-HasSent_example : HasSent (run (party 4 1 0) init history).0 (run (party 4 1 0) init history).1
run-HasSent_example = run-HasSent (party 4 1 0) history

-- Party 3 repeats its AUX message in the first round.
raise-IsDead_example :
    IsDead
      (run (party 4 1 0) init history).0
      (run
        (party 4 1 0)
        (receive (party 4 1 0) (run (party 4 1 0) init history).0 3 (aux 0 0)).0
        (coin 0 ∷ got 1 (est 1 1) ∷ [])).0
unfolding opened
raise-IsDead_example =
    raise-IsDead (party 4 1 0) (run (party 4 1 0) init history).0 3 (aux 0 0)
      (coin 0 ∷ got 1 (est 1 1) ∷ []) refl (inr (inr refl))
