-- ===== src/Mule/TwoValue/Tests.antt =====
-- A call of `twovalueagreement` among four parties, of which one is faulty.
use dumbo_ucy.Shared.{◌+◌, ◌≡◌, refl, true, List, [], ◌∷◌, replicate, nat_comparable, arith}
use dumbo_ucy.Shared.Dict.{contains, add}
use dumbo_ucy.Shared.Steps.{run_steps, Then}
use dumbo_ucy.Mule.TwoValue.{
  Params, cheap_coin, est, aux, conf, finish, to_others, decide, init, Event, got, given, wake,
  returns,
}
use dumbo_ucy.Mule.TwoValue.Receive.{
  relay, output_bin, on_est, on_aux, on_conf, signal_finish, accept_finish, on_finish, dispatch,
  receive,
}
use dumbo_ucy.Mule.TwoValue.Rounds.{
  begin_round, take_bin, aux_total, enter_conf, wake_aux, try_finish, set_estimate, take_coin,
  fetch_coin, wake_conf, on_wake, on_given, on_coin, on_returns, step,
}
use dumbo_ucy.Mule.TwoValue.Phases.{Refines, visible}
use dumbo_ucy.Mule.TwoValue.Refinement.{run-Refines}
use dumbo_ucy.Mule.TwoValue.Forged.{Lacks, forged_finish}

abbrev toy : Params
toy = record { pid = 0; n = 4; f = 1; fixed_coin = cheap_coin 5; order = λ l. l }

opened : Unit {0}
unfolding run_steps step receive dispatch on_est relay output_bin on_aux on_conf on_finish
    accept_finish signal_finish on_given begin_round on_wake take_bin wake_aux aux_total enter_conf
    wake_conf fetch_coin take_coin set_estimate try_finish on_coin on_returns contains add
opened = tt

-- One round, in which the cheap coin is 1 and the value 3.
abbrev round_events : List Event
round_events =
    given 3
    ∷ got 1 (est 0 3)
    ∷ got 3 (est 0 4)
    ∷ got 1 (est 0 3)
    ∷ wake
    ∷ got 2 (est 0 3)
    ∷ wake
    ∷ got 1 (aux 0 3)
    ∷ got 2 (aux 0 3)
    ∷ wake
    ∷ got 2 (conf 0 (3 ∷ []))
    ∷ got 1 (conf 0 (3 ∷ []))
    ∷ wake
    ∷ got 1 (finish 3)
    ∷ got 2 (finish 3)
    ∷ returns
    ∷ []

decides_in_round :
    visible (run_steps (step toy) init round_events).1 ≡ decide 3 ∷ to_others (finish 3) ∷ []
unfolding opened
decides_in_round = refl

call_returns : (run_steps (step toy) init round_events).0.finish_signal ≡ true
unfolding opened
call_returns = refl

run-Refines_example : Then Refines [] (run_steps (step toy) init round_events)
run-Refines_example = run-Refines toy round_events

-- Party 3 alone makes the party decide 8, which nobody proposed.
init-Lacks : Lacks toy 8 init 1
unfolding add
init-Lacks = record { receiving = refl; sent = refl; count = omega arith; single = refl }

forged_finish_example :
    (run_steps (step toy) init (replicate (1 + 1) (got 3 (finish 8)))).1
    ≡ decide 8 ∷ to_others (finish 8) ∷ []
forged_finish_example = forged_finish toy 8 3 (omega arith) 1 init init-Lacks
