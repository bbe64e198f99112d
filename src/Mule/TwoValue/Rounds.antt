-- ===== src/Mule/TwoValue/Rounds.antt =====
-- mulebft/core/twovalueagreement.py: `main_loop`, from one wait to the next, and the steps of a call.
use dumbo_ucy.Shared.{
  ℕ, ◌+◌, ◌-◌, ◌%◌, Bool, true, false, not, ◌&&◌, ◌||◌, Option, none, some, List, [], ◌∷◌, ◌++◌,
  ◌==◌, nat_comparable, bytes_comparable, leb, if◌then◌else◌, length,
}
use dumbo_ucy.Shared.Dict.{add, assign_at}
use dumbo_ucy.Mule.TwoValue.{
  Params, est, aux, conf, finish, to_others, decide, Pc, at_input, at_bin, at_aux, at_conf, at_coin,
  ended, State, Event, got, given, wake, coin, returns, Result,
}
use dumbo_ucy.Mule.TwoValue.Receive.{receive, signal_finish}

module _ (p : Params) where
  -- The head of the loop, with the estimate.
  unfoldable pub begin_round : State → ℕ → Result
  begin_round s v =
      let s' = record s { pc = at_bin } in
      if s.est_sent s.round v then (s', []) else (
        record s' {
          est_sent = assign_at s.est_sent s.round v true;
          est_values = assign_at s.est_values s.round v (add (s.est_values s.round v) p.pid);
        },
        to_others (est s.round v) ∷ [],
      )

  -- `len(int_values[r]) == 0`, or the first element is taken.
  unfoldable pub take_bin : State → List ℕ → Result
  take_bin s [] = (s, [])
  take_bin s (w ∷ rest) = (
    record s {
      aux_values = assign_at s.aux_values s.round w (add (s.aux_values s.round w) p.pid);
      pc = at_aux;
    },
    to_others (aux s.round w) ∷ [],
  )

  -- sum(len(aux_values[r][v]) for v in int_values[r]), for one value or two
  unfoldable pub aux_total : (ℕ → List ℕ) → List ℕ → ℕ
  aux_total senders [] = 0
  aux_total senders (v ∷ vs) = length (senders v) + aux_total senders vs

  -- The CONF phase up to its wait.
  unfoldable pub enter_conf : State → List ℕ → Result
  enter_conf s vals =
      let s' = record s { pc = at_conf } in
      if s.conf_sent s.round vals then (s', []) else (
        record s' {
          conf_sent = assign_at s.conf_sent s.round vals true;
          conf_values =
              assign_at s.conf_values s.round vals (add (s.conf_values s.round vals) p.pid);
        },
        to_others (conf s.round vals) ∷ [],
      )

  unfoldable pub wake_aux : State → Result
  wake_aux s =
      if length (s.int_values s.round) == 1 || length (s.int_values s.round) == 2
      then if leb (p.n - p.f) (aux_total (s.aux_values s.round) (s.int_values s.round))
        then enter_conf s (p.order (s.int_values s.round))
        else (s, [])
      else (record s { pc = ended }, [])

  -- `if (v % 2) == s` for a single value: the party finishes, unless it has.
  unfoldable pub try_finish : State → ℕ → ℕ → Result
  try_finish s v bit =
      if v % 2 == bit && not s.finish_sent
      then (
        signal_finish p (record s { finish_cnt = s.finish_cnt + 1; finish_sent = true }),
        decide v ∷ to_others (finish v) ∷ [],
      )
      else (s, [])

  -- abs(a - b) == 1
  abbrev pub adjacent : ℕ → ℕ → Bool
  adjacent a b = a == b + 1 || b == a + 1

  abbrev pub next_round : State → State
  next_round s = record s { round = s.round + 1 }

  -- "Set estimate", with `tuple(values)` and the coin as a bit.
  unfoldable pub set_estimate : State → List ℕ → ℕ → Result
  set_estimate s (v ∷ []) bit =
      let (s', outs) = try_finish s v bit in
      let (s'', more) = begin_round (next_round s') v in (s'', outs ++ more)
  set_estimate s (a ∷ b ∷ []) bit =
      if adjacent a b
      then begin_round (next_round s) (if a % 2 == bit then a else b)
      else (record s { pc = ended }, [])
  set_estimate s _ bit = (record s { pc = ended }, [])

  -- `s` is reduced to a bit where it is none.
  unfoldable pub take_coin : State → ℕ → Result
  take_coin s c = set_estimate s (p.order s.values) (if c == 0 || c == 1 then c else c % 2)

  unfoldable pub fetch_coin : State → Option ℕ → Result
  fetch_coin s none = (record s { pc = at_coin }, [])
  fetch_coin s (some c) = take_coin s c

  unfoldable pub wake_conf : State → Result
  wake_conf s =
      let vals = p.order (s.int_values s.round) in
      if leb (p.n - p.f) (length (s.conf_values s.round vals))
      then fetch_coin (record s { values = s.int_values s.round }) (p.fixed_coin s.round)
      else (s, [])

  unfoldable pub on_wake : Pc → State → Result
  on_wake at_bin s = take_bin s (p.order (s.int_values s.round))
  on_wake at_aux s = wake_aux s
  on_wake at_conf s = wake_conf s
  on_wake _ s = (s, [])

  unfoldable pub on_given : Pc → State → ℕ → Result
  on_given at_input s v = begin_round s v
  on_given _ s v = (s, [])

  unfoldable pub on_coin : Pc → State → ℕ → Result
  on_coin at_coin s c = take_coin s c
  on_coin _ s c = (s, [])

  -- `finish_signal.wait()` returns, and both greenlets are killed; while the call waits for its
  -- input it does not come to that.
  unfoldable pub on_returns : Pc → State → Result
  on_returns at_input s = (s, [])
  on_returns _ s =
      if s.finish_signal then (record s { pc = ended; receiving = false }, []) else (s, [])

  unfoldable pub step : State → Event → Result
  step s (got sender m) = receive p s sender m
  step s (given v) = on_given s.pc s v
  step s wake = on_wake s.pc s
  step s (coin c) = on_coin s.pc s c
  step s returns = on_returns s.pc s
