-- ===== src/Aba/Rounds.antt =====
-- honeybadgerbft/core/binaryagreement.py: the main greenlet of `binaryagreement`,
-- `wait_for_conf_values` and `set_new_estimate`. It runs from one wait to the next without an
-- interruption: gevent switches greenlets only where one of them waits.
use dumbo_ucy.Shared.{
  ℕ, ◌+◌, ◌-◌, true, false, Option, none, some, List, [], ◌∷◌, ◌++◌, ◌==◌, nat_comparable, ltb, leb,
  ◌&&◌, ◌||◌, if◌then◌else◌, length,
}
use dumbo_ucy.Aba.Defs.{
  Values, only_zero, only_one, both, Msg, est, aux, conf, Out, broadcast, decide, Params, Pc,
  at_input, at_bin, at_aux, at_conf, at_coin, quit, halted, State, write, write_conf,
}
use dumbo_ucy.Aba.Receive.{receive}

-- The head of the loop, up to the wait for `bin_values[r]`.
unfoldable pub begin_round : State → State × List Out
begin_round s = if s.est_sent s.round s.estimate then (record s { pc = at_bin }, []) else (
  record s { est_sent = write s.est_sent s.round s.estimate true; pc = at_bin },
  broadcast (est s.round s.estimate) ∷ [],
)

-- `vi = input()`; a failed assertion ends the main greenlet.
unfoldable pub take_input : State → ℕ → State × List Out
unfolding begin_round
take_input s v =
    if ltb v 2
    then begin_round (record s { estimate = v; round = 0; already_decided = none })
    else (record s { pc = halted }, [])

-- `next(iter(bin_values[r]))`: CPython lists a set of small numbers in increasing order.
unfoldable pub first_bin : State → ℕ
first_bin s = if s.bin_values s.round 0 then 0 else 1

-- After the wait for `bin_values[r]`.
unfoldable pub wake_bin : State → State × List Out
unfolding first_bin
wake_bin s =
    if s.bin_values s.round 0 || s.bin_values s.round 1
    then (record s { pc = at_aux }, broadcast (aux s.round (first_bin s)) ∷ [])
    else (s, [])

-- sum(len(aux_values[r][v]) for v in bin_values[r])
unfoldable pub aux_total : State → ℕ
aux_total s =
    (if s.bin_values s.round 0 then length (s.aux_values s.round 0) else 0)
    + (if s.bin_values s.round 1 then length (s.aux_values s.round 1) else 0)

-- The tests of the AUX loop, in order; `none` waits on.
unfoldable pub aux_ready : Params → State → Option Values
unfolding aux_total
aux_ready p s =
    if s.bin_values s.round 1 && leb (p.n - p.f) (length (s.aux_values s.round 1))
    then some only_one
    else if s.bin_values s.round 0 && leb (p.n - p.f) (length (s.aux_values s.round 0))
    then some only_zero
    else if leb (p.n - p.f) (aux_total s)
    then some both
    else none

-- tuple(bin_values[r])
unfoldable pub bin_tuple : State → Option Values
bin_tuple s =
    if s.bin_values s.round 0
    then if s.bin_values s.round 1 then some both else some only_zero
    else if s.bin_values s.round 1
    then some only_one
    else none

-- After the AUX loop: the start of `wait_for_conf_values`, or straight to the coin.
unfoldable pub enter_conf : State → Values → State × List Out
unfolding bin_tuple
enter_conf s values =
    if s.conf_sent s.round values then (record s { pc = at_coin values }, []) else (
      record s { conf_sent = write_conf s.conf_sent s.round values true; pc = at_conf },
      broadcast (conf s.round (bin_tuple s)) ∷ [],
    )

unfoldable pub wake_aux : Params → State → State × List Out
wake_aux p s = elim (aux_ready p s) [ none ↦ (s, []) | some values ↦ enter_conf s values ]

-- The sum over conf_values[epoch].items() with set(conf_value).issubset(bin_values)
unfoldable pub conf_total : State → ℕ
conf_total s =
    (if s.bin_values s.round 0 then length (s.conf_values s.round only_zero) else 0)
    + (if s.bin_values s.round 1 then length (s.conf_values s.round only_one) else 0)
    + (if s.bin_values s.round 0 && s.bin_values s.round 1
        then length (s.conf_values s.round both)
        else 0)

-- The tests of the loop of `wait_for_conf_values`, in order.
unfoldable pub conf_ready : Params → State → Option Values
unfolding conf_total
conf_ready p s =
    if s.bin_values s.round 1 && leb (p.n - p.f) (length (s.conf_values s.round only_one))
    then some only_one
    else if s.bin_values s.round 0 && leb (p.n - p.f) (length (s.conf_values s.round only_zero))
    then some only_zero
    else if leb (p.n - p.f) (conf_total s)
    then some both
    else none

unfoldable pub wake_conf : Params → State → State × List Out
wake_conf p s = elim (conf_ready p s) [
  | none ↦ (s, [])
  | some values ↦ (record s { pc = at_coin values }, [])
]

-- `bv_signal` wakes the main greenlet, which tests its condition again.
unfoldable pub wake : Params → Pc → State → State × List Out
wake p at_bin s = wake_bin s
wake p at_aux s = wake_aux p s
wake p at_conf s = wake_conf p s
wake p _ s = (s, [])

-- What `set_new_estimate` returns or raises: the estimate and the decision, with the call of
-- `decide`; `abandoned` is `AbandonedNodeError`.
pub data NewEstimate : Type 0 where
  estimated : ℕ → Option ℕ → List Out → NewEstimate
  abandoned : NewEstimate

unfoldable pub agree_on : ℕ → ℕ → Option ℕ → NewEstimate
agree_on v s none = if v == s then estimated v (some v) (decide v ∷ []) else estimated v none []
agree_on v s (some d) = if v == s && d == v then abandoned else estimated v (some d) []

unfoldable pub set_new_estimate : Values → ℕ → Option ℕ → NewEstimate
unfolding agree_on
set_new_estimate only_zero s decided = agree_on 0 s decided
set_new_estimate only_one s decided = agree_on 1 s decided
set_new_estimate both s decided = estimated s decided []

unfoldable pub finish_round : State → NewEstimate → State × List Out
finish_round s abandoned = (record s { pc = quit; receiving = false }, [])
finish_round s (estimated v decided outs) =
    let (s', sent) =
      begin_round (record s { estimate = v; already_decided = decided; round = s.round + 1 }) in
    (s', outs ++ sent)

-- `s = coin(r)` returns.
unfoldable pub take_coin : Values → State → ℕ → State × List Out
take_coin values s coin = finish_round s (set_new_estimate values coin s.already_decided)

-- What happens to one party: a message arrives, the main greenlet is woken, `input()` or `coin(r)`
-- returns. Events that find the greenlet elsewhere do nothing.
pub data Event : Type 0 where
  got : ℕ → Msg → Event
  woken : Event
  given : ℕ → Event
  coin : ℕ → Event

unfoldable pub on_given : Pc → State → ℕ → State × List Out
on_given at_input s v = take_input s v
on_given _ s v = (s, [])

unfoldable pub on_coin : Pc → State → ℕ → State × List Out
on_coin (at_coin values) s c = take_coin values s c
on_coin _ s c = (s, [])

unfoldable pub step : Params → State → Event → State × List Out
step p s (got sender msg) = receive p s sender msg
step p s woken = wake p s.pc s
step p s (given v) = on_given s.pc s v
step p s (coin c) = on_coin s.pc s c

unfoldable pub run : Params → State → List Event → State × List Out
run p s [] = (s, [])
run p s (e ∷ events) =
    let (s', outs) = step p s e in let (s'', rest) = run p s' events in (s'', outs ++ rest)
