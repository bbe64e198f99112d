-- ===== src/Mule/TwoValue/Receive.antt =====
-- mulebft/core/twovalueagreement.py: the greenlet `recv`.
use dumbo_ucy.Shared.{
  ℕ, ◌+◌, ◌*◌, true, false, not, ◌&&◌, ◌||◌, List, [], ◌∷◌, ◌==◌, nat_comparable, bytes_comparable,
  ltb, leb, if◌then◌else◌, length,
}
use dumbo_ucy.Shared.Dict.{contains, add, assign, assign_at}
use dumbo_ucy.Mule.TwoValue.{Params, Msg, est, aux, conf, finish, to_others, decide, State, Result}

module _ (p : Params) where
  -- Relay at f + 1; what was sent is the list.
  unfoldable pub relay : State → ℕ → ℕ → Result
  relay s r v =
      if leb (p.f + 1) (length (s.est_values r v)) && not (s.est_sent r v)
      then (record s { est_sent = assign_at s.est_sent r v true }, to_others (est r v) ∷ [])
      else (s, [])

  -- Output at 2 f + 1.
  unfoldable pub output_bin : State → ℕ → ℕ → State
  output_bin s r v =
      if leb (2 * p.f + 1) (length (s.est_values r v))
      then record s { int_values = assign s.int_values r (add (s.int_values r) v) }
      else s

  unfoldable pub on_est : State → ℕ → ℕ → ℕ → Result
  on_est s sender r v =
      if contains (s.est_values r v) sender
      then (s, [])
      else (let s' = record s {
        est_values = assign_at s.est_values r v (add (s.est_values r v) sender);
      } in
          let (s'', outs) = relay s' r v in (output_bin s'' r v, outs))

  unfoldable pub on_aux : State → ℕ → ℕ → ℕ → Result
  on_aux s sender r v = if contains (s.aux_values r v) sender then (s, []) else (
    record s { aux_values = assign_at s.aux_values r v (add (s.aux_values r v) sender) },
    [],
  )

  -- An exception that ends `recv`.
  abbrev pub die : State → Result
  die s = (record s { receiving = false }, [])

  unfoldable pub on_conf : State → ℕ → ℕ → List ℕ → Result
  on_conf s sender r v =
      if length v == 1 || length v == 2
      then if contains (s.conf_values r v) sender then (s, []) else (
        record s { conf_values = assign_at s.conf_values r v (add (s.conf_values r v) sender) },
        [],
      )
      else die s

  -- `if finish_cnt >= 2*f + 1: finish_signal.set()`
  unfoldable pub signal_finish : State → State
  signal_finish s = if leb (2 * p.f + 1) s.finish_cnt then record s { finish_signal = true } else s

  -- What follows the assertion on `finish_value`, which is then the set of `v` alone.
  unfoldable pub accept_finish : State → ℕ → Result
  accept_finish s v =
      if not s.finish_sent && leb (p.f + 1) s.finish_cnt
      then (
        signal_finish (record s { finish_cnt = s.finish_cnt + 1; finish_sent = true }),
        decide v ∷ to_others (finish v) ∷ [],
      )
      else (signal_finish s, [])

  -- The sender of a FINISH is not looked at.
  unfoldable pub on_finish : State → ℕ → Result
  on_finish s v =
      let s' = record s { finish_cnt = s.finish_cnt + 1; finish_value = add s.finish_value v } in
      if length s'.finish_value == 1 then accept_finish s' v else die s'

  unfoldable pub dispatch : State → ℕ → Msg → Result
  dispatch s sender (est r v) = on_est s sender r v
  dispatch s sender (aux r v) = on_aux s sender r v
  dispatch s sender (conf r v) = on_conf s sender r v
  dispatch s sender (finish v) = on_finish s v

  unfoldable pub receive : State → ℕ → Msg → Result
  receive s sender m =
      if s.receiving then if ltb sender p.n then dispatch s sender m else die s else (s, [])
