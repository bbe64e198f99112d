-- ===== src/Aba/Receive.antt =====
-- honeybadgerbft/core/binaryagreement.py: `_recv` and `handle_conf_messages`. Every exception there
-- ends the receiving greenlet, with what was written before.
use dumbo_ucy.Shared.{
  ℕ, ◌+◌, ◌*◌, true, false, not, Option, none, some, List, [], ◌∷◌, nat_comparable, ltb, leb, ◌&&◌,
  if◌then◌else◌, length,
}
use dumbo_ucy.Shared.Dict.{contains, add}
use dumbo_ucy.Aba.Defs.{
  Values, Msg, est, aux, conf, Out, broadcast, Params, State, write, write_conf,
}

-- An exception in `_recv`.
abbrev pub die : State → State × List Out
die s = (record s { receiving = false }, [])

-- `if len(est_values[r][v]) >= f + 1 and not est_sent[r][v]`
unfoldable pub relay : Params → State → ℕ → ℕ → State × List Out
relay p s r v =
    if leb (p.f + 1) (length (s.est_values r v)) && not (s.est_sent r v)
    then (record s { est_sent = write s.est_sent r v true }, broadcast (est r v) ∷ [])
    else (s, [])

-- `if len(est_values[r][v]) >= 2 * f + 1`
unfoldable pub output_bin : Params → State → ℕ → ℕ → State
output_bin p s r v =
    if leb (2 * p.f + 1) (length (s.est_values r v))
    then record s { bin_values = write s.bin_values r v true }
    else s

unfoldable pub on_est : Params → State → ℕ → ℕ → ℕ → State × List Out
on_est p s sender r v =
    if not (ltb v 2)
    then die s
    else if contains (s.est_values r v) sender
    then (s, [])
    else (let s' = record s {
      est_values = write s.est_values r v (add (s.est_values r v) sender);
    } in
        let (s'', outs) = relay p s' r v in (output_bin p s'' r v, outs))

unfoldable pub on_aux : State → ℕ → ℕ → ℕ → State × List Out
on_aux s sender r v =
    if not (ltb v 2)
    then die s
    else if contains (s.aux_values r v) sender
    then die s
    else (record s { aux_values = write s.aux_values r v (add (s.aux_values r v) sender) }, [])

-- `handle_conf_messages`
unfoldable pub on_conf : State → ℕ → ℕ → Option Values → State × List Out
on_conf s sender r none = die s
on_conf s sender r (some v) = if contains (s.conf_values r v) sender then die s else (
  record s { conf_values = write_conf s.conf_values r v (add (s.conf_values r v) sender) },
  [],
)

unfoldable pub dispatch : Params → State → ℕ → Msg → State × List Out
dispatch p s sender (est r v) = on_est p s sender r v
dispatch p s sender (aux r v) = on_aux s sender r v
dispatch p s sender (conf r v) = on_conf s sender r v

-- One turn of `_recv`, while the greenlet lives.
unfoldable pub receive : Params → State → ℕ → Msg → State × List Out
receive p s sender msg =
    if not s.receiving then (s, []) else if ltb sender p.n then dispatch p s sender msg else die s
