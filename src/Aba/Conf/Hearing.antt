-- ===== src/Aba/Conf/Hearing.antt =====
-- What the receiving greenlet leaves to the main one.
use dumbo_ucy.Shared.{
  on_if, ℕ, ◌+◌, ◌*◌, ◌≤◌, refl, true, not, none, some, List, [], nat_comparable, ltb, leb, ◌&&◌,
  length, arith,
}
use dumbo_ucy.Shared.Dict.{contains, add, length-add}
use dumbo_ucy.Aba.Defs.{Msg, est, aux, conf, Out, Params, State, write}
use dumbo_ucy.Aba.Receive.{die, relay, output_bin, on_est, on_aux, on_conf, dispatch, receive}
use dumbo_ucy.Aba.Senders.{write_conf_each}
use dumbo_ucy.Aba.Conf.{Hears}

module _ (p : Params) where
  unheard : (s : State) → Hears p s (s, [])
  unheard s = record {
    pc = refl;
    round = refl;
    conf_sent = refl;
    more = λ r v. omega arith;
    quiet = λ q. refl;
  }

  die-Hears : (s : State) → Hears p s (die s)
  die-Hears s = record {
    pc = refl;
    round = refl;
    conf_sent = refl;
    more = λ r v. omega arith;
    quiet = λ q. refl;
  }

  est-Hears :
      (s t : State) (r v : ℕ)
      → Hears p s (t, [])
      → Hears p s (output_bin p (relay p t r v).0 r v, (relay p t r v).1)
  unfolding relay output_bin
  est-Hears s t r v k =
      on_if (λ (o : State × List Out). Hears p s (output_bin p o.0 r v, o.1))
        (leb (p.f + 1) (length (t.est_values r v)) && not (t.est_sent r v))
        (λ c.
          output (record t { est_sent = write t.est_sent r v true }) _
            (record {
              pc = k.pc;
              round = k.round;
              conf_sent = k.conf_sent;
              more = k.more;
              quiet = λ q. refl;
            }))
        (λ c. output t _ k)
    where
      output : (u : State) (o : List Out) → Hears p s (u, o) → Hears p s (output_bin p u r v, o)
      output u o k =
          on_if (λ u'. Hears p s (u', o)) (leb (2 * p.f + 1) (length (u.est_values r v)))
            (λ c. record {
              pc = k.pc;
              round = k.round;
              conf_sent = k.conf_sent;
              more = k.more;
              quiet = k.quiet;
            })
            (λ c. k)

  dispatch-Hears : (s : State) (i : ℕ) (m : Msg) → Hears p s (dispatch p s i m)
  unfolding dispatch on_est on_aux on_conf
  dispatch-Hears s i (est r v) =
      on_if (Hears p s) (not (ltb v 2)) (λ c. die-Hears s)
        (λ c.
          on_if (Hears p s) (contains (s.est_values r v) i) (λ c'. unheard s)
            (λ c'.
              est-Hears s
                (record s { est_values = write s.est_values r v (add (s.est_values r v) i) }) r v
                (record {
                  pc = refl;
                  round = refl;
                  conf_sent = refl;
                  more = λ q w. omega arith;
                  quiet = λ q. refl;
                })))
  dispatch-Hears s i (aux r v) =
      on_if (Hears p s) (not (ltb v 2)) (λ c. die-Hears s)
        (λ c.
          on_if (Hears p s) (contains (s.aux_values r v) i) (λ c'. die-Hears s)
            (λ c'. record {
              pc = refl;
              round = refl;
              conf_sent = refl;
              more = λ q w. omega arith;
              quiet = λ q. refl;
            }))
  dispatch-Hears s i (conf r none) = die-Hears s
  dispatch-Hears s i (conf r (some v)) =
      on_if (Hears p s) (contains (s.conf_values r v) i) (λ c. die-Hears s)
        (λ c. record {
          pc = refl;
          round = refl;
          conf_sent = refl;
          more =
              write_conf_each (λ q w xs. length (s.conf_values q w) ≤ length xs) s.conf_values r v
                (add (s.conf_values r v) i) (ground (arith, length-add (s.conf_values r v) i))
                (λ q w. omega arith);
          quiet = λ q. refl;
        })

  pub receive-Hears : (s : State) (i : ℕ) (m : Msg) → Hears p s (receive p s i m)
  unfolding receive
  receive-Hears s i m =
      on_if (Hears p s) (not s.receiving) (λ c. unheard s)
        (λ c. on_if (Hears p s) (ltb i p.n) (λ c'. dispatch-Hears s i m) (λ c'. die-Hears s))
  -- A step that sends no CONF and moves the greenlet on.
