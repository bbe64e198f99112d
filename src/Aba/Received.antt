-- ===== src/Aba/Received.antt =====
-- What the tables of the receiving greenlet say: who sent what, and when a value is relayed and
-- output.
use dumbo_ucy.Shared.{
  on_if, ℕ, ◌+◌, ◌*◌, ◌≤◌, ◌<◌, ◌≡◌, refl, true, false, not, Option, none, some, List,
  nat_comparable, ltb, leb, ◌&&◌, length, arith, nat_beq_iff,
}
use dumbo_ucy.Shared.Dict.{contains, add, length-add}
use dumbo_ucy.Aba.Defs.{Values, Msg, est, aux, conf, Out, Params, State, write, write_conf}
use dumbo_ucy.Aba.Receive.{die, relay, output_bin, on_est, on_aux, on_conf, dispatch, receive}
use dumbo_ucy.Aba.Senders.{Senders, add-Senders, write_each, write_conf_each}

module _ (p : Params) (Rec : ℕ → Msg → Type 0) where
  -- Every party in a table sent the message that the table is about.
  pub record HasSenders (s : State) : Type 0 where
    pub ests : (r v : ℕ) → Senders p.n (λ i. Rec i (est r v)) (s.est_values r v)
    pub auxs : (r v : ℕ) → Senders p.n (λ i. Rec i (aux r v)) (s.aux_values r v)
    pub confs :
        (r : ℕ) (v : Values) → Senders p.n (λ i. Rec i (conf r (some v))) (s.conf_values r v)

  -- A value is output exactly on 2f + 1 EST messages.
  abbrev pub Outputs : State → Type 0
  Outputs s = (q w : ℕ) → s.bin_values q w ≡ leb (2 * p.f + 1) (length (s.est_values q w))

  -- A value with f + 1 EST messages has been broadcast.
  abbrev pub Relays : State → Type 0
  Relays s = (q w : ℕ) → p.f + 1 ≤ length (s.est_values q w) → s.est_sent q w ≡ true

  pub record HasReceived (s : State) : Type 0 where
    pub senders : HasSenders s
    pub outputs : Outputs s
    pub relays : Relays s

  abbrev with_est : State → ℕ → ℕ → ℕ → State
  with_est s i r v = record s { est_values = write s.est_values r v (add (s.est_values r v) i) }

  relay-Outputs :
      (s : State) (i r v : ℕ)
      → contains (s.est_values r v) i ≡ false
      → HasReceived s
      → Outputs (output_bin p (relay p (with_est s i r v) r v).0 r v)
  unfolding relay output_bin
  relay-Outputs s i r v new h q w = ground (
    arith,
    h.outputs r v,
    h.outputs q w,
    nat_beq_iff r q,
    nat_beq_iff v w,
    length-add (s.est_values r v) i,
  )

  relay-Relays :
      (s : State) (i r v : ℕ)
      → HasReceived s
      → Relays (output_bin p (relay p (with_est s i r v) r v).0 r v)
  unfolding relay output_bin
  relay-Relays s i r v h q w m = ground (arith, h.relays q w, nat_beq_iff r q, nat_beq_iff v w)

  -- What does not touch the tables.
  tables :
      (s s' : State)
      → s'.est_values ≡ s.est_values
      → s'.aux_values ≡ s.aux_values
      → s'.conf_values ≡ s.conf_values
      → HasSenders s
      → HasSenders s'
  tables s s' e a c h = record { ests = rw e h.ests; auxs = rw a h.auxs; confs = rw c h.confs }

  output_bin_tables : (s : State) (r v : ℕ) → HasSenders s → HasSenders (output_bin p s r v)
  unfolding output_bin
  output_bin_tables s r v h =
      on_if HasSenders (leb (2 * p.f + 1) (length (s.est_values r v)))
        (λ c. tables s _ refl refl refl h) (λ c. h)

  relay_tables : (s : State) (r v : ℕ) → HasSenders s → HasSenders (relay p s r v).0
  unfolding relay
  relay_tables s r v h =
      on_if (λ (o : State × List Out). HasSenders o.0)
        (leb (p.f + 1) (length (s.est_values r v)) && not (s.est_sent r v))
        (λ c. tables s _ refl refl refl h) (λ c. h)

  write_est-Senders :
      (s : State) (i r v : ℕ)
      → i < p.n
      → Rec i (est r v)
      → HasSenders s
      → HasSenders (with_est s i r v)
  write_est-Senders s i r v b rec h = record {
    ests =
        write_each (λ q w xs. Senders p.n (λ j. Rec j (est q w)) xs) s.est_values r v
          (add (s.est_values r v) i)
          (add-Senders p.n (λ j. Rec j (est r v)) (s.est_values r v) i b rec (h.ests r v)) h.ests;
    auxs = h.auxs;
    confs = h.confs;
  }

  on_est-HasReceived :
      (s : State) (i r v : ℕ)
      → i < p.n
      → Rec i (est r v)
      → HasReceived s
      → HasReceived (on_est p s i r v).0
  unfolding on_est
  on_est-HasReceived s i r v b rec h =
      on_if (λ (o : State × List Out). HasReceived o.0) (not (ltb v 2))
        (λ c. record {
          senders = tables s _ refl refl refl h.senders;
          outputs = h.outputs;
          relays = h.relays;
        })
        (λ c.
          on_if (λ (o : State × List Out). HasReceived o.0) (contains (s.est_values r v) i)
            (λ old. h)
            (λ new. record {
              senders = after_relay (write_est-Senders s i r v b rec h.senders);
              outputs = relay-Outputs s i r v new h;
              relays = relay-Relays s i r v h;
            }))
    where
      after_relay :
          HasSenders (with_est s i r v)
          → HasSenders (output_bin p (relay p (with_est s i r v) r v).0 r v)
      after_relay k =
          output_bin_tables (relay p (with_est s i r v) r v).0 r v
            (relay_tables (with_est s i r v) r v k)

  died : (s : State) → HasReceived s → HasReceived (die s).0
  died s h = record {
    senders = tables s _ refl refl refl h.senders;
    outputs = h.outputs;
    relays = h.relays;
  }

  on_aux-HasReceived :
      (s : State) (i r v : ℕ)
      → i < p.n
      → Rec i (aux r v)
      → HasReceived s
      → HasReceived (on_aux s i r v).0
  unfolding on_aux
  on_aux-HasReceived s i r v b rec h =
      on_if (λ (o : State × List Out). HasReceived o.0) (not (ltb v 2)) (λ c. died s h)
        (λ c.
          on_if (λ (o : State × List Out). HasReceived o.0) (contains (s.aux_values r v) i)
            (λ old. died s h)
            (λ new. record { senders = added; outputs = h.outputs; relays = h.relays }))
    where
      added :
          HasSenders (record s { aux_values = write s.aux_values r v (add (s.aux_values r v) i) })
      added = record {
        ests = h.senders.ests;
        auxs =
            write_each (λ q w xs. Senders p.n (λ j. Rec j (aux q w)) xs) s.aux_values r v
              (add (s.aux_values r v) i)
              (add-Senders p.n (λ j. Rec j (aux r v)) (s.aux_values r v) i b rec
                (h.senders.auxs r v))
              h.senders.auxs;
        confs = h.senders.confs;
      }

  on_conf-HasReceived :
      (s : State) (i r : ℕ) (v : Option Values)
      → i < p.n
      → Rec i (conf r v)
      → HasReceived s
      → HasReceived (on_conf s i r v).0
  unfolding on_conf
  on_conf-HasReceived s i r none b rec h = died s h
  on_conf-HasReceived s i r (some v) b rec h =
      on_if (λ (o : State × List Out). HasReceived o.0) (contains (s.conf_values r v) i)
        (λ old. died s h)
        (λ new. record { senders = added; outputs = h.outputs; relays = h.relays })
    where
      added :
          HasSenders
            (record s { conf_values = write_conf s.conf_values r v (add (s.conf_values r v) i) })
      added = record {
        ests = h.senders.ests;
        auxs = h.senders.auxs;
        confs =
            write_conf_each (λ q w xs. Senders p.n (λ j. Rec j (conf q (some w))) xs) s.conf_values
              r v (add (s.conf_values r v) i)
              (add-Senders p.n (λ j. Rec j (conf r (some v))) (s.conf_values r v) i b rec
                (h.senders.confs r v))
              h.senders.confs;
      }

  dispatch-HasReceived :
      (s : State) (i : ℕ) (m : Msg)
      → i < p.n
      → Rec i m
      → HasReceived s
      → HasReceived (dispatch p s i m).0
  unfolding dispatch
  dispatch-HasReceived s i (est r v) b rec h = on_est-HasReceived s i r v b rec h
  dispatch-HasReceived s i (aux r v) b rec h = on_aux-HasReceived s i r v b rec h
  dispatch-HasReceived s i (conf r v) b rec h = on_conf-HasReceived s i r v b rec h

  pub receive-HasReceived :
      (s : State) (i : ℕ) (m : Msg) → Rec i m → HasReceived s → HasReceived (receive p s i m).0
  unfolding receive
  receive-HasReceived s i m rec h =
      on_if (λ (o : State × List Out). HasReceived o.0) (not s.receiving) (λ c. h)
        (λ c.
          on_if (λ (o : State × List Out). HasReceived o.0) (ltb i p.n)
            (λ c'. dispatch-HasReceived s i m (ground arith) rec h) (λ c'. died s h))
