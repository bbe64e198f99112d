-- ===== src/Aba/Lock.antt =====
-- Two parties at the coin of one round: they cannot hold {0} and {1}, and where the coin makes one
-- of them decide, the other follows.
use mathlib.Core.Path.{subst, sym}
use dumbo_ucy.Shared.{
  on_if, ℕ, ◌+◌, ◌-◌, ◌*◌, ◌≤◌, ◌≡◌, ◌⊎◌, refl, Bool, true, not, Option, some, List, [], ◌∷◌, ◌==◌,
  nat_comparable, length, arith, nat_beq_iff, inl, inr, Member, only_element,
}
use dumbo_ucy.Shared.Loop.{AllOf}
use dumbo_ucy.Shared.Quorum.{count_below, quorum_intersection}
use dumbo_ucy.Aba.Defs.{
  Values, only_zero, only_one, both, Msg, est, aux, conf, Out, broadcast, decide, Params, at_coin,
  State, init,
}
use dumbo_ucy.Aba.Rounds.{finish_round, set_new_estimate, Event, coin, step, run}
use dumbo_ucy.Aba.Received.{HasReceived}
use dumbo_ucy.Aba.Main.{Arrives, run-HasReceived}
use dumbo_ucy.Aba.Sends.{decided}
use dumbo_ucy.Aba.Conf.{confs, AtPc}
use dumbo_ucy.Aba.Conf.Run.{run-HasConf}
use dumbo_ucy.Aba.Estimate.{
  finish_round_decides, Single, set_new_estimate_decides, Follows, finish_round-Follows,
  set_new_estimate-Proposes, at_coin_step,
}

confs-Member :
    (r : ℕ) (v : Option Values) (outs : List Out)
    → Member (broadcast (conf r v)) outs
    → Member v (confs r outs)
confs-Member r v [] m = m
confs-Member r v (o ∷ outs) (inl e) = rw (← e) (ground (arith, nat_beq_iff r r))
confs-Member r v (broadcast (est q w) ∷ outs) (inr m) = confs-Member r v outs m
confs-Member r v (broadcast (aux q w) ∷ outs) (inr m) = confs-Member r v outs m
confs-Member r v (broadcast (conf q w) ∷ outs) (inr m) =
    on_if (Member v) (q == r) (λ c. inr (confs-Member r v outs m)) (λ c. confs-Member r v outs m)
confs-Member r v (decide w ∷ outs) (inr m) = confs-Member r v outs m

abbrev pub party : ℕ → ℕ → ℕ → Params
party n f i = record { pid = i; n = n; f = f }

module _ (n f : ℕ) (honest : ℕ → Bool) (events : ℕ → List Event) where
  -- Channels are authentic: what arrives from an honest party was broadcast by it.
  abbrev pub Authentic : ℕ → Msg → Type 0
  Authentic i m = honest i ≡ true → Member (broadcast m) (run (party n f i) init (events i)).1

  -- N - f parties cannot have sent CONF for 0 alone while N - f have sent it for 1 alone.
  no_split :
      (i j : ℕ) (s s' : State)
      → 3 * f + 1 ≤ n
      → count_below n (λ k. not (honest k)) ≤ f
      → HasReceived (party n f i) Authentic s
      → HasReceived (party n f j) Authentic s'
      → s.round ≡ s'.round
      → n - f ≤ length (s.conf_values s.round only_zero)
      → n - f ≤ length (s'.conf_values s'.round only_one)
      → ⊥
  no_split i j s s' many few h h' e zeros ones =
      let z = h.senders.confs s.round only_zero in
      let o = h'.senders.confs s'.round only_one in
      let (k, inz, ino, good) =
        quorum_intersection n f honest (s.conf_values s.round only_zero)
          (s'.conf_values s'.round only_one) many few z.distinct o.distinct z.below o.below zeros
          ones in
      clash k (confs-Member s.round (some only_zero) _ (z.sent k inz good)) (
        subst (λ r. Member (some only_one) (confs r (run (party n f k) init (events k)).1)) (sym e)
          (confs-Member s'.round (some only_one) _ (o.sent k ino good)))
    where
      clash :
          (k : ℕ)
          → Member (some only_zero) (confs s.round (run (party n f k) init (events k)).1)
          → Member (some only_one) (confs s.round (run (party n f k) init (events k)).1)
          → ⊥
      clash k a b =
          let e =
            only_element (some only_zero) (some only_one) _
              ((run-HasConf (party n f k) (events k)).once s.round) a b in
          absurd (ground arith)

  -- What two parties hold at the coin of one round, if one of them holds {v}.
  compatible :
      (i j : ℕ) (s s' : State) (a b : Values) (v : ℕ)
      → 3 * f + 1 ≤ n
      → count_below n (λ k. not (honest k)) ≤ f
      → HasReceived (party n f i) Authentic s
      → HasReceived (party n f j) Authentic s'
      → s.round ≡ s'.round
      → AtPc (party n f i) (at_coin a) s
      → AtPc (party n f j) (at_coin b) s'
      → Single a v
      → (b ≡ both) ⊎ Single b v
  compatible i j s s' a both v many few h h' e p q single = inl refl
  compatible i j s s' only_zero only_zero v many few h h' e p q single = inr single
  compatible i j s s' only_one only_one v many few h h' e p q single = inr single
  compatible i j s s' only_zero only_one v many few h h' e p q single =
      absurd (no_split i j s s' many few h h' e p q)
  compatible i j s s' only_one only_zero v many few h h' e p q single =
      absurd (no_split j i s' s many few h' h (sym e) q p)
  compatible i j s s' both only_zero v many few h h' e p q single = absurd single
  compatible i j s s' both only_one v many few h h' e p q single = absurd single

  -- Among n ≥ 3f + 1 parties of which at most f are faulty, over authentic channels: when two
  -- parties, after whatever histories, ask for the coin of the same round and get the same bit,
  -- and it makes the first decide v, then the second goes on to the next round with the estimate
  -- v or has already left the loop, and it decides no other value.
  pub coin_locks :
      (i j : ℕ) (es es' : List Event) (a b : Values) (c v : ℕ)
      → 3 * f + 1 ≤ n
      → count_below n (λ k. not (honest k)) ≤ f
      → AllOf (Arrives (party n f i) Authentic) es
      → AllOf (Arrives (party n f j) Authentic) es'
      → (run (party n f i) init es).0.pc ≡ at_coin a
      → (run (party n f j) init es').0.pc ≡ at_coin b
      → (run (party n f i) init es).0.round ≡ (run (party n f j) init es').0.round
      → Member v (decided (step (party n f i) (run (party n f i) init es).0 (coin c)).1)
      → Follows v (step (party n f j) (run (party n f j) init es').0 (coin c))
  coin_locks i j es es' a b c v many few ok ok' at at' same_round decides =
      let s = (run (party n f i) init es).0 in
      let s' = (run (party n f j) init es').0 in
      let (is_v, single) = set_new_estimate_decides a c v s.already_decided (
        subst (Member v) (finish_round_decides s (set_new_estimate a c s.already_decided))
          (rw (at_coin_step (party n f i) s c a at) at decides)) in
      let fits =
        compatible i j s s' a b v many few (run-HasReceived (party n f i) Authentic es ok)
          (run-HasReceived (party n f j) Authentic es' ok') same_round
          (subst (λ pc. AtPc (party n f i) pc s) at (run-HasConf (party n f i) es).place)
          (subst (λ pc. AtPc (party n f j) pc s') at' (run-HasConf (party n f j) es').place)
          single in
      rw (at_coin_step (party n f j) s' c b at') (
        subst (λ x. Follows v (finish_round s' (set_new_estimate b x s'.already_decided)))
          (sym is_v)
          (finish_round-Follows v s' (set_new_estimate b v s'.already_decided)
            (set_new_estimate-Proposes b v s'.already_decided fits)
            (λ w m. sym ((set_new_estimate_decides b v w s'.already_decided m).0))))
