-- ===== src/Aba/Estimate.antt =====
-- What the coin makes of a party: `set_new_estimate` and the end of a round.
use mathlib.Core.Path.{subst, sym}
use mathlib.Core.List.{append-nil}
use dumbo_ucy.Shared.{
  on_if, ℕ, ◌+◌, ◌≡◌, ◌⊎◌, refl, Option, none, some, List, [], ◌==◌, nat_comparable, ◌&&◌, arith,
  ap, ◌∙◌, nat_beq_iff, inl, inr, Member,
}
use dumbo_ucy.Aba.Defs.{Values, only_zero, only_one, both, Out, Params, at_coin, quit, State}
use dumbo_ucy.Aba.Rounds.{
  begin_round, agree_on, NewEstimate, estimated, abandoned, finish_round, set_new_estimate,
  take_coin, coin, on_coin, step,
}
use dumbo_ucy.Aba.Sends.{decided, decided-append}
use dumbo_ucy.Aba.Sends.{decided, decided-append}

abbrev pub decisions : NewEstimate → List ℕ
decisions (estimated v d o) = decided o
decisions abandoned = []

begin_round_decides : (s : State) → decided (begin_round s).1 ≡ []
unfolding begin_round
begin_round_decides s =
    on_if (λ (o : State × List Out). decided o.1 ≡ []) (s.est_sent s.round s.estimate) (λ c. refl)
      (λ c. refl)

pub finish_round_decides :
    (s : State) (new : NewEstimate) → decided (finish_round s new).1 ≡ decisions new
unfolding finish_round
finish_round_decides s abandoned = refl
finish_round_decides s (estimated v d o) =
    let s' = record s { estimate = v; already_decided = d; round = s.round + 1 } in
    decided-append o (begin_round s').1 ∙ rw (begin_round_decides s', append-nil)

-- The value of a singleton.
abbrev pub Single : Values → ℕ → Type 0
Single only_zero v = v ≡ 0
Single only_one v = v ≡ 1
Single both v = ⊥

agree_on_decides :
    (u c v : ℕ) (old : Option ℕ) → Member v (decisions (agree_on u c old)) → (c ≡ v) × (v ≡ u)
unfolding agree_on
agree_on_decides u c v none m =
    on_if (λ new. Member v (decisions new) → (c ≡ v) × (v ≡ u)) (u == c)
      (λ e. λ h. elim h [ inl is_u ↦ (ground (arith, nat_beq_iff u c), is_u) | inr m' ↦ absurd m' ])
      (λ e. λ h. absurd h) m
agree_on_decides u c v (some d) m =
    on_if (λ new. Member v (decisions new) → (c ≡ v) × (v ≡ u)) (u == c && d == u)
      (λ e. λ h. absurd h) (λ e. λ h. absurd h) m

pub set_new_estimate_decides :
    (a : Values) (c v : ℕ) (old : Option ℕ)
    → Member v (decisions (set_new_estimate a c old))
    → (c ≡ v) × Single a v
unfolding set_new_estimate
set_new_estimate_decides only_zero c v old m = agree_on_decides 0 c v old m
set_new_estimate_decides only_one c v old m = agree_on_decides 1 c v old m
set_new_estimate_decides both c v old m = absurd m

-- After the coin a party has given up the loop or goes on with the estimate v, and it has decided
-- nothing but v.
pub record Follows (v : ℕ) (o : State × List Out) : Type 0 where
  pub estimate : (o.0.pc ≡ quit) ⊎ (o.0.estimate ≡ v)
  pub decides : (w : ℕ) → Member w (decided o.1) → w ≡ v

abbrev Proposes : ℕ → NewEstimate → Type 0
Proposes v (estimated u d o) = u ≡ v
Proposes v abandoned = Unit

begin_round_estimate : (s : State) → (begin_round s).0.estimate ≡ s.estimate
unfolding begin_round
begin_round_estimate s =
    on_if (λ (o : State × List Out). o.0.estimate ≡ s.estimate) (s.est_sent s.round s.estimate)
      (λ c. refl) (λ c. refl)

pub finish_round-Follows :
    (v : ℕ) (s : State) (new : NewEstimate)
    → Proposes v new
    → ((w : ℕ) → Member w (decisions new) → w ≡ v)
    → Follows v (finish_round s new)
unfolding finish_round
finish_round-Follows v s abandoned e d = record { estimate = inl refl; decides = d }
finish_round-Follows v s (estimated u d o) e m = record {
  estimate = inr (
      begin_round_estimate (record s { estimate = u; already_decided = d; round = s.round + 1 })
      ∙ e);
  decides = λ w. rw (finish_round_decides s (estimated u d o)) (m w);
}

agree_on-Proposes : (u c : ℕ) (old : Option ℕ) → Proposes u (agree_on u c old)
unfolding agree_on
agree_on-Proposes u c none = on_if (Proposes u) (u == c) (λ e. refl) (λ e. refl)
agree_on-Proposes u c (some d) = on_if (Proposes u) (u == c && d == u) (λ e. tt) (λ e. refl)

-- With the coin v, both {v} and {0, 1} lead to v.
pub set_new_estimate-Proposes :
    (b : Values) (v : ℕ) (old : Option ℕ)
    → (b ≡ both) ⊎ Single b v
    → Proposes v (set_new_estimate b v old)
unfolding set_new_estimate
set_new_estimate-Proposes only_zero v old (inr e) =
    subst (λ w. Proposes w (agree_on 0 v old)) (sym e) (agree_on-Proposes 0 v old)
set_new_estimate-Proposes only_one v old (inr e) =
    subst (λ w. Proposes w (agree_on 1 v old)) (sym e) (agree_on-Proposes 1 v old)
set_new_estimate-Proposes only_zero v old (inl e) = absurd (ground arith)
set_new_estimate-Proposes only_one v old (inl e) = absurd (ground arith)
set_new_estimate-Proposes both v old h = refl

pub at_coin_step :
    (p : Params) (s : State) (c : ℕ) (a : Values)
    → s.pc ≡ at_coin a
    → step p s (coin c) ≡ finish_round s (set_new_estimate a c s.already_decided)
unfolding step on_coin take_coin
at_coin_step p s c a e = ap (λ pc. on_coin pc s c) e
