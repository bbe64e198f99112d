-- ===== src/Coin/Tests.antt =====
-- Coins among four parties with toy signatures.
use dumbo_ucy.Shared.{
  ℕ, ◌+◌, ◌*◌, ◌≡◌, inl, inr, refl, sym, ◌∙◌, true, List, [], ◌∷◌, ◌==◌, nat_comparable,
  nat_beq_iff, Member,
}
use dumbo_ucy.Shared.Dict.{get_or_default, put, has_key}
use dumbo_ucy.Shared.Steps.{run_steps}
use dumbo_ucy.Coin.{
  Params, init, returned_coin, Event, got, called, waited, value, put_coin, output_coin,
  accept_share, receive, get_coin, step,
}
use dumbo_ucy.Coin.Agreement.{coin_agreement}

-- The share of party i on h is h + i, and the one signature 10 h.
abbrev toy : Params ℕ ℕ ℕ ℕ
toy = record {
  hash_round = λ r. r + 5;
  sign = λ h. h;
  verify_share = λ s i h. s == h + i;
  combine_shares = λ shares. 70;
  verify_signature = λ s h. s == 10 * h;
  first_byte = λ s. s + 1;
  single_bit = true;
  pid = 0;
  n = 4;
  f = 1;
}

opened : Unit {0}
unfolding run_steps step receive accept_share output_coin put_coin get_coin value get_or_default put
    has_key
opened = tt

-- A wrong share, one of another round, and the same share twice.
abbrev mine : List (Event ℕ ℕ)
mine =
    called 2 ∷ got 0 2 7 ∷ got 3 2 9 ∷ got 1 3 9 ∷ got 0 2 7 ∷ waited 2 ∷ got 1 2 8 ∷ waited 2 ∷ []

abbrev theirs : List (Event ℕ ℕ)
theirs = got 3 2 10 ∷ got 2 2 9 ∷ called 2 ∷ waited 2 ∷ []

one_signature :
    (r sig sig' : ℕ)
    → toy.verify_signature sig (toy.hash_round r) ≡ true
    → toy.verify_signature sig' (toy.hash_round r) ≡ true
    → sig ≡ sig'
one_signature r sig sig' v v' =
    (nat_beq_iff sig (10 * (r + 5))).0 v ∙ sym ((nat_beq_iff sig' (10 * (r + 5))).0 v')

my_coin : Member (returned_coin 2 1) (run_steps (step toy) init mine).1
unfolding opened
my_coin = inr (inl refl)

their_coin :
    Member
      (returned_coin 2 1)
      (run_steps (step (record toy { pid = 1; sign = λ h. h + 1 })) init theirs).1
unfolding opened
their_coin = inr (inl refl)

abbrev tossed : ℕ
tossed = 1

coin_agreement_example : tossed ≡ tossed
coin_agreement_example =
    coin_agreement toy one_signature 1 (λ h. h + 1) mine theirs 2 1 1 my_coin their_coin
