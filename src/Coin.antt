-- ===== src/Coin.antt =====
-- honeybadgerbft/core/commoncoin.py: `shared_coin`, with its receiving greenlet `_recv` and `getCoin`.
-- Threshold signatures are a parameter.
pub mod Agreement
mod Tests
use dumbo_ucy.Shared.{
  ℕ, ◌+◌, ◌%◌, Bool, true, false, not, ◌&&◌, Option, none, some, List, [], ◌∷◌, Comparable, ◌==◌,
  nat_comparable, ltb, if◌then◌else◌, length, take,
}
use dumbo_ucy.Shared.Dict.{Dict, get_or_default, put, has_key}

-- `hash_round r` is `PK.hash_message(str((sid, r)))`, and `first_byte sig` is
-- `hash(g12serialize(sig))[0]`.
pub record Params (Round Digest Share Sig : Type 0) : Type 0 where
  pub hash_round : Round → Digest
  pub sign : Digest → Share
  pub verify_share : Share → ℕ → Digest → Bool
  pub combine_shares : Dict ℕ Share → Sig
  pub verify_signature : Sig → Digest → Bool
  pub first_byte : Sig → ℕ
  pub single_bit : Bool
  pub pid : ℕ
  pub n : ℕ
  pub f : ℕ

-- The content of the queues of size 1, by round; `receiving` is false once `_recv` has ended by an
-- exception.
pub record State (Round Share : Type 0) : Type 0 where
  pub received : Dict Round (Dict ℕ Share)
  pub output_queue : Round → Option ℕ
  pub receiving : Bool

abbrev pub init : {Round Share : Type 0} → State Round Share
init = record { received = []; output_queue = λ r. none; receiving = true }

-- `broadcast(('COIN', round, sig))`, and a call of `getCoin` that returns.
pub data Out (Round Share : Type 0) : Type 0 where
  coin_share : Round → Share → Out Round Share
  returned_coin : Round → ℕ → Out Round Share

-- A share arrives from a sender; `getCoin(r)` is called, or goes on at its wait.
pub data Event (Round Share : Type 0) : Type 0 where
  got : ℕ → Round → Share → Event Round Share
  called : Round → Event Round Share
  waited : Round → Event Round Share

module _ {Round Digest Share Sig : Type 0} ⦃e : Comparable Round⦄
    (p : Params Round Digest Share Sig) where
  abbrev pub shares_of : State Round Share → Round → Dict ℕ Share
  shares_of s r = get_or_default s.received [] r

  abbrev pub set_queue : State Round Share → Round → Option ℕ → State Round Share
  set_queue s r c = record s { output_queue = λ q. if r == q then c else s.output_queue q }

  abbrev pub die : State Round Share → State Round Share
  die s = record s { receiving = false }

  -- The coin, as a bit or as a byte
  unfoldable pub value : Sig → ℕ
  value sig = if p.single_bit then p.first_byte sig % 2 else p.first_byte sig

  -- `outputQueue[r].put_nowait(…)`, which raises where the queue is full
  unfoldable pub put_coin : State Round Share → Round → ℕ → Option ℕ → State Round Share
  put_coin s r c none = set_queue s r (some c)
  put_coin s r c (some old) = die s

  -- What follows the combination of f + 1 shares.
  unfoldable pub output_coin : State Round Share → Round → Sig → State Round Share
  output_coin s r sig =
      if p.verify_signature sig (p.hash_round r)
      then put_coin s r (value sig) (s.output_queue r)
      else die s

  unfoldable pub accept_share : State Round Share → ℕ → Round → Share → State Round Share
  accept_share s i r sig =
      let s' = record s { received = put s.received r (put (shares_of s r) i sig) } in
      if length (shares_of s' r) == p.f + 1
      then output_coin s' r (p.combine_shares (take (p.f + 1) (shares_of s' r)))
      else s'

  -- One turn of `_recv`: the party's own share is not verified.
  unfoldable pub receive : State Round Share → ℕ → Round → Share → State Round Share
  receive s i r sig =
      if ltb i p.n
      then if has_key (shares_of s r) i
        then s
        else if not (i == p.pid) && not (p.verify_share sig i (p.hash_round r))
        then s
        else accept_share s i r sig
      else die s

  -- `outputQueue[round].get()`
  unfoldable pub get_coin :
      State Round Share → Round → Option ℕ → State Round Share × List (Out Round Share)
  get_coin s r none = (s, [])
  get_coin s r (some c) = (set_queue s r none, returned_coin r c ∷ [])

  unfoldable pub step :
      State Round Share → Event Round Share → State Round Share × List (Out Round Share)
  step s (got i r sig) = if s.receiving then (receive s i r sig, []) else (s, [])
  step s (called r) = (s, coin_share r (p.sign (p.hash_round r)) ∷ [])
  step s (waited r) = get_coin s r (s.output_queue r)
