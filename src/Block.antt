-- ===== src/Block.antt =====
-- honeybadgerbft/core/honeybadger_block.py: `honeybadger_block`. The threshold encryption and the
-- cipher (crypto/threshenc/tpke.py) are a parameter, as is the agreement on the proposals; what is
-- serialised is taken as the value itself.
pub mod Collecting
pub mod Decryption
mod Tests
use dumbo_ucy.Shared.{
  ℕ, suc, ◌+◌, ◌-◌, Bool, true, false, ◌&&◌, Option, none, some, List, [], ◌∷◌, ◌==◌,
  nat_comparable, leb, if◌then◌else◌, length, get_elem?, map,
}
use mathlib.Core.Option
use dumbo_ucy.Shared.Dict.{Dict, put, has_key}

-- `decrypt_share` and `combine_shares` are `none` where their assertions fail.
pub record Params (Key TKey Plain Cipher Share : Type 0) : Type 0 where
  pub tencrypt : Key → TKey
  pub encrypt : Key → Plain → Cipher
  pub decrypt : Key → Cipher → Plain
  pub decrypt_share : TKey → Option Share
  pub combine_shares : TKey → Dict ℕ (Option Share) → Option Key
  pub n : ℕ
  pub f : ℕ

module _ {Key TKey Plain Cipher Share : Type 0} (p : Params Key TKey Plain Cipher Share) where
  -- `(tkey, ciphertext)`
  abbrev pub Proposal : Type 0
  Proposal = TKey × Cipher

  -- What is given to the common subset.
  unfoldable pub to_acs : Key → Plain → Proposal
  to_acs key propose = (p.tencrypt key, p.encrypt key propose)

  -- len([_ for _ in vall if _ is not None])
  unfoldable pub count_present : List (Option Proposal) → ℕ
  count_present [] = 0
  count_present (none ∷ vall) = count_present vall
  count_present (some v ∷ vall) = suc (count_present vall)

  -- The two assertions on what the common subset returns.
  unfoldable pub check_vall : List (Option Proposal) → Bool
  check_vall vall = length vall == p.n && leb (p.n - p.f) (count_present vall)

  unfoldable pub append_share :
      Option (Option Share) → Option (List (Option Share)) → Option (List (Option Share))
  append_share none rest = none
  append_share (some share) none = none
  append_share (some share) (some rest) = some (share ∷ rest)

  -- The decryption shares that are broadcast; `none` is an exception.
  unfoldable pub my_shares : List (Option Proposal) → Option (List (Option Share))
  my_shares [] = some []
  my_shares (none ∷ vall) = append_share (some none) (my_shares vall)
  my_shares (some v ∷ vall) = append_share (Option.map some (p.decrypt_share v.0)) (my_shares vall)

  -- The loop `while len(shares_received) < f+1` over what arrives; `none` is a wait that has not
  -- ended.
  unfoldable pub collect :
      Dict ℕ (List (Option Share))
      → List (ℕ × List (Option Share))
      → Option (Dict ℕ (List (Option Share)))
  collect received [] = if leb (p.f + 1) (length received) then some received else none
  collect received ((j, shares) ∷ msgs) =
      let same = collect received msgs in
      let more = collect (put received j shares) msgs in
      if leb (p.f + 1) (length received)
      then some received
      else if has_key received j
      then same
      else more

  -- `svec`: every party's share of broadcast i; `none` is an IndexError.
  unfoldable pub add_share :
      ℕ → Option (Option Share) → Option (Dict ℕ (Option Share)) → Option (Dict ℕ (Option Share))
  add_share j none svec = none
  add_share j (some share) none = none
  add_share j (some share) (some svec) = some ((j, share) ∷ svec)

  unfoldable pub share_vector : ℕ → Dict ℕ (List (Option Share)) → Option (Dict ℕ (Option Share))
  share_vector i [] = some []
  share_vector i ((j, shares) ∷ received) =
      add_share j (get_elem? shares i) (share_vector i received)

  unfoldable pub decrypt_one : Proposal → Option (Dict ℕ (Option Share)) → Option Plain
  decrypt_one v none = none
  decrypt_one (tkey, ciph) (some svec) =
      Option.map (λ key. p.decrypt key ciph) (p.combine_shares tkey svec)

  unfoldable pub append_plain : Option Plain → Option (List Plain) → Option (List Plain)
  append_plain none rest = none
  append_plain (some plain) none = none
  append_plain (some plain) (some rest) = some (plain ∷ rest)

  -- The loop over `vall`, from index i on.
  unfoldable pub decryptions :
      ℕ → Dict ℕ (List (Option Share)) → List (Option Proposal) → Option (List Plain)
  decryptions i received [] = some []
  decryptions i received (none ∷ vall) = decryptions (i + 1) received vall
  decryptions i received (some v ∷ vall) =
      append_plain (decrypt_one v (share_vector i received)) (decryptions (i + 1) received vall)

  unfoldable pub decrypt_all :
      List (Option Proposal) → Option (Dict ℕ (List (Option Share))) → Option (List Plain)
  decrypt_all vall none = none
  decrypt_all vall (some received) = decryptions 0 received vall

  -- From the broadcast of the shares on.
  unfoldable pub open_all :
      List (Option Proposal)
      → List (ℕ × List (Option Share))
      → Option (List (Option Share))
      → Option (List Plain)
  open_all vall msgs none = none
  open_all vall msgs (some shares) = decrypt_all vall (collect [] msgs)

  -- The block, given what the common subset returns and what the other parties send; `none` is an
  -- exception or a wait that has not ended.
  unfoldable pub honeybadger_block :
      List (Option Proposal) → List (ℕ × List (Option Share)) → Option (List Plain)
  honeybadger_block vall msgs =
      if check_vall vall then open_all vall msgs (my_shares vall) else none
