-- ===== src/Block/Collecting.antt =====
-- The loop that waits for the decryption shares of f + 1 parties.
use mathlib.Core.Path.{subst}
use mathlib.Core.Option
use dumbo_ucy.Shared.{
  ℕ, suc, ◌+◌, ◌≤◌, ◌≡◌, refl, sym, ap, Option, none, some, List, [], ◌∷◌, ◌==◌, nat_comparable,
  nat_beq_iff, leb, if◌then◌else◌, length, map, arith, on_if,
}
use dumbo_ucy.Shared.Dict.{Dict, put, has_key, length-put, IsDistinct}
use dumbo_ucy.Shared.Signers.{signers, signers-put-IsDistinct}
use dumbo_ucy.Shared.Loop.{AllOf}
use dumbo_ucy.Block.{Params, Proposal, to_acs, count_present, collect}

module _ {Key TKey Plain Cipher Share : Type 0} (p : Params Key TKey Plain Cipher Share) where
  -- The proposals that parties make with keys and plaintexts of their own, and the plaintexts.
  abbrev pub proposals : List (Option (Key × Plain)) → List (Option (Proposal p))
  proposals inputs = map (Option.map (λ (a : Key × Plain). to_acs p a.0 a.1)) inputs

  abbrev pub plains : List (Option (Key × Plain)) → List Plain
  plains [] = []
  plains (none ∷ inputs) = plains inputs
  plains (some (key, plain) ∷ inputs) = plain ∷ plains inputs

  pub count_present-proposals :
      (inputs : List (Option (Key × Plain)))
      → count_present p (proposals inputs) ≡ length (plains inputs)
  unfolding count_present
  count_present-proposals [] = refl
  count_present-proposals (none ∷ inputs) = count_present-proposals inputs
  count_present-proposals (some a ∷ inputs) = ap suc (count_present-proposals inputs)

  -- How many senders there are among the messages that are not among those received.
  abbrev pub new_senders : Dict ℕ (List (Option Share)) → List (ℕ × List (Option Share)) → ℕ
  new_senders received [] = 0
  new_senders received ((j, shares) ∷ msgs) =
      let same = new_senders received msgs in
      let more = new_senders (put received j shares) msgs in
      if has_key received j then same else more + 1

  pub collect_ends :
      (received : Dict ℕ (List (Option Share))) (msgs : List (ℕ × List (Option Share)))
      → p.f + 1 ≤ length received + new_senders received msgs
      → (found : Dict ℕ (List (Option Share))) × (collect p received msgs ≡ some found)
  unfolding collect
  collect_ends received [] h =
      on_if (λ o. (found : Dict ℕ (List (Option Share))) × (o ≡ some found))
        (leb (p.f + 1) (length received)) (λ _. (received, refl)) (λ c. absurd (ground arith))
  collect_ends received ((j, shares) ∷ msgs) h =
      on_if (λ o. (found : Dict ℕ (List (Option Share))) × (o ≡ some found))
        (leb (p.f + 1) (length received)) (λ _. (received, refl))
        (λ _.
          on_if (λ o. (found : Dict ℕ (List (Option Share))) × (o ≡ some found))
            (has_key received j) (λ c. collect_ends received msgs (ground arith))
            (λ c.
              collect_ends (put received j shares) msgs
                (ground (arith, length-put received j shares))))

module _ {Key TKey Plain Cipher Share : Type 0} (p : Params Key TKey Plain Cipher Share)
    (share_at : ℕ → TKey → Share) where
  -- What party j is to send: its share of every proposal.
  abbrev pub shares_at : ℕ → List (Option (Proposal p)) → List (Option Share)
  shares_at j vall = map (Option.map (λ (v : Proposal p). share_at j v.0)) vall

  abbrev pub IsCorrect : List (Option (Proposal p)) → ℕ × List (Option Share) → Type 0
  IsCorrect vall a = a.1 ≡ shares_at a.0 vall

  -- Any f + 1 shares of different parties open what was encrypted.
  abbrev pub Opens : Type 0
  Opens =
      (js : List ℕ) (key : Key)
      → length js ≡ p.f + 1
      → IsDistinct js
      → p.combine_shares (p.tencrypt key) (map (λ j. (j, some (share_at j (p.tencrypt key)))) js)
        ≡ some key

  -- What `collect` hands on: f + 1 different parties, each with correct shares.
  pub record Collected (vall : List (Option (Proposal p))) (received : Dict ℕ (List (Option Share)))
      : Type 0 where
    pub count : length received ≡ p.f + 1
    pub distinct : IsDistinct (signers received)
    pub correct : AllOf (IsCorrect vall) received

  abbrev pub Collects : List (Option (Proposal p)) → Option (Dict ℕ (List (Option Share))) → Type 0
  Collects vall none = Unit
  Collects vall (some received) = Collected vall received

  put-AllOf :
      (vall : List (Option (Proposal p))) (received : Dict ℕ (List (Option Share))) (j : ℕ)
      (shares : List (Option Share))
      → shares ≡ shares_at j vall
      → AllOf (IsCorrect vall) received
      → AllOf (IsCorrect vall) (put received j shares)
  unfolding put
  put-AllOf vall [] j shares ok all = (ok, tt)
  put-AllOf vall ((i, old) ∷ received) j shares ok all =
      on_if (AllOf (IsCorrect vall)) (i == j)
        (λ c. (subst (λ k. shares ≡ shares_at k vall) (sym ((nat_beq_iff i j).0 c)) ok, all.1))
        (λ c. (all.0, put-AllOf vall received j shares ok all.1))

  pub collect-Collects :
      (vall : List (Option (Proposal p))) (received : Dict ℕ (List (Option Share)))
      (msgs : List (ℕ × List (Option Share)))
      → length received ≤ p.f + 1
      → IsDistinct (signers received)
      → AllOf (IsCorrect vall) received
      → AllOf (IsCorrect vall) msgs
      → Collects vall (collect p received msgs)
  unfolding collect
  collect-Collects vall received [] le d all ok =
      on_if (Collects vall) (leb (p.f + 1) (length received))
        (λ c. record { count = ground arith; distinct = d; correct = all }) (λ _. tt)
  collect-Collects vall received ((j, shares) ∷ msgs) le d all ok =
      on_if (Collects vall) (leb (p.f + 1) (length received))
        (λ c. record { count = ground arith; distinct = d; correct = all })
        (λ few.
          on_if (Collects vall) (has_key received j)
            (λ _. collect-Collects vall received msgs le d all ok.1)
            (λ new.
              collect-Collects vall (put received j shares) msgs
                (ground (arith, length-put received j shares))
                (signers-put-IsDistinct received j shares d)
                (put-AllOf vall received j shares ok.0 all) ok.1))
