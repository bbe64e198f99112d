-- ===== src/Block/Tests.antt =====
-- A block of three proposals among four parties.

use dumbo_ucy.Shared.{ℕ, ◌+◌, ◌-◌, Option, none, some, List, [], ◌∷◌, map}
use dumbo_ucy.Shared.Dict.{Dict}
use dumbo_ucy.Block.{Params}
use dumbo_ucy.Block.Collecting.{proposals, shares_at}

-- The key of the first share.
abbrev first_key : Dict ℕ (Option ℕ) → ℕ
first_key [] = 0
first_key ((j, none) ∷ shares) = 0
first_key ((j, some s) ∷ shares) = s - j

-- Party j's share of a key is the key and j; a cipher is a key and a plaintext.
abbrev toy : Params ℕ ℕ ℕ (ℕ × ℕ) ℕ
toy = record {
  tencrypt = λ key. key;
  encrypt = λ key plain. (key, plain);
  decrypt = λ key ciph. ciph.1;
  decrypt_share = λ tkey. some tkey;
  combine_shares = λ tkey shares. some (first_key shares);
  n = 4;
  f = 1;
}

abbrev inputs : List (Option (ℕ × ℕ))
inputs = some (5, 50) ∷ none ∷ some (7, 70) ∷ some (8, 80) ∷ []

-- Party 2 sends its shares twice.
abbrev arrived : List (ℕ × List (Option ℕ))
arrived =
    map (λ j. (j, shares_at toy (λ i tkey. tkey + i) j (proposals toy inputs))) (2 ∷ 2 ∷ 3 ∷ [])
