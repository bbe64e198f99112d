-- ===== src/Rbc/Samples.antt =====
-- A hash function and an erasure code that meet what the theorems assume, and one small instance.
use native.Mathlib.Nat.{mul-div_right}
use mathlib.Core.List.{foldl}
use dumbo_ucy.Shared.{
  ℕ, zero, suc, ◌+◌, ◌*◌, ◌/◌, ◌%◌, ◌<◌, ◌≡◌, refl, List, [], ◌∷◌, arith, length, get_or, replicate,
  length-append, take-append, drop-append, ap, ◌∙◌,
}
use mathlib.Core.Path.{ap₂}
use dumbo_ucy.Rbc.Merkle.{Bytes}
use dumbo_ucy.Rbc.Coding.{chunks, join}
use dumbo_ucy.Rbc.Coding.RoundTrip.{Recovers, AllSized}
use dumbo_ucy.Rbc.Handler.{Params}

-- One byte: enough for examples.
abbrev pub toy_hash : Bytes → Bytes
toy_hash x = foldl (λ (a b : ℕ). (a * 31 + b + 7) % 251) 1 x ∷ []

-- Every stripe holds all of the blocks.
abbrev pub copy_encode : ℕ → ℕ → List Bytes → List Bytes
copy_encode k n blocks = replicate n (join blocks)

abbrev pub copy_decode : ℕ → ℕ → List Bytes → List ℕ → List Bytes
copy_decode k n stripes nums = let b = get_or stripes 0 [] in chunks k (length b / k) b

chunks-join :
    (k step : ℕ) (blocks : List Bytes)
    → length blocks ≡ k
    → AllSized step blocks
    → (chunks k step (join blocks) ≡ blocks) × (length (join blocks) ≡ k * step)
unfolding chunks
chunks-join zero step [] e h = (refl, omega arith)
chunks-join zero step (b ∷ blocks) e h = absurd (omega arith)
chunks-join (suc k) step [] e h = absurd (omega arith)
chunks-join (suc k) step (b ∷ blocks) e h =
    let ih = chunks-join k step blocks (omega arith) h.1 in
    (
      ap₂ ◌∷◌ (take-append step b (join blocks) h.0)
          (ap (chunks k step) (drop-append step b (join blocks) h.0) ∙ ih.0),
      omega (arith, length-append b (join blocks), ih.1),
    )

get_or-replicate : (n i : ℕ) (b : Bytes) → i < n → get_or (replicate n b) i [] ≡ b
get_or-replicate zero i b h = absurd (omega arith)
get_or-replicate (suc n) zero b h = refl
get_or-replicate (suc n) (suc i) b h = get_or-replicate n i b (omega arith)

pub copy-Recovers : (k n : ℕ) → 0 < k → Recovers k n copy_encode copy_decode
copy-Recovers k n pos step blocks [] size sized count order = absurd (omega arith)
copy-Recovers k n pos step blocks (i ∷ nums) size sized count order =
    let whole = chunks-join k step blocks size sized in
    rw (get_or-replicate n i (join blocks) order.1) (rw (whole.1, mul-div_right step pos) whole.0)

abbrev pub toy : Params
toy = record {
  hash = toy_hash;
  zfec_encode = copy_encode;
  zfec_decode = copy_decode;
  pid = 0;
  n = 4;
  f = 1;
  leader = 0;
}

-- The payload 7, 9, 11 with its padding, as each of the four stripes.
abbrev pub toy_stripe : Bytes
toy_stripe = 7 ∷ 9 ∷ 11 ∷ 1 ∷ []

abbrev pub toy_stripes : List Bytes
toy_stripes = replicate 4 toy_stripe

abbrev pub payload : Bytes
payload = 7 ∷ 9 ∷ 11 ∷ []

abbrev pub root : Bytes
root = 99 ∷ []

abbrev pub branch : List Bytes
branch = (133 ∷ []) ∷ (170 ∷ []) ∷ []

abbrev pub toy_tree : List Bytes
toy_tree =
    [] ∷ root ∷ (170 ∷ []) ∷ (170 ∷ []) ∷ (133 ∷ []) ∷ (133 ∷ []) ∷ (133 ∷ []) ∷ (133 ∷ []) ∷ []
