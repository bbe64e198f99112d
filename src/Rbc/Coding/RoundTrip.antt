-- ===== src/Rbc/Coding/RoundTrip.antt =====
-- `decode` after `encode`, over what the `zfec` library promises.
use dumbo_ucy.Shared.{
  ℕ, zero, suc, ◌+◌, ◌-◌, ◌*◌, ◌/◌, ◌≤◌, ◌<◌, ◌≡◌, refl, Option, none, some, List, [], ◌∷◌, ◌==◌,
  nat_comparable, arith, length, get_or, take, drop, map, length-drop, length-take, ◌∙◌, ap,
  Bool-cases, inl, inr, nat_beq_iff, take_all,
}
use native.Mathlib.Nat.{add-zero, div-add-mod}
use mathlib.Core.Path.{ap₂}
use dumbo_ucy.Rbc.Merkle.{Bytes}
use dumbo_ucy.Rbc.Coding.{pad, chunks, join, gather, strip, encode, decode}
use dumbo_ucy.Rbc.Coding.Padding.{strip-pad, length-pad, join-chunks}

abbrev pub AllSized : ℕ → List Bytes → Type 0
AllSized step [] = Unit
AllSized step (b ∷ blocks) = (length b ≡ step) × AllSized step blocks

-- Stripe numbers in the order of a list, from `lo` on and below `n`.
abbrev pub IsAscending : ℕ → ℕ → List ℕ → Type 0
IsAscending lo n [] = Unit
IsAscending lo n (i ∷ nums) = (lo ≤ i) × (i < n) × IsAscending (i + 1) n nums

-- zfec, as its documentation has it: from any `k` of the `n` stripes that it makes of `k` blocks of
-- one size, with their numbers, it gives the blocks back.
abbrev pub Recovers :
    ℕ → ℕ → (ℕ → ℕ → List Bytes → List Bytes) → (ℕ → ℕ → List Bytes → List ℕ → List Bytes) → Type 0
Recovers k n enc dec =
    (step : ℕ) (blocks : List Bytes) (nums : List ℕ)
    → length blocks ≡ k
    → AllSized step blocks
    → length nums ≡ k
    → IsAscending 0 n nums
    → dec k n (map (λ i. get_or (enc k n blocks) i []) nums) nums ≡ blocks

-- Some of the stripes, each at its own place, from place `i` on.
abbrev pub IsPartOf : List Bytes → ℕ → List (Option Bytes) → Type 0
IsPartOf stripes i [] = Unit
IsPartOf stripes i (none ∷ rest) = IsPartOf stripes (i + 1) rest
IsPartOf stripes i (some b ∷ rest) = (b ≡ get_or stripes i []) × IsPartOf stripes (i + 1) rest

abbrev pub present : List (Option Bytes) → ℕ
present [] = 0
present (none ∷ rest) = present rest
present (some b ∷ rest) = suc (present rest)

abbrev numbers : List (ℕ × Bytes) → List ℕ
numbers = map (λ (p : ℕ × Bytes). p.0)

abbrev blocks_of : List (ℕ × Bytes) → List Bytes
blocks_of = map (λ (p : ℕ × Bytes). p.1)

record Gathered (stripes : List Bytes) (n need i : ℕ) (l : List (Option Bytes)) : Type 0 where
  found : List (ℕ × Bytes)
  result : gather need i l ≡ some found
  blocks : blocks_of found ≡ map (λ j. get_or stripes j []) (numbers found)
  count : length (numbers found) ≡ need
  order : IsAscending i n (numbers found)

lower : (lo lo' n : ℕ) (nums : List ℕ) → lo' ≤ lo → IsAscending lo n nums → IsAscending lo' n nums
lower lo lo' n [] h a = tt
lower lo lo' n (i ∷ nums) h a = (omega arith, a.1, a.2)

gather_lem :
    (stripes : List Bytes) (n need i : ℕ) (l : List (Option Bytes))
    → 0 < need
    → need ≤ present l
    → i + length l ≤ n
    → IsPartOf stripes i l
    → Gathered stripes n need i l
unfolding gather
gather_lem stripes n need i [] pos enough fits part = absurd (omega arith)
gather_lem stripes n need i (none ∷ l) pos enough fits part =
    let g = gather_lem stripes n need (i + 1) l pos enough (omega arith) part in
    record {
      found = g.found;
      result = g.result;
      blocks = g.blocks;
      count = g.count;
      order = lower (i + 1) i n (numbers g.found) (omega arith) g.order;
    }
gather_lem stripes n need i (some b ∷ l) pos enough fits part = elim (Bool-cases (need == 1)) [
  | inl last ↦ record {
    found = (i, b) ∷ [];
    result = rw last;
    blocks = ap (λ x. x ∷ []) part.0;
    count = ground arith;
    order = (omega arith, omega arith, tt);
  }
  | inr more ↦
      let g =
        gather_lem stripes n (need - 1) (i + 1) l (ground arith) (omega arith) (omega arith)
          part.1 in
      record {
        found = (i, b) ∷ g.found;
        result = rw (more, g.result);
        blocks = ap₂ ◌∷◌ part.0 g.blocks;
        count = ground (arith, g.count);
        order = (omega arith, omega arith, g.order);
      }
]

AllSized-chunks : (n step : ℕ) (m : Bytes) → n * step ≤ length m → AllSized step (chunks n step m)
unfolding chunks
AllSized-chunks zero step m h = tt
AllSized-chunks (suc n) step m h = (
  omega (arith, length-take step m),
  AllSized-chunks n step (drop step m) (omega (arith, length-drop step m)),
)

length-chunks : (n step : ℕ) (m : Bytes) → length (chunks n step m) ≡ n
unfolding chunks
length-chunks zero step m = refl
length-chunks (suc n) step m = ap suc (length-chunks n step (drop step m))

-- What `encode` returns, for K up to 128.
pub encode_lem :
    (enc : ℕ → ℕ → List Bytes → List Bytes) (k n : ℕ) (m : Bytes) (stripes : List Bytes)
    → encode enc k n m ≡ some stripes
    → stripes ≡ enc k n (chunks k (length (pad k m) / k) (pad k m))
unfolding encode
encode_lem enc k n m stripes h = ground arith

decode_lem :
    (dec : ℕ → ℕ → List Bytes → List ℕ → List Bytes) (k n : ℕ) (got : List (Option Bytes))
    (found : List (ℕ × Bytes))
    → length got ≡ n
    → gather k 0 got ≡ some found
    → decode dec k n got ≡ strip k (join (dec k n (blocks_of found) (numbers found)))
unfolding decode
decode_lem dec k n got found size e = rw ((nat_beq_iff (length got) n).1 size, e, decode)

-- What `decode` makes of any K stripes of an encoding, for every K: the front of the padded string
-- that the blocks hold, without its padding.
pub decode-encode_front :
    (enc : ℕ → ℕ → List Bytes → List Bytes) (dec : ℕ → ℕ → List Bytes → List ℕ → List Bytes)
    (k n : ℕ) (m : Bytes) (stripes : List Bytes) (got : List (Option Bytes))
    → Recovers k n enc dec
    → 0 < k
    → encode enc k n m ≡ some stripes
    → length got ≡ n
    → IsPartOf stripes 0 got
    → k ≤ present got
    → decode dec k n got ≡ strip k (take (k * (length (pad k m) / k)) (pad k m))
decode-encode_front enc dec k n m stripes got zfec pos encoded size part enough =
    let padded = pad k m in
    let step = length padded / k in
    let blocks = chunks k step padded in
    let g = gather_lem stripes n k 0 got pos enough (omega arith) part in
    let made = encode_lem enc k n m stripes encoded in
    let fits : k * step ≤ length padded = omega (arith, div-add-mod (length padded) k) in
    let restored : dec k n (blocks_of g.found) (numbers g.found) ≡ blocks =
      rw (g.blocks, made)
        (zfec step blocks (numbers g.found) (length-chunks k step padded)
          (AllSized-chunks k step padded fits) g.count g.order) in
    rw (decode_lem dec k n got g.found size g.result, restored, join-chunks k step padded)

-- For 0 < K ≤ 128: from any K stripes of an encoding, each at its place, `decode` gives the
-- string back. Of zfec it is assumed that K stripes with their numbers give the K blocks back.
pub decode-encode :
    (enc : ℕ → ℕ → List Bytes → List Bytes) (dec : ℕ → ℕ → List Bytes → List ℕ → List Bytes)
    (k n : ℕ) (m : Bytes) (stripes : List Bytes) (got : List (Option Bytes))
    → Recovers k n enc dec
    → 0 < k
    → k ≤ 128
    → encode enc k n m ≡ some stripes
    → length got ≡ n
    → IsPartOf stripes 0 got
    → k ≤ present got
    → decode dec k n got ≡ some m
decode-encode enc dec k n m stripes got zfec pos small encoded size part enough =
    decode-encode_front enc dec k n m stripes got zfec pos encoded size part enough
    ∙ ap (strip k) (take_all (k * (length (pad k m) / k)) (pad k m) (length-pad k m pos small))
    ∙ strip-pad k m pos small

-- A full list of stripes is part of itself.
IsPartOf-all :
    (all rest : List Bytes) (i : ℕ)
    → ((k : ℕ) → get_or rest k [] ≡ get_or all (i + k) [])
    → IsPartOf all i (map some rest)
IsPartOf-all all [] i h = tt
IsPartOf-all all (x ∷ rest) i h = (
  h 0 ∙ ap (λ j. get_or all j []) (add-zero i),
  IsPartOf-all all rest (i + 1) (λ k. h (suc k) ∙ ap (λ j. get_or all j []) (omega arith)),
)

pub IsPartOf-self : (all : List Bytes) → IsPartOf all 0 (map some all)
IsPartOf-self all =
    IsPartOf-all all all 0 (λ k. ap (λ j. get_or all j []) {x = k} {y = 0 + k} (omega arith))

pub present_all : (xs : List Bytes) → present (map some xs) ≡ length xs
present_all [] = refl
present_all (x ∷ xs) = ap suc (present_all xs)
