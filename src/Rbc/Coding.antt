-- ===== src/Rbc/Coding.antt =====
-- honeybadgerbft/core/reliablebroadcast.py: `encode` and `decode`, the padding round the `zfec`
-- library. `zfec` is not part of the repository: its encoder and decoder are parameters.
pub mod Padding
pub mod RoundTrip
pub mod WidePadding
use dumbo_ucy.Shared.{
  ℕ, zero, suc, ◌+◌, ◌-◌, ◌*◌, ◌/◌, ◌%◌, Bool, true, false, Option, none, some, List, [], ◌∷◌, ◌++◌,
  ◌==◌, nat_comparable, ltb, leb, ◌&&◌, if◌then◌else◌, length, get_or, take, drop, map,
}
use mathlib.Core.Option
use dumbo_ucy.Rbc.Merkle.{Bytes}

-- chr(c).encode() for c < 256
unfoldable pub utf8 : ℕ → Bytes
utf8 c = if ltb c 128 then c ∷ [] else (192 + c / 64) ∷ (128 + c % 64) ∷ []

-- n * s on byte strings
unfoldable pub times : ℕ → Bytes → Bytes
times zero s = []
times (suc n) s = s ++ times n s

-- `m` after `padlen = K - (len(m) % K); m += padlen * chr(K-padlen).encode()`
unfoldable pub pad : ℕ → Bytes → Bytes
unfolding utf8 times
pad k m = let padlen = k - length m % k in m ++ times padlen (utf8 (k - padlen))

-- [m[i*step: (i+1)*step] for i in range(n)], with the bytes before the current block dropped
unfoldable pub chunks : ℕ → ℕ → Bytes → List Bytes
chunks zero step m = []
chunks (suc n) step m = take step m ∷ chunks n step (drop step m)

-- b''.join
abbrev pub join : List Bytes → Bytes
join [] = []
join (b ∷ blocks) = b ++ join blocks

-- The collecting loop: `need` blocks are still missing, and `i` is the index of the next stripe.
-- `none` is the `else` of the loop, which raises `ValueError`.
unfoldable pub gather : ℕ → ℕ → List (Option Bytes) → Option (List (ℕ × Bytes))
gather need i [] = none
gather need i (none ∷ rest) = gather need (i + 1) rest
gather need i (some block ∷ rest) =
    let more = gather (need - 1) (i + 1) rest in
    if need == 1 then some ((i, block) ∷ []) else Option.map (λ l. (i, block) ∷ l) more

unfoldable pub last_byte : Bytes → Option ℕ
last_byte [] = none
last_byte (b ∷ []) = some b
last_byte (b ∷ c ∷ m) = last_byte (c ∷ m)

-- `padlen = K - m[-1]; m = m[:-padlen]`: with a negative `padlen` the slice is a prefix, and with
-- zero it is empty; `none` is the `IndexError` on an empty string.
unfoldable pub strip : ℕ → Bytes → Option Bytes
unfolding last_byte
strip k m = elim (last_byte m) [
  | none ↦ none
  | some l ↦
      some (if ltb l k then take (length m - (k - l)) m else if k == l then [] else take (l - k) m)
]

module _ (zfec_encode : ℕ → ℕ → List Bytes → List Bytes) where
  -- `none` is `assert K <= 256`, or the division by K = 0.
  unfoldable pub encode : ℕ → ℕ → Bytes → Option (List Bytes)
  unfolding pad chunks
  encode k n m =
      if leb k 256 && ltb 0 k
      then (let padded = pad k m in some (zfec_encode k n (chunks k (length padded / k) padded)))
      else none

module _ (zfec_decode : ℕ → ℕ → List Bytes → List ℕ → List Bytes) where
  -- `none` is an exception: a list of another length, too few stripes, or an empty result.
  unfoldable pub decode : ℕ → ℕ → List (Option Bytes) → Option Bytes
  unfolding gather strip
  decode k n stripes =
      if length stripes == n
      then (elim (gather k 0 stripes) [
        | none ↦ none
        | some found ↦ strip k (
            join (
              zfec_decode k n (map (λ (p : ℕ × Bytes). p.1) found)
                (map (λ (p : ℕ × Bytes). p.0) found)))
      ])
      else none
