-- ===== src/Rbc/Coding/WidePadding.antt =====
-- The padding beyond K = 128: `chr(K-padlen).encode()` is two bytes from 128 on.
use native.Mathlib.Nat.{
  div-add-mod, suc-mul, zero-add, suc-add, add-mul-div_left, div-eq_of_lt, mod-le,
}
use native.Mathlib.Numerals.{add-two}
use mathlib.Core.List.{append_assoc}
use dumbo_ucy.Shared.{
  ℕ, zero, suc, ◌+◌, ◌-◌, ◌*◌, ◌/◌, ◌%◌, ◌≤◌, ◌<◌, ◌≡◌, ◌≢◌, refl, Option, some, List, [], ◌∷◌,
  ◌++◌, arith, ltb, false, length, take, length-append, ap, sym, ◌∙◌,
}
use dumbo_ucy.Rbc.Merkle.{Bytes}
use dumbo_ucy.Rbc.Coding.{times, pad, strip, encode, decode}
use dumbo_ucy.Rbc.Coding.Padding.{length-times, last_byte-append, length-strip}
use dumbo_ucy.Rbc.Coding.RoundTrip.{Recovers, IsPartOf, present, decode-encode_front}

-- The front of a padding of two-byte characters that ends inside a character.
take-times_odd :
    (h n a b : ℕ)
    → h < n
    → take (suc (h * 2)) (times n (a ∷ b ∷ [])) ≡ times h (a ∷ b ∷ []) ++ a ∷ []
unfolding times
take-times_odd zero zero a b lt = absurd (omega arith)
take-times_odd zero (suc n) a b lt = refl
take-times_odd (suc h) zero a b lt = absurd (omega arith)
take-times_odd (suc h) (suc n) a b lt =
    rw (suc-mul h 2, add-two) (ap (λ l. a ∷ b ∷ l) (take-times_odd h n a b (omega arith)))

take-append_more {ℓ} :
    {A : Type ℓ} (n : ℕ) (xs ys : List A) → take (length xs + n) (xs ++ ys) ≡ xs ++ take n ys
take-append_more n [] ys = rw zero-add
take-append_more n (x ∷ xs) ys = rw suc-add (ap (λ l. x ∷ l) (take-append_more n xs ys))

front_length :
    (len k : ℕ)
    → 0 < len % k
    → len % k < k
    → k * ((len + (k - len % k) * 2) / k) ≡ len + (k - len % k)
front_length len k pos lt =
    let q = len / k in
    let whole : k * q + len % k ≡ len = div-add-mod len k in
    let regroup : len + (k - len % k) * 2 ≡ (k - len % k) + k * (q + 1) = grind arith in
    let count : (len + (k - len % k) * 2) / k ≡ q + 1 =
      rw (regroup, add-mul-div_left (k - len % k) (q + 1) {y = k} (omega arith))
        (rw (div-eq_of_lt {n = k - len % k} {m = k} (omega arith)) (omega arith)) in
    rw count (grind arith)

pad_wide :
    (k : ℕ) (m : Bytes)
    → length m % k < k
    → 128 ≤ length m % k
    → length m % k < 192
    → pad k m ≡ m ++ times (k - length m % k) (194 ∷ (128 + length m % k % 64) ∷ [])
unfolding pad
pad_wide k m lt lo hi =
    let r = length m % k in
    let char : k - (k - r) ≡ r = omega arith in
    let wide : ltb r 128 ≡ false = ground arith in
    let lead : 192 + r / 64 ≡ 194 = omega arith in rw (char, wide, lead)

-- The blocks hold the string and the front of its padding, which ends in the lead byte 194.
front_wide :
    (k h : ℕ) (m : Bytes)
    → length m % k < k
    → 128 ≤ length m % k
    → length m % k < 192
    → k - length m % k ≡ suc (h * 2)
    → take (k * (length (pad k m) / k)) (pad k m)
      ≡ (m ++ times h (194 ∷ (128 + length m % k % 64) ∷ [])) ++ 194 ∷ []
front_wide k h m lt lo hi odd =
    let p = k - length m % k in
    let x = 128 + length m % k % 64 in
    let tail = times p (194 ∷ x ∷ []) in
    let size : length (m ++ tail) ≡ length m + p * 2 =
      omega (arith, length-append m tail, length-times p (194 ∷ x ∷ [])) in
    rw (pad_wide k m lt lo hi, size, front_length (length m) k (omega arith) lt)
      (rw (take-append_more p m tail, append_assoc m (times h (194 ∷ x ∷ [])) (194 ∷ []))
        (ap (λ l. m ++ l) (rw odd (take-times_odd h (suc (h * 2)) 194 x (omega arith)))))

-- Where `len(m) % K` is in 128..191 and the padding length is odd, no K stripes of an encoding
-- decode to the string that was encoded.
pub decode-encode_wide :
    (enc : ℕ → ℕ → List Bytes → List Bytes) (dec : ℕ → ℕ → List Bytes → List ℕ → List Bytes)
    (k n : ℕ) (m : Bytes) (stripes : List Bytes) (got : List (Option Bytes))
    → Recovers k n enc dec
    → encode enc k n m ≡ some stripes
    → length got ≡ n
    → IsPartOf stripes 0 got
    → k ≤ present got
    → 128 ≤ length m % k
    → length m % k < 192
    → length m % k < k
    → (k - length m % k) % 2 ≡ 1
    → decode dec k n got ≢ some m
decode-encode_wide enc dec k n m stripes got zfec encoded size part enough lo hi lt odd same =
    let h = (k - length m % k) / 2 in
    let half : k - length m % k ≡ suc (h * 2) = omega arith in
    let x = 128 + length m % k % 64 in
    let body = m ++ times h (194 ∷ x ∷ []) in
    let front =
      decode-encode_front enc dec k n m stripes got zfec (omega arith) encoded size part enough in
    let stripped : strip k (body ++ 194 ∷ []) ≡ some m =
      ap (strip k) (sym (front_wide k h m lt lo hi half)) ∙ sym front ∙ same in
    ground (
      arith,
      length-strip k 194 (body ++ 194 ∷ []) m (last_byte-append body 194) stripped,
      length-append body (194 ∷ []),
      length-append m (times h (194 ∷ x ∷ [])),
      length-times h (194 ∷ x ∷ []),
      mod-le (length m) k,
    )
