-- ===== src/Rbc/Coding/Padding.antt =====
-- The padding: what is added, that blocks of equal size come out, and that `strip` takes it off.
use Prim.Native.Nat.{min}
use native.Mathlib.Nat.{mod-lt, div-add-mod, zero-mul, suc-mul, add_comm}
use mathlib.Core.List.{append_assoc}
use dumbo_ucy.Shared.{
  lt→ltb, ℕ, zero, suc, ◌+◌, ◌-◌, ◌*◌, ◌/◌, ◌%◌, ◌≤◌, ◌<◌, ◌≡◌, refl, some, [], ◌∷◌, ◌++◌, ◌==◌,
  nat_comparable, ltb, arith, if◌then◌else◌, length, take, drop, replicate, length-append,
  take-append, length-take, ◌∙◌, ap, sym, take-add, length-replicate,
}
use dumbo_ucy.Rbc.Merkle.{Bytes}
use dumbo_ucy.Rbc.Coding.{utf8, times, pad, chunks, join, last_byte, strip}

pub length-times : (n : ℕ) (s : Bytes) → length (times n s) ≡ n * length s
unfolding times
length-times zero s = omega arith
length-times (suc n) s = grind (arith, length-append s (times n s), length-times n s)

pub last_byte-append : (m : Bytes) (a : ℕ) → last_byte (m ++ a ∷ []) ≡ some a
unfolding last_byte
last_byte-append [] a = refl
last_byte-append (b ∷ []) a = refl
last_byte-append (b ∷ c ∷ m) a = last_byte-append (c ∷ m) a

times_one : (n a : ℕ) → times n (a ∷ []) ≡ replicate n a
unfolding times
times_one zero a = refl
times_one (suc n) a = ap (λ l. a ∷ l) (times_one n a)

-- Up to K = 128 the padding is `padlen` single bytes.
pub pad_small :
    (k : ℕ) (m : Bytes)
    → 0 < k
    → k ≤ 128
    → pad k m ≡ m ++ replicate (k - length m % k) (length m % k)
unfolding pad utf8
pad_small k m pos small =
    let r = length m % k in
    let bound : r < k = mod-lt (length m) pos in
    let char : k - (k - r) ≡ r = omega arith in
    rw (char, lt→ltb r 128 (omega arith)) (rw (← times_one (k - r) r))

-- The blocks are the front of the padded string.
pub join-chunks : (n step : ℕ) (m : Bytes) → join (chunks n step m) ≡ take (n * step) m
unfolding chunks
join-chunks zero step m = rw zero-mul
join-chunks (suc n) step m =
    rw (join-chunks n step (drop step m))
      (rw (suc-mul n step, add_comm (n * step) step) (sym (take-add step (n * step) m)))

last_byte-replicate : (m : Bytes) (n a : ℕ) → 0 < n → last_byte (m ++ replicate n a) ≡ some a
last_byte-replicate m zero a h = absurd (omega arith)
last_byte-replicate m (suc zero) a h = last_byte-append m a
last_byte-replicate m (suc (suc n)) a h =
    rw (← append_assoc m (a ∷ []) (replicate (suc n) a))
      (last_byte-replicate (m ++ a ∷ []) (suc n) a (omega arith))

strip_below :
    (k l : ℕ) (m : Bytes)
    → last_byte m ≡ some l
    → l < k
    → strip k m ≡ some (take (length m - (k - l)) m)
unfolding strip
strip_below k l m e h = ground arith

-- Up to K = 128, `decode` takes off what `encode` has put on.
pub strip-pad : (k : ℕ) (m : Bytes) → 0 < k → k ≤ 128 → strip k (pad k m) ≡ some m
strip-pad k m pos small =
    let r = length m % k in
    let tail = replicate (k - r) r in
    let bound : r < k = mod-lt (length m) pos in
    rw (pad_small k m pos small) (
      strip_below k r (m ++ tail) (last_byte-replicate m (k - r) r (omega arith)) bound
      ∙ ap some (
          take-append (length (m ++ tail) - (k - r)) m tail
            (omega (arith, length-append m tail, length-replicate (k - r) r))))

length-pad_small :
    (k : ℕ) (m : Bytes) → 0 < k → k ≤ 128 → length (pad k m) ≡ length m + (k - length m % k)
length-pad_small k m pos small = rw (pad_small k m pos small) (
    omega (
      arith,
      length-append m (replicate (k - length m % k) (length m % k)),
      length-replicate (k - length m % k) (length m % k),
    ))

-- The padded string is cut into `k` blocks without a rest.
pub length-pad :
    (k : ℕ) (m : Bytes) → 0 < k → k ≤ 128 → length (pad k m) ≡ k * (length (pad k m) / k)
length-pad k m pos small =
    grind (arith, length-pad_small k m pos small, div-add-mod (length m) k, mod-lt (length m) pos)

-- The length of what `strip` leaves.
pub length-strip :
    (k l : ℕ) (m rest : Bytes)
    → last_byte m ≡ some l
    → strip k m ≡ some rest
    → length rest ≡ (
        if ltb l k
        then min (length m - (k - l)) (length m)
        else if k == l
        then 0
        else min (l - k) (length m))
unfolding strip
length-strip k l m rest e h =
    ground (arith, length-take (length m - (k - l)) m, length-take (l - k) m)
