-- ===== src/Rbc/Counting.antt =====
-- How many messages of a kind are among those that were sent.
use dumbo_ucy.Shared.{
  ℕ, zero, suc, ◌+◌, ◌≤◌, ◌≡◌, Bool, true, false, List, [], ◌∷◌, ◌++◌, ◌==◌, nat_comparable,
  bytes_comparable, arith, ltb, leb, ◌&&◌, nat_beq_iff, if◌then◌else◌,
}
use dumbo_ucy.Rbc.Merkle.{Bytes}
use dumbo_ucy.Rbc.Handler.{Params, Msg, val, echo, ready, Sent, send_all, broadcast}

abbrev pub is_echo : Msg → Bool
is_echo (val r b s) = false
is_echo (echo r b s) = true
is_echo (ready r) = false

abbrev pub is_ready : Msg → Bool
is_ready (val r b s) = false
is_ready (echo r b s) = false
is_ready (ready r) = true

abbrev pub is_ready_for : Bytes → Msg → Bool
is_ready_for root (val r b s) = false
is_ready_for root (echo r b s) = false
is_ready_for root (ready r) = r == root

-- How many of the messages sent to party j pass a test.
unfoldable pub count : ℕ → (Msg → Bool) → List Sent → ℕ
count j test [] = 0
count j test ((i, o) ∷ sent) =
    if i == j && test o then suc (count j test sent) else count j test sent

pub count-append :
    (j : ℕ) (test : Msg → Bool) (xs ys : List Sent)
    → count j test (xs ++ ys) ≡ count j test xs + count j test ys
unfolding count
count-append j test [] ys = omega arith
count-append j test ((i, o) ∷ xs) ys = ground (arith, count-append j test xs ys)

pub count-send_all :
    (p : Params) (j : ℕ) (test : Msg → Bool) (i c : ℕ) (o : Msg)
    → count j test (send_all p i c o) ≡ (if test o && (leb i j && ltb j (i + c)) then 1 else 0)
unfolding count send_all
count-send_all p j test i zero o = ground arith
count-send_all p j test i (suc c) o =
    ground (arith, count-send_all p j test (i + 1) c o, nat_beq_iff i j)

pub count-broadcast :
    (p : Params) (j : ℕ) (test : Msg → Bool) (o : Msg)
    → count j test (broadcast p o) ≡ (if test o && ltb j p.n then 1 else 0)
unfolding broadcast
count-broadcast p j test o = ground (arith, count-send_all p j test 0 p.n o)

pub count_for-le :
    (j : ℕ) (r : Bytes) (outs : List Sent) → count j (is_ready_for r) outs ≤ count j is_ready outs
unfolding count
count_for-le j r [] = omega arith
count_for-le j r ((i, val q b x) ∷ outs) = ground (arith, count_for-le j r outs)
count_for-le j r ((i, echo q b x) ∷ outs) = ground (arith, count_for-le j r outs)
count_for-le j r ((i, ready q) ∷ outs) = ground (arith, count_for-le j r outs)
