-- ===== src/Rbc/Agreement.antt =====
-- Two parties that return a value for one root hash return the same value.
use dumbo_ucy.Shared.{
  ℕ, ◌≤◌, ◌<◌, ◌≡◌, ◌⊎◌, refl, some, List, [], nat_comparable, bytes_comparable, arith, length,
  get_or, list_beq_iff, Option-cases, inl, inr, ap, sym, ◌∙◌,
}
use dumbo_ucy.Rbc.Merkle.{Bytes, merkle_tree}
use dumbo_ucy.Rbc.Merkle.Binding.{Collision}
use dumbo_ucy.Rbc.Coding.{encode, decode}
use dumbo_ucy.Rbc.Coding.RoundTrip.{Recovers}
use dumbo_ucy.Rbc.Encoding.{Encoded, one_value_per_root}
use dumbo_ucy.Rbc.Handler.{Params, State, decode_output, reencode, recover_threshold, stripes_of}
use dumbo_ucy.Rbc.Invariant.{Delivered}

-- What `decode_output` has checked about its result.
abbrev EncodedFor : Params → Bytes → Bytes → Type 0
EncodedFor p root m = Encoded p.hash p.zfec_encode (recover_threshold p) p.n root m

reencode_lem : (p : Params) (root m m' : Bytes) → reencode p root m ≡ some m' → EncodedFor p root m'
unfolding reencode
reencode_lem p root m m' h =
    elim (Option-cases (encode p.zfec_encode (recover_threshold p) p.n m)) [
      | inl e ↦ absurd (ground arith)
      | inr (stripes, e) ↦ elim (Option-cases (merkle_tree p.hash stripes)) [
        | inl t ↦ absurd (ground arith)
        | inr (mt, t) ↦
            let same : m ≡ m' = ground arith in
            record {
              stripes = stripes;
              mt = mt;
              encoded = rw (← same) e;
              tree = t;
              top = ground (arith, list_beq_iff (get_or mt 1 []) root);
            }
      ]
    ]

decode_output_lem :
    (p : Params) (s : State) (root m : Bytes)
    → decode_output p s root ≡ some m
    → EncodedFor p root m
unfolding decode_output
decode_output_lem p s root m h =
    elim (Option-cases (decode p.zfec_decode (recover_threshold p) p.n (stripes_of p s root))) [
      | inl e ↦ absurd (ground arith)
      | inr (m', e) ↦ reencode_lem p root m' m (ground arith)
    ]

-- What a party decodes does not depend on its own number.
decode_output_pid :
    (p : Params) (j : ℕ) (s : State) (root : Bytes)
    → decode_output (record p { pid = j }) s root ≡ decode_output p s root
unfolding decode_output
decode_output_pid p j s root = refl

module _ (p : Params) (digest_size : ℕ) (sized : (x : Bytes) → length (p.hash x) ≡ digest_size)
    (zfec : Recovers (recover_threshold p) p.n p.zfec_encode p.zfec_decode)
    (yields : (blocks : List Bytes) → length (p.zfec_encode (recover_threshold p) p.n blocks) ≡ p.n)
    (pos : 0 < recover_threshold p) (small : recover_threshold p ≤ 128) where
  -- Two parties of one instance that deliver for the same root hash deliver the same value, or two
  -- inputs of the hash function collide. Assumed: the hash has digests of one size, zfec makes N
  -- stripes and recovers from any K of them, and 0 < K ≤ 128.
  pub delivered_same :
      (j : ℕ) {m m' : Bytes} (d : Delivered p m) (d' : Delivered (record p { pid = j }) m')
      → d.root ≡ d'.root
      → (m ≡ m') ⊎ Collision p.hash
  delivered_same j {m} {m'} d d' same =
      one_value_per_root p.hash p.zfec_encode p.zfec_decode (recover_threshold p) p.n digest_size
        sized zfec yields pos small (omega arith) (decode_output_lem p d.state d.root m d.decoded)
        (decode_output_lem p d'.state d.root m' (
          ap (decode_output p d'.state) same
          ∙ sym (decode_output_pid p j d'.state d'.root)
          ∙ d'.decoded))
