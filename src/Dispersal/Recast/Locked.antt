-- ===== src/Dispersal/Recast/Locked.antt =====
-- What a recast value has to do with the lock that it was asked for with.
use dumbo_ucy.Shared.{
  ℕ, ◌+◌, ◌<◌, ◌≡◌, ◌⊎◌, refl, sym, ap, ◌∙◌, true, not, Option, none, some, List, [], ◌==◌,
  nat_comparable, bytes_comparable, list_beq_iff, ltb, leb, get_or, length, arith, on_if,
  Option-cases, Bool-cases, false, inl, inr,
}
use mathlib.Core.Path.{subst}
use dumbo_ucy.Shared.Loop.{
  Turn, next, done, fail, AfterTurn, AtEnd, run, returned, AllOf, run_inv_where,
}
use dumbo_ucy.Rbc.Merkle.{Bytes, merkle_tree, merkle_verify}
use dumbo_ucy.Rbc.Merkle.Binding.{Collision}
use dumbo_ucy.Rbc.Coding.{encode, decode}
use dumbo_ucy.Rbc.Coding.RoundTrip.{Recovers, present}
use dumbo_ucy.Rbc.Encoding.{Encoded, one_value_per_root}
use dumbo_ucy.Rbc.Handler.{is_true}
use dumbo_ucy.Dispersal.{Params, Store}
use dumbo_ucy.Dispersal.Recast.{
  Msg, rclock, rcstore, State, init, commit_of, root_of, top_of, encoded_root, compare_root,
  check_value, try_recast, on_rclock, on_rcstore, handle,
}

module _ {Sid Digest Share Sig : Type 0} (p : Params Sid Digest Share Sig) where
  abbrev pub IsEncodedAs : Bytes → Bytes → Type 0
  IsEncodedAs root v = Encoded p.hash p.zfec_encode (p.f + 1) p.n root v

  -- A value whose encoding has a root hash with a signature for this instance.
  pub record HasLock (v : Bytes) : Type 0 where
    pub root : Bytes
    pub sigma1 : Sig
    pub verified : p.verify_signature sigma1 (p.stored_hash p.sid root) ≡ true
    pub encoded : IsEncodedAs root v

  abbrev pub AnyLock : Option Bytes → Type 0
  AnyLock none = Unit
  AnyLock (some v) = HasLock v

  abbrev TurnHas : Turn State (Msg Sid Sig) (Option Bytes) → Type 0
  TurnHas (next s o) = Unit
  TurnHas (done o r) = AnyLock r
  TurnHas (fail o) = Unit

  encoded_root_lem : (root v : Bytes) → encoded_root p v ≡ some root → IsEncodedAs root v
  unfolding encoded_root root_of top_of
  encoded_root_lem root v h = elim (Option-cases (encode p.zfec_encode (p.f + 1) p.n v)) [
    | inl e ↦ let failed : none ≡ some root = sym (ap (root_of p) e) ∙ h in absurd cc
    | inr (stripes, e) ↦
        let built : top_of p (merkle_tree p.hash stripes) ≡ some root =
          sym (ap (root_of p) e) ∙ h in
        elim (Option-cases (merkle_tree p.hash stripes)) [
          | inl t ↦ let failed : none ≡ some root = sym (ap (top_of p) t) ∙ built in absurd cc
          | inr (mt, t) ↦
              let same : some (get_or mt 1 []) ≡ some root = sym (ap (top_of p) t) ∙ built in
              record { stripes = stripes; mt = mt; encoded = e; tree = t; top = cc }
        ]
  ]

  module _ (root : Bytes) (sigma1 : Sig)
      (v : p.verify_signature sigma1 (p.stored_hash p.sid root) ≡ true) where
    compare_root-TurnHas :
        (outs : List (Msg Sid Sig)) (m : Bytes) (o : Option Bytes)
        → encoded_root p m ≡ o
        → TurnHas (compare_root p outs root m o)
    unfolding compare_root
    compare_root-TurnHas outs m none e = tt
    compare_root-TurnHas outs m (some r) e =
        on_if AnyLock (r == root)
          (λ c. record {
            root = root;
            sigma1 = sigma1;
            verified = v;
            encoded =
                subst (λ x. IsEncodedAs x m) ((list_beq_iff r root).0 c) (encoded_root_lem r m e);
          })
          (λ c. tt)

    check_value-TurnHas :
        (outs : List (Msg Sid Sig)) (o : Option Bytes) → TurnHas (check_value p outs root o)
    unfolding check_value
    check_value-TurnHas outs none = tt
    check_value-TurnHas outs (some m) = compare_root-TurnHas outs m (encoded_root p m) refl

    try_recast-TurnHas :
        (s : State) (outs : List (Msg Sid Sig)) → TurnHas (try_recast p s outs root)
    unfolding try_recast
    try_recast-TurnHas s outs =
        on_if TurnHas (leb (p.f + 1) (present (commit_of p s root)))
          (λ _. check_value-TurnHas outs (decode p.zfec_decode (p.f + 1) p.n (commit_of p s root)))
          (λ _. tt)

  on_rcstore-TurnHas : (s : State) (store : Store) → TurnHas (on_rcstore p s store)
  unfolding on_rcstore
  on_rcstore-TurnHas s (root, sender, stripe, branch) =
      on_if TurnHas (ltb sender p.n)
        (λ _.
          on_if TurnHas (not (s.rcstorerec sender == 0)) (λ _. tt)
            (λ _.
              on_if TurnHas (is_true (merkle_verify p.hash p.n stripe root branch sender)) (λ _. tt)
                (λ _. tt)))
        (λ _. tt)

  -- An RCLOCK is one of this instance.
  abbrev pub IsForSid : ℕ × Msg Sid Sig → Type 0
  IsForSid (from, rclock sid root sigma1) = sid ≡ p.sid
  IsForSid (from, rcstore sid store) = Unit

  handle-TurnHas : (s : State) (a : ℕ × Msg Sid Sig) → IsForSid a → TurnHas (handle p s a)
  unfolding handle on_rclock
  handle-TurnHas s (from, rclock sid root sigma1) ok =
      on_if TurnHas (p.verify_signature sigma1 (p.stored_hash sid root))
        (λ v.
          try_recast-TurnHas root sigma1
            (subst (λ x. p.verify_signature sigma1 (p.stored_hash x root) ≡ true) ok v) _ _)
        (λ _. tt)
  handle-TurnHas s (from, rcstore sid store) ok = on_rcstore-TurnHas s store

  TurnHas-After :
      (outs : List (Msg Sid Sig)) (t : Turn State (Msg Sid Sig) (Option Bytes))
      → TurnHas t
      → AfterTurn (λ _ _. Unit {0}) (λ r _. AnyLock r) (λ _. Unit {0}) outs t
  TurnHas-After outs (next s o) h = tt
  TurnHas-After outs (done o r) h = h
  TurnHas-After outs (fail o) h = tt

  run-AnyLock :
      (msgs : List (ℕ × Msg Sid Sig))
      → AllOf IsForSid msgs
      → AtEnd
          (λ _ _. Unit {0})
          (λ r _. AnyLock r)
          (λ _. Unit {0})
          (run (handle p) init msgs).0
          (run (handle p) init msgs).1
  run-AnyLock msgs ok =
      run_inv_where (handle p) (λ _ _. Unit {0}) (λ r _. AnyLock r) (λ _. Unit {0}) IsForSid
        (λ s a outs ok' _. TurnHas-After outs (handle p s a) (handle-TurnHas s a ok')) msgs init []
        ok tt

  returned-HasLock :
      (msgs : List (ℕ × Msg Sid Sig)) (m : Bytes)
      → AllOf IsForSid msgs
      → (run (handle p) init msgs).1 ≡ returned (some m)
      → HasLock m
  returned-HasLock msgs m ok e =
      subst
        (AtEnd (λ _ _. Unit {0}) (λ r _. AnyLock r) (λ _. Unit {0}) (run (handle p) init msgs).0) e
        (run-AnyLock msgs ok)

  -- Signatures on the stores of two different root hashes of this instance.
  pub record TwoLocks : Type 0 where
    pub root : Bytes
    pub root' : Bytes
    pub sigma1 : Sig
    pub sigma1' : Sig
    pub differ : (root == root') ≡ false
    pub verified : p.verify_signature sigma1 (p.stored_hash p.sid root) ≡ true
    pub verified' : p.verify_signature sigma1' (p.stored_hash p.sid root') ≡ true

  -- Two runs of the recast that return values, on any messages whose RCLOCKs name this instance,
  -- return the same value; or two inputs of the hash function collide; or there are signatures that
  -- verify on STORED messages of this instance for two different root hashes. Assumed: the hash has
  -- digests of one size, zfec makes N stripes and recovers from any f + 1 of them, and f < 128 and
  -- f < N.
  pub recast_same :
      (digest_size : ℕ)
      → ((x : Bytes) → length (p.hash x) ≡ digest_size)
      → Recovers (p.f + 1) p.n p.zfec_encode p.zfec_decode
      → ((blocks : List Bytes) → length (p.zfec_encode (p.f + 1) p.n blocks) ≡ p.n)
      → p.f < 128
      → p.f < p.n
      → (msgs msgs' : List (ℕ × Msg Sid Sig)) (m m' : Bytes) → AllOf IsForSid msgs
      → AllOf IsForSid msgs'
      → (run (handle p) init msgs).1 ≡ returned (some m)
      → (run (handle p) init msgs').1 ≡ returned (some m')
      → ((m ≡ m') ⊎ Collision p.hash) ⊎ TwoLocks
  recast_same digest_size sized zfec yields small fits msgs msgs' m m' ok ok' r r' =
      let h = returned-HasLock msgs m ok r in
      let h' = returned-HasLock msgs' m' ok' r' in
      elim (Bool-cases (h.root == h'.root)) [
        | inl same ↦ inl (
            one_value_per_root p.hash p.zfec_encode p.zfec_decode (p.f + 1) p.n digest_size sized
              zfec yields (omega arith) (omega arith) (omega arith)
              (subst (λ x. IsEncodedAs x m) ((list_beq_iff h.root h'.root).0 same) h.encoded)
              h'.encoded)
        | inr other ↦ inr (record {
          root = h.root;
          root' = h'.root;
          sigma1 = h.sigma1;
          sigma1' = h'.sigma1;
          differ = other;
          verified = h.verified;
          verified' = h'.verified;
        })
      ]
