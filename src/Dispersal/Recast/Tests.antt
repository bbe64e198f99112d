-- ===== src/Dispersal/Recast/Tests.antt =====
-- Recasts among four parties, on the sample instance of reliable broadcast.
use dumbo_ucy.Shared.{
  ℕ, ◌+◌, ◌≡◌, ◌⊎◌, refl, true, some, List, [], ◌∷◌, ◌++◌, ◌==◌, nat_comparable, bytes_comparable,
  ◌&&◌, map, arith,
}
use dumbo_ucy.Shared.Dict.{contains}
use dumbo_ucy.Shared.Loop.{run, returned}
use dumbo_ucy.Rbc.Merkle.{Bytes, merkle_tree}
use dumbo_ucy.Rbc.Merkle.Binding.{Collision}
use dumbo_ucy.Rbc.Coding.{encode}
use dumbo_ucy.Rbc.Samples.{
  toy_hash, copy_encode, copy_decode, copy-Recovers, toy_stripes, payload, root, toy_tree,
}
use dumbo_ucy.Dispersal.{Params}
use dumbo_ucy.Dispersal.Recast.{Msg, rclock, init, handle}
use dumbo_ucy.Dispersal.Recast.Locked.{TwoLocks, recast_same}
use dumbo_ucy.Dispersal.Recast.Gathered.{store_of, recast_returns}

-- In instance 5 the one signature is 1, on the root hash of the sample.
abbrev toy : Params ℕ (ℕ × Bytes) ℕ ℕ
toy = record {
  hash = toy_hash;
  zfec_encode = copy_encode;
  zfec_decode = copy_decode;
  stored_hash = λ sid r. (sid, r);
  locked_hash = λ sid r. (sid + 1, r);
  sign = λ d. 0;
  verify_share = λ s i d. true;
  verify_signature = λ s d. (s == 1) && (d.1 == root);
  combine_shares = λ shares. 1;
  sid = 5;
  pid = 0;
  n = 4;
  f = 1;
  leader = 0;
}

payload_encoded : encode copy_encode 2 4 payload ≡ some toy_stripes
unfolding encode
payload_encoded = refl

tree_built : merkle_tree toy_hash toy_stripes ≡ some toy_tree
unfolding merkle_tree
tree_built = refl

-- The stripes of parties 3 and 1, and the lock from party 2.
abbrev inbox : List (ℕ × Msg ℕ ℕ)
inbox = map (store_of toy toy_stripes toy_tree) (3 ∷ 1 ∷ []) ++ (2, rclock 5 root 1) ∷ []

recast_returns_example : (run (handle toy) init inbox).1 ≡ returned (some payload)
unfolding contains
recast_returns_example =
    recast_returns toy toy_stripes toy_tree payload payload_encoded tree_built refl (3 ∷ 1 ∷ []) 2 1
      (copy-Recovers 2 4 (omega arith)) (omega arith) refl (omega arith, (omega arith, tt))
      (refl, (refl, tt)) (omega arith)

recast_same_example : ((payload ≡ payload) ⊎ Collision toy_hash) ⊎ TwoLocks toy
recast_same_example =
    recast_same toy 1 (λ x. refl) (copy-Recovers 2 4 (omega arith)) (λ blocks. refl) (omega arith)
      (omega arith) inbox inbox payload payload (tt, (tt, (refl, tt))) (tt, (tt, (refl, tt)))
      recast_returns_example recast_returns_example
