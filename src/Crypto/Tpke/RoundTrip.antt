-- ===== src/Crypto/Tpke/RoundTrip.antt =====
-- What is encrypted under the dealer's key comes back from the shares of the first k parties.
use dumbo_ucy.Shared.{
  ℕ, zero, suc, ◌+◌, ◌≤◌, ◌<◌, ◌≡◌, refl, sym, ap, ◌∙◌, true, some, List, Comparable,
  nat_comparable, ==_refl, nat_beq_iff, length, map, get_elem?, arith,
}
use dumbo_ucy.Rbc.Merkle.{Bytes}
use dumbo_ucy.Crypto.Boldyreva.{
  Group, PublicKey, polynom_eval, sign, secret_keys, public_key, reconstructed, dealer,
}
use dumbo_ucy.Crypto.Boldyreva.Shares.{IsPairing, dealer-Dealt, key_verifies}
use dumbo_ucy.Crypto.Boldyreva.Combined.{numbered, first_shares, take-secret_keys, combined}
use dumbo_ucy.Crypto.Tpke.{
  xor, zip_xor, Ciphertext, seal, encrypt, verify_ciphertext, decrypt_share, verify_shares, unmask,
  combine_shares,
}
use dumbo_ucy.Crypto.Tpke.Xor.{AreBytes, length-zip_xor, zip_xor_twice}

-- A pairing of a group with itself.
pub record IsSymmetric {F G GT : Type 0} (g : Group F G G GT) : Type 0 where
  pub pairing : IsPairing g
  pub one_group : (h : G) (s : F) → g.exp2 h s ≡ g.exp1 h s
  pub moves : (h k : G) (s : F) → g.pair h (g.exp1 k s) ≡ g.pair (g.exp1 h s) k
  pub commutes : (a b : F) → g.mul_f a b ≡ g.mul_f b a

xor_lem : (x y : Bytes) → length x ≡ 32 → length y ≡ 32 → xor x y ≡ some (zip_xor x y)
unfolding xor
xor_lem x y hx hy = rw ((nat_beq_iff (length x) 32).1 hx, (nat_beq_iff (length y) 32).1 hy) refl

get_elem?-secret_keys :
    {F G1 G2 GT : Type 0} (g : Group F G1 G2 GT) (a : List F) (i count j : ℕ)
    → j < count
    → get_elem? (secret_keys g a i count) j ≡ some (polynom_eval g (g.of_nat (i + j)) a)
unfolding secret_keys
get_elem?-secret_keys g a i zero j lt = absurd (omega arith)
get_elem?-secret_keys g a i (suc count) zero lt =
    ap (λ k. some (polynom_eval g (g.of_nat k) a)) {x = i} {y = i + 0} (omega arith)
get_elem?-secret_keys g a i (suc count) (suc j) lt =
    get_elem?-secret_keys g a (i + 1) count j (omega arith)
    ∙ ap (λ k. some (polynom_eval g (g.of_nat k) a)) {x = i + 1 + j} {y = i + suc j} (omega arith)

module _ {F G GT : Type 0} ⦃gt : Comparable GT⦄ (g : Group F G G GT) (hash_g : G → Bytes)
    (hash_h : G → Bytes → G) where
  -- The ciphertext of m.
  abbrev pub sealed : PublicKey G → F → Bytes → Ciphertext g hash_g hash_h
  sealed pk r m =
      let u = g.exp1 g.g2 r in
      let v = zip_xor m (hash_g (g.exp1 pk.vk r)) in (u, v, g.exp1 (hash_h u v) r)

module _ {F G GT : Type 0} ⦃f : Comparable F⦄ ⦃gt : Comparable GT⦄ (g : Group F G G GT)
    (hash_g : G → Bytes) (hash_h : G → Bytes → G) (symmetric : IsSymmetric g) where
  -- Every share that is due verifies.
  shares_verify :
      (players : ℕ) (secret : F) (a : List F) (u : G) (count j : ℕ)
      → j + count ≤ players
      → verify_shares g hash_g hash_h
          (public_key g players secret a)
          u
          (numbered j (map (λ sk. sign g sk u) (secret_keys g a (j + 1) count)))
        ≡ true
  unfolding verify_shares secret_keys
  shares_verify players secret a u zero j le = refl
  shares_verify players secret a u (suc count) j le =
      let mine : get_elem? (secret_keys g a 1 players) j
          ≡ some (polynom_eval g (g.of_nat (j + 1)) a) =
        get_elem?-secret_keys g a 1 players j (omega arith)
        ∙ ap (λ k. some (polynom_eval g (g.of_nat k) a)) {x = 1 + j} {y = j + 1} (omega arith) in
      rw
        (key_verifies g symmetric.pairing players secret a j (polynom_eval g (g.of_nat (j + 1)) a) u
          mine)
        (shares_verify players secret a u count (j + 1) (omega arith))

  -- The mask of the ciphertext, made from either side.
  same_mask : (secret r : F) → g.exp1 (g.exp1 g.g2 r) secret ≡ g.exp1 (g.exp2 g.g2 secret) r
  same_mask secret r =
      symmetric.pairing.exp_exp g.g2 r secret
      ∙ (ap (g.exp1 g.g2) (symmetric.commutes secret r)
          ∙ (sym (symmetric.pairing.exp_exp g.g2 secret r)
              ∙ ap (λ h. g.exp1 h r) (sym (symmetric.one_group g.g2 secret))))

  module _ (sized : (h : G) → length (hash_g h) ≡ 32) (bytes : (h : G) → AreBytes (hash_g h)) where
    length-mask : (m : Bytes) (h : G) → length m ≡ 32 → length (zip_xor m (hash_g h)) ≡ 32
    length-mask m h size = length-zip_xor m (hash_g h) (size ∙ sym (sized h)) ∙ size

    encrypt_lem :
        (pk : PublicKey G) (r : F) (m : Bytes)
        → length m ≡ 32
        → encrypt g hash_g hash_h pk r m ≡ some (sealed g hash_g hash_h pk r m)
    unfolding encrypt seal
    encrypt_lem pk r m size =
        let h = g.exp1 pk.vk r in
        rw ((nat_beq_iff (length m) 32).1 size, xor_lem m (hash_g h) size (sized h))
          (rw ((nat_beq_iff (length (zip_xor m (hash_g h))) 32).1 (length-mask m h size)) refl)

    decrypt_share_lem :
        (pk : PublicKey G) (r sk : F) (m : Bytes)
        → length m ≡ 32
        → decrypt_share g hash_g hash_h sk (sealed g hash_g hash_h pk r m)
          ≡ some (sign g sk (g.exp1 g.g2 r))
    unfolding decrypt_share verify_ciphertext sign
    decrypt_share_lem pk r sk m size =
        let h = g.exp1 pk.vk r in
        let u = g.exp1 g.g2 r in
        let k = hash_h u (zip_xor m (hash_g h)) in
        rw
          (
            (nat_beq_iff (length (zip_xor m (hash_g h))) 32).1 (length-mask m h size),
            symmetric.moves g.g2 k r,
            ==_refl (g.pair u k),
          )
          refl

    unmask_lem :
        (secret r : F) (m : Bytes)
        → length m ≡ 32
        → AreBytes m
        → unmask g hash_g hash_h
            (zip_xor m (hash_g (g.exp1 (g.exp2 g.g2 secret) r)))
            (some (g.exp1 (g.exp1 g.g2 r) secret))
          ≡ some m
    unfolding unmask
    unmask_lem secret r m size small =
        let h = g.exp1 (g.exp2 g.g2 secret) r in
        ap (λ x. xor (hash_g x) (zip_xor m (hash_g h))) (same_mask secret r)
        ∙ (xor_lem (hash_g h) (zip_xor m (hash_g h)) (sized h) (length-mask m h size)
            ∙ ap some (zip_xor_twice m (hash_g h) (size ∙ sym (sized h)) small (bytes h)))

    combine_lem :
        (players : ℕ) (secret r : F) (a : List F) (m : Bytes)
        → length a ≤ players
        → reconstructed g (public_key g players secret a) a ≡ some secret
        → length m ≡ 32
        → AreBytes m
        → combine_shares g hash_g hash_h
            (public_key g players secret a)
            (sealed g hash_g hash_h (public_key g players secret a) r m)
            (first_shares g (g.exp1 g.g2 r) (length a) (secret_keys g a 1 players))
          ≡ some m
    unfolding combine_shares public_key
    combine_lem players secret r a m le sum size small =
        let u = g.exp1 g.g2 r in
        let checked : verify_shares g hash_g hash_h (public_key g players secret a) u
              (first_shares g u (length a) (secret_keys g a 1 players))
            ≡ true =
          rw (take-secret_keys g a 1 (length a) players le)
            (shares_verify players secret a u (length a) 0 (omega (arith, le))) in
        rw (checked, combined g symmetric.pairing players secret a u le sum)
          (unmask_lem secret r m size small)

    -- Where the dealer returns keys for k ≤ players coefficients, in a symmetric pairing group: a
    -- 32 byte string is encrypted under the public key, the ciphertext passes the check of each
    -- party, and the decryption shares of the first k parties combine to the string. Assumed: hashG
    -- gives 32 bytes.
    pub decrypts_again :
        (players : ℕ) (a : List F) (pk : PublicKey G) (sks : List F) (r : F) (m : Bytes)
        → dealer g players a ≡ some (pk, sks)
        → length a ≤ players
        → length m ≡ 32
        → AreBytes m
        → (encrypt g hash_g hash_h pk r m ≡ some (sealed g hash_g hash_h pk r m))
          × (((sk : F)
                → decrypt_share g hash_g hash_h sk (sealed g hash_g hash_h pk r m)
                  ≡ some (sign g sk (g.exp1 g.g2 r)))
              × (combine_shares g hash_g hash_h pk
                    (sealed g hash_g hash_h pk r m)
                    (first_shares g (g.exp1 g.g2 r) (length a) sks)
                  ≡ some m))
    decrypts_again players a pk sks r m d le size small =
        let dealt = dealer-Dealt g players a pk sks d in
        let key = public_key g players dealt.secret a in
        let whole =
          combine_lem players dealt.secret r a m le
            (ap (λ k. reconstructed g k a) (sym dealt.key) ∙ dealt.sum) size small in
        (
          encrypt_lem pk r m size,
          (
            (λ sk. decrypt_share_lem pk r sk m size),
            ap
                  (λ k.
                    combine_shares g hash_g hash_h k (sealed g hash_g hash_h k r m)
                      (first_shares g (g.exp1 g.g2 r) (length a) sks))
                  dealt.key
                ∙ (ap
                      (λ l.
                        combine_shares g hash_g hash_h key (sealed g hash_g hash_h key r m)
                          (first_shares g (g.exp1 g.g2 r) (length a) l))
                      dealt.shares
                    ∙ whole),
          ),
        )
