-- ===== src/Dispersal/Recast/Gathered.antt =====
-- A recast from the stripes that a dispersal stored.
use dumbo_ucy.Shared.{
  ℕ, zero, suc, ◌+◌, ◌<◌, ◌≡◌, refl, sym, ◌≢◌, ap, ◌∙◌, true, false, Option, none, some, List, [],
  ◌∷◌, ◌++◌, ◌==◌, nat_comparable, bytes_comparable, ==_refl, if◌then◌else◌, get_or, set, replicate,
  length, length-set, get_or-set, nat_beq_iff, lt→ltb, le→leb, map, length-replicate, arith,
}
use mathlib.Core.Path.{subst}
use dumbo_ucy.Rbc.Merkle.{Bytes, merkle_tree, merkle_verify, get_merkle_branch}
use dumbo_ucy.Shared.Dict.{
  get_or_default, put, assign, get_or_default-put, contains, IsDistinct, assign_other,
}
use dumbo_ucy.Shared.Loop.{next, done, run, returned, AllOf}
use dumbo_ucy.Rbc.Coding.{encode}
use dumbo_ucy.Rbc.Merkle.Branch.{merkle_verify-get_merkle_branch}
use dumbo_ucy.Rbc.Coding.RoundTrip.{Recovers, IsPartOf, present, decode-encode}
use dumbo_ucy.Dispersal.{Params}
use dumbo_ucy.Dispersal.Recast.{
  Msg, rclock, rcstore, State, init, commit_of, root_of, top_of, encoded_root, compare_root,
  check_value, try_recast, on_rclock, on_rcstore, handle,
}

-- One more stripe.
present-set :
    (l : List (Option Bytes)) (j : ℕ) (b : Bytes)
    → j < length l
    → get_or l j none ≡ none
    → present (set l j (some b)) ≡ present l + 1
present-set [] j b h e = absurd (omega arith)
present-set (none ∷ l) zero b h e = omega arith
present-set (some c ∷ l) zero b h e = absurd cc
present-set (none ∷ l) (suc j) b h e = present-set l j b (omega arith) e
present-set (some c ∷ l) (suc j) b h e = omega (arith, present-set l j b (omega arith) e)

set-IsPartOf :
    (all : List Bytes) (l : List (Option Bytes)) (i j : ℕ) (b : Bytes)
    → b ≡ get_or all (i + j) []
    → IsPartOf all i l
    → IsPartOf all i (set l j (some b))
set-IsPartOf all [] i j b e h = tt
set-IsPartOf all (none ∷ l) i zero b e h = (e ∙ ap (λ k. get_or all k []) (omega arith), h)
set-IsPartOf all (some c ∷ l) i zero b e h = (e ∙ ap (λ k. get_or all k []) (omega arith), h.1)
set-IsPartOf all (none ∷ l) i (suc j) b e h =
    set-IsPartOf all l (i + 1) j b (e ∙ ap (λ k. get_or all k []) (omega arith)) h
set-IsPartOf all (some c ∷ l) i (suc j) b e h =
    (h.0, set-IsPartOf all l (i + 1) j b (e ∙ ap (λ k. get_or all k []) (omega arith)) h.1)

replicate-IsPartOf : (all : List Bytes) (n i : ℕ) → IsPartOf all i (replicate n none)
replicate-IsPartOf all zero i = tt
replicate-IsPartOf all (suc n) i = replicate-IsPartOf all n (i + 1)

present-replicate : (n : ℕ) → present (replicate n none) ≡ 0
present-replicate zero = refl
present-replicate (suc n) = present-replicate n

-- A counter that is 0 after another was counted up.
assign_zero :
    (table : ℕ → ℕ) (j i : ℕ)
    → assign table j (table j + 1) i ≡ 0
    → ((j == i) ≡ false) × (table i ≡ 0)
assign_zero table j i h = ground (arith, nat_beq_iff j i)

get_or-replicate : (n i : ℕ) → ◌≡◌ {A = Option Bytes} (get_or (replicate n none) i none) none
get_or-replicate zero i = refl
get_or-replicate (suc n) zero = refl
get_or-replicate (suc n) (suc i) = get_or-replicate n i

module _ {Sid Digest Share Sig : Type 0} (p : Params Sid Digest Share Sig)
    (stripes mt : List Bytes) where
  abbrev top : Bytes
  top = get_or mt 1 []

  -- The RCSTORE of party j, with what the leader's STORE gave it.
  abbrev pub store_of : ℕ → ℕ × Msg Sid Sig
  store_of j = (j, rcstore p.sid (top, j, get_or stripes j [], get_merkle_branch j mt))

  -- `count` stripes under the root hash, each in its place.
  pub record Gathers (s : State) (count : ℕ) : Type 0 where
    pub size : length (commit_of p s top) ≡ p.n
    pub part : IsPartOf stripes 0 (commit_of p s top)
    pub counted : present (commit_of p s top) ≡ count
    pub fresh : (j : ℕ) → s.rcstorerec j ≡ 0 → get_or (commit_of p s top) j none ≡ none

  init-Gathers : Gathers init 0
  unfolding get_or_default
  init-Gathers = record {
    size = length-replicate p.n none;
    part = replicate-IsPartOf stripes p.n 0;
    counted = present-replicate p.n;
    fresh = λ j _. get_or-replicate p.n j;
  }

  abbrev stored_at : State → ℕ → State
  stored_at s j = record s {
    rcstorerec = assign s.rcstorerec j (s.rcstorerec j + 1);
    commit = put s.commit top (set (commit_of p s top) j (some (get_or stripes j [])));
  }

  commit_stored :
      (s : State) (j : ℕ)
      → commit_of p (stored_at s j) top ≡ set (commit_of p s top) j (some (get_or stripes j []))
  commit_stored s j =
      rw
        (
          get_or_default-put s.commit (replicate p.n none) top top
              (set (commit_of p s top) j (some (get_or stripes j []))),
          ==_refl top,
        )
        refl

  stored_at-Gathers :
      (s : State) (j count : ℕ)
      → j < p.n
      → s.rcstorerec j ≡ 0
      → Gathers s count
      → Gathers (stored_at s j) (count + 1)
  stored_at-Gathers s j count lt new g =
      let l = commit_of p s top in
      let b = get_or stripes j [] in
      let same = commit_stored s j in
      record {
        size = ap length same ∙ (length-set l j (some b) ∙ g.size);
        part =
            subst (IsPartOf stripes 0) (sym same)
              (set-IsPartOf stripes l 0 j b (ap (λ k. get_or stripes k []) (omega arith)) g.part);
        counted =
            ap present same
            ∙ (present-set l j b (omega (arith, g.size)) (g.fresh j new)
                ∙ ap (λ k. k + 1) g.counted);
        fresh = λ i free.
            let other = assign_zero s.rcstorerec j i free in
            ap (λ l'. get_or l' i none) same
            ∙ (get_or-set l j i (some b) none ∙ rw other.0 (g.fresh i other.1));
      }

  module _ (m : Bytes) (encoded : encode p.zfec_encode (p.f + 1) p.n m ≡ some stripes)
      (tree : merkle_tree p.hash stripes ≡ some mt) (size : length stripes ≡ p.n) where
    handle_store :
        (s : State) (j : ℕ)
        → j < p.n
        → s.rcstorerec j ≡ 0
        → handle p s (store_of j) ≡ next (stored_at s j) []
    unfolding handle on_rcstore
    handle_store s j lt new =
        let verified =
          merkle_verify-get_merkle_branch p.hash stripes mt j tree (omega (arith, size)) in
        let checked : merkle_verify p.hash p.n (get_or stripes j []) top (get_merkle_branch j mt) j
            ≡ some true =
          subst
            (λ k.
              merkle_verify p.hash k (get_or stripes j []) top (get_merkle_branch j mt) j
              ≡ some true)
            size verified in
        rw (lt→ltb j p.n lt, new, checked) refl

    root_again : encoded_root p m ≡ some top
    unfolding encoded_root root_of top_of
    root_again = ap (root_of p) encoded ∙ ap (top_of p) tree

    same_root :
        (outs : List (Msg Sid Sig)) → compare_root p outs top m (some top) ≡ done outs (some m)
    unfolding compare_root
    same_root outs = rw (==_refl top) refl

    handle_lock :
        (s : State) (count from : ℕ) (sigma1 : Sig)
        → Recovers (p.f + 1) p.n p.zfec_encode p.zfec_decode
        → p.f < 128
        → p.verify_signature sigma1 (p.stored_hash p.sid top) ≡ true
        → Gathers s count
        → p.f < count
        → handle p s (from, rclock p.sid top sigma1)
          ≡ done (if s.rclocksend then [] else rclock p.sid top sigma1 ∷ []) (some m)
    unfolding handle on_rclock try_recast check_value
    handle_lock s count from sigma1 zfec small v g enough =
        let decoded =
          decode-encode p.zfec_encode p.zfec_decode (p.f + 1) p.n m stripes (commit_of p s top) zfec
            (omega arith) (omega arith) encoded g.size g.part (omega (arith, g.counted)) in
        let sends = if s.rclocksend then [] else rclock p.sid top sigma1 ∷ [] in
        let stocked = le→leb (p.f + 1) (present (commit_of p s top)) (omega (arith, g.counted)) in
        let verified : handle p s (from, rclock p.sid top sigma1)
            ≡ check_value p sends top (some m) =
          rw (v, stocked, decoded) refl in
        verified ∙ (ap (compare_root p sends top m) root_again ∙ same_root sends)

    gathers :
        (js : List ℕ) (s : State) (count from : ℕ) (sigma1 : Sig)
        → Recovers (p.f + 1) p.n p.zfec_encode p.zfec_decode
        → p.f < 128
        → p.verify_signature sigma1 (p.stored_hash p.sid top) ≡ true
        → Gathers s count
        → AllOf (λ j. j < p.n) js
        → IsDistinct js
        → ((j : ℕ) → contains js j ≡ true → s.rcstorerec j ≡ 0)
        → p.f < count + length js
        → (run (handle p) s (map store_of js ++ (from, rclock p.sid top sigma1) ∷ [])).1
          ≡ returned (some m)
    unfolding run contains
    gathers [] s count from sigma1 zfec small v g below d new enough =
        rw (handle_lock s count from sigma1 zfec small v g (omega arith)) refl
    gathers (j ∷ js) s count from sigma1 zfec small v g below d new enough =
        let free = new j (rw (==_refl j) refl) in
        rw (handle_store s j below.0 free) (
          gathers js (stored_at s j) (count + 1) from sigma1 zfec small v
            (stored_at-Gathers s j count below.0 free g) below.1 d.1
            (λ i c.
              let other : j ≢ i = λ eq. absurd (cc (d.0, ap (contains js) eq, c)) in
              assign_other s.rcstorerec j i (s.rcstorerec j + 1) other ∙ new i (ground (arith, c)))
            (omega arith))

    -- Where the leader's value has these stripes and this Merkle tree: the RCSTOREs of more than f
    -- different parties with what the leader sent them, in any order, and then an RCLOCK with a
    -- signature that verifies on the root hash, from anyone, make the recast return the value.
    -- Assumed: zfec recovers from any f + 1 of the N stripes, and f < 128.
    pub recast_returns :
        (js : List ℕ) (from : ℕ) (sigma1 : Sig)
        → Recovers (p.f + 1) p.n p.zfec_encode p.zfec_decode
        → p.f < 128
        → p.verify_signature sigma1 (p.stored_hash p.sid top) ≡ true
        → AllOf (λ j. j < p.n) js
        → IsDistinct js
        → p.f < length js
        → (run (handle p) init (map store_of js ++ (from, rclock p.sid top sigma1) ∷ [])).1
          ≡ returned (some m)
    recast_returns js from sigma1 zfec small v below d enough =
        gathers js init 0 from sigma1 zfec small v init-Gathers below d (λ j c. refl) (omega arith)
