-- ===== src/Mule/Fast/Ballot.antt =====
-- The votes that the leader of `fastpath` keeps for a slot, and what N - f of them certify.
use mathlib.Core.Path.{subst}
use dumbo_ucy.Shared.{
  ℕ, ◌-◌, ◌≤◌, ◌≡◌, refl, sym, true, Option, none, some, List, [], ◌∷◌, ◌==◌, nat_comparable,
  length, arith, on_if, nat_beq_iff,
}
use dumbo_ucy.Shared.Dict.{
  Dict, put, contains, add, has_key, IsDistinct, contains-add, length-add, length-put, has_key-put,
}
use dumbo_ucy.Shared.Signers.{signers, signers-put-IsDistinct}
use dumbo_ucy.Shared.Loop.{AllOf}
use dumbo_ucy.Mule.Fast.{Params, Block, Out, put_output}

module _ {Hash Share Sig Batch Mark : Type 0} (p : Params Hash Share Sig Batch Mark) where
  abbrev pub Decision : Type 0
  Decision = Hash × Sig × List (ℕ × (Batch × Mark))

  -- Each pair is signed by its party.
  abbrev pub AreSigned : List (ℕ × (Batch × Mark)) → Type 0
  AreSigned = AllOf (λ (a : ℕ × (Batch × Mark)). p.ecdsa_vrfy a.0 a.1.0 a.1.1 ≡ true)

  -- A signature on a hash, with at least N - f batches; at the leader these are of different parties
  -- and signed by them.
  pub record Certifies (h : Hash) (sig : Sig) (items : List (ℕ × (Batch × Mark))) : Type 0 where
    pub verified : p.verify_signature sig h ≡ true
    pub enough : p.n - p.f ≤ length items
    pub leads : (p.pid == p.leader) ≡ true → IsDistinct (signers items) × AreSigned items

  abbrev pub HasDecision : Option Decision → Type 0
  HasDecision none = Unit
  HasDecision (some (h, sig, items)) = Certifies h sig items

  abbrev pub HasBlock : Option (Block Hash Sig Batch Mark) → Type 0
  HasBlock none = Unit
  HasBlock (some b) = Certifies b.parent b.signature b.batches

  abbrev pub IsCertified : Out Hash Share Sig Batch Mark → Type 0
  IsCertified (put_output b) = Certifies b.parent b.signature b.batches
  IsCertified _ = Unit

  abbrev pub ForHash : Hash → Dict ℕ Share → Type 0
  ForHash h = AllOf (λ (a : ℕ × Share). p.verify_share a.1 a.0 h ≡ true)

  -- Any N - f shares of different parties on a hash combine to a signature on it.
  abbrev pub Combines : Type 0
  Combines =
      (h : Hash) (shares : Dict ℕ Share)
      → length shares ≡ p.n - p.f
      → IsDistinct (signers shares)
      → ForHash h shares
      → p.verify_signature (p.combine_shares shares) h ≡ true

  put-ForHash :
      (h : Hash) (shares : Dict ℕ Share) (j : ℕ) (sig : Share)
      → p.verify_share sig j h ≡ true
      → ForHash h shares
      → ForHash h (put shares j sig)
  unfolding put
  put-ForHash h [] j sig v all = (v, tt)
  put-ForHash h ((i, sig') ∷ shares) j sig v all =
      on_if (ForHash h) (i == j)
        (λ c.
          let e : i ≡ j = ground (arith, nat_beq_iff i j) in
          (subst (λ k. p.verify_share sig k h ≡ true) (sym e) v, all.1))
        (λ c. (all.0, put-ForHash h shares j sig v all.1))

  put-AreSigned :
      (items : Dict ℕ (Batch × Mark)) (j : ℕ) (tx_batch : Batch) (mark : Mark)
      → p.ecdsa_vrfy j tx_batch mark ≡ true
      → AreSigned items
      → AreSigned (put items j (tx_batch, mark))
  unfolding put
  put-AreSigned [] j tx_batch mark v all = (v, tt)
  put-AreSigned ((i, item) ∷ items) j tx_batch mark v all =
      on_if AreSigned (i == j)
        (λ c.
          let e : i ≡ j = ground (arith, nat_beq_iff i j) in
          (subst (λ k. p.ecdsa_vrfy k tx_batch mark ≡ true) (sym e) v, all.1))
        (λ c. (all.0, put-AreSigned items j tx_batch mark v all.1))

  -- The votes of the current slot: one share and one batch for each voter.
  pub record Ballot (h : Hash) (voters : List ℕ) (votes : Dict ℕ Share)
      (batches : Dict ℕ (Batch × Mark)) : Type 0 where
    pub shares : ForHash h votes
    pub distinct : IsDistinct (signers votes)
    pub keys : (j : ℕ) → has_key votes j ≡ contains voters j
    pub items : (j : ℕ) → has_key batches j ≡ contains voters j
    pub votes_count : length votes ≡ length voters
    pub items_count : length batches ≡ length voters
    pub parties : IsDistinct (signers batches)
    pub signed : AreSigned batches

  pub no-Ballot : (h : Hash) → Ballot h [] [] []
  unfolding has_key contains
  no-Ballot h = record {
    shares = tt;
    distinct = tt;
    keys = λ j. refl;
    items = λ j. refl;
    votes_count = refl;
    items_count = refl;
    parties = tt;
    signed = tt;
  }

  pub add-Ballot :
      (h : Hash) (voters : List ℕ) (votes : Dict ℕ Share) (batches : Dict ℕ (Batch × Mark)) (j : ℕ)
      (sig : Share) (tx_batch : Batch) (mark : Mark)
      → p.verify_share sig j h ≡ true
      → p.ecdsa_vrfy j tx_batch mark ≡ true
      → Ballot h voters votes batches
      → Ballot h (add voters j) (put votes j sig) (put batches j (tx_batch, mark))
  add-Ballot h voters votes batches j sig tx_batch mark v v' b = record {
    shares = put-ForHash h votes j sig v b.shares;
    distinct = signers-put-IsDistinct votes j sig b.distinct;
    keys = λ i. rw (has_key-put votes j i sig, contains-add voters j i, b.keys i) refl;
    items =
        λ i. rw (has_key-put batches j i (tx_batch, mark), contains-add voters j i, b.items i) refl;
    votes_count = rw (length-put votes j sig, length-add voters j, b.keys j, b.votes_count) refl;
    items_count =
        rw (length-put batches j (tx_batch, mark), length-add voters j, b.items j, b.items_count)
          refl;
    parties = signers-put-IsDistinct batches j (tx_batch, mark) b.parties;
    signed = put-AreSigned batches j tx_batch mark v' b.signed;
  }
