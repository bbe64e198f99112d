-- ===== src/Dispersal/Disperse/Outputs.antt =====
-- What a party of a dispersal has put out, and how a turn adds to it.
use mathlib.Core.List.{append-nil}
use dumbo_ucy.Shared.{
  ℕ, ◌+◌, ◌≡◌, refl, sym, ap, ◌∙◌, Bool, true, false, not, ◌&&◌, Option, none, some, length, List,
  [], ◌∷◌, ◌++◌, ◌==◌, nat_comparable, bytes_comparable, nat_beq_iff, arith, on_if, both,
}
use dumbo_ucy.Shared.Loop.{AfterTurn, AllOf, AllOf-append}
use dumbo_ucy.Rbc.Merkle.{Bytes, merkle_verify}
use dumbo_ucy.Rbc.Handler.{is_true}
use dumbo_ucy.Dispersal.{Params, Store}
use dumbo_ucy.Dispersal.Disperse.{
  stored, locked, Out, to, to_all, put_store, put_lock, put_done, State, is_some, Step, end_with,
}

pub not-false : (b : Bool) → not b ≡ false → b ≡ true
not-false true h = refl
not-false false h = absurd cc

module _ {Sid Share Sig : Type 0} where
  -- The stores and the locks that were put out, in order.
  abbrev pub stores : List (Out Sid Share Sig) → List Store
  stores [] = []
  stores (put_store st sid ∷ outs) = st ∷ stores outs
  stores (to i m ∷ outs) = stores outs
  stores (to_all m ∷ outs) = stores outs
  stores (put_lock r sig sid ∷ outs) = stores outs
  stores (put_done r sig sid ∷ outs) = stores outs

  abbrev pub locks : List (Out Sid Share Sig) → List (Bytes × Sig)
  locks [] = []
  locks (put_lock r sig sid ∷ outs) = (r, sig) ∷ locks outs
  locks (to i m ∷ outs) = locks outs
  locks (to_all m ∷ outs) = locks outs
  locks (put_store st sid ∷ outs) = locks outs
  locks (put_done r sig sid ∷ outs) = locks outs

  pub stores-append :
      (outs more : List (Out Sid Share Sig)) → stores (outs ++ more) ≡ stores outs ++ stores more
  stores-append [] more = refl
  stores-append (put_store st sid ∷ outs) more = ap (λ l. st ∷ l) (stores-append outs more)
  stores-append (to i m ∷ outs) more = stores-append outs more
  stores-append (to_all m ∷ outs) more = stores-append outs more
  stores-append (put_lock r sig sid ∷ outs) more = stores-append outs more
  stores-append (put_done r sig sid ∷ outs) more = stores-append outs more

  pub locks-append :
      (outs more : List (Out Sid Share Sig)) → locks (outs ++ more) ≡ locks outs ++ locks more
  locks-append [] more = refl
  locks-append (put_lock r sig sid ∷ outs) more = ap (λ l. (r, sig) ∷ l) (locks-append outs more)
  locks-append (to i m ∷ outs) more = locks-append outs more
  locks-append (to_all m ∷ outs) more = locks-append outs more
  locks-append (put_store st sid ∷ outs) more = locks-append outs more
  locks-append (put_done r sig sid ∷ outs) more = locks-append outs more

-- What a field holds, as a list.
abbrev pub option_list : {A : Type 0} → Option A → List A
option_list none = []
option_list (some a) = a ∷ []

absent : {A : Type 0} (o : Option A) (k : ℕ) → k ≡ length (option_list o) → k ≡ 0 → o ≡ none
absent none k h z = refl
absent (some a) k h z = absurd (omega arith)

present : {A : Type 0} (o : Option A) → is_some o ≡ true → length (option_list o) ≡ 1
present none h = absurd cc
present (some a) h = refl

module _ {Sid Digest Share Sig : Type 0} (p : Params Sid Digest Share Sig) where
  -- A store has the party's own stripe under its root hash, a lock a signature that verifies.
  abbrev pub IsSound : Out Sid Share Sig → Type 0
  IsSound (put_store (root, i, stripe, branch) sid) =
      (i ≡ p.pid) × (is_true (merkle_verify p.hash p.n stripe root branch p.pid) ≡ true)
  IsSound (put_lock root sig sid) = p.verify_signature sig (p.stored_hash sid root) ≡ true
  IsSound _ = Unit

  -- What was put out is what the state holds, and is sound.
  pub record Holds (s : State Share Sig) (outs : List (Out Sid Share Sig)) : Type 0 where
    pub stores : stores outs ≡ option_list s.store
    pub locks : locks outs ≡ option_list s.lock
    pub store_count : s.recstorefromleader ≡ length (option_list s.store)
    pub lock_count : s.reclockfromleader ≡ length (option_list s.lock)
    pub sound : AllOf IsSound outs

  -- A call that returns 1: both have been put out at a party that is not the leader.
  pub record Ended (r : ℕ) (outs : List (Out Sid Share Sig)) : Type 0 where
    pub sound : AllOf IsSound outs
    pub result : r ≡ 1
    pub both : (p.pid == p.leader) ≡ false → (length (stores outs) ≡ 1) × (length (locks outs) ≡ 1)

  abbrev pub After : List (Out Sid Share Sig) → Step p → Type 0
  After outs t = AfterTurn Holds Ended (λ _. Unit {0}) outs t

  -- A turn that puts out neither and keeps both.
  pub quiet :
      (s s' : State Share Sig) (outs more : List (Out Sid Share Sig))
      → s'.store ≡ s.store
      → s'.lock ≡ s.lock
      → s'.recstorefromleader ≡ s.recstorefromleader
      → s'.reclockfromleader ≡ s.reclockfromleader
      → stores more ≡ []
      → locks more ≡ []
      → AllOf IsSound more
      → Holds s outs
      → Holds s' (outs ++ more)
  quiet s s' outs more st lk sc lc sm lm ok h = record {
    stores = rw (stores-append outs more, sm, append-nil, st) h.stores;
    locks = rw (locks-append outs more, lm, append-nil, lk) h.locks;
    store_count = sc ∙ (h.store_count ∙ ap (λ o. length (option_list o)) (sym st));
    lock_count = lc ∙ (h.lock_count ∙ ap (λ o. length (option_list o)) (sym lk));
    sound = AllOf-append IsSound outs more h.sound ok;
  }

  -- A turn that puts out nothing at all.
  pub silent :
      (s s' : State Share Sig) (outs : List (Out Sid Share Sig))
      → s'.store ≡ s.store
      → s'.lock ≡ s.lock
      → s'.recstorefromleader ≡ s.recstorefromleader
      → s'.reclockfromleader ≡ s.reclockfromleader
      → Holds s outs
      → Holds s' (outs ++ [])
  silent s s' outs st lk sc lc h = quiet s s' outs [] st lk sc lc refl refl tt h

  pub end_with-After :
      (s : State Share Sig) (outs more : List (Out Sid Share Sig)) (other : Bool)
      → (other ≡ true → (is_some s.store ≡ true) × (is_some s.lock ≡ true))
      → Holds s (outs ++ more)
      → After outs (end_with p s more other)
  unfolding end_with
  end_with-After s outs more other has h =
      on_if (After outs) (not (p.pid == p.leader) && other)
        (λ c.
          let two = has (both (not (p.pid == p.leader)) other c).1 in
          record {
            sound = h.sound;
            result = refl;
            both = λ _. (
              ap length h.stores ∙ present s.store two.0,
              ap length h.locks ∙ present s.lock two.1,
            );
          })
        (λ _. h)

  -- The first store, put out with its answer to the leader.
  pub first_store :
      (s : State Share Sig) (outs : List (Out Sid Share Sig)) (sid : Sid) (root stripe : Bytes)
      (branch : List Bytes) (sig : Share)
      → (s.recstorefromleader == 0) ≡ true
      → is_true (merkle_verify p.hash p.n stripe root branch p.pid) ≡ true
      → Holds s outs
      → Holds
          (record s {
            roothash = root;
            store = some (root, p.pid, stripe, branch);
            recstorefromleader = s.recstorefromleader + 1;
          })
          (outs ++ put_store (root, p.pid, stripe, branch) sid ∷ to p.leader (stored sid sig) ∷ [])
  first_store s outs sid root stripe branch sig zero v h =
      let more : List (Out Sid Share Sig) =
        put_store (root, p.pid, stripe, branch) sid ∷ to p.leader (stored sid sig) ∷ [] in
      let new : s.recstorefromleader ≡ 0 = ground (arith, nat_beq_iff s.recstorefromleader 0) in
      record {
        stores = rw (stores-append outs more, h.stores, absent s.store _ h.store_count new) refl;
        locks = rw (locks-append outs more, append-nil) h.locks;
        store_count = omega arith;
        lock_count = h.lock_count;
        sound = AllOf-append IsSound outs more h.sound ((refl, v), (tt, tt));
      }

  pub first_lock :
      (s : State Share Sig) (outs : List (Out Sid Share Sig)) (sid : Sid) (root : Bytes)
      (sigma1 : Sig) (sig : Share)
      → (s.reclockfromleader == 0) ≡ true
      → p.verify_signature sigma1 (p.stored_hash sid root) ≡ true
      → Holds s outs
      → Holds
          (record s {
            roothash = root;
            lock = some (root, sigma1);
            reclockfromleader = s.reclockfromleader + 1;
          })
          (outs ++ put_lock root sigma1 sid ∷ to p.leader (locked sid sig) ∷ [])
  first_lock s outs sid root sigma1 sig zero v h =
      let more : List (Out Sid Share Sig) =
        put_lock root sigma1 sid ∷ to p.leader (locked sid sig) ∷ [] in
      let new : s.reclockfromleader ≡ 0 = ground (arith, nat_beq_iff s.reclockfromleader 0) in
      record {
        stores = rw (stores-append outs more, append-nil) h.stores;
        locks = rw (locks-append outs more, h.locks, absent s.lock _ h.lock_count new) refl;
        store_count = h.store_count;
        lock_count = omega arith;
        sound = AllOf-append IsSound outs more h.sound (v, (tt, tt));
      }
