-- ===== src/Expiring/Bound.antt =====
-- The size of the cache of base/cache.h.
use whisperlib.Prelude.{
  ℕ, ◌≤◌, leb, ◌≡◌, refl, ◌∙◌, inl, inr, Option-cases, List, [], ◌∷◌, length, arith, ℤ,
}
use whisperlib.Prelude.Outcome.{
  Ensures, Ensures-bind, Ensures-or_abort, Ensures-branch, Ensures-pure, Ensures-mono,
}
use whisperlib.Lru.Store.{find, erase}
use whisperlib.Expiring.Cache.{
  Item, ItemCache, del_item, expired, del_items, expire_some, to_delete, no_uses, del_by_algorithm,
  del_key, insert_item, add,
}

length-erase : {V : Type 0} (k : ℕ) (m : List (ℕ × V)) → length (erase k m) ≤ length m
length-erase k [] = omega arith
length-erase k ((j, v) ∷ m) = ground (arith, length-erase k m)

module _ {V : Type 0} where
  -- No item is added.
  abbrev Shrinks : ItemCache V → ItemCache V → Type 0
  Shrinks c c' = (c'.max_size ≡ c.max_size) × (length c'.items ≤ length c.items)

  same : (c : ItemCache V) → Shrinks c c
  same c = (refl, omega arith)

  Shrinks-trans : (a b c : ItemCache V) → Shrinks a b → Shrinks b c → Shrinks a c
  Shrinks-trans a b c h k = (k.0 ∙ h.0, omega (arith, h.1, k.1))

  del_item-Shrinks : (c : ItemCache V) (id : ℕ) → Ensures (Shrinks c) (del_item c id)
  unfolding del_item
  del_item-Shrinks c id =
      Ensures-or_abort (Shrinks c) (find id c.heap) _
        λ item e. Ensures-pure (Shrinks c) _ (refl, length-erase item.key c.items)

  del_items-Shrinks : (ids : List ℕ) (c : ItemCache V) → Ensures (Shrinks c) (del_items ids c)
  unfolding del_items
  del_items-Shrinks [] c = Ensures-pure (Shrinks c) c (same c)
  del_items-Shrinks (id ∷ ids) c =
      Ensures-bind (Shrinks c) (Shrinks c) (del_item c id) (λ c1. del_items ids c1)
        (del_item-Shrinks c id)
        (λ c1 h.
          Ensures-mono (Shrinks c1) (Shrinks c) (del_items ids c1) (del_items-Shrinks ids c1)
            (λ c2 k. Shrinks-trans c c1 c2 h k))

  expired-ends :
      (ids : List ℕ) (heap : List (ℕ × Item V)) (now : ℤ)
      → Ensures (λ l. Unit {0}) (expired ids heap now)
  unfolding expired
  expired-ends [] heap now = Ensures-pure (λ (l : List ℕ). Unit {0}) [] tt
  expired-ends (id ∷ ids) heap now =
      Ensures-or_abort (λ (l : List ℕ). Unit {0}) (find id heap) _
        λ item e.
          Ensures-branch (λ (l : List ℕ). Unit {0}) _ _ _
            (λ h. Ensures-pure (λ (l : List ℕ). Unit {0}) [] tt)
            (λ h.
              Ensures-bind (λ (l : List ℕ). Unit {0}) (λ (l : List ℕ). Unit {0})
                (expired ids heap now) _ (expired-ends ids heap now)
                (λ rest k. Ensures-pure (λ (l : List ℕ). Unit {0}) (id ∷ rest) tt))

  expire-Shrinks : (c : ItemCache V) (now : ℤ) → Ensures (Shrinks c) (expire_some c now)
  unfolding expire_some
  expire-Shrinks c now =
      Ensures-bind (λ (l : List ℕ). Unit {0}) (Shrinks c) (expired c.items_by_exp c.heap now)
        (λ to_del. del_items to_del c) (expired-ends c.items_by_exp c.heap now)
        (λ to_del h. del_items-Shrinks to_del c)

  del_by_algorithm-Shrinks : (c : ItemCache V) → Ensures (Shrinks c) (del_by_algorithm c)
  unfolding del_by_algorithm
  del_by_algorithm-Shrinks c =
      Ensures-branch (Shrinks c) (no_uses c.items_by_use) _ _
        (λ e. Ensures-pure (Shrinks c) c (same c))
        (λ e. Ensures-or_abort (Shrinks c) (to_delete c) (del_item c) λ id h. del_item-Shrinks c id)

  del_key-Shrinks : (c : ItemCache V) (key : ℕ) → Ensures (Shrinks c) (del_key c key)
  unfolding del_key
  del_key-Shrinks c key = elim (Option-cases (find key c.items)) [
    | inl e ↦ rw (e, del_key) (Ensures-pure (Shrinks c) c (same c))
    | inr e ↦ rw (e.1, del_key) (del_item-Shrinks c e.0)
  ]

  abbrev pub IsBounded : ItemCache V → Type 0
  IsBounded c = length c.items ≤ c.max_size

  -- If a cache has no more items than its maximum, then so it has after Add, whichever items expire or
  -- are deleted for the new one, and whether there is room for that. (Following the pointer of a deleted
  -- item would end the call with no cache.)
  pub add-IsBounded :
      (c : ItemCache V) (now : ℤ) (key : ℕ) (value : V) (expiration_ms : ℤ)
      → IsBounded c
      → Ensures IsBounded (add c now key value expiration_ms)
  unfolding add insert_item
  add-IsBounded c now key value expiration_ms b =
      Ensures-bind (Shrinks c) IsBounded (expire_some c now) _ (expire-Shrinks c now) λ c1 h1.
        Ensures-bind (Shrinks c1) IsBounded (del_key c1 key) _ (del_key-Shrinks c1 key) λ c2 h2.
          Ensures-bind (Shrinks c2) IsBounded _ _
            (Ensures-branch (Shrinks c2) (leb c2.max_size (length c2.items)) _ _
              (λ e. del_by_algorithm-Shrinks c2) (λ e. Ensures-pure (Shrinks c2) c2 (same c2)))
            λ c3 h3.
              let all = Shrinks-trans c c2 c3 (Shrinks-trans c c1 c2 h1 h2) h3 in
              Ensures-branch IsBounded (leb c3.max_size (length c3.items)) _ _
                (λ e. Ensures-pure IsBounded _ (omega (arith, b, all.0, all.1)))
                (λ e. Ensures-pure IsBounded _ (ground (arith, e)))
