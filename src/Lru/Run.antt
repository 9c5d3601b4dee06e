-- ===== src/Lru/Run.antt =====
-- Sequences of calls on a cache of base/lru_cache.h: the invariant that they keep.
use whisperlib.Prelude.{
  ℕ, suc, ◌≡◌, refl, ap, ◌∙◌, ◌⊎◌, inl, inr, Bool, true, false, not, ◌&&◌, Bool-cases, Option-cases,
  Option, none, List, [], ◌∷◌, arith, ℤ, pos, negsuc, leb_ℤ, ltb_ℤ, -ℤ_parts,
}
use whisperlib.Prelude.Outcome.{
  Outcome, done, ◌>>=◌, Returns, Returns-bind, Returns-branch, Returns-pure, Returns-mono,
  Returns-check,
}
use whisperlib.Lru.Store.{find, is_some}
use whisperlib.Lru.Cache.{
  Policy, Cache, new_cache, put_entry, insert_created, remove_entry, get_lookup, get_insert,
  put_added, evict_all, trim_if, has_key,
}
use whisperlib.Lru.Consistent.{total, IsConsistent}
use whisperlib.Lru.Steps.{
  moved, put_entry-IsConsistent, insert_created-IsConsistent, remove_entry-IsConsistent,
}
use whisperlib.Lru.Trimming.{AfterTrim, trim_to_size-IsTrimmed}

-- A call on the cache. Get is its two locked regions, so that other calls can come between them.
pub data Step (V : Type 0) : Type 0 where
  lookup : ℕ → Step V
  insert : ℕ → V → Step V
  store : ℕ → V → (added : Bool) → Step V
  drop : ℕ → Step V
  evict : Step V

module _ {V : Type 0} (policy : Policy V) where
  unfoldable pub step : Step V → Cache V → Outcome (Cache V)
  step (lookup key) c = get_lookup policy c key >>= λ r. done r.0
  step (insert key created) c = get_insert policy c key created >>= λ r. done r.0
  step (store key value added) c = put_added policy c key value added >>= λ r. done r.0
  step (drop key) c = done (remove_entry policy c key).0
  step evict c = evict_all policy c

  unfoldable pub run : List (Step V) → Cache V → Outcome (Cache V)
  run [] c = done c
  run (o ∷ os) c = step o c >>= λ c'. run os c'

  -- The cache is consistent; and unless it may overshoot, it is within its maximum.
  abbrev pub IsSound : Cache V → Type 0
  IsSound c =
      IsConsistent policy c
      × ((ltb_ℤ (pos 0) c.max_size_ ≡ true)
          × ((c.allow_overshoot_ ≡ true) ⊎ (leb_ℤ c.size_ c.max_size_ ≡ true)))

  empty-size : (c : Cache V) → IsConsistent policy c → c.list_ ≡ [] → c.size_ ≡ pos 0
  empty-size c w e = w.1.1 ∙ ap (λ l. pos (total policy l c.map_)) e

  -- After a trimming to the maximum.
  trimmed-IsSound :
      (c c' : Cache V)
      → ltb_ℤ (pos 0) c.max_size_ ≡ true
      → AfterTrim policy c.max_size_ c c'
      → IsSound c'
  trimmed-IsSound c c' p t =
      let positive : ltb_ℤ (pos 0) c'.max_size_ ≡ true = ap (ltb_ℤ (pos 0)) t.1.0.0 ∙ p in
      let bound : leb_ℤ c'.size_ c'.max_size_ ≡ true = elim t.1.1.1.1.1.0 [
        | inl h ↦ ap (leb_ℤ c'.size_) t.1.0.0 ∙ h
        | inr h ↦ let size = empty-size c' t.0 h in ground arith
      ] in
      (t.0, (positive, inr bound))

  trim_if-IsSound :
      (b : Bool) (c : Cache V)
      → IsConsistent policy c
      → ltb_ℤ (pos 0) c.max_size_ ≡ true
      → (b ≡ false → IsSound c)
      → Returns IsSound (trim_if policy b c)
  unfolding trim_if
  trim_if-IsSound b c w p k =
      Returns-branch IsSound b _ _
        (λ e.
          Returns-mono (AfterTrim policy c.max_size_ c) IsSound _
            (trim_to_size-IsTrimmed policy c c.max_size_ w) (λ c' t. trimmed-IsSound c c' p t))
        (λ e. Returns-pure IsSound c (k e))

  lookup-IsSound :
      (c : Cache V) (k : ℕ) → IsSound c → Returns (λ r. IsSound r.0) (get_lookup policy c k)
  unfolding get_lookup
  lookup-IsSound c k w = elim (Option-cases (find k c.map_)) [
    | inl e ↦
        rw (e, get_lookup)
          (Returns-bind IsSound (λ r. IsSound r.0)
            (trim_if policy c.allow_overshoot_ (record c { miss_count_ = suc c.miss_count_ })) _
            (trim_if-IsSound c.allow_overshoot_ (record c { miss_count_ = suc c.miss_count_ }) w.0
              w.1.0 (λ h. w))
            (λ c' h. Returns-pure (λ r. IsSound r.0) (c', none) h))
    | inr e ↦
        rw (e.1, get_lookup)
          (Returns-pure (λ (r : Cache V × Option V). IsSound r.0) _
            (moved policy c k e.0 w.0 e.1, w.1))
  ]

  abbrev KeepsSettings : Cache V → Cache V → Type 0
  KeepsSettings c c' = (c'.max_size_ ≡ c.max_size_) × (c'.allow_overshoot_ ≡ c.allow_overshoot_)

  insert_created-settings :
      (c : Cache V) (k : ℕ) (v : V) → KeepsSettings c (insert_created policy c k v).0
  unfolding insert_created
  insert_created-settings c k v = elim (Option-cases (find k c.map_)) [
    | inl e ↦ rw (e, insert_created) (refl, refl)
    | inr e ↦ rw (e.1, insert_created) (refl, refl)
  ]

  put_entry-settings :
      (c : Cache V) (k : ℕ) (v : V) (added : Bool)
      → KeepsSettings c (put_entry policy c k v added).0
  unfolding put_entry
  put_entry-settings c k v added = elim (Option-cases (find k c.map_)) [
    | inl e ↦ rw (e, put_entry) (refl, refl)
    | inr e ↦ rw (e.1, put_entry) (refl, refl)
  ]

  -- A value that was created for a key of the cache changes no size.
  dumped-size :
      (c : Cache V) (k : ℕ) (v : V)
      → has_key c k ≡ true
      → (insert_created policy c k v).0.size_ ≡ c.size_
  unfolding insert_created has_key
  dumped-size c k v h = elim (Option-cases (find k c.map_)) [
    | inl e ↦ absurd (let n = ap is_some e in cc)
    | inr e ↦ rw (e.1, insert_created) refl
  ]

  insert-IsSound :
      (c : Cache V) (k : ℕ) (v : V)
      → IsSound c
      → Returns (λ r. IsSound r.0) (get_insert policy c k v)
  unfolding get_insert
  insert-IsSound c k v w =
      let r = (insert_created policy c k v).0 in
      let same = insert_created-settings c k v in
      let kept = insert_created-IsConsistent policy c k v w.0 in
      let positive : ltb_ℤ (pos 0) r.max_size_ ≡ true = ap (ltb_ℤ (pos 0)) same.0 ∙ w.1.0 in
      let rest : (not (has_key c k) && not c.allow_overshoot_) ≡ false → IsSound r = λ e. (
        kept,
        (
          positive,
          elim (Bool-cases c.allow_overshoot_) [
            | inl a ↦ inl (same.1 ∙ a)
            | inr a ↦
                let known : has_key c k ≡ true = ground (arith, e, a) in
                let size = dumped-size c k v known in
                elim w.1.1 [ inl h ↦ inl (same.1 ∙ h) | inr h ↦ inr (rw (size, same.0) h) ]
          ],
        ),
      ) in
      Returns-bind IsSound (λ r. IsSound r.0) _ _
        (trim_if-IsSound (not (has_key c k) && not c.allow_overshoot_) r kept positive rest)
        (λ c' h. Returns-pure (λ (r : Cache V × V). IsSound r.0) _ h)

  store-IsSound :
      (c : Cache V) (k : ℕ) (v : V) (added : Bool)
      → IsSound c
      → Returns (λ r. IsSound r.0) (put_added policy c k v added)
  unfolding put_added
  store-IsSound c k v added w =
      Returns-bind IsSound (λ r. IsSound r.0) _ _
        (trim_if-IsSound c.allow_overshoot_ c w.0 w.1.0 (λ e. w))
        (λ c1 w1.
          let r = (put_entry policy c1 k v added).0 in
          let same = put_entry-settings c1 k v added in
          let kept = put_entry-IsConsistent policy c1 k v added w1.0 in
          let positive : ltb_ℤ (pos 0) r.max_size_ ≡ true = ap (ltb_ℤ (pos 0)) same.0 ∙ w1.1.0 in
          Returns-bind IsSound (λ r. IsSound r.0) _ _
            (trim_if-IsSound (not c1.allow_overshoot_) r kept positive
              (λ e. (kept, (positive, inl (same.1 ∙ ground (arith, e))))))
            (λ c' h. Returns-pure (λ (r : Cache V × Option V). IsSound r.0) _ h))

  drop-IsSound : (c : Cache V) (k : ℕ) → IsSound c → IsSound (remove_entry policy c k).0
  unfolding remove_entry
  drop-IsSound c k w = (
    remove_entry-IsConsistent policy c k w.0,
    elim (Option-cases (find k c.map_)) [
      | inl e ↦ rw (e, remove_entry) (w.1)
      | inr e ↦
          rw (e.1, remove_entry)
            (
              w.1.0,
              elim w.1.1 [
                | inl h ↦ inl h
                | inr h ↦ inr (
                    let parts = -ℤ_parts c.size_ (pos (policy.size_of k e.0)) in
                    ground (arith, h, parts))
              ],
            )
    ],
  )

  -- EvictAll leaves no entry.
  pub evict_all-empty :
      (c : Cache V)
      → IsConsistent policy c
      → Returns
          (λ c'. (c'.list_ ≡ []) × ((c'.size_ ≡ pos 0) × AfterTrim policy (negsuc 0) c c'))
          (evict_all policy c)
  unfolding evict_all
  evict_all-empty c w =
      Returns-mono (AfterTrim policy (negsuc 0) c) _ _
        (trim_to_size-IsTrimmed policy c (negsuc 0) w)
        λ c' t.
          let none_left : c'.list_ ≡ [] = elim t.1.1.1.1.1.0 [
            | inl h ↦ absurd (let size = t.0.1.1 in ground (arith, h, size))
            | inr h ↦ h
          ] in
          (none_left, (empty-size c' t.0 none_left, t))

  step-IsSound : (o : Step V) (c : Cache V) → IsSound c → Returns IsSound (step o c)
  unfolding step
  step-IsSound (lookup k) c w =
      Returns-bind (λ r. IsSound r.0) IsSound _ _ (lookup-IsSound c k w)
        λ r h. Returns-pure IsSound r.0 h
  step-IsSound (insert k v) c w =
      Returns-bind (λ r. IsSound r.0) IsSound _ _ (insert-IsSound c k v w)
        λ r h. Returns-pure IsSound r.0 h
  step-IsSound (store k v added) c w =
      Returns-bind (λ r. IsSound r.0) IsSound _ _ (store-IsSound c k v added w)
        λ r h. Returns-pure IsSound r.0 h
  step-IsSound (drop k) c w = Returns-pure IsSound _ (drop-IsSound c k w)
  step-IsSound evict c w =
      Returns-mono _ IsSound (evict_all policy c) (evict_all-empty c w.0) λ c' h.
        let positive : ltb_ℤ (pos 0) c'.max_size_ ≡ true = ap (ltb_ℤ (pos 0)) h.1.1.1.0.0 ∙ w.1.0 in
        let size = h.1.0 in (h.1.1.0, (positive, inr (ground arith)))

  run_steps : (os : List (Step V)) (c : Cache V) → IsSound c → Returns IsSound (run os c)
  unfolding run
  run_steps [] c w = Returns-pure IsSound c w
  run_steps (o ∷ os) c w =
      Returns-bind IsSound IsSound (step o c) _ (step-IsSound o c w) λ c' h. run_steps os c' h

  -- From a new cache with a positive maximum, every sequence of calls (Put, Remove, EvictAll and the two
  -- locked regions of Get in any order) ends without a failed CHECK. Then the list and the map of the
  -- cache have the same keys, each once; its size is the sum of the sizes of its entries; and unless
  -- overshooting is allowed, that is within the maximum.
  pub run-IsSound :
      (max_size : ℤ) (allow_overshoot : Bool) (os : List (Step V))
      → ltb_ℤ (pos 0) max_size ≡ true
      → Returns IsSound (new_cache max_size allow_overshoot >>= run os)
  unfolding new_cache
  run-IsSound max_size allow_overshoot os p =
      Returns-bind IsSound IsSound (new_cache max_size allow_overshoot) (run os)
        (Returns-check IsSound _ _ p
          (Returns-pure IsSound _ ((tt, ((λ k. refl), refl)), (p, inr (ground (arith, p))))))
        (λ c w. run_steps os c w)
