-- ===== src/Lru/Consistent.antt =====
-- The invariant of base/lru_cache.h and its steps: the list of keys and the map have the same keys, and
-- the size is that of the entries.
use whisperlib.Prelude.{
  ℕ, ◌+◌, ◌==◌, ==_iff, ◌≡◌, refl, sym, ap, ◌∙◌, subst, inl, inr, true, false, Bool-cases, Option,
  none, some, List, [], ◌∷◌, arith, pos,
}
use whisperlib.Lru.Store.{
  find, elem, remove, is_some, IsUnique, elem-remove_self, elem-remove_ne, remove-IsUnique,
  remove-absent,
}
use whisperlib.Lru.Cache.{Policy, Cache}

module _ {V : Type 0} (policy : Policy V) where
  -- The size of an entry, nothing if there is none.
  abbrev pub weight : ℕ → Option V → ℕ
  weight k none = 0
  weight k (some v) = policy.size_of k v

  -- The size of the entries of the keys.
  abbrev pub total : List ℕ → List (ℕ × V) → ℕ
  total [] m = 0
  total (k ∷ ks) m = weight k (find k m) + total ks m

  pub total-remove :
      (k : ℕ) (ks : List ℕ) (m : List (ℕ × V))
      → elem k ks ≡ true
      → total ks m ≡ weight k (find k m) + total (remove k ks) m
  total-remove k [] m h = ground arith
  total-remove k (j ∷ ks) m h = elim (Bool-cases (j == k)) [
    | inl e ↦
        let j-k : j ≡ k = (==_iff j k).0 e in
        subst
          (λ i.
            weight i (find i m) + total ks m ≡ weight k (find k m) + total (remove k (i ∷ ks)) m)
          (sym j-k) (ground arith)
    | inr e ↦ ground (arith, total-remove k ks m)
  ]

  -- Maps that agree on the keys have the same total.
  pub total-agree :
      (ks : List ℕ) (m n : List (ℕ × V))
      → ((j : ℕ) → elem j ks ≡ true → find j m ≡ find j n)
      → total ks m ≡ total ks n
  total-agree [] m n h = refl
  total-agree (k ∷ ks) m n h =
      let first : find k m ≡ find k n = h k (ground arith) in
      let rest : total ks m ≡ total ks n = total-agree ks m n λ j e. h j (ground arith) in
      rw (first, rest)

  -- The keys stand in the list once each, and are those of the map; the size is the total.
  abbrev pub IsConsistent : Cache V → Type 0
  IsConsistent c =
      IsUnique c.list_
      × (((k : ℕ) → elem k c.list_ ≡ is_some (find k c.map_))
          × (c.size_ ≡ pos (total c.list_ c.map_)))

-- The maps differ at most at the key k.
abbrev pub AgreeOff : {V : Type 0} → ℕ → (m n : List (ℕ × V)) → Type 0
AgreeOff k m n = (j : ℕ) → (k == j) ≡ false → find j n ≡ find j m

abbrev pub SameKeys : {V : Type 0} → List ℕ → List (ℕ × V) → Type 0
SameKeys ks m = (j : ℕ) → elem j ks ≡ is_some (find j m)

pub front-IsUnique : (k : ℕ) (ks : List ℕ) → IsUnique ks → IsUnique (k ∷ remove k ks)
front-IsUnique k ks u = (elem-remove_self k ks u, remove-IsUnique k ks u)

eq_of_test : (k j : ℕ) → (k == j) ≡ true → k ≡ j
eq_of_test k j e = (==_iff k j).0 e

module _ {V : Type 0} where
  pub front-SameKeys :
      (k : ℕ) (v : V) (ks : List ℕ) (m n : List (ℕ × V))
      → SameKeys ks m
      → AgreeOff k m n
      → find k n ≡ some v
      → SameKeys (k ∷ remove k ks) n
  front-SameKeys k v ks m n s a f j = elim (Bool-cases (k == j)) [
    | inl e ↦
        subst (λ i. elem i (k ∷ remove k ks) ≡ is_some (find i n)) (eq_of_test k j e)
          (ground (arith, f))
    | inr e ↦ ground (arith, elem-remove_ne k j ks e, s j, a j e)
  ]

  pub drop-SameKeys :
      (k : ℕ) (ks : List ℕ) (m n : List (ℕ × V))
      → IsUnique ks
      → SameKeys ks m
      → AgreeOff k m n
      → find k n ≡ none
      → SameKeys (remove k ks) n
  drop-SameKeys k ks m n u s a f j = elim (Bool-cases (k == j)) [
    | inl e ↦
        subst (λ i. elem i (remove k ks) ≡ is_some (find i n)) (eq_of_test k j e)
          (ground (arith, f, elem-remove_self k ks u))
    | inr e ↦ ground (arith, elem-remove_ne k j ks e, s j, a j e)
  ]

  weight_absent :
      (policy : Policy V) (k : ℕ) (o : Option V) → is_some o ≡ false → weight policy k o ≡ 0
  weight_absent policy k none h = refl
  weight_absent policy k (some v) h = cc

  -- The total of the keys but k, in a map that may differ at k.
  pub total-rest :
      (policy : Policy V) (k : ℕ) (ks : List ℕ) (m n : List (ℕ × V))
      → IsUnique ks
      → SameKeys ks m
      → AgreeOff k m n
      → total policy ks m ≡ weight policy k (find k m) + total policy (remove k ks) n
  total-rest policy k ks m n u s a =
      let off : (j : ℕ) → elem j (remove k ks) ≡ true → (k == j) ≡ false = λ j e.
        elim (Bool-cases (k == j)) [
          | inl t ↦ absurd (
              let k-j = eq_of_test k j t in
              let gone : elem j (remove k ks) ≡ false =
                subst (λ i. elem i (remove k ks) ≡ false) k-j (elem-remove_self k ks u) in
              cc)
          | inr t ↦ t
        ] in
      let rest = total-agree policy (remove k ks) n m (λ j e. a j (off j e)) in
      elim (Bool-cases (elem k ks)) [
        | inl e ↦ omega (arith, total-remove policy k ks m e, rest)
        | inr e ↦
            let same : total policy (remove k ks) m ≡ total policy ks m =
              ap (λ l. total policy l m) (remove-absent k ks e) in
            omega (arith, weight_absent policy k (find k m) (sym (s k) ∙ e), same, rest)
      ]
