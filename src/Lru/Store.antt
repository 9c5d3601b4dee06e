-- ===== src/Lru/Store.antt =====
-- The containers of base/lru_cache.h: the hash_map of the entries, as an association list, and the
-- std::list of the keys. A key is a number: of keys, the cache uses only equality and hashing.
-- A key stands at most once in either, so an entry or a list node is erased by its key.
use whisperlib.Prelude.{
  ℕ, ◌==◌, ◌≡◌, refl, ap, ◌⊎◌, inl, inr, Bool, true, false, ◌||◌, if◌then◌else◌, Option, none, some,
  List, [], ◌∷◌, ◌++◌, arith,
}

module _ {V : Type 0} where
  abbrev pub find : ℕ → List (ℕ × V) → Option V
  find k [] = none
  find k ((j, v) ∷ m) = if j == k then some v else find k m

  abbrev pub erase : ℕ → List (ℕ × V) → List (ℕ × V)
  erase k [] = []
  erase k ((j, v) ∷ m) = let rest = erase k m in if j == k then rest else (j, v) ∷ rest

  -- it->second.first = v
  abbrev pub assign : ℕ → V → List (ℕ × V) → List (ℕ × V)
  assign k v [] = []
  assign k v ((j, w) ∷ m) = let rest = assign k v m in if j == k then (j, v) ∷ m else (j, w) ∷ rest

abbrev pub elem : ℕ → List ℕ → Bool
elem k [] = false
elem k (j ∷ ks) = j == k || elem k ks

abbrev pub remove : ℕ → List ℕ → List ℕ
remove k [] = []
remove k (j ∷ ks) = let rest = remove k ks in if j == k then ks else j ∷ rest

-- The list without its last element, and that element.
abbrev pub unsnoc : List ℕ → Option (List ℕ × ℕ)
unsnoc [] = none
unsnoc (k ∷ ks) = elim (unsnoc ks) [ none ↦ some ([], k) | some r ↦ some (k ∷ r.0, r.1) ]

-- No key stands in the list twice.
abbrev pub IsUnique : List ℕ → Type 0
IsUnique [] = Unit {0}
IsUnique (k ∷ ks) = (elem k ks ≡ false) × IsUnique ks

abbrev pub is_some : {V : Type 0} → Option V → Bool
is_some none = false
is_some (some v) = true

module _ {V : Type 0} where
  pub find-erase_self : (k : ℕ) (m : List (ℕ × V)) → find k (erase k m) ≡ none
  find-erase_self k [] = refl
  find-erase_self k ((j, v) ∷ m) = ground (arith, find-erase_self k m)

  pub find-erase_ne :
      (k j : ℕ) (m : List (ℕ × V)) → (k == j) ≡ false → find j (erase k m) ≡ find j m
  find-erase_ne k j [] h = refl
  find-erase_ne k j ((i, v) ∷ m) h = ground (arith, find-erase_ne k j m h)

  pub find-assign_self :
      (k : ℕ) (v : V) (m : List (ℕ × V))
      → is_some (find k m) ≡ true
      → find k (assign k v m) ≡ some v
  find-assign_self k v [] h = ground arith
  find-assign_self k v ((j, w) ∷ m) h = ground (arith, find-assign_self k v m)

  pub find-assign_ne :
      (k j : ℕ) (v : V) (m : List (ℕ × V)) → (k == j) ≡ false → find j (assign k v m) ≡ find j m
  find-assign_ne k j v [] h = refl
  find-assign_ne k j v ((i, w) ∷ m) h = ground (arith, find-assign_ne k j v m h)

pub elem-remove_self : (k : ℕ) (ks : List ℕ) → IsUnique ks → elem k (remove k ks) ≡ false
elem-remove_self k [] u = refl
elem-remove_self k (j ∷ ks) u = ground (arith, elem-remove_self k ks u.1)

pub elem-remove_ne : (k j : ℕ) (ks : List ℕ) → (k == j) ≡ false → elem j (remove k ks) ≡ elem j ks
elem-remove_ne k j [] h = refl
elem-remove_ne k j (i ∷ ks) h = ground (arith, elem-remove_ne k j ks h)

pub remove-IsUnique : (k : ℕ) (ks : List ℕ) → IsUnique ks → IsUnique (remove k ks)
remove-IsUnique k [] u = tt
remove-IsUnique k (j ∷ ks) u = ground (arith, remove-IsUnique k ks u.1, elem-remove_ne k j ks)

pub remove-absent : (k : ℕ) (ks : List ℕ) → elem k ks ≡ false → remove k ks ≡ ks
remove-absent k [] h = refl
remove-absent k (j ∷ ks) h = ground (arith, remove-absent k ks)

-- A list is empty, or it ends with the element that unsnoc gives.
pub unsnoc-cases :
    (ks : List ℕ)
    → ((ks ≡ []) × (unsnoc ks ≡ none))
      ⊎ ((r : List ℕ × ℕ) × ((ks ≡ r.0 ++ r.1 ∷ []) × (unsnoc ks ≡ some r)))
unsnoc-cases [] = inl (refl, refl)
unsnoc-cases (k ∷ ks) = elim (unsnoc-cases ks) [
  | inl h ↦ inr (([], k), (ap (λ x. k ∷ x) h.0, rw (h.1)))
  | inr h ↦ inr ((k ∷ h.0.0, h.0.1), (ap (λ x. k ∷ x) h.1.0, rw (h.1.1)))
]

pub elem-append_one : (k j : ℕ) (ks : List ℕ) → elem k (ks ++ j ∷ []) ≡ (elem k ks || (j == k))
elem-append_one k j [] = ground arith
elem-append_one k j (i ∷ ks) = ground (arith, elem-append_one k j ks)

pub IsUnique-append_one :
    (j : ℕ) (ks : List ℕ) → IsUnique (ks ++ j ∷ []) → IsUnique ks × (elem j ks ≡ false)
IsUnique-append_one j [] u = (tt, refl)
IsUnique-append_one j (i ∷ ks) u =
    ground (arith, IsUnique-append_one j ks u.1, elem-append_one i j ks)
