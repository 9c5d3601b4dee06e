-- ===== src/Lru/Trimming.antt =====
-- TrimToSize of base/lru_cache.h: what it evicts, and that it ends.
use whisperlib.Prelude.{
  ℕ, zero, suc, ◌+◌, ◌<◌, ◌==◌, ==_iff, ◌≡◌, refl, sym, ap, ◌∙◌, subst, ◌⊎◌, inl, inr, Bool, true,
  false, not, ◌&&◌, ◌||◌, if◌then◌else◌, Bool-cases, Option-cases, Option, none, some, List, [],
  ◌∷◌, ◌++◌, length, length-append, arith, ℤ, pos, ◌-ℤ◌, ◌+ℤ◌, -ℤ_parts, +ℤ_parts, eq_of_parts,
  leb_ℤ, eqb_ℤ,
}
use mathlib.Core.List.{append-nil, append_assoc}
use whisperlib.Prelude.Outcome.{
  Returns, Returns-bind, Returns-check, Returns-branch, Returns-pure, Returns-mono,
}
use whisperlib.Lru.Store.{
  find, erase, elem, remove, unsnoc-cases, is_some, IsUnique, find-erase_ne, elem-append_one,
  IsUnique-append_one,
}
use whisperlib.Lru.Cache.{Policy, Cache, evict_last, trim_loop, trim_to_size, map_empty}
use whisperlib.Lru.Consistent.{total, IsConsistent, SameKeys}
use whisperlib.Lru.Steps.{dropped}

remove-append_one : (k : ℕ) (ks : List ℕ) → elem k ks ≡ false → remove k (ks ++ k ∷ []) ≡ ks
remove-append_one k [] h = ground arith
remove-append_one k (j ∷ ks) h = ground (arith, remove-append_one k ks)

elem-append_left : (k : ℕ) (ks ls : List ℕ) → elem k ks ≡ true → elem k (ks ++ ls) ≡ true
elem-append_left k [] ls h = cc
elem-append_left k (j ∷ ks) ls h = ground (arith, elem-append_left k ks ls)

elem-middle : (z : ℕ) (ks ls : List ℕ) → elem z (ks ++ z ∷ ls) ≡ true
elem-middle z [] ls = ground arith
elem-middle z (j ∷ ks) ls = ground (arith, elem-middle z ks ls)

empty-total :
    {V : Type 0} (policy : Policy V) (ks : List ℕ) (m : List (ℕ × V))
    → SameKeys ks m
    → map_empty m ≡ true
    → total policy ks m ≡ 0
empty-total policy [] m s h = refl
empty-total policy (k ∷ ks) [] s h = let t = s k in ground arith
empty-total policy (k ∷ ks) (e ∷ m) s h = cc

empty-keys :
    {V : Type 0} (ks : List ℕ) (m : List (ℕ × V)) → SameKeys ks m → map_empty m ≡ true → ks ≡ []
empty-keys [] m s h = refl
empty-keys (k ∷ ks) [] s h = let t = s k in ground arith
empty-keys (k ∷ ks) (e ∷ m) s h = cc

none_of : {V : Type 0} (o : Option V) → is_some o ≡ false → o ≡ none
none_of none h = refl
none_of (some v) h = cc

only-keys :
    {V : Type 0} (ks : List ℕ) (m : List (ℕ × V))
    → SameKeys ks m
    → (j : ℕ) → find j m ≡ (if elem j ks then find j m else none)
only-keys ks m s j = elim (Bool-cases (elem j ks)) [
  | inl e ↦ rw (e) refl
  | inr e ↦ rw (e) (none_of (find j m) (sym (s j) ∙ e))
]

test_off : (y j : ℕ) (ks : List ℕ) → elem y ks ≡ false → elem j ks ≡ true → (y == j) ≡ false
test_off y j ks never m = elim (Bool-cases (y == j)) [
  | inl q ↦
      let again : elem y ks ≡ true = subst (λ i. elem i ks ≡ true) (sym ((==_iff y j).0 q)) m in
      absurd cc
  | inr q ↦ q
]

back : (a b : ℤ) → (a -ℤ b) +ℤ b ≡ a
back a b =
    let p = -ℤ_parts a b in
    let q = +ℤ_parts (a -ℤ b) b in eq_of_parts ((a -ℤ b) +ℤ b) a (omega (arith, p, q))

or_neither : (a b : Bool) → (a || b) ≡ false → a ≡ false
or_neither true b h = cc
or_neither false b h = refl

module _ {V : Type 0} (policy : Policy V) where
  -- Without the last eviction, of the newest key that is gone, the size was still above the bound.
  abbrev pub IsNeeded : ℤ → Cache V → Cache V → List ℕ → Type 0
  IsNeeded max_size c c' [] = c'.size_ ≡ c.size_
  IsNeeded max_size c c' (y ∷ gone) =
      (v : V) × ((find y c.map_ ≡ some v)
        × (leb_ℤ (c'.size_ +ℤ pos (policy.size_of y v)) max_size ≡ false))

  -- The cache `c'` is `c` without the keys at the end of the list that are `gone`.
  abbrev pub IsTrimmed : ℤ → Cache V → Cache V → Type 0
  IsTrimmed max_size c c' =
      (gone : List ℕ) × ((c.list_ ≡ c'.list_ ++ gone)
        × ((c'.eviction_count_ ≡ c.eviction_count_ + length gone)
            × (((leb_ℤ c'.size_ max_size ≡ true) ⊎ (c'.list_ ≡ []))
                × (((j : ℕ) → find j c'.map_ ≡ (if elem j c'.list_ then find j c.map_ else none))
                    × IsNeeded max_size c c' gone))))

  -- The settings of the cache.
  abbrev pub SameSettings : Cache V → Cache V → Type 0
  SameSettings c c' = (c'.max_size_ ≡ c.max_size_) × (c'.allow_overshoot_ ≡ c.allow_overshoot_)

  abbrev pub AfterTrim : ℤ → Cache V → Cache V → Type 0
  AfterTrim max_size c c' = IsConsistent policy c' × (SameSettings c c' × IsTrimmed max_size c c')

  size_check :
      (c : Cache V)
      → IsConsistent policy c
      → (leb_ℤ (pos 0) c.size_ && not (map_empty c.map_ && not (eqb_ℤ c.size_ (pos 0)))) ≡ true
  size_check c w = elim (Bool-cases (map_empty c.map_)) [
    | inl e ↦
        let size : c.size_ ≡ pos 0 = w.1.1 ∙ ap pos (empty-total policy c.list_ c.map_ w.1.0 e) in
        ground arith
    | inr e ↦ let size = w.1.1 in ground arith
  ]

  stays :
      (max_size : ℤ) (c : Cache V)
      → IsConsistent policy c
      → (leb_ℤ c.size_ max_size ≡ true) ⊎ (c.list_ ≡ [])
      → AfterTrim max_size c c
  stays max_size c w e = (
    w,
    (
      (refl, refl),
      ([], (sym (append-nil c.list_), (omega arith, (e, (only-keys c.list_ c.map_ w.1.0, refl))))),
    ),
  )

  -- The size of the value of `y` is taken off.
  abbrev Freed : Cache V → Cache V → ℕ → Type 0
  Freed c c' y =
      (v : V) × ((find y c.map_ ≡ some v) × (c'.size_ ≡ c.size_ -ℤ pos (policy.size_of y v)))

  -- What evict_last does: the cache stays consistent, without its last key.
  evicted :
      (c : Cache V) (ks : List ℕ) (y : ℕ)
      → IsConsistent policy c
      → c.list_ ≡ ks ++ y ∷ []
      → Returns
          (λ c'.
            IsConsistent policy c'
            × (SameSettings c c'
                × ((c'.list_ ≡ ks)
                    × ((c'.eviction_count_ ≡ suc c.eviction_count_)
                        × ((c'.map_ ≡ erase y c.map_) × Freed c c' y)))))
          (evict_last policy c ks y)
  unfolding Returns evict_last
  evicted c ks y w e =
      let u : IsUnique (ks ++ y ∷ []) = subst IsUnique e w.0 in
      let last = IsUnique-append_one y ks u in
      let without : remove y c.list_ ≡ ks = ap (remove y) e ∙ remove-append_one y ks last.1 in
      let here : is_some (find y c.map_) ≡ true =
        sym (w.1.0 y) ∙ ap (elem y) e ∙ elem-append_one y y ks ∙ (ground arith) in
      elim (Option-cases (find y c.map_)) [
        | inl n ↦ absurd (let gone = ap is_some n in cc)
        | inr f ↦ rw (f.1) (
          subst
              (λ l. IsConsistent policy (record c {
                list_ = l;
                map_ = erase y c.map_;
                size_ = c.size_ -ℤ pos (policy.size_of y f.0);
              }))
              without (dropped policy c y f.0 w f.1),
          ((refl, refl), (refl, (refl, (refl, (f.0, (refl, refl)))))),
        )
      ]

  needed :
      (max_size : ℤ) (c c1 c' : Cache V) (ks gone : List ℕ) (y : ℕ)
      → IsConsistent policy c
      → c.list_ ≡ ks ++ y ∷ []
      → ks ≡ c'.list_ ++ gone
      → c1.map_ ≡ erase y c.map_
      → Freed c c1 y
      → leb_ℤ c.size_ max_size ≡ false
      → IsNeeded max_size c1 c' gone
      → IsNeeded max_size c c' (gone ++ y ∷ [])
  needed max_size c c1 c' ks [] y w e whole map freed above same = (
    freed.0,
    (
      freed.1.0,
      ap (λ n. leb_ℤ (n +ℤ pos (policy.size_of y freed.0)) max_size) (same ∙ freed.1.1)
          ∙ ap (λ n. leb_ℤ n max_size) (back c.size_ (pos (policy.size_of y freed.0)))
          ∙ above,
    ),
  )
  needed max_size c c1 c' ks (z ∷ gone) y w e whole map freed above t =
      let last = IsUnique-append_one y ks (subst IsUnique e w.0) in
      let in_ks : elem z ks ≡ true = ap (elem z) whole ∙ elem-middle z c'.list_ gone in
      let same_value = ap (find z) map ∙ find-erase_ne y z c.map_ (test_off y z ks last.1 in_ks) in
      (t.0, (sym same_value ∙ t.1.0, t.1.1))

  -- One round, and then a trimmed cache.
  round :
      (max_size : ℤ) (c c1 c' : Cache V) (ks : List ℕ) (y : ℕ)
      → IsConsistent policy c
      → c.list_ ≡ ks ++ y ∷ []
      → SameSettings c c1
      → (c1.list_ ≡ ks)
        × ((c1.eviction_count_ ≡ suc c.eviction_count_)
            × ((c1.map_ ≡ erase y c.map_) × Freed c c1 y))
      → leb_ℤ c.size_ max_size ≡ false
      → AfterTrim max_size c1 c'
      → AfterTrim max_size c c'
  round max_size c c1 c' ks y w e same h above t =
      let gone = t.1.1.0 in
      let whole : ks ≡ c'.list_ ++ gone = sym h.0 ∙ t.1.1.1.0 in
      let last = IsUnique-append_one y ks (subst IsUnique e w.0) in
      let kept : (j : ℕ) → find j c'.map_ ≡ (if elem j c'.list_ then find j c.map_ else none) = λ j.
        elim (Bool-cases (elem j c'.list_)) [
          | inl m ↦
              let in_ks : elem j ks ≡ true =
                ap (elem j) whole ∙ elem-append_left j c'.list_ gone m in
              let same_value =
                ap (find j) h.1.1.0 ∙ find-erase_ne y j c.map_ (test_off y j ks last.1 in_ks) in
              t.1.1.1.1.1.1.0 j ∙ rw (m) same_value
          | inr m ↦ t.1.1.1.1.1.1.0 j ∙ rw (m) refl
        ] in
      let keys = e ∙ ap (λ l. l ++ y ∷ []) whole ∙ append_assoc c'.list_ gone (y ∷ []) in
      (
        t.0,
        (
          (t.1.0.0 ∙ same.0, t.1.0.1 ∙ same.1),
          (
            gone ++ y ∷ [],
            (
              keys,
              (
                omega (arith, t.1.1.1.1.0, h.1.0, length-append gone (y ∷ [])),
                (
                  t.1.1.1.1.1.0,
                  (
                    kept,
                    needed max_size c c1 c' ks gone y w e whole h.1.1.0 h.1.1.1 above
                        t.1.1.1.1.1.1.1,
                  ),
                ),
              ),
            ),
          ),
        ),
      )

  ends :
      (c : Cache V) (max_size : ℤ)
      → IsConsistent policy c
      → (leb_ℤ c.size_ max_size || map_empty c.map_) ≡ true
      → (leb_ℤ c.size_ max_size ≡ true) ⊎ (c.list_ ≡ [])
  ends c max_size w e = elim (Bool-cases (map_empty c.map_)) [
    | inl m ↦ inr (empty-keys c.list_ c.map_ w.1.0 m)
    | inr m ↦ inl (ground (arith, e, m))
  ]

  shorter :
      {n : ℕ} (c c1 : Cache V) (ks : List ℕ) (y : ℕ)
      → length c.list_ < suc n
      → c.list_ ≡ ks ++ y ∷ []
      → c1.list_ ≡ ks
      → length c1.list_ < n
  shorter c c1 ks y f e h =
      omega (arith, ap (λ l. length l) e, ap (λ l. length l) h, length-append ks (y ∷ []))

  trim_loop_lem :
      (fuel : ℕ) (c : Cache V) (max_size : ℤ)
      → IsConsistent policy c
      → length c.list_ < fuel
      → Returns (AfterTrim max_size c) (trim_loop policy fuel c max_size)
  unfolding trim_loop
  trim_loop_lem zero c max_size w f = absurd (omega (arith, f))
  trim_loop_lem (suc fuel) c max_size w f = Returns-check _ _ _ (size_check c w) (
      Returns-branch _ (leb_ℤ c.size_ max_size || map_empty c.map_) _ _
        (λ e. Returns-pure _ c (stays max_size c w (ends c max_size w e)))
        (λ e. elim (unsnoc-cases c.list_) [
          | inl h ↦ rw (h.1) (Returns-pure _ c (stays max_size c w (inr h.0)))
          | inr h ↦ rw (h.1.1) (
              Returns-bind _ _ (evict_last policy c h.0.0 h.0.1) _ (evicted c h.0.0 h.0.1 w h.1.0)
                (λ c1 g.
                  Returns-mono _ _ _
                    (trim_loop_lem fuel c1 max_size g.0 (shorter c c1 h.0.0 h.0.1 f h.1.0 g.1.1.0))
                    (λ c' t.
                      round max_size c c1 c' h.0.0 h.0.1 w h.1.0 g.1.0 g.1.1
                        (or_neither (leb_ℤ c.size_ max_size) (map_empty c.map_) e) t)))
        ]))

-- On a consistent cache TrimToSize ends, with a consistent cache. It evicts keys from the old end of the
-- list only, counts them, leaves the other entries as they were, and stops with a size within the bound
-- or with no entry; and it evicts no more than it must: if any key is evicted, the size with the last one
-- that was evicted still in the cache is above the bound.
pub trim_to_size-IsTrimmed :
    {V : Type 0} (policy : Policy V) (c : Cache V) (max_size : ℤ)
    → IsConsistent policy c
    → Returns
        (λ c'. IsConsistent policy c' × (SameSettings policy c c' × IsTrimmed policy max_size c c'))
        (trim_to_size policy c max_size)
unfolding trim_to_size
trim_to_size-IsTrimmed policy c max_size w =
    trim_loop_lem policy (suc (length c.list_)) c max_size w (omega arith)
