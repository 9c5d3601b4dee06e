-- ===== src/Lru/Steps.antt =====
-- Every call of base/lru_cache.h keeps the cache consistent, and runs no loop out of fuel.
use whisperlib.Prelude.{
  ℕ, ◌+◌, ◌≡◌, refl, sym, ap, ◌∙◌, subst, inl, inr, Bool, false, Option-cases, Option, none, some,
  List, ◌∷◌, arith, pos, ◌+ℤ◌, ◌-ℤ◌, eq_of_parts, +ℤ_parts, -ℤ_parts,
}
use whisperlib.Lru.Store.{
  find, erase, assign, elem, remove, is_some, find-erase_self, find-erase_ne, find-assign_self,
  find-assign_ne, remove-IsUnique, remove-absent,
}
use whisperlib.Lru.Cache.{Policy, Cache, put_entry, insert_created, remove_entry, release}
use whisperlib.Lru.Consistent.{
  weight, total, IsConsistent, AgreeOff, SameKeys, front-SameKeys, drop-SameKeys, front-IsUnique,
  total-rest,
}

module _ {V : Type 0} where
  agree_cons : (k : ℕ) (v : V) (m : List (ℕ × V)) → AgreeOff k m ((k, v) ∷ m)
  agree_cons k v m j e = ground (arith, e)

  agree_assign : (k : ℕ) (v : V) (m : List (ℕ × V)) → AgreeOff k m (assign k v m)
  agree_assign k v m j e = find-assign_ne k j v m e

  agree_erase : (k : ℕ) (m : List (ℕ × V)) → AgreeOff k m (erase k m)
  agree_erase k m j e = find-erase_ne k j m e

  find_cons : (k : ℕ) (v : V) (m : List (ℕ × V)) → find k ((k, v) ∷ m) ≡ some v
  find_cons k v m = ground arith

-- Sizes: what the operations compute from a total.
add_size : (a b : ℕ) → pos a +ℤ pos b ≡ pos (b + a)
add_size a b = eq_of_parts (pos a +ℤ pos b) (pos (b + a)) (omega (arith, +ℤ_parts (pos a) (pos b)))

sub_size : (a b : ℕ) → pos (a + b) -ℤ pos a ≡ pos b
sub_size a b =
    eq_of_parts (pos (a + b) -ℤ pos a) (pos b) (omega (arith, -ℤ_parts (pos (a + b)) (pos a)))

module _ {V : Type 0} (policy : Policy V) where
  -- A key that is put in front with its value.
  front_size :
      (c : Cache V) (k : ℕ) (v : V) (n : List (ℕ × V))
      → IsConsistent policy c
      → AgreeOff k c.map_ n
      → find k n ≡ some v
      → c.size_ -ℤ pos (weight policy k (find k c.map_)) +ℤ pos (policy.size_of k v)
        ≡ pos (total policy (k ∷ remove k c.list_) n)
  front_size c k v n w a f =
      let old = weight policy k (find k c.map_) in
      let rest = total policy (remove k c.list_) n in
      let size : c.size_ ≡ pos (old + rest) =
        w.1.1 ∙ ap pos (total-rest policy k c.list_ c.map_ n w.0 w.1.0 a) in
      let less : c.size_ -ℤ pos old ≡ pos rest = ap (λ x. x -ℤ pos old) size ∙ sub_size old rest in
      ap (λ x. x +ℤ pos (policy.size_of k v)) less
      ∙ add_size rest (policy.size_of k v)
      ∙ ap (λ o. pos (weight policy k o + rest)) (sym f)

  -- A key that is taken out.
  drop_size :
      (c : Cache V) (k : ℕ) (n : List (ℕ × V))
      → IsConsistent policy c
      → AgreeOff k c.map_ n
      → c.size_ -ℤ pos (weight policy k (find k c.map_)) ≡ pos (total policy (remove k c.list_) n)
  drop_size c k n w a =
      let old = weight policy k (find k c.map_) in
      let rest = total policy (remove k c.list_) n in
      ap (λ x. x -ℤ pos old) (w.1.1 ∙ ap pos (total-rest policy k c.list_ c.map_ n w.0 w.1.0 a))
      ∙ sub_size old rest

  -- The key is put in front with its value, where the map has the key: the cache stays consistent.
  pub replaced :
      (c : Cache V) (k : ℕ) (v old : V)
      → IsConsistent policy c
      → find k c.map_ ≡ some old
      → IsConsistent policy (record c {
        list_ = k ∷ remove k c.list_;
        map_ = assign k v c.map_;
        size_ = c.size_ -ℤ pos (policy.size_of k old) +ℤ pos (policy.size_of k v);
      })
  replaced c k v old w e =
      let f : find k (assign k v c.map_) ≡ some v = find-assign_self k v c.map_ (ap is_some e) in
      let a = agree_assign k v c.map_ in
      (
        front-IsUnique k c.list_ w.0,
        (
          front-SameKeys k v c.list_ c.map_ (assign k v c.map_) w.1.0 a f,
          ap (λ o. c.size_ -ℤ pos (weight policy k o) +ℤ pos (policy.size_of k v)) (sym e)
              ∙ front_size c k v (assign k v c.map_) w a f,
        ),
      )

  pub moved :
      (c : Cache V) (k : ℕ) (v : V)
      → IsConsistent policy c
      → find k c.map_ ≡ some v
      → IsConsistent policy (record c { list_ = k ∷ remove k c.list_ })
  moved c k v w e =
      let here = sym (w.1.0 k) in
      (
        front-IsUnique k c.list_ w.0,
        (
          front-SameKeys k v c.list_ c.map_ c.map_ w.1.0 (λ j h. refl) e,
          w.1.1 ∙ ap pos (total-rest policy k c.list_ c.map_ c.map_ w.0 w.1.0 (λ j h. refl)),
        ),
      )

  pub inserted :
      (c : Cache V) (k : ℕ) (v : V)
      → IsConsistent policy c
      → find k c.map_ ≡ none
      → IsConsistent policy (record c {
        list_ = k ∷ c.list_;
        map_ = (k, v) ∷ c.map_;
        size_ = c.size_ +ℤ pos (policy.size_of k v);
      })
  inserted c k v w e =
      let n = (k, v) ∷ c.map_ in
      let absent : elem k c.list_ ≡ false = w.1.0 k ∙ ap is_some e in
      let same : remove k c.list_ ≡ c.list_ = remove-absent k c.list_ absent in
      let a = agree_cons k v c.map_ in
      let f : find k n ≡ some v = find_cons k v c.map_ in
      let none_weight : weight policy k (find k c.map_) ≡ 0 = ap (weight policy k) e in
      let same_rest = ap (λ l. total policy l n) same in
      let sizes : total policy c.list_ c.map_ ≡ total policy c.list_ n =
        omega (arith, total-rest policy k c.list_ c.map_ n w.0 w.1.0 a, none_weight, same_rest) in
      (
        (absent, w.0),
        (
          subst (λ l. SameKeys (k ∷ l) n) same (front-SameKeys k v c.list_ c.map_ n w.1.0 a f),
          ap (λ x. x +ℤ pos (policy.size_of k v)) (w.1.1 ∙ ap pos sizes)
              ∙ add_size (total policy c.list_ n) (policy.size_of k v)
              ∙ ap (λ o. pos (weight policy k o + total policy c.list_ n)) (sym f),
        ),
      )

  pub dropped :
      (c : Cache V) (k : ℕ) (old : V)
      → IsConsistent policy c
      → find k c.map_ ≡ some old
      → IsConsistent policy (record c {
        list_ = remove k c.list_;
        map_ = erase k c.map_;
        size_ = c.size_ -ℤ pos (policy.size_of k old);
      })
  dropped c k old w e =
      let a = agree_erase k c.map_ in
      (
        remove-IsUnique k c.list_ w.0,
        (
          drop-SameKeys k c.list_ c.map_ (erase k c.map_) w.0 w.1.0 a (find-erase_self k c.map_),
          ap (λ o. c.size_ -ℤ pos (weight policy k o)) (sym e) ∙ drop_size c k (erase k c.map_) w a,
        ),
      )

  pub put_entry-IsConsistent :
      (c : Cache V) (k : ℕ) (v : V) (added : Bool)
      → IsConsistent policy c
      → IsConsistent policy (put_entry policy c k v added).0
  unfolding put_entry
  put_entry-IsConsistent c k v added w = elim (Option-cases (find k c.map_)) [
    | inl e ↦ rw (e, put_entry) (inserted c k v w e)
    | inr e ↦ rw (e.1, put_entry) (replaced c k v e.0 w e.1)
  ]

  pub insert_created-IsConsistent :
      (c : Cache V) (k : ℕ) (v : V)
      → IsConsistent policy c
      → IsConsistent policy (insert_created policy c k v).0
  unfolding insert_created
  insert_created-IsConsistent c k v w = elim (Option-cases (find k c.map_)) [
    | inl e ↦ rw (e, insert_created) (inserted c k v w e)
    | inr e ↦ rw (e.1, insert_created) (moved c k e.0 w e.1)
  ]

  pub remove_entry-IsConsistent :
      (c : Cache V) (k : ℕ)
      → IsConsistent policy c
      → IsConsistent policy (remove_entry policy c k).0
  unfolding remove_entry
  remove_entry-IsConsistent c k w = elim (Option-cases (find k c.map_)) [
    | inl e ↦ rw (e, remove_entry) w
    | inr e ↦ rw (e.1, remove_entry) (dropped c k e.0 w e.1)
  ]

  pub release-IsConsistent :
      (k : ℕ) (r : Cache V × Option V)
      → IsConsistent policy r.0
      → IsConsistent policy (release k r).0
  unfolding release
  release-IsConsistent k (c, none) w = w
  release-IsConsistent k (c, some v) w = w
