-- ===== src/FreeList/Lists.antt =====
-- FreeList and FreeArrayList of base/free_list.h. A pointer is a number; the allocator gives the numbers
-- of `next_object` on, so no object has the number of another, and `deleted` has the objects that were
-- given back to it. FreeArrayList has the same methods on arrays of one size, and the variants for
-- threads call these methods under a mutex.
use whisperlib.Prelude.{
  ℕ, suc, ◌+◌, ◌-◌, ◌^◌, ◌%◌, ltb, Bool, true, false, if◌then◌else◌, List, [], ◌∷◌, ◌++◌, length,
  take, drop,
}

-- The last element of the vector is the head of `free_list`.
pub record FreeList : Type 0 where
  pub outstanding : ℕ
  pub max_size : ℕ
  pub free_list : List ℕ
  pub next_object : ℕ
  pub deleted : List ℕ

-- size_t arithmetic
abbrev pub word : ℕ
word = 2 ^ 64

unfoldable pub new_free_list : (max_size : ℕ) → FreeList
new_free_list max_size = record {
  outstanding = 0;
  max_size = max_size;
  free_list = [];
  next_object = 0;
  deleted = [];
}

-- Allocate()
unfoldable pub allocate : FreeList → FreeList × ℕ
allocate l = (record l { next_object = suc l.next_object }, l.next_object)

-- New()
unfoldable pub new_object : FreeList → FreeList × ℕ
new_object l =
    let l' = record l { outstanding = (l.outstanding + 1) % word } in
    elim l.free_list [ [] ↦ allocate l' | p ∷ ps ↦ (record l' { free_list = ps }, p) ]

-- Dispose(p): whether the object was deleted.
unfoldable pub dispose : FreeList → ℕ → FreeList × Bool
dispose l p =
    let l' = record l { outstanding = (l.outstanding + (word - 1)) % word } in
    if ltb (length l.free_list) l.max_size
    then (record l' { free_list = p ∷ l.free_list }, false)
    else (record l' { deleted = p ∷ l.deleted }, true)

-- The vector with the elements of ps put at its end, one after the other.
unfoldable pub append_all : List ℕ → List ℕ → List ℕ
append_all [] fs = fs
append_all (p ∷ ps) fs = append_all ps (p ∷ fs)

-- DisposeAll(p): of more than max_size_ objects, the last ones are deleted.
unfoldable pub dispose_all : FreeList → List ℕ → FreeList
dispose_all l ps =
    let all = append_all ps l.free_list in
    let over = length all - l.max_size in
    record l {
      outstanding = (l.outstanding + (word - length ps % word)) % word;
      free_list = drop over all;
      deleted = take over all ++ l.deleted;
    }

-- ~FreeList()
unfoldable pub destroy_list : FreeList → FreeList
destroy_list l = record l { free_list = []; deleted = l.free_list ++ l.deleted }
