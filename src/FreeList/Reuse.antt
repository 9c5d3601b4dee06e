-- ===== src/FreeList/Reuse.antt =====
-- What base/free_list.h guarantees to those who take and give back objects.
use whisperlib.Prelude.{
  ℕ, zero, suc, ◌+◌, ◌-◌, ◌≤◌, ◌==◌, ltb, ◌≡◌, refl, ap, inl, inr, if◌then◌else◌, Bool-cases,
  Option, none, some, Option-cases, List, [], ◌∷◌, ◌++◌, length, take, drop, take-append-drop,
  length-drop, arith,
}
use whisperlib.FreeList.Lists.{
  FreeList, new_free_list, allocate, new_object, dispose, append_all, dispose_all,
}

-- What the users of the list do: take an object, give back their object of a number in the order of
-- taking, or give back all.
pub data Use : Type 0 where
  take_object : Use
  give_back : ℕ → Use
  give_back_all : Use

-- The list and the objects that are taken.
pub record Pool : Type 0 where
  pub list : FreeList
  pub taken : List ℕ

-- The element at a position, if there is one, and the others.
unfoldable pub pick : ℕ → List ℕ → Option ℕ × List ℕ
pick i [] = (none, [])
pick zero (x ∷ xs) = (some x, xs)
pick (suc i) (x ∷ xs) = let r = pick i xs in (r.0, x ∷ r.1)

unfoldable pub use_list : Use → Pool → Pool
use_list take_object p = let r = new_object p.list in record { list = r.0; taken = r.1 ∷ p.taken }
use_list (give_back i) p =
    let r = pick i p.taken in
    elim r.0 [ none ↦ p | some x ↦ record { list = (dispose p.list x).0; taken = r.1 } ]
use_list give_back_all p = record { list = dispose_all p.list p.taken; taken = [] }

unfoldable pub use_all : List Use → Pool → Pool
use_all [] p = p
use_all (u ∷ us) p = use_all us (use_list u p)

-- How often a number is in a list.
abbrev pub count : ℕ → List ℕ → ℕ
count x [] = 0
count x (y ∷ ys) = (if y == x then 1 else 0) + count x ys

pub count-append : (x : ℕ) (ys zs : List ℕ) → count x (ys ++ zs) ≡ count x ys + count x zs
count-append x [] zs = omega arith
count-append x (y ∷ ys) zs = omega (arith, count-append x ys zs)

count-append_all : (x : ℕ) (ps fs : List ℕ) → count x (append_all ps fs) ≡ count x ps + count x fs
unfolding append_all
count-append_all x [] fs = omega arith
count-append_all x (p ∷ ps) fs = omega (arith, count-append_all x ps (p ∷ fs))

count-pick :
    (x i y : ℕ) (ys : List ℕ)
    → (pick i ys).0 ≡ some x
    → count y (x ∷ []) + count y (pick i ys).1 ≡ count y ys
unfolding pick
count-pick x i y [] e = cc
count-pick x zero y (z ∷ zs) e = ground (arith, e)
count-pick x (suc i) y (z ∷ zs) e = omega (arith, count-pick x i y zs e)

-- Where an object is: taken, free, or deleted.
abbrev pub places : ℕ → Pool → ℕ
places x p = count x p.taken + (count x p.list.free_list + count x p.list.deleted)

-- Each object that was allocated is at one place, and no other is; no more than max_size_ are free.
abbrev pub IsKept : Pool → Type 0
IsKept p =
    ((x : ℕ) → places x p ≡ (if ltb x p.list.next_object then 1 else 0))
    × (length p.list.free_list ≤ p.list.max_size)

take_from :
    (p : Pool) (f : List ℕ) → IsKept p → p.list.free_list ≡ f → IsKept (use_list take_object p)
unfolding use_list new_object allocate
take_from p [] w e =
    rw (e, use_list, new_object)
      ((λ x. let h = w.0 x in let c = ap (count x) e in ground (arith, h, c)), omega arith)
take_from p (y ∷ ys) w e =
    rw (e, use_list, new_object)
      (
        (λ x. let h = w.0 x in let c = ap (count x) e in omega (arith, h, c)),
        (let n = ap (λ l. length l) e in omega (arith, n, w.1)),
      )

dispose-IsKept :
    (p : Pool) (x : ℕ) (left : List ℕ)
    → IsKept p
    → ((y : ℕ) → count y (x ∷ []) + count y left ≡ count y p.taken)
    → IsKept (record { list = (dispose p.list x).0; taken = left })
unfolding dispose
dispose-IsKept p x left w c = elim (Bool-cases (ltb (length p.list.free_list) p.list.max_size)) [
  | inl e ↦ rw (e, dispose) ((λ y. omega (arith, w.0 y, c y)), ground (arith, e))
  | inr e ↦ rw (e, dispose) ((λ y. omega (arith, w.0 y, c y)), w.1)
]

give_back-IsKept : (p : Pool) (i : ℕ) → IsKept p → IsKept (use_list (give_back i) p)
unfolding use_list
give_back-IsKept p i w = elim (Option-cases (pick i p.taken).0) [
  | inl e ↦ rw (e, use_list) w
  | inr e ↦
      rw (e.1, use_list)
        (dispose-IsKept p e.0 (pick i p.taken).1 w (λ y. count-pick e.0 i y p.taken e.1))
]

give_back_all-IsKept : (p : Pool) → IsKept p → IsKept (use_list give_back_all p)
unfolding use_list dispose_all
give_back_all-IsKept p w =
    let all = append_all p.taken p.list.free_list in
    let over = length all - p.list.max_size in
    (
      (λ x.
          let whole = ap (count x) (take-append-drop over all) in
          omega (
            arith,
            w.0 x,
            whole,
            count-append x (take over all) (drop over all),
            count-append x (take over all) p.list.deleted,
            count-append_all x p.taken p.list.free_list,
          )),
      omega (arith, length-drop over all),
    )

use-IsKept : (u : Use) (p : Pool) → IsKept p → IsKept (use_list u p)
use-IsKept take_object p w = take_from p p.list.free_list w refl
use-IsKept (give_back i) p w = give_back-IsKept p i w
use-IsKept give_back_all p w = give_back_all-IsKept p w

use_steps : (us : List Use) (p : Pool) → IsKept p → IsKept (use_all us p)
unfolding use_all
use_steps [] p w = w
use_steps (u ∷ us) p w = use_steps us (use_list u p) (use-IsKept u p w)

-- From an empty list on, however its users take objects and give them back, each object that was
-- allocated is at one place only: with one user, in the list, or deleted; so no two users have the same
-- object, and none a deleted one. The list keeps at most max_size objects.
pub use_all-IsKept :
    (max_size : ℕ) (us : List Use)
    → IsKept (use_all us (record { list = new_free_list max_size; taken = [] }))
unfolding new_free_list
use_all-IsKept max_size us =
    use_steps us (record { list = new_free_list max_size; taken = [] })
      ((λ x. ground arith), omega arith)
