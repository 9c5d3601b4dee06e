-- ===== src/Expiring/Cache.antt =====
-- Cache of base/cache.h. Items are objects on a heap, and the three indices of the cache have pointers to
-- them, which are numbers: to follow the pointer of a deleted item is an abort. The clock's reading is an
-- argument, `now`, and keys are numbers. A call runs under the mutex.
use whisperlib.Prelude.{
  ℕ, suc, ◌==◌, ltb, leb, Bool, true, false, if◌then◌else◌, Option, none, some, List, [], ◌∷◌, ◌++◌,
  length, ℤ, negsuc, ◌+ℤ◌, ltb_ℤ, eqb_ℤ,
}
use whisperlib.Prelude.Outcome.{Outcome, done, ◌>>=◌, or_abort, branch}
use whisperlib.Lru.Store.{find, erase, is_some, remove}

-- `begin_of` is the item at items_.begin(), in the order of the hash map.
pub data Algorithm : Type 0 where
  lru mru : Algorithm
  random : (begin_of : List (ℕ × ℕ) → Option ℕ) → Algorithm

pub record Item (V : Type 0) : Type 0 where
  pub key : ℕ
  pub value : V
  pub last_use : ℕ
  pub expiration_ts : ℤ

-- items_by_use_ is in the order of the uses; `destroyed` has the values that the destructor was given.
pub record ItemCache (V : Type 0) : Type 0 where
  pub algorithm : Algorithm
  pub max_size : ℕ
  pub default_expiration_ms : ℤ
  pub null_value : V
  pub items : List (ℕ × ℕ)
  pub items_by_use : List (ℕ × ℕ)
  pub items_by_exp : List ℕ
  pub next_use : ℕ
  pub heap : List (ℕ × Item V)
  pub next_item : ℕ
  pub destroyed : List V

-- items_by_use_[use] = item
unfoldable pub put_use : ℕ → ℕ → List (ℕ × ℕ) → List (ℕ × ℕ)
put_use k id [] = (k, id) ∷ []
put_use k id ((j, i) ∷ m) =
    let rest = put_use k id m in
    if ltb k j then (k, id) ∷ (j, i) ∷ m else if k == j then (k, id) ∷ m else (j, i) ∷ rest

abbrev pub last_id : List (ℕ × ℕ) → Option ℕ
last_id [] = none
last_id ((k, id) ∷ []) = some id
last_id (x ∷ y ∷ m) = last_id (y ∷ m)

abbrev pub first_id : List (ℕ × ℕ) → Option ℕ
first_id [] = none
first_id ((k, id) ∷ m) = some id

abbrev pub no_uses : List (ℕ × ℕ) → Bool
no_uses [] = true
no_uses (x ∷ m) = false

module _ {V : Type 0} where
  unfoldable pub new_item_cache :
      Algorithm → (max_size : ℕ) → (expiration_ms : ℤ) → (null_value : V) → ItemCache V
  new_item_cache algorithm max_size expiration_ms null_value = record {
    algorithm = algorithm;
    max_size = max_size;
    default_expiration_ms = expiration_ms;
    null_value = null_value;
    items = [];
    items_by_use = [];
    items_by_exp = [];
    next_use = 0;
    heap = [];
    next_item = 0;
    destroyed = [];
  }

  -- DelItemLocked
  unfoldable pub del_item : ItemCache V → ℕ → Outcome (ItemCache V)
  del_item c id = do
    item ← or_abort (find id c.heap)
    done (record c {
      items = erase item.key c.items;
      items_by_use = erase item.last_use c.items_by_use;
      items_by_exp = remove id c.items_by_exp;
      heap = erase id c.heap;
      destroyed = item.value ∷ c.destroyed;
    })

  -- The first loop of ExpireSomeCache: the items at the front of items_by_exp_ that expired.
  unfoldable pub expired : List ℕ → List (ℕ × Item V) → (now : ℤ) → Outcome (List ℕ)
  expired [] heap now = done []
  expired (id ∷ ids) heap now = do
    item ← or_abort (find id heap)
    branch (ltb_ℤ now item.expiration_ts) (done [])
        (expired ids heap now >>= λ rest. done (id ∷ rest))

  unfoldable pub del_items : List ℕ → ItemCache V → Outcome (ItemCache V)
  del_items [] c = done c
  del_items (id ∷ ids) c = del_item c id >>= λ c'. del_items ids c'

  -- ExpireSomeCache
  unfoldable pub expire_some : ItemCache V → (now : ℤ) → Outcome (ItemCache V)
  expire_some c now = expired c.items_by_exp c.heap now >>= λ to_del. del_items to_del c

  -- The item that DelByAlgorithmLocked takes.
  unfoldable pub to_delete : ItemCache V → Option ℕ
  to_delete c = elim c.algorithm [
    | Algorithm.lru ↦ first_id c.items_by_use
    | Algorithm.mru ↦ last_id c.items_by_use
    | Algorithm.random begin_of ↦ begin_of c.items
  ]

  -- DelByAlgorithmLocked, which is Del()
  unfoldable pub del_by_algorithm : ItemCache V → Outcome (ItemCache V)
  del_by_algorithm c =
      branch (no_uses c.items_by_use) (done c) (or_abort (to_delete c) >>= λ id. del_item c id)

  -- Del(key)
  unfoldable pub del_key : ItemCache V → ℕ → Outcome (ItemCache V)
  del_key c key = elim (find key c.items) [ none ↦ done c | some id ↦ del_item c id ]

  -- The end of Add: the new item.
  unfoldable pub insert_item : ItemCache V → ℕ → V → (expiration_ts : ℤ) → ItemCache V
  insert_item c key value expiration_ts = record c {
    items = (key, c.next_item) ∷ c.items;
    items_by_exp = c.items_by_exp ++ c.next_item ∷ [];
    items_by_use = put_use c.next_use c.next_item c.items_by_use;
    heap =
        (
          c.next_item,
          record { key = key; value = value; last_use = c.next_use; expiration_ts = expiration_ts },
        )
        ∷ c.heap;
    next_item = suc c.next_item;
    next_use = suc c.next_use;
  }

  -- Add
  unfoldable pub add : ItemCache V → (now : ℤ) → ℕ → V → (expiration_ms : ℤ) → Outcome (ItemCache V)
  add c now key value expiration_ms = do
    let lifetime = if eqb_ℤ expiration_ms (negsuc 0) then c.default_expiration_ms else expiration_ms
    c1 ← expire_some c now
    c2 ← del_key c1 key
    c3 ← branch (leb c2.max_size (length c2.items)) (del_by_algorithm c2) (done c2)
    branch (leb c3.max_size (length c3.items))
        (done (record c3 { destroyed = value ∷ c3.destroyed }))
        (done (insert_item c3 key value (now +ℤ lifetime)))

  unfoldable pub has : ItemCache V → ℕ → Bool
  has c key = is_some (find key c.items)

  -- Get
  unfoldable pub get : ItemCache V → (now : ℤ) → ℕ → Outcome (ItemCache V × V)
  get c now key = do
    c1 ← expire_some c now
    elim (find key c1.items) [
      | none ↦ done (c1, c1.null_value)
      | some id ↦ do
        item ← or_abort (find id c1.heap)
        done (
          record c1 {
            items_by_use = put_use c1.next_use id (erase item.last_use c1.items_by_use);
            next_use = suc c1.next_use;
            heap = (id, record item { last_use = c1.next_use }) ∷ erase id c1.heap;
          },
          item.value,
        )
    ]

  -- Pop: the item that is deleted has the null value.
  unfoldable pub pop : ItemCache V → (now : ℤ) → ℕ → Outcome (ItemCache V × V)
  pop c now key = do
    c1 ← expire_some c now
    elim (find key c1.items) [
      | none ↦ done (c1, c1.null_value)
      | some id ↦ do
        item ← or_abort (find id c1.heap)
        c2 ←
            del_item
              (record c1 { heap = (id, record item { value = c1.null_value }) ∷ erase id c1.heap })
              id
        done (c2, item.value)
    ]

  -- The loop of Clear.
  unfoldable pub delete_all : List (ℕ × ℕ) → ItemCache V → Outcome (ItemCache V)
  delete_all [] c = done c
  delete_all ((key, id) ∷ m) c = do
    item ← or_abort (find id c.heap)
    delete_all m (record c { heap = erase id c.heap; destroyed = item.value ∷ c.destroyed })

  -- Clear, which leaves items_by_exp_ as it is.
  unfoldable pub clear : ItemCache V → Outcome (ItemCache V)
  clear c = do c' ← delete_all c.items c; done (record c' { items = []; items_by_use = [] })
