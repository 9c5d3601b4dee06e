-- ===== src/Lru/Cache.antt =====
-- LruCache of base/lru_cache.h. Its locks are left out: a call runs without interruption, but for Get,
-- which is two steps, since other calls can run while a value is created. Counters are natural numbers;
-- size_ and the bounds are integers.
use whisperlib.Prelude.{
  ℕ, zero, suc, Bool, true, false, not, ◌&&◌, ◌||◌, if◌then◌else◌, Option, none, some, List, [],
  ◌∷◌, length, ℤ, pos, negsuc, ◌+ℤ◌, ◌-ℤ◌, ltb_ℤ, leb_ℤ, eqb_ℤ,
}
use whisperlib.Prelude.Outcome.{Outcome, done, starved, ◌>>=◌, check, or_abort, branch}
use whisperlib.Lru.Store.{find, erase, assign, remove, unsnoc, is_some}

-- What the cache asks of its LruCachePolicy. SizeOf gives no negative number, which SafeSizeOf checks.
pub record Policy (V : Type 0) : Type 0 where
  pub size_of : ℕ → V → ℕ
  pub create : ℕ → Option V

-- The calls that the cache makes on its policy and on the references to its values.
pub data Call (V : Type 0) : Type 0 where
  create_ref : ℕ → V → Call V
  inc_ref : ℕ → V → Call V
  dec_ref : ℕ → V → Call V
  entry_removed : (evicted : Bool) → ℕ → V → Call V
  destroy : V → Call V

-- The most recently used key is the first of list_; the newest call is the first of `calls`.
pub record Cache (V : Type 0) : Type 0 where
  pub list_ : List ℕ
  pub map_ : List (ℕ × V)
  pub size_ : ℤ
  pub max_size_ : ℤ
  pub allow_overshoot_ : Bool
  pub put_count_ : ℕ
  pub create_count_ : ℕ
  pub eviction_count_ : ℕ
  pub hit_count_ : ℕ
  pub miss_count_ : ℕ
  pub calls : List (Call V)

-- LruCache(max_size, policy, allow_overshoot)
unfoldable pub new_cache :
    {V : Type 0} → (max_size : ℤ) → (allow_overshoot : Bool) → Outcome (Cache V)
new_cache max_size allow_overshoot = do
  _ ← check (ltb_ℤ (pos 0) max_size)
  done (record {
    list_ = [];
    map_ = [];
    size_ = pos 0;
    max_size_ = max_size;
    allow_overshoot_ = allow_overshoot;
    put_count_ = 0;
    create_count_ = 0;
    eviction_count_ = 0;
    hit_count_ = 0;
    miss_count_ = 0;
    calls = [];
  })

module _ {V : Type 0} where
  unfoldable pub has_key : Cache V → ℕ → Bool
  has_key c key = is_some (find key c.map_)

  unfoldable pub count : Cache V → ℕ
  count c = length c.map_

  unfoldable pub is_full : Cache V → Bool
  is_full c = leb_ℤ c.max_size_ c.size_

  -- AdjustSize, with its DCHECK.
  unfoldable pub adjust_size : Cache V → ℕ → (delta : ℤ) → Outcome (Cache V × Bool)
  adjust_size c key delta =
      branch (has_key c key)
        (do
          _ ← check (ltb_ℤ (pos 0) delta || ltb_ℤ (pos 0 -ℤ delta) c.size_)
          done (record c { size_ = c.size_ +ℤ delta }, true))
        (done (c, false))

  abbrev pub map_empty : List (ℕ × V) → Bool
  map_empty [] = true
  map_empty (e ∷ m) = false

  -- The entry of the last key is taken out.
  unfoldable pub evict_last : Policy V → Cache V → (rest : List ℕ) → (key : ℕ) → Outcome (Cache V)
  evict_last policy c rest key = do
    value ← or_abort (find key c.map_)
    done (record c {
      list_ = rest;
      map_ = erase key c.map_;
      size_ = c.size_ -ℤ pos (policy.size_of key value);
      eviction_count_ = suc c.eviction_count_;
      calls = entry_removed true key value ∷ c.calls;
    })

  -- The loop of TrimToSize. Where list_ is empty and map_ is not, the source breaks out of the loop.
  unfoldable pub trim_loop : Policy V → (fuel : ℕ) → Cache V → (max_size : ℤ) → Outcome (Cache V)
  trim_loop policy zero c max_size = starved
  trim_loop policy (suc fuel) c max_size = do
    _ ← check (leb_ℤ (pos 0) c.size_ && not (map_empty c.map_ && not (eqb_ℤ c.size_ (pos 0))))
    branch (leb_ℤ c.size_ max_size || map_empty c.map_) (done c) (elim (unsnoc c.list_) [
      | none ↦ done c
      | some r ↦ evict_last policy c r.0 r.1 >>= λ c'. trim_loop policy fuel c' max_size
    ])

  -- TrimToSize: each round takes a key off list_.
  unfoldable pub trim_to_size : Policy V → Cache V → (max_size : ℤ) → Outcome (Cache V)
  trim_to_size policy c max_size = trim_loop policy (suc (length c.list_)) c max_size

  -- EvictAll
  unfoldable pub evict_all : Policy V → Cache V → Outcome (Cache V)
  evict_all policy c = trim_to_size policy c (negsuc 0)

  -- `if (allow_overshoot_) TrimToSize(max_size_)`, and the same with `!allow_overshoot_`.
  unfoldable pub trim_if : Policy V → Bool → Cache V → Outcome (Cache V)
  trim_if policy b c = branch b (trim_to_size policy c c.max_size_) (done c)

  -- The first locked region of Get, and the trimming after a miss.
  unfoldable pub get_lookup : Policy V → Cache V → ℕ → Outcome (Cache V × Option V)
  get_lookup policy c key = elim (find key c.map_) [
    | some value ↦ done (
      record c {
        list_ = key ∷ remove key c.list_;
        hit_count_ = suc c.hit_count_;
        calls = inc_ref key value ∷ c.calls;
      },
      some value,
    )
    | none ↦ do
      c' ← trim_if policy c.allow_overshoot_ (record c { miss_count_ = suc c.miss_count_ })
      done (c', none)
  ]

  -- The second locked region of Get, for a value that the policy created: the cache and the value that
  -- Get gives out.
  unfoldable pub insert_created : Policy V → Cache V → ℕ → V → Cache V × V
  insert_created policy c key created = elim (find key c.map_) [
    | some value ↦ (
      record c {
        create_count_ = suc c.create_count_;
        list_ = key ∷ remove key c.list_;
        calls = destroy created ∷ inc_ref key value ∷ c.calls;
      },
      value,
    )
    | none ↦ (
      record c {
        create_count_ = suc c.create_count_;
        list_ = key ∷ c.list_;
        map_ = (key, created) ∷ c.map_;
        size_ = c.size_ +ℤ pos (policy.size_of key created);
        calls = inc_ref key created ∷ create_ref key created ∷ c.calls;
      },
      created,
    )
  ]

  -- Get after Create: the created value is dumped when the key is in the cache.
  unfoldable pub get_insert : Policy V → Cache V → ℕ → V → Outcome (Cache V × V)
  get_insert policy c key created =
      let r = insert_created policy c key created in
      do c' ← trim_if policy (not (has_key c key) && not c.allow_overshoot_) r.0; done (c', r.1)

  -- Get, when no other call runs while the value is created.
  unfoldable pub get : Policy V → Cache V → ℕ → Outcome (Cache V × Option V)
  get policy c key = do
    (c1, found) ← get_lookup policy c key
    elim found [
      | some value ↦ done (c1, some value)
      | none ↦ elim (policy.create key) [
        | none ↦ done (c1, none)
        | some created ↦ get_insert policy c1 key created >>= λ r. done (r.0, some r.1)
      ]
    ]

  -- The locked region of Put, with the calls up to the trimming. `added` says whether the caller asked
  -- for a reference to the new value.
  unfoldable pub put_entry : Policy V → Cache V → ℕ → V → (added : Bool) → Cache V × Option V
  put_entry policy c key value added =
      let made = create_ref key value ∷ c.calls in
      let calls' = if added then inc_ref key value ∷ made else made in
      elim (find key c.map_) [
        | some previous ↦ (
          record c {
            put_count_ = suc c.put_count_;
            list_ = key ∷ remove key c.list_;
            map_ = assign key value c.map_;
            size_ = c.size_ -ℤ pos (policy.size_of key previous) +ℤ pos (policy.size_of key value);
            calls = entry_removed false key previous ∷ inc_ref key previous ∷ calls';
          },
          some previous,
        )
        | none ↦ (
          record c {
            put_count_ = suc c.put_count_;
            list_ = key ∷ c.list_;
            map_ = (key, value) ∷ c.map_;
            size_ = c.size_ +ℤ pos (policy.size_of key value);
            calls = calls';
          },
          none,
        )
      ]

  -- Put(key, value, previous, added), with the value that was replaced.
  unfoldable pub put_added :
      Policy V → Cache V → ℕ → V → (added : Bool) → Outcome (Cache V × Option V)
  put_added policy c key value added = do
    c1 ← trim_if policy c.allow_overshoot_ c
    let r = put_entry policy c1 key value added
    c2 ← trim_if policy (not c1.allow_overshoot_) r.0
    done (c2, r.1)

  -- previous->DecRef(), where there is a previous value.
  unfoldable pub release : ℕ → Cache V × Option V → Cache V × Bool
  release key (c, none) = (c, false)
  release key (c, some v) = (record c { calls = dec_ref key v ∷ c.calls }, true)

  -- Put(key, value)
  unfoldable pub put : Policy V → Cache V → ℕ → V → Outcome (Cache V × Bool)
  put policy c key value = put_added policy c key value false >>= λ r. done (release key r)

  -- Remove(key, previous)
  unfoldable pub remove_entry : Policy V → Cache V → ℕ → Cache V × Option V
  remove_entry policy c key = elim (find key c.map_) [
    | some previous ↦ (
      record c {
        list_ = remove key c.list_;
        map_ = erase key c.map_;
        size_ = c.size_ -ℤ pos (policy.size_of key previous);
        calls = entry_removed false key previous ∷ inc_ref key previous ∷ c.calls;
      },
      some previous,
    )
    | none ↦ (c, none)
  ]

  -- Remove(key)
  unfoldable pub remove_key : Policy V → Cache V → ℕ → Cache V × Bool
  remove_key policy c key = release key (remove_entry policy c key)
