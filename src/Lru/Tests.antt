-- ===== src/Lru/Tests.antt =====
-- Concrete caches for base/lru_cache.h.
use whisperlib.Prelude.{
  ℕ, ◌==◌, ◌≡◌, refl, true, false, if◌then◌else◌, none, some, List, [], ◌∷◌, pos, negsuc, arith,
}
use whisperlib.Prelude.Outcome.{◌>>=◌, Returns}
use whisperlib.Lru.Cache.{Policy, Cache, new_cache, evict_all, trim_to_size}
use whisperlib.Lru.Consistent.{IsConsistent}
use whisperlib.Lru.Trimming.{IsTrimmed, SameSettings, AfterTrim, trim_to_size-IsTrimmed}
use whisperlib.Lru.Run.{
  Step, lookup, insert, store, drop, run, IsSound, run-IsSound, evict_all-empty,
}

-- A value is its own size, and a value can be created for the key 4.
abbrev sizes : Policy ℕ
sizes = record { size_of = λ k v. v; create = λ k. if k == 4 then some 2 else none }

abbrev program : List (Step ℕ)
program =
    store 1 2 false
    ∷ store 2 1 true
    ∷ lookup 1
    ∷ lookup 4
    ∷ insert 4 2
    ∷ store 1 1 false
    ∷ drop 4
    ∷ store 9 7 false
    ∷ []

-- Three entries of the sizes 2, 1 and 3, the key 7 used last.
abbrev three_entries : Cache ℕ
three_entries = record {
  list_ = 7 ∷ 5 ∷ 3 ∷ [];
  map_ = (3, 3) ∷ (5, 1) ∷ (7, 2) ∷ [];
  size_ = pos 6;
  max_size_ = pos 6;
  allow_overshoot_ = false;
  put_count_ = 3;
  create_count_ = 0;
  eviction_count_ = 0;
  hit_count_ = 0;
  miss_count_ = 0;
  calls = [];
}

three_entries-IsConsistent : IsConsistent sizes three_entries
three_entries-IsConsistent = ((refl, (refl, (refl, tt))), ((λ k. ground arith), refl))

run-IsSound_example : Returns (IsSound sizes) (new_cache (pos 4) false >>= run sizes program)
run-IsSound_example = run-IsSound sizes (pos 4) false program refl

trim_to_size-IsTrimmed_example :
    Returns
      (λ c'.
        IsConsistent sizes c'
        × (SameSettings sizes three_entries c' × IsTrimmed sizes (pos 4) three_entries c'))
      (trim_to_size sizes three_entries (pos 4))
trim_to_size-IsTrimmed_example =
    trim_to_size-IsTrimmed sizes three_entries (pos 4) three_entries-IsConsistent

evict_all-empty_example :
    Returns
      (λ c'. (c'.list_ ≡ []) × ((c'.size_ ≡ pos 0) × AfterTrim sizes (negsuc 0) three_entries c'))
      (evict_all sizes three_entries)
evict_all-empty_example = evict_all-empty sizes three_entries three_entries-IsConsistent
