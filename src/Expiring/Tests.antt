-- ===== src/Expiring/Tests.antt =====
-- A concrete cache for base/cache.h.
use whisperlib.Prelude.{ℕ, ◌∷◌, [], pos, negsuc, arith}
use whisperlib.Prelude.Outcome.{Ensures}
use whisperlib.Expiring.Cache.{Algorithm, ItemCache, add}
use whisperlib.Expiring.Bound.{IsBounded, add-IsBounded}

-- A full cache of one item, which expires at 20.
abbrev full_cache : ItemCache ℕ
full_cache = record {
  algorithm = Algorithm.lru;
  max_size = 1;
  default_expiration_ms = pos 10;
  null_value = 0;
  items = (5, 0) ∷ [];
  items_by_use = (0, 0) ∷ [];
  items_by_exp = 0 ∷ [];
  next_use = 1;
  heap = (0, record { key = 5; value = 50; last_use = 0; expiration_ts = pos 20 }) ∷ [];
  next_item = 1;
  destroyed = [];
}

add-IsBounded_example : Ensures IsBounded (add full_cache (pos 12) 6 60 (negsuc 0))
add-IsBounded_example = add-IsBounded full_cache (pos 12) 6 60 (negsuc 0) (omega arith)
