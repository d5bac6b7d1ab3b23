-- ===== src/DeltaCache/Tests.antt =====
-- Runs of lib/delta_cache.c on a concrete cache, and its theorems at it.
use gameoftrees.Base.{◌≡◌, ◌<◌, ◌⊎◌, refl, true, false, [], ◌∷◌, none, some, arith}
use gameoftrees.Error.{no_space, errno}
use gameoftrees.DeltaCache.{DeltaCache, take_out, after_search, cache_get, cache_add}
use gameoftrees.DeltaCache.Lru.{IsValid, lookup, cache_add_lem, cache_add-cache_get}

-- Two elements in a cache for two.
abbrev full_cache : DeltaCache
full_cache = record {
  entries =
      record { delta_data_offset = 10; delta_data = 1 ∷ [] }
      ∷ record { delta_data_offset = 20; delta_data = 2 ∷ [] }
      ∷ [];
  nelem = 2;
  maxelem = 2;
  maxelemsize = 4;
  cache_search = 0;
  cache_hit = 0;
  cache_miss = 0;
  cache_evict = 0;
  cache_toolarge = 0;
}

full_cache-IsValid : IsValid full_cache
full_cache-IsValid = (refl, omega arith, (omega arith, (omega arith, tt)))

hit_last : (cache_get full_cache 20).1 ≡ some (2 ∷ [])
unfolding cache_get after_search take_out
hit_last = refl

cache_add_lem_example :
    IsValid (cache_add true full_cache 30 (3 ∷ [])).0
    × (((4 < 1) × ((cache_add true full_cache 30 (3 ∷ [])).1 ≡ some no_space))
        ⊎ ((true ≡ false) × ((cache_add true full_cache 30 (3 ∷ [])).1 ≡ some errno))
        ⊎ (((cache_add true full_cache 30 (3 ∷ [])).1 ≡ none)
            × (lookup (cache_add true full_cache 30 (3 ∷ [])).0.entries 30 ≡ some (3 ∷ []))))
cache_add_lem_example = cache_add_lem true full_cache 30 (3 ∷ []) full_cache-IsValid (omega arith)

-- The element of offset 20, last until it is found, outlives the addition of a third.
cache_add-cache_get_example :
    lookup (cache_add true (cache_get full_cache 20).0 30 (3 ∷ [])).0.entries 20 ≡ some (2 ∷ [])
cache_add-cache_get_example =
    cache_add-cache_get true full_cache 20 30 (2 ∷ []) (3 ∷ []) full_cache-IsValid (omega arith)
      hit_last (omega arith)
