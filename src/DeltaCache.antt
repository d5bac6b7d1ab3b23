-- ===== src/DeltaCache.antt =====
-- lib/delta_cache.c: a cache of delta data by its offset in a pack file, the least recently used
-- element last. The counters of the statistics are numbers without a bound.
mod Lru
mod Tests
use gameoftrees.Base.{
  ℕ, zero, suc, ◌+◌, ◌-◌, Bool, true, false, not, List, [], ◌∷◌, Bytes, Option, none, some, ltb,
  leb, ◌==◌, if◌then◌else◌, length,
}
use gameoftrees.Error.{Error, no_space, errno}

-- `delta_len` is the length of `delta_data`.
pub record Element : Type 0 where
  pub delta_data_offset : ℕ
  pub delta_data : Bytes

pub record DeltaCache : Type 0 where
  pub entries : List Element
  pub nelem : ℕ
  pub maxelem : ℕ
  pub maxelemsize : ℕ
  pub cache_search : ℕ
  pub cache_hit : ℕ
  pub cache_miss : ℕ
  pub cache_evict : ℕ
  pub cache_toolarge : ℕ

-- `allocated` says whether calloc(3) succeeds.
pub cache_alloc : Bool → ℕ → ℕ → Option DeltaCache
cache_alloc allocated maxelem maxelemsize =
    if not allocated
    then none
    else some (record {
      entries = [];
      nelem = 0;
      maxelem = maxelem;
      maxelemsize = maxelemsize;
      cache_search = 0;
      cache_hit = 0;
      cache_miss = 0;
      cache_evict = 0;
      cache_toolarge = 0;
    })

abbrev pub drop_last : List Element → List Element
drop_last [] = []
drop_last (e ∷ []) = []
drop_last (e ∷ f ∷ l) = e ∷ drop_last (f ∷ l)

pub remove_least_used : DeltaCache → DeltaCache
remove_least_used cache = if cache.nelem == 0 then cache else record cache {
  entries = drop_last cache.entries;
  nelem = cache.nelem - 1;
  cache_evict = cache.cache_evict + 1;
}

pub insert_head : Bool → Element → DeltaCache → DeltaCache × Option Error
insert_head allocated e cache =
    if not allocated
    then (cache, some errno)
    else (record cache { entries = e ∷ cache.entries; nelem = cache.nelem + 1 }, none)

-- The cache and the error, if any. A failing calloc(3) comes after the eviction.
pub cache_add : Bool → DeltaCache → ℕ → Bytes → DeltaCache × Option Error
cache_add allocated cache offset bytes =
    if ltb cache.maxelemsize (length bytes)
    then (record cache { cache_toolarge = cache.cache_toolarge + 1 }, some no_space)
    else insert_head allocated (record { delta_data_offset = offset; delta_data = bytes })
        (if leb cache.maxelem cache.nelem then remove_least_used cache else cache)

abbrev pub onto_rest : Element → Option (Element × List Element) → Option (Element × List Element)
onto_rest e none = none
onto_rest e (some (found, l)) = some (found, e ∷ l)

-- The first element with this offset, and the list without it.
pub take_out : ℕ → List Element → Option (Element × List Element)
take_out offset [] = none
take_out offset (e ∷ l) =
    let later = onto_rest e (take_out offset l) in
    if e.delta_data_offset == offset then some (e, l) else later

pub after_search : DeltaCache → Option (Element × List Element) → DeltaCache × Option Bytes
after_search cache none = (record cache { cache_miss = cache.cache_miss + 1 }, none)
after_search cache (some (e, l)) =
    (record cache { entries = e ∷ l; cache_hit = cache.cache_hit + 1 }, some e.delta_data)

-- An element found moves to the head of the list, where it stays if it is there.
pub cache_get : DeltaCache → ℕ → DeltaCache × Option Bytes
cache_get cache offset =
    after_search (record cache { cache_search = cache.cache_search + 1 })
      (take_out offset cache.entries)
