-- ===== src/ObjectCache.antt =====
-- lib/object_cache.c: objects, trees, commits and tags by their identifiers, over a set of
-- identifiers. The set's pointer for an identifier stands for the item of its cache entry.
mod Bounds
mod Tests
use gameoftrees.Base.{
  ℕ, zero, suc, ◌+◌, ◌-◌, ◌*◌, ◌%◌, ◌^◌, Bool, true, false, not, List, [], ◌∷◌, Bytes, Option, none,
  some, bit_and, ltb, leb, ◌==◌, if◌then◌else◌, length,
}
use gameoftrees.Error.{Error, errno, obj_type, obj_too_large, Result, ok, err, trap}
use gameoftrees.ObjectIdset.{Idset, IdTree, leaf, RbOps, idset_get, idset_add, idset_remove}

-- What `sizeof` gives for the structures.
pub record Sizes : Type 0 where
  pub object : ℕ
  pub delta : ℕ
  pub tree_object : ℕ
  pub tree_entry : ℕ
  pub commit_object : ℕ
  pub object_id : ℕ
  pub object_qid : ℕ
  pub tag_object : ℕ

-- The fields of an item that its size depends on.
pub data CacheItem : Type 0 where
  obj : (flags ndeltas : ℕ) → CacheItem
  tree : (nentries : ℕ) → CacheItem
  commit : (author committer logmsg : Bytes) → (nparents : ℕ) → CacheItem
  tag : (name tagger tagmsg : Bytes) → CacheItem

pub data CacheType : Type 0 where
  type_obj type_tree type_commit type_tag : CacheType
  -- a value outside the enumeration
  no_type : CacheType

abbrev pub flag_deltified : ℕ
flag_deltified = 2

abbrev size_max : ℕ
size_max = 2 ^ 64 - 1

-- The loop of get_size_obj over the deltas.
pub add_deltas : ℕ → ℕ → ℕ → ℕ
add_deltas one zero size = size
add_deltas one (suc n) size =
    let rest = add_deltas one n (size + one) in if ltb (size_max - one) size then size_max else rest

-- The sums of get_size_tree, get_size_commit and get_size_tag are of a `size_t`.
pub get_size : Sizes → CacheItem → ℕ
get_size sizes (obj flags ndeltas) =
    if bit_and flags flag_deltified == 0
    then sizes.object
    else add_deltas sizes.delta ndeltas sizes.object
get_size sizes (tree nentries) = (sizes.tree_object + sizes.tree_entry * nentries) % 2 ^ 64
get_size sizes (commit author committer logmsg nparents) =
    (sizes.commit_object
      + sizes.object_id
      + length author
      + length committer
      + length logmsg
      + nparents * (sizes.object_qid + sizes.object_id))
    % 2 ^ 64
get_size sizes (tag name tagger tagmsg) =
    (sizes.tag_object + length name + length tagger + length tagmsg) % 2 ^ 64

-- The switch over the type, with an item as the cache's type reads it; `none` is its default.
pub item_size : Sizes → CacheType → CacheItem → Option ℕ
item_size sizes CacheType.no_type contents = none
item_size sizes CacheType.type_obj contents = some (get_size sizes contents)
item_size sizes CacheType.type_tree contents = some (get_size sizes contents)
item_size sizes CacheType.type_commit contents = some (get_size sizes contents)
item_size sizes CacheType.type_tag contents = some (get_size sizes contents)

pub record ObjectCache : Type 0 where
  pub type : CacheType
  pub idset : Idset
  pub size : ℕ
  pub cache_searches : ℕ
  pub cache_hit : ℕ
  pub cache_miss : ℕ
  pub cache_evict : ℕ
  pub cache_toolarge : ℕ

pub cache_size : CacheType → ℕ
cache_size CacheType.type_obj = 256
cache_size CacheType.type_tree = 256
cache_size CacheType.type_commit = 64
cache_size CacheType.type_tag = 2048
cache_size CacheType.no_type = 0

pub object_cache_init : Bool → CacheType → Result ObjectCache
object_cache_init allocated type =
    if not allocated
    then err errno
    else ok (record {
      type = type;
      idset = record { entries = leaf; totelem = 0 };
      size = cache_size type;
      cache_searches = 0;
      cache_hit = 0;
      cache_miss = 0;
      cache_evict = 0;
      cache_toolarge = 0;
    })

abbrev pub max_elem_size : ℕ
max_elem_size = 1048576

-- A hit returns inside the `switch`; a miss falls through it.
abbrev counted : ObjectCache → Option ℕ → ObjectCache × Option ℕ
counted cache none = (record cache { cache_miss = cache.cache_miss + 1 }, none)
counted cache (some item) = (record cache { cache_hit = cache.cache_hit + 1 }, some item)

pub object_cache_get : ObjectCache → Bytes → ObjectCache × Option ℕ
object_cache_get cache id =
    counted (record cache { cache_searches = cache.cache_searches + 1 }) (idset_get cache.idset id)

module _ (rb : RbOps) (sizes : Sizes) where
  -- The item evicted is closed: got_object_close and the like drop the cache's reference.
  pub evict : ObjectCache → Result (Idset × ℕ) → Result ObjectCache
  evict cache (err e) = err e
  evict cache (trap z) = trap z
  evict cache (ok (set, item)) =
      ok (record cache { idset = set; cache_evict = cache.cache_evict + 1 })

  pub make_room : ObjectCache → Result ObjectCache
  make_room cache =
      if leb cache.size cache.idset.totelem
      then evict cache (idset_remove rb cache.idset none)
      else ok cache

  -- The cache and the error, if any; the code goes on with what it has evicted.
  pub store : ObjectCache → Result Idset → Result (ObjectCache × Option Error)
  store cache (err e) = ok (cache, some e)
  store cache (trap z) = trap z
  store cache (ok set) = ok (record cache { idset = set }, none)

  -- The Booleans say whether malloc(3) has room for the cache entry and for the set's element.
  pub add_item :
      Bool
      → Bool
      → Bytes
      → ℕ
      → ObjectCache
      → Result ObjectCache
      → Result (ObjectCache × Option Error)
  add_item entry_allocated element_allocated id item cache (err e) = ok (cache, some e)
  add_item entry_allocated element_allocated id item cache (trap z) = trap z
  add_item entry_allocated element_allocated id item cache (ok roomy) =
      if not entry_allocated
      then ok (roomy, some errno)
      else store roomy (idset_add rb element_allocated roomy.idset id item)

  pub object_cache_add :
      Bool → Bool → ObjectCache → Bytes → ℕ → CacheItem → Result (ObjectCache × Option Error)
  object_cache_add entry_allocated element_allocated cache id item contents =
      elim (item_size sizes cache.type contents) [
        | none ↦ ok (cache, some obj_type)
        | some size ↦
            if ltb max_elem_size size
            then ok (record cache { cache_toolarge = cache.cache_toolarge + 1 }, some obj_too_large)
            else add_item entry_allocated element_allocated id item cache (make_room cache)
      ]
