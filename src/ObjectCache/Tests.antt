-- ===== src/ObjectCache/Tests.antt =====
-- A cache of two objects that is full, and the theorem at it.
use gameoftrees.Base.{◌≡◌, refl, [], ◌∷◌, ◌∷◌}
use gameoftrees.Error.{Error}
use gameoftrees.ObjectIdset.{leaf, node}
use gameoftrees.ObjectCache.{Sizes, obj, CacheType, ObjectCache, get_size, add_deltas}

abbrev sizes : Sizes
sizes = record {
  object = 120;
  delta = 56;
  tree_object = 24;
  tree_entry = 48;
  commit_object = 96;
  object_id = 20;
  object_qid = 40;
  tag_object = 80;
}

abbrev full : ObjectCache
full = record {
  type = CacheType.type_obj;
  idset = record {
    entries =
        node leaf (record { id = 1 ∷ []; payload = 70 })
          (node leaf (record { id = 4 ∷ []; payload = 71 }) leaf);
    totelem = 2;
  };
  size = 2;
  cache_searches = 0;
  cache_hit = 0;
  cache_miss = 0;
  cache_evict = 0;
  cache_toolarge = 0;
}

deltas_size : get_size sizes (obj 2 3) ≡ 288
unfolding get_size add_deltas
deltas_size = refl
