-- ===== src/DeltaCache/Lru.antt =====
-- The delta cache as a map from offsets to data that forgets the least recently used first.
use gameoftrees.Base.{
  ℕ, ◌+◌, ◌-◌, ◌≡◌, ◌≢◌, ◌≤◌, ◌<◌, ◌⊎◌, inl, inr, refl, sym, ◌∙◌, Bool, true, false, List, [], ◌∷◌,
  Bytes, Option, none, some, ◌==◌, if◌then◌else◌, length, arith, All, Bool-cases, ltb, leb,
}
use gameoftrees.Error.{no_space, errno}
use gameoftrees.DeltaCache.{
  Element, DeltaCache, drop_last, remove_least_used, insert_head, cache_add, take_out, after_search,
  cache_get,
}

-- What the cache holds for an offset.
abbrev pub lookup : List Element → ℕ → Option Bytes
lookup [] offset = none
lookup (e ∷ l) offset = if e.delta_data_offset == offset then some e.delta_data else lookup l offset

-- The count is right and within its limit, and no element is too large.
abbrev pub IsValid : DeltaCache → Type 0
IsValid cache =
    (cache.nelem ≡ length cache.entries)
    × (cache.nelem ≤ cache.maxelem)
    × All (λ e. length e.delta_data ≤ cache.maxelemsize) cache.entries

length-drop_last : (l : List Element) → length (drop_last l) ≡ length l - 1
length-drop_last [] = omega arith
length-drop_last (e ∷ []) = omega arith
length-drop_last (e ∷ f ∷ l) = omega (arith, length-drop_last (f ∷ l))

drop_last-All : (P : Element → Type 0) (l : List Element) → All P l → All P (drop_last l)
drop_last-All P [] h = tt
drop_last-All P (e ∷ []) h = tt
drop_last-All P (e ∷ f ∷ l) h = (h.0, drop_last-All P (f ∷ l) h.1)

remove-IsValid :
    (cache : DeltaCache)
    → IsValid cache
    → 1 ≤ cache.maxelem
    → IsValid (remove_least_used cache)
      × ((remove_least_used cache).nelem < (remove_least_used cache).maxelem)
      × ((remove_least_used cache).maxelemsize ≡ cache.maxelemsize)
unfolding remove_least_used
remove-IsValid cache (n, m, s) h = elim (Bool-cases (cache.nelem == 0)) [
  | inl empty ↦ rw empty ((n, m, s), ground arith, refl)
  | inr full ↦ rw full (
    (omega (arith, length-drop_last cache.entries), omega arith, drop_last-All _ cache.entries s),
    ground arith,
    refl,
  )
]

insert_head-IsValid :
    (allocated : Bool) (e : Element) (cache : DeltaCache)
    → IsValid cache
    → cache.nelem < cache.maxelem
    → length e.delta_data ≤ cache.maxelemsize
    → IsValid (insert_head allocated e cache).0
      × (((allocated ≡ false) × ((insert_head allocated e cache).1 ≡ some errno))
          ⊎ (((insert_head allocated e cache).1 ≡ none)
              × (lookup (insert_head allocated e cache).0.entries e.delta_data_offset
                  ≡ some e.delta_data)))
unfolding insert_head
insert_head-IsValid false e cache v room fits = (v, inl (refl, refl))
insert_head-IsValid true e cache (n, m, s) room fits =
    ((omega arith, omega arith, (fits, s)), inr (refl, ground arith))

take_out-lookup :
    (offset : ℕ) (l : List Element)
    → ((take_out offset l ≡ none) × (lookup l offset ≡ none))
      ⊎ ((e : Element) × (rest : List Element) × (take_out offset l ≡ some (e, rest))
          × (lookup l offset ≡ some e.delta_data)
          × (e.delta_data_offset ≡ offset)
          × ((q : ℕ) → lookup (e ∷ rest) q ≡ lookup l q)
          × (length (e ∷ rest) ≡ length l)
          × ((P : Element → Type 0) → All P l → All P (e ∷ rest)))
unfolding take_out
take_out-lookup offset [] = inl (refl, refl)
take_out-lookup offset (x ∷ l) = elim (Bool-cases (x.delta_data_offset == offset)) [
  | inl here ↦ inr (x, l, rw here refl, rw here refl, ground arith, λ q. refl, refl, λ P h. h)
  | inr differs ↦ elim (take_out-lookup offset l) [
    | inl (missing, absent) ↦ inl (rw (differs, missing) refl, rw differs absent)
    | inr (e, rest, out, found, at, same, n, all) ↦ inr (
      e,
      x ∷ rest,
      rw (differs, out) refl,
      rw differs found,
      at,
      λ q. ground (arith, same q, at),
      omega arith,
      λ P h. ((all P h.1).0, (h.0, (all P h.1).1)),
    )
  ]
]

-- got_delta_cache_get keeps the cache valid and what it holds for every offset. It returns what the
-- cache holds for its offset, and counts a hit if there is something and a miss if not.
pub cache_get_lem :
    (cache : DeltaCache) (offset : ℕ)
    → IsValid cache
    → IsValid (cache_get cache offset).0
      × ((cache_get cache offset).1 ≡ lookup cache.entries offset)
      × ((q : ℕ) → lookup (cache_get cache offset).0.entries q ≡ lookup cache.entries q)
      × ((cache_get cache offset).0.cache_hit + (cache_get cache offset).0.cache_miss
          ≡ cache.cache_hit + cache.cache_miss + 1)
unfolding cache_get after_search
cache_get_lem cache offset (n, m, s) = elim (take_out-lookup offset cache.entries) [
  | inl (missing, absent) ↦ rw (missing, absent) ((n, m, s), refl, λ q. refl, omega arith)
  | inr (e, rest, out, found, at, same, k, all) ↦
      rw (out, found)
        (
          (n ∙ sym k, m, all (λ e. length e.delta_data ≤ cache.maxelemsize) s),
          refl,
          same,
          omega arith,
        )
]

-- got_delta_cache_add to a valid cache for one element or more leaves it valid. It reports "no
-- space" for data larger than the limit and the failure of calloc(3); otherwise the cache then
-- holds the data for the offset.
pub cache_add_lem :
    (allocated : Bool) (cache : DeltaCache) (offset : ℕ) (bytes : Bytes)
    → IsValid cache
    → 1 ≤ cache.maxelem
    → IsValid (cache_add allocated cache offset bytes).0
      × (((cache.maxelemsize < length bytes)
            × ((cache_add allocated cache offset bytes).1 ≡ some no_space))
          ⊎ ((allocated ≡ false) × ((cache_add allocated cache offset bytes).1 ≡ some errno))
          ⊎ (((cache_add allocated cache offset bytes).1 ≡ none)
              × (lookup (cache_add allocated cache offset bytes).0.entries offset ≡ some bytes)))
unfolding cache_add
cache_add_lem allocated cache offset bytes v one =
    let e : Element = record { delta_data_offset = offset; delta_data = bytes } in
    elim (Bool-cases (ltb cache.maxelemsize (length bytes))) [
      | inl large ↦ rw large (v, inl (ground arith, refl))
      | inr small ↦ elim (Bool-cases (leb cache.maxelem cache.nelem)) [
        | inl full ↦
            let (valid, room, kept_size) = remove-IsValid cache v one in
            let (valid', outcome) =
              insert_head-IsValid allocated e (remove_least_used cache) valid room (ground arith) in
            rw (small, full) (valid', inr outcome)
        | inr free ↦
            let (valid', outcome) =
              insert_head-IsValid allocated e cache v (ground arith) (ground arith) in
            rw (small, free) (valid', inr outcome)
      ]
    ]

lookup-head :
    (e : Element) (l : List Element) → lookup (e ∷ l) e.delta_data_offset ≡ some e.delta_data
lookup-head e l = ground arith

head_stays :
    (e : Element) (l : List Element)
    → 1 ≤ length l
    → lookup (drop_last (e ∷ l)) e.delta_data_offset ≡ some e.delta_data
head_stays e [] h = absurd (omega arith)
head_stays e (f ∷ l) h = lookup-head e (drop_last (f ∷ l))

remove-lookup :
    (cache : DeltaCache) (e : Element) (l : List Element)
    → cache.entries ≡ e ∷ l
    → 1 ≤ length l
    → lookup (remove_least_used cache).entries e.delta_data_offset ≡ some e.delta_data
unfolding remove_least_used
remove-lookup cache e l h n = elim (Bool-cases (cache.nelem == 0)) [
  | inl empty ↦ rw (empty, h) (lookup-head e l)
  | inr full ↦ rw (full, h) (head_stays e l n)
]

insert_head-lookup :
    (allocated : Bool) (new : Element) (cache : DeltaCache) (q : ℕ)
    → new.delta_data_offset ≢ q
    → lookup (insert_head allocated new cache).0.entries q ≡ lookup cache.entries q
unfolding insert_head
insert_head-lookup false new cache q h = refl
insert_head-lookup true new cache q h = ground arith

cache_add-lookup :
    (allocated : Bool) (cache : DeltaCache) (e : Element) (l : List Element) (other : ℕ)
    (bytes : Bytes)
    → cache.entries ≡ e ∷ l
    → cache.nelem ≡ length (e ∷ l)
    → 2 ≤ cache.maxelem
    → other ≢ e.delta_data_offset
    → lookup (cache_add allocated cache other bytes).0.entries e.delta_data_offset
      ≡ some e.delta_data
unfolding cache_add
cache_add-lookup allocated cache e l other bytes h n two differs =
    let new : Element = record { delta_data_offset = other; delta_data = bytes } in
    let q : ℕ = e.delta_data_offset in
    elim (Bool-cases (ltb cache.maxelemsize (length bytes))) [
      | inl large ↦ rw (large, h) (lookup-head e l)
      | inr small ↦ elim (Bool-cases (leb cache.maxelem cache.nelem)) [
        | inl full ↦
            rw (small, full)
              (insert_head-lookup allocated new (remove_least_used cache) q differs
                ∙ remove-lookup cache e l h (ground arith))
        | inr free ↦
            rw (small, free)
              (insert_head-lookup allocated new cache q differs ∙ rw h (lookup-head e l))
      ]
    ]

-- In a valid cache for two elements or more, data that got_delta_cache_get has found is still
-- held after a got_delta_cache_add for another offset, however that one ends.
pub cache_add-cache_get :
    (allocated : Bool) (cache : DeltaCache) (offset other : ℕ) (found bytes : Bytes)
    → IsValid cache
    → 2 ≤ cache.maxelem
    → (cache_get cache offset).1 ≡ some found
    → other ≢ offset
    → lookup (cache_add allocated (cache_get cache offset).0 other bytes).0.entries offset
      ≡ some found
unfolding cache_get after_search
cache_add-cache_get allocated cache offset other found bytes (n, m, s) two h differs =
    elim (take_out-lookup offset cache.entries) [
      | inl (missing, absent) ↦
          let nothing : (after_search (record cache { cache_search = cache.cache_search + 1 })
                (take_out offset cache.entries)).1
              ≡ none =
            rw missing refl in
          absurd (let clash : none ≡ some found = sym nothing ∙ h in cc)
      | inr (e, rest, out, held, at, same, k, all) ↦
          let is : some e.delta_data ≡ some found =
            (let got : (after_search (record cache { cache_search = cache.cache_search + 1 })
                    (take_out offset cache.entries)).1
                  ≡ some e.delta_data =
                rw out refl in
              sym got ∙ h) in
          rw (out, sym at)
            (cache_add-lookup allocated
                (record cache {
                  entries = e ∷ rest;
                  cache_search = cache.cache_search + 1;
                  cache_hit = cache.cache_hit + 1;
                })
                e rest other bytes refl (n ∙ sym k) two (λ eq. differs (eq ∙ at))
              ∙ is)
    ]
