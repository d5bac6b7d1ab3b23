-- ===== src/Pack/Index.antt =====
-- The tables of a pack index of lib/pack.c, in the order of the host's bytes, and their search.
pub mod Search
pub mod Fanout
pub mod Header
use gameoftrees.Base.{
  ℕ, zero, suc, ◌+◌, ◌-◌, ◌*◌, ◌/◌, ◌%◌, ◌^◌, Bool, true, false, ◌&&◌, ◌||◌, not, List, [], ◌∷◌,
  Bytes, Option, none, some, bit_and, ltb, leb, ◌==◌, if◌then◌else◌, length, get_elem?, take, drop,
  Ordering, memcmp, bytes_eq,
}
use gameoftrees.Error.{
  bad_packidx, bad_obj_id_str, out_of_bounds, int_overflow, Result, ok, err, trap, ◌>>=◌,
}
use gameoftrees.Digest.{parse_xdigit, digest_text}

-- `nlargeobj` counts the entries of `large_offsets`, which is NULL where it is 0.
pub record PackIdx : Type 0 where
  pub fanout_table : List ℕ
  pub sorted_ids : List Bytes
  pub crc32 : List ℕ
  pub offsets : List ℕ
  pub large_offsets : List ℕ
  pub nlargeobj : ℕ

-- An entry of a table; reading past its end is out of bounds.
abbrev pub entry_at {ℓ} : {A : Type ℓ} → List A → ℕ → Result A
entry_at [] i = trap out_of_bounds
entry_at (x ∷ l) zero = ok x
entry_at (x ∷ l) (suc i) = entry_at l i

-- `i < 0xff - 1`, with `left` rounds to go at the start of the table: each entry is compared with
-- the next.
pub fanout_loop : ℕ → List ℕ → Result (Unit {0})
fanout_loop zero table = ok tt
fanout_loop (suc left) [] = trap out_of_bounds
fanout_loop (suc left) (a ∷ []) = trap out_of_bounds
fanout_loop (suc left) (a ∷ b ∷ table) =
    let rest = fanout_loop left (b ∷ table) in if ltb b a then err bad_packidx else rest

pub verify_fanout_table : List ℕ → Result (Unit {0})
verify_fanout_table table = fanout_loop (0xff - 1) table

-- get_object_offset; `none` is -1.
pub get_object_offset : PackIdx → ℕ → Result (Option ℕ)
get_object_offset packidx idx = do
  offset ← entry_at packidx.offsets idx
  let large = bit_and offset 0x7fffffff
  let loffset =
      entry_at packidx.large_offsets large >>= λ o. ok (if ltb (2 ^ 63 - 1) o then none else some o)
  if bit_and offset 0x80000000 == 0
      then ok (some (bit_and offset 0x7fffffff))
      else if leb packidx.nlargeobj large || packidx.nlargeobj == 0
      then ok none
      else loffset

-- An `int` of the search stands with 2 ^ 31 added. A uint32_t that is stored in it wraps.
abbrev pub int_of : ℕ → ℕ
int_of x = (x + 2 ^ 31) % 2 ^ 32

-- `sorted_ids[(left + right) / 2]`. Division rounds towards zero, so that the sum -1 gives 0; a
-- lower sum gives an index before the table.
pub middle : List Bytes → ℕ → ℕ → Result (ℕ × Bytes)
middle ids left right =
    if leb (2 ^ 32 + 2 ^ 31) (left + right)
    then trap int_overflow
    else if ltb (left + right) (2 ^ 32 - 1)
    then trap out_of_bounds
    else (let i = (left + right - 2 ^ 32) / 2 in entry_at ids i >>= λ oid. ok (i, oid))

-- The loop of got_packidx_get_object_idx. Each round narrows the range, so that as many rounds as
-- its entries and one are enough; without fuel it ends as if the range were empty.
pub search_loop : ℕ → List Bytes → Bytes → ℕ → ℕ → Result (Option ℕ)
search_loop zero ids id left right = ok none
search_loop (suc fuel) ids id left right =
    let round = do
      (i, oid) ← middle ids left right
      let below = search_loop fuel ids id left (i + 2 ^ 31 - 1)
      let above = search_loop fuel ids id (i + 1 + 2 ^ 31) right
      elim (memcmp id oid) [ Ordering.eq ↦ ok (some i) | Ordering.gt ↦ above | Ordering.lt ↦ below ]
    in if leb left right then round else ok none

abbrev pub first_byte : Bytes → ℕ
first_byte [] = 0
first_byte (b ∷ id) = b

-- `none` is -1.
pub get_object_idx : PackIdx → Bytes → Result (Option ℕ)
get_object_idx packidx id = do
  totobj ← entry_at packidx.fanout_table 0xff
  left ← (if first_byte id == 0 then ok 0 else entry_at packidx.fanout_table (first_byte id - 1))
  search_loop (suc totobj) packidx.sorted_ids id (int_of left)
      (int_of ((totobj + (2 ^ 32 - 1)) % 2 ^ 32))

-- `strncmp(id_str, prefix, prefix_len)` where `prefix_len` is the length of the prefix.
pub prefix_cmp : Bytes → Bytes → Ordering
prefix_cmp text prefix = memcmp (take (length prefix) text) prefix

-- The loop of got_packidx_match_id_str_prefix on the identifiers from `i` on, all `totobj` of which
-- the table holds: the identifiers matched.
pub match_loop : ℕ → Bytes → List Bytes → List Bytes
match_loop id0 prefix [] = []
match_loop id0 prefix (oid ∷ ids) =
    let rest = match_loop id0 prefix ids in
    if not (first_byte oid == id0) then [] else elim (prefix_cmp (digest_text oid) prefix) [
      | Ordering.lt ↦ rest
      | Ordering.gt ↦ []
      | Ordering.eq ↦ oid ∷ rest
    ]

-- Behind the digits' test; `fanout_table[id0 - 1]` is read for every `id0`. In a mapped index, as it
-- is here, the word in front of the table is the version, which got_packidx_init_hdr has found to
-- be 2.
pub match_from : PackIdx → Bytes → Option ℕ → Result (List Bytes)
match_from packidx prefix none = err bad_obj_id_str
match_from packidx prefix (some id0) = do
  totobj ← entry_at packidx.fanout_table 0xff
  i ← (if id0 == 0 then ok 2 else entry_at packidx.fanout_table (id0 - 1))
  ok (match_loop id0 prefix (drop i (take totobj packidx.sorted_ids)))

-- The allocation of the matches is taken to succeed.
pub match_id_str_prefix : PackIdx → Bytes → Result (List Bytes)
match_id_str_prefix packidx prefix =
    if ltb (length prefix) 2
    then err bad_obj_id_str
    else match_from packidx prefix (parse_xdigit (take 2 prefix))
