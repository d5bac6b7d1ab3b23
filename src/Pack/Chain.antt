-- ===== src/Pack/Chain.antt =====
-- Objects of a pack file in memory and their chains of deltas, of lib/pack.c: the headers of
-- objects and the search for the base. Memory is taken to be there.
pub mod Depth
mod Tests
use gameoftrees.Base.{
  ℕ, zero, suc, ◌+◌, ◌-◌, ◌*◌, ◌/◌, ◌%◌, ◌^◌, Bool, true, false, ◌&&◌, ◌||◌, List, [], ◌∷◌, Bytes,
  Option, none, some, bit_and, bit_or, ltb, leb, ◌==◌, if◌then◌else◌, length, take, drop,
}
use gameoftrees.Error.{
  Error, no_space, pack_offset, bad_packfile, no_obj, bad_packidx, recursion, obj_type,
  bad_delta_chain, null_pointer, bad_shift, Result, ok, err, trap, ◌>>=◌,
}
use gameoftrees.Delta.{shift_int}
use gameoftrees.Pack.Index.{PackIdx, entry_at, get_object_idx, get_object_offset}
use gameoftrees.Pack.Index.Header.{view}

abbrev pub type_offset_delta : ℕ
type_offset_delta = 6

abbrev pub type_ref_delta : ℕ
type_ref_delta = 7

abbrev pub is_plain_type : ℕ → Bool
is_plain_type t = t == 1 || t == 2 || t == 3 || t == 4

-- A struct got_delta.
pub record DeltaEntry : Type 0 where
  pub offset : ℕ
  pub tslen : ℕ
  pub kind : ℕ
  pub size : ℕ
  pub data_offset : ℕ

-- The header of an object.
pub record Header : Type 0 where
  pub kind : ℕ
  pub size : ℕ
  pub len : ℕ

-- The first element of an empty list is NULL, and its type is read without a test.
pub delta_chain_get_base_type : List DeltaEntry → Result ℕ
delta_chain_get_base_type [] = trap null_pointer
delta_chain_get_base_type (d ∷ deltas) =
    if is_plain_type d.kind then ok d.kind else err bad_delta_chain

module _ (pack_map : Bytes) where
  -- The size after the byte `sizeN` of round `i`.
  pub size_bits : ℕ → ℕ → ℕ → Result ℕ
  size_bits i s sizeN =
      if i == 0
      then ok (bit_and sizeN 0x0f)
      else (shift_int (bit_and sizeN 0x7f) (4 + 7 * (i - 1)) >>= λ v. ok (bit_or s v))

  -- The loop of got_pack_parse_object_type_and_size with `10 - i` rounds left.
  pub header_loop : ℕ → ℕ → ℕ → ℕ → ℕ → Result Header
  header_loop zero offset i t s = err no_space
  header_loop (suc rounds) offset i t s = do
    sizeN ← entry_at pack_map (offset + i)
    s' ← size_bits i s sizeN
    let t' = if i == 0 then bit_and sizeN 0x70 / 2 ^ 4 else t
    let rest = header_loop rounds offset (i + 1) t' s'
    if bit_and sizeN 0x80 == 0 then ok (record { kind = t'; size = s'; len = i + 1 }) else rest

  pub parse_object_type_and_size : ℕ → Result Header
  parse_object_type_and_size offset =
      if leb (length pack_map) offset then err pack_offset else header_loop 10 offset 0 0 0

  -- The offset after the byte `offN` of round `i`; an `int64_t` is not to be left.
  pub offset_bits : ℕ → ℕ → ℕ → Result ℕ
  offset_bits i o offN =
      let o' = (o + 1) * 2 ^ 7 + bit_and offN 0x7f in
      if i == 0 then ok (bit_and offN 0x7f) else if leb (2 ^ 63) o' then trap bad_shift else ok o'

  -- The loop of parse_negative_offset with `9 - i` rounds left: the offset and its length.
  pub offset_loop : ℕ → ℕ → ℕ → ℕ → Result (ℕ × ℕ)
  offset_loop zero delta_offset i o = err no_space
  offset_loop (suc rounds) delta_offset i o =
      let round = do
        offN ← entry_at pack_map (delta_offset + i)
        o' ← offset_bits i o offN
        let rest = offset_loop rounds delta_offset (i + 1) o'
        if bit_and offN 0x80 == 0 then ok (o', i + 1) else rest
      in if leb (length pack_map) delta_offset then err pack_offset else round

  pub parse_negative_offset : ℕ → Result (ℕ × ℕ)
  parse_negative_offset delta_offset = offset_loop 9 delta_offset 0 0

  -- The base's offset and the length of the negative offset.
  pub parse_offset_delta : ℕ → ℕ → Result (ℕ × ℕ)
  parse_offset_delta offset tslen = do
    (negoffset, negofflen) ← parse_negative_offset (offset + tslen)
    if leb offset negoffset then err bad_packfile else ok (offset - negoffset, negofflen)

  -- The base of an offset delta: the offset of the delta's data, that of the base, and the base's
  -- header. The test of the base's offset follows add_delta, whose chain an error discards.
  pub offset_delta_base : ℕ → ℕ → Result (ℕ × ℕ × Header)
  offset_delta_base delta_offset tslen = do
    (base_offset, consumed) ← parse_offset_delta delta_offset tslen
    let data_offset = delta_offset + tslen + consumed
    let base = parse_object_type_and_size base_offset
    if leb (length pack_map) data_offset || leb (length pack_map) base_offset
        then err pack_offset
        else base >>= λ h. ok (data_offset, base_offset, h)

  -- The base of a reference to an identifier, `none` a -1 of the two functions on the index.
  pub base_at : Option ℕ → Result (ℕ × Header)
  base_at none = err bad_packidx
  base_at (some base_offset) =
      let base = parse_object_type_and_size base_offset in
      if leb (length pack_map) base_offset
      then err pack_offset
      else base >>= λ h. ok (base_offset, h)

  pub base_of_id : PackIdx → Option ℕ → Result (ℕ × Header)
  base_of_id packidx none = err no_obj
  base_of_id packidx (some idx) = get_object_offset packidx idx >>= λ o. base_at o

  pub ref_delta_base : PackIdx → ℕ → ℕ → Result (ℕ × ℕ × Header)
  ref_delta_base packidx delta_offset tslen =
      let base = do
        id ← view pack_map (delta_offset + tslen) 20
        idx ← get_object_idx packidx id
        (base_offset, h) ← base_of_id packidx idx
        ok (delta_offset + tslen + 20, base_offset, h)
      in if leb (length pack_map) (delta_offset + tslen) then err pack_offset else base

  -- add_delta
  pub add_delta : List DeltaEntry → ℕ → Header → ℕ → List DeltaEntry
  add_delta deltas offset h data_offset =
      record {
        offset = offset;
        tslen = h.len;
        kind = h.kind;
        size = h.size;
        data_offset = data_offset;
      }
      ∷ deltas

  -- resolve_offset_delta and resolve_ref_delta behind the search for the base; the next call of
  -- got_pack_resolve_delta_chain stands for `rest`.
  pub onward :
      List DeltaEntry
      → ℕ
      → Header
      → Result (ℕ × ℕ × Header)
      → (List DeltaEntry → ℕ → Header → Option (Result (List DeltaEntry)))
      → Option (Result (List DeltaEntry))
  onward deltas offset h (err e) rest = some (err e)
  onward deltas offset h (trap z) rest = some (trap z)
  onward deltas offset h (ok (data_offset, base_offset, base)) rest =
      rest (add_delta deltas offset h data_offset) base_offset base

  -- got_pack_resolve_delta_chain, with a fuel of nested calls; `none` is a run that needs more. Of
  -- `recursion`, an unsigned int, each call takes one, its callee's argument is one less, and that
  -- function's again.
  pub resolve_delta_chain :
      ℕ → PackIdx → List DeltaEntry → ℕ → Header → ℕ → Option (Result (List DeltaEntry))
  resolve_delta_chain zero packidx deltas offset h recursion_left = none
  resolve_delta_chain (suc fuel) packidx deltas offset h recursion_left =
      let left = (recursion_left + (2 ^ 32 - 1)) % 2 ^ 32 in
      let rest = λ (deltas' : List DeltaEntry) (base_offset : ℕ) (base : Header).
        resolve_delta_chain fuel packidx deltas' base_offset base
          ((left + (2 ^ 32 - 2)) % 2 ^ 32) in
      if left == 0
      then some (err recursion)
      else if is_plain_type h.kind
      then some (ok (add_delta deltas offset h 0))
      else if h.kind == type_offset_delta
      then onward deltas offset h (offset_delta_base offset h.len) rest
      else if h.kind == type_ref_delta
      then onward deltas offset h (ref_delta_base packidx offset h.len) rest
      else some (err obj_type)

abbrev pub recursion_max : ℕ
recursion_max = 500
