-- ===== src/Pack/Chain/Tests.antt =====
-- A pack file of a blob, a delta on it, and a delta that is its own base.
use gameoftrees.Base.{◌≡◌, refl, List, [], ◌∷◌, ◌++◌, Bytes, none, arith, replicate}
use gameoftrees.Error.{ok}
use gameoftrees.Pack.Index.{PackIdx}
use gameoftrees.Pack.Chain.{
  DeltaEntry, Header, size_bits, header_loop, parse_object_type_and_size, offset_bits, offset_loop,
  parse_negative_offset, parse_offset_delta, offset_delta_base, resolve_delta_chain, recursion_max,
}
use gameoftrees.Pack.Chain.Depth.{resolve_delta_chain_self}

abbrev pack : Bytes
pack = replicate 12 0 ++ (0x34 ∷ 1 ∷ 2 ∷ 3 ∷ 0x62 ∷ 4 ∷ 9 ∷ 9 ∷ 0x62 ∷ 0 ∷ 9 ∷ 9 ∷ [])

-- No identifiers are looked up.
abbrev no_index : PackIdx
no_index = record {
  fanout_table = [];
  sorted_ids = [];
  crc32 = [];
  offsets = [];
  large_offsets = [];
  nlargeobj = 0;
}

abbrev blob : Header
blob = record { kind = 3; size = 4; len = 1 }

abbrev delta_header : Header
delta_header = record { kind = 6; size = 2; len = 1 }

blob_header : parse_object_type_and_size pack 12 ≡ ok blob
unfolding parse_object_type_and_size header_loop size_bits
blob_header = refl

own_base : offset_delta_base pack 20 1 ≡ ok (22, 20, delta_header)
unfolding offset_delta_base parse_offset_delta parse_negative_offset offset_loop offset_bits
    parse_object_type_and_size header_loop size_bits
own_base = refl

-- The blob and the delta on it.
abbrev both : List DeltaEntry
both =
    record { offset = 12; tslen = 1; kind = 3; size = 4; data_offset = 0 }
    ∷ record { offset = 16; tslen = 1; kind = 6; size = 2; data_offset = 18 }
    ∷ []

resolve_delta_chain_self_example :
    resolve_delta_chain pack 2863311697 no_index [] 20 delta_header recursion_max ≡ none
resolve_delta_chain_self_example =
    resolve_delta_chain_self pack no_index 2863311697 20 22 delta_header refl own_base (omega arith)
