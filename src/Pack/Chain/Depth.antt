-- ===== src/Pack/Chain/Depth.antt =====
-- How deep got_pack_resolve_delta_chain goes: chains that it resolves, and its counter.
use gameoftrees.Base.{
  ℕ, zero, suc, ◌+◌, ◌-◌, ◌*◌, ◌%◌, ◌^◌, ◌≤◌, ◌<◌, ◌≡◌, refl, true, false, List, [], ◌∷◌, ◌++◌,
  Bytes, none, arith, ◌==◌,
}
use gameoftrees.Error.{ok}
use gameoftrees.Pack.Index.{PackIdx}
use gameoftrees.Pack.Chain.{
  type_offset_delta, type_ref_delta, is_plain_type, DeltaEntry, Header, offset_delta_base,
  ref_delta_base, add_delta, onward, resolve_delta_chain, recursion_max,
}

module _ (pack_map : Bytes) (packidx : PackIdx) where
  -- The object at an offset rests on one of a plain type over a number of deltas: that type, and
  -- the chain, with the plain object first and the object at the offset last.
  pub data Rests : ℕ → ℕ → ℕ → Header → List DeltaEntry → Type 0 where
    plain :
        {offset : ℕ} {h : Header}
        → is_plain_type h.kind ≡ true
        → Rests 0 h.kind offset h (
            record { offset = offset; tslen = h.len; kind = h.kind; size = h.size; data_offset = 0 }
            ∷ [])
    on_offset :
        {n kind offset data_offset base_offset : ℕ} {h base : Header} {chain : List DeltaEntry}
        → h.kind ≡ type_offset_delta
        → offset_delta_base pack_map offset h.len ≡ ok (data_offset, base_offset, base)
        → Rests n kind base_offset base chain
        → Rests (suc n) kind offset h (
            chain
            ++ record {
              offset = offset;
              tslen = h.len;
              kind = type_offset_delta;
              size = h.size;
              data_offset = data_offset;
            }
              ∷ [])
    on_id :
        {n kind offset data_offset base_offset : ℕ} {h base : Header} {chain : List DeltaEntry}
        → h.kind ≡ type_ref_delta
        → ref_delta_base pack_map packidx offset h.len ≡ ok (data_offset, base_offset, base)
        → Rests n kind base_offset base chain
        → Rests (suc n) kind offset h (
            chain
            ++ record {
              offset = offset;
              tslen = h.len;
              kind = type_ref_delta;
              size = h.size;
              data_offset = data_offset;
            }
              ∷ [])

  abbrev element : ℕ → Header → ℕ → ℕ → DeltaEntry
  element offset h kind d = record {
    offset = offset;
    tslen = h.len;
    kind = kind;
    size = h.size;
    data_offset = d;
  }

  deeper :
      (fuel total offset data_offset : ℕ) (h : Header) (deltas : List DeltaEntry)
      → h.kind ≡ type_offset_delta
      → offset_delta_base pack_map offset h.len ≡ ok (data_offset, offset, h)
      → total % 3 ≡ 1
      → 3 * fuel < total
      → total < 2 ^ 33 + 501
      → resolve_delta_chain pack_map fuel packidx deltas offset h (total % 2 ^ 32) ≡ none
  unfolding resolve_delta_chain onward
  deeper zero total offset data_offset h deltas k e t f s = refl
  deeper (suc fuel) total offset data_offset h deltas k e t f s =
      let more : ((total % 2 ^ 32 + (2 ^ 32 - 1)) % 2 ^ 32 == 0) ≡ false = ground arith in
      let next : ((total % 2 ^ 32 + (2 ^ 32 - 1)) % 2 ^ 32 + (2 ^ 32 - 2)) % 2 ^ 32
          ≡ (total - 3) % 2 ^ 32 =
        omega arith in
      rw (more, k, e, onward, next)
        (deeper fuel (total - 3) offset data_offset h
          (add_delta pack_map deltas offset h data_offset) k e (omega arith) (omega arith)
          (omega arith))

  -- Where an offset delta is its own base, got_pack_resolve_delta_chain goes more than 2.8 billion
  -- calls deep, with a counter that starts at GOT_DELTA_CHAIN_RECURSION_MAX.
  pub resolve_delta_chain_self :
      (fuel offset data_offset : ℕ) (h : Header)
      → h.kind ≡ type_offset_delta
      → offset_delta_base pack_map offset h.len ≡ ok (data_offset, offset, h)
      → fuel ≤ 2863311697
      → resolve_delta_chain pack_map fuel packidx [] offset h recursion_max ≡ none
  resolve_delta_chain_self fuel offset data_offset h k e f =
      deeper fuel (2 ^ 33 + 500) offset data_offset h [] k e (omega arith) (omega arith)
        (omega arith)
