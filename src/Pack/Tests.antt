-- ===== src/Pack/Tests.antt =====
-- Small pack indexes, and the theorems of Pack/Index at them.
use gameoftrees.Base.{
  ℕ, zero, suc, ◌+◌, ◌-◌, ◌^◌, ◌<◌, ◌≤◌, ◌≡◌, refl, sym, ap, ◌∙◌, ◌⊎◌, false, List, [], ◌∷◌, ◌++◌,
  Bytes, some, arith, All, memcmp, get_elem?, length, length-append, replicate,
}
use native.Mathlib.Decide.{dec_lt}
use gameoftrees.Error.{ok, trap, out_of_bounds, int_overflow, Ensures}
use gameoftrees.FileIndex.Codec.{Sha1}
use gameoftrees.Pack.Index.{PackIdx, verify_fanout_table, get_object_idx, first_byte}
use gameoftrees.Pack.Index.Search.{IsAscending, IsFanout, IsPlace, get_object_idx_lem}
use gameoftrees.Pack.Index.Fanout.{verify_fanout_table_gap}
use gameoftrees.Pack.Index.Header.{init_hdr}
use gameoftrees.Pack.Index.Header.Words.{IsByte}
use gameoftrees.Pack.Index.Header.Bounds.{IsFit, init_hdr-IsFit}

get_elem?-replicate :
    (k x i : ℕ) (rest : List ℕ) → i < k → get_elem? (replicate k x ++ rest) i ≡ some x
get_elem?-replicate zero x i rest h = absurd (omega arith)
get_elem?-replicate (suc k) x zero rest h = refl
get_elem?-replicate (suc k) x (suc i) rest h = get_elem?-replicate k x i rest (omega arith)

get_elem?-past :
    (k x i : ℕ) (rest : List ℕ)
    → k ≤ i
    → get_elem? (replicate k x ++ rest) i ≡ get_elem? rest (i - k)
get_elem?-past zero x i rest h = ap (get_elem? rest) (omega arith)
get_elem?-past (suc k) x zero rest h = absurd (omega arith)
get_elem?-past (suc k) x (suc i) rest h =
    get_elem?-past k x i rest (omega arith) ∙ ap (get_elem? rest) (omega arith)

-- Two identifiers, both of which begin with 3.
abbrev two_ids : List Bytes
two_ids = (3 ∷ 10 ∷ []) ∷ (3 ∷ 20 ∷ []) ∷ []

abbrev two_table : List ℕ
two_table = replicate 3 0 ++ (replicate 253 2 ++ [])

abbrev two : PackIdx
two = record {
  fanout_table = two_table;
  sorted_ids = two_ids;
  crc32 = 1 ∷ 2 ∷ [];
  offsets = 12 ∷ 90 ∷ [];
  large_offsets = [];
  nlargeobj = 0;
}

two_ids-IsAscending : IsAscending two_ids
unfolding memcmp
two_ids-IsAscending zero zero a b lt g h = absurd (omega arith)
two_ids-IsAscending zero (suc zero) a b lt g h =
    let first : (3 ∷ 10 ∷ []) ≡ a = cc in
    let second : (3 ∷ 20 ∷ []) ≡ b = cc in rw (sym first, sym second) refl
two_ids-IsAscending zero (suc (suc j)) a b lt g h = cc
two_ids-IsAscending (suc i) zero a b lt g h = absurd (omega arith)
two_ids-IsAscending (suc i) (suc zero) a b lt g h = absurd (omega arith)
two_ids-IsAscending (suc i) (suc (suc j)) a b lt g h = cc

two_first : (i : ℕ) (a : Bytes) → get_elem? two_ids i ≡ some a → first_byte a ≡ 3
two_first zero a h = let same : (3 ∷ 10 ∷ []) ≡ a = cc in rw (sym same) refl
two_first (suc zero) a h = let same : (3 ∷ 20 ∷ []) ≡ a = cc in rw (sym same) refl
two_first (suc (suc i)) a h = cc

two_table-IsFanout : IsFanout two_table two_ids
two_table-IsFanout = (
  refl,
  λ b h. elim (dec_lt b 3) [
    | yes low ↦ (
      0,
      get_elem?-replicate 3 0 b (replicate 253 2 ++ []) low,
      omega arith,
      λ i a lt g. absurd (omega arith),
    )
    | no high ↦ (
      2,
      get_elem?-past 3 0 b (replicate 253 2 ++ []) (omega arith)
          ∙ get_elem?-replicate 253 2 (b - 3) [] (omega arith),
      omega arith,
      λ i a lt g. omega (arith, two_first i a g),
    )
  ],
)

get_object_idx_lem_example : IsPlace two_ids (3 ∷ 20 ∷ []) (get_object_idx two (3 ∷ 20 ∷ []))
get_object_idx_lem_example =
    get_object_idx_lem two (3 ∷ 20 ∷ []) two_ids-IsAscending (omega arith) two_table-IsFanout
      (omega arith)

abbrev crafted : PackIdx
crafted = record two { fanout_table = replicate 0xff (2 ^ 31) ++ (2 ∷ []) }

verify_fanout_table_gap_example :
    (verify_fanout_table (replicate 0xff (2 ^ 31) ++ (2 ∷ [])) ≡ ok tt)
    × (get_object_idx crafted (3 ∷ 20 ∷ []) ≡ trap out_of_bounds)
verify_fanout_table_gap_example =
    verify_fanout_table_gap (2 ^ 31) 2 crafted (3 ∷ 20 ∷ []) (omega arith) (omega arith)
      (omega arith) refl (omega arith) (omega arith)

-- In place of SHA1: the number of bytes, twenty times.
abbrev plain_sum : Sha1
plain_sum = record {
  Ctx = ℕ;
  init = 0;
  update = λ c b. c + length b;
  final = λ c. replicate 20 c;
  update_law = λ c a b. omega (arith, length-append {0} a b);
  final_law = λ c. refl;
}

-- An index of one object whose identifier begins with 0xff, without checksums.
abbrev one_object : Bytes
one_object =
    0xff
    ∷ 0x74
    ∷ 0x4f
    ∷ 0x63
    ∷ 0
    ∷ 0
    ∷ 0
    ∷ 2
    ∷ (replicate 1023 0 ++ (1 ∷ 0xff ∷ (replicate 67 0 ++ [])))

All-replicate :
    (k x : ℕ) (rest : Bytes) → IsByte x → All IsByte rest → All IsByte (replicate k x ++ rest)
All-replicate zero x rest h t = t
All-replicate (suc k) x rest h t = (h, All-replicate k x rest h t)

one_object-IsByte : All IsByte one_object
one_object-IsByte = (
  omega arith,
  (
    omega arith,
    (
      omega arith,
      (
        omega arith,
        (
          omega arith,
          (
            omega arith,
            (
              omega arith,
              (
                omega arith,
                All-replicate 1023 0 (1 ∷ 0xff ∷ (replicate 67 0 ++ [])) (omega arith)
                    (omega arith, (omega arith, All-replicate 67 0 [] (omega arith) tt)),
              ),
            ),
          ),
        ),
      ),
    ),
  ),
)

init_hdr-IsFit_example :
    Ensures IsFit (init_hdr plain_sum false one_object)
    ⊎ ((init_hdr plain_sum false one_object ≡ trap int_overflow) × (2 ^ 33 ≤ length one_object))
init_hdr-IsFit_example = init_hdr-IsFit plain_sum false one_object one_object-IsByte
