-- ===== src/FileIndex/Flags.antt =====
-- The fields of an entry's `flags` and `mode` words do not disturb one another.
use gameoftrees.Base.{ℕ, ◌+◌, ◌*◌, ◌/◌, ◌%◌, ◌^◌, ◌<◌, ◌≡◌, ap, bit_and, bit_or, ◌==◌, arith}
use gameoftrees.Base.Bits.{and_ones, and_high, and_bit, and_clear, or_field, or_shifted}
use gameoftrees.FileIndex.{
  Entry, clear32, f_stage, entry_perms_get, entry_perms_set, entry_filetype_get, entry_filetype_set,
  entry_staged_filetype_get, entry_staged_filetype_set, entry_stage_get, entry_stage_set,
  entry_path_len, entry_has_blob, entry_has_commit, entry_has_file_on_disk,
}

-- The words in arithmetic.
stage_of : (f : ℕ) → bit_and f f_stage / 2 ^ 12 ≡ f / 4096 % 16
stage_of f = omega (arith, and_high 12 f 15, and_ones 4 (f / 4096))

cleared_stage : (f : ℕ) → f < 2 ^ 32 → clear32 f f_stage ≡ f / 65536 * 2 ^ 4 * 2 ^ 12 + f % 4096
cleared_stage f h = omega (arith, and_clear 12 4 16 f)

masked_stage : (stage : ℕ) → bit_and (stage * 2 ^ 12 % 2 ^ 32) f_stage ≡ stage % 16 * 2 ^ 12
masked_stage stage =
    let y : ℕ = stage * 2 ^ 12 % 2 ^ 32 in omega (arith, and_high 12 y 15, and_ones 4 (y / 4096))

set_stage :
    (f stage : ℕ)
    → f < 2 ^ 32
    → bit_or (clear32 f f_stage) (bit_and (stage * 2 ^ 12 % 2 ^ 32) f_stage)
      ≡ (f / 65536 * 16 + stage % 16) * 4096 + f % 4096
set_stage f stage h = rw (
  cleared_stage f h,
  masked_stage stage,
  or_field 12 4 (f / 65536) (f % 4096) (stage % 16) (omega arith) (omega arith),
)

-- On a 32-bit `flags` word, got_fileindex_entry_stage_set stores the low four bits of the stage,
-- and leaves the path length and the flags for no blob, no commit and no file on disk.
pub entry_stage_set_lem :
    (ie : Entry) (stage : ℕ)
    → ie.flags < 2 ^ 32
    → (entry_stage_get (entry_stage_set ie stage) ≡ stage % 16)
      × (entry_path_len (entry_stage_set ie stage) ≡ entry_path_len ie)
      × (entry_has_blob (entry_stage_set ie stage) ≡ entry_has_blob ie)
      × (entry_has_commit (entry_stage_set ie stage) ≡ entry_has_commit ie)
      × (entry_has_file_on_disk (entry_stage_set ie stage) ≡ entry_has_file_on_disk ie)
unfolding entry_stage_get entry_stage_set entry_path_len entry_has_blob entry_has_commit
    entry_has_file_on_disk
entry_stage_set_lem ie stage h =
    let f : ℕ = ie.flags in
    let g : ℕ = (f / 65536 * 16 + stage % 16) * 4096 + f % 4096 in
    rw (set_stage f stage h) (
      omega (arith, stage_of g),
      omega (arith, and_ones 12 g, and_ones 12 f),
      ap (λ (b : ℕ). b == 0) (omega (arith, and_bit 17 g, and_bit 17 f)),
      ap (λ (b : ℕ). b == 0) (omega (arith, and_bit 18 g, and_bit 18 f)),
      ap (λ (b : ℕ). b == 0) (omega (arith, and_bit 19 g, and_bit 19 f)),
    )

-- The three fields of a 16-bit mode, as they are read and as they are set.
type_of : (m : ℕ) → bit_and m 0x0003 ≡ m % 4
type_of m = omega (arith, and_ones 2 m)

staged_type_of : (m : ℕ) → bit_and m 0x000c / 2 ^ 2 ≡ m / 4 % 4
staged_type_of m = omega (arith, and_high 2 m 3, and_ones 2 (m / 4))

perms_of : (m : ℕ) → bit_and m 0xfff0 / 2 ^ 4 ≡ m / 16 % 4096
perms_of m = omega (arith, and_high 4 m 4095, and_ones 12 (m / 16))

set_type : (m x : ℕ) → m < 2 ^ 16 → bit_or (bit_and m 0xfffc) (bit_and x 0x0003) ≡ m / 4 * 4 + x % 4
set_type m x h =
    rw
      (
        (let e : bit_and m 0xfffc ≡ m / 4 * 2 ^ 2 * 2 ^ 0 + 0 = omega (arith, and_clear 0 2 14 m) in
            e),
        (let e : bit_and x 0x0003 ≡ x % 4 * 2 ^ 0 = omega (arith, and_ones 2 x) in e),
      )
      (omega (arith, or_field 0 2 (m / 4) 0 (x % 4) (omega arith) (omega arith)))

set_staged_type :
    (m x : ℕ)
    → m < 2 ^ 16
    → bit_or (bit_and m 0xfff3) (bit_and (x * 2 ^ 2) 0x000c) ≡ (m / 16 * 4 + x % 4) * 4 + m % 4
set_staged_type m x h =
    rw
      (
        (let e : bit_and m 0xfff3 ≡ m / 16 * 2 ^ 2 * 2 ^ 2 + m % 4 =
              omega (arith, and_clear 2 2 12 m) in
            e),
        (let e : bit_and (x * 2 ^ 2) 0x000c ≡ x % 4 * 2 ^ 2 =
              omega (arith, and_high 2 (x * 2 ^ 2) 3, and_ones 2 (x * 2 ^ 2 / 2 ^ 2)) in
            e),
      )
      (omega (arith, or_field 2 2 (m / 16) (m % 4) (x % 4) (omega arith) (omega arith)))

set_perms :
    (m x : ℕ)
    → bit_or (bit_and m 0x000f) (bit_and (x * 2 ^ 4 % 2 ^ 32) 0xfff0) ≡ x % 4096 * 16 + m % 16
set_perms m x =
    let y : ℕ = x * 2 ^ 4 % 2 ^ 32 in
    rw
      (
        (let e : bit_and m 0x000f ≡ m % 16 = and_ones 4 m in e),
        (let e : bit_and y 0xfff0 ≡ x % 4096 * 2 ^ 4 =
              omega (arith, and_high 4 y 4095, and_ones 12 (y / 2 ^ 4)) in
            e),
      )
      (omega (arith, or_shifted 4 (m % 16) (x % 4096) (omega arith)))

-- In a 16-bit `mode`, each of the three fields is read back as it was set with a value below
-- 2 ^ 28, to the width of the field, and setting one leaves the other two.
pub entry_mode_fields :
    (ie : Entry) (x : ℕ)
    → ie.mode < 2 ^ 16
    → x < 2 ^ 28
    → (entry_filetype_get (entry_filetype_set ie x) ≡ x % 4)
      × (entry_staged_filetype_get (entry_filetype_set ie x) ≡ entry_staged_filetype_get ie)
      × (entry_perms_get (entry_filetype_set ie x) ≡ entry_perms_get ie)
      × (entry_staged_filetype_get (entry_staged_filetype_set ie x) ≡ x % 4)
      × (entry_filetype_get (entry_staged_filetype_set ie x) ≡ entry_filetype_get ie)
      × (entry_perms_get (entry_staged_filetype_set ie x) ≡ entry_perms_get ie)
      × (entry_perms_get (entry_perms_set ie x) ≡ x % 4096)
      × (entry_filetype_get (entry_perms_set ie x) ≡ entry_filetype_get ie)
      × (entry_staged_filetype_get (entry_perms_set ie x) ≡ entry_staged_filetype_get ie)
unfolding entry_filetype_get entry_filetype_set entry_staged_filetype_get entry_staged_filetype_set
    entry_perms_get entry_perms_set
entry_mode_fields ie x h b =
    let m : ℕ = ie.mode in
    let t : ℕ = m / 4 * 4 + x % 4 in
    let u : ℕ = (m / 16 * 4 + x % 4) * 4 + m % 4 in
    let v : ℕ = x % 4096 * 16 + m % 16 in
    rw (set_type m x h, set_staged_type m x h, set_perms m x)
      (
        omega (arith, type_of t),
        omega (arith, staged_type_of t, staged_type_of m),
        omega (arith, perms_of t, perms_of m),
        omega (arith, staged_type_of u),
        omega (arith, type_of u, type_of m),
        omega (arith, perms_of u, perms_of m),
        omega (arith, perms_of v),
        omega (arith, type_of v, type_of m),
        omega (arith, staged_type_of v, staged_type_of m),
      )
