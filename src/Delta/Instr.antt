-- ===== src/Delta/Instr.antt =====
-- The copy instructions of a delta stream as lib/got_lib_delta.h describes them, and parse_opcode
-- on them.
use gameoftrees.Base.{
  ℕ, suc, ◌+◌, ◌*◌, ◌/◌, ◌%◌, ◌^◌, ◌≤◌, ◌<◌, ◌≡◌, refl, true, false, ◌∷◌, Bytes, Option, none, some,
  arith, length, bit_and, bit_or, ◌==◌, if◌then◌else◌, ap,
}
use gameoftrees.Base.Bits.{and_bit, or_shifted}
use gameoftrees.Error.{ok}
use gameoftrees.Delta.{start, deref, opcode_field, parse_opcode, or_byte, copy_default_off}
use native.Mathlib.Nat.{one-le-pow}
use gameoftrees.Delta.Size.{next_delta_byte-start}

-- The value bytes of a base copy; `none` is a byte that is not present.
pub record CopyArgs : Type 0 where
  pub off1 : Option ℕ
  pub off2 : Option ℕ
  pub off3 : Option ℕ
  pub off4 : Option ℕ
  pub len1 : Option ℕ
  pub len2 : Option ℕ
  pub len3 : Option ℕ

abbrev flag : Option ℕ → ℕ
flag none = 0
flag (some b) = 1

abbrev value : Option ℕ → ℕ
value none = 0
value (some b) = b

abbrev IsOptByte : Option ℕ → Type 0
IsOptByte none = Unit
IsOptByte (some b) = b < 256

-- The bytes of an optional byte with `rest` behind them.
abbrev onto : Option ℕ → Bytes → Bytes
onto none rest = rest
onto (some b) rest = b ∷ rest

-- The byte at `p` after an optional byte, where `x` was.
abbrev last : ℕ → Option ℕ → ℕ
last x none = x
last x (some b) = b

-- "Base copy instructions begin with a byte which has its MSB set. The remaining bits of this byte
-- describe how many offset and length value bytes follow."
abbrev pub copy_opcode : CopyArgs → ℕ
copy_opcode a =
    128
    + flag a.off1
    + 2 * flag a.off2
    + 4 * flag a.off3
    + 8 * flag a.off4
    + 16 * flag a.len1
    + 32 * flag a.len2
    + 64 * flag a.len3

abbrev pub copy_onto : CopyArgs → Bytes → Bytes
copy_onto a rest =
    copy_opcode a
    ∷ onto a.off1
        (onto a.off2 (onto a.off3 (onto a.off4 (onto a.len1 (onto a.len2 (onto a.len3 rest))))))

-- "For both values, the first byte contributes the least significant part."
abbrev pub copy_offset : CopyArgs → ℕ
copy_offset a = value a.off1 + value a.off2 * 256 + value a.off3 * 65536 + value a.off4 * 16777216

-- "If the length value is omitted, a default length of 65536 bytes is implied."
abbrev pub copy_length : CopyArgs → ℕ
copy_length a =
    let n = value a.len1 + value a.len2 * 256 + value a.len3 * 65536 in if n == 0 then 65536 else n

pub record HasBytes (a : CopyArgs) : Type 0 where
  pub off1_byte : IsOptByte a.off1
  pub off2_byte : IsOptByte a.off2
  pub off3_byte : IsOptByte a.off3
  pub off4_byte : IsOptByte a.off4
  pub len1_byte : IsOptByte a.len1
  pub len2_byte : IsOptByte a.len2
  pub len3_byte : IsOptByte a.len3

-- The byte on which parse_opcode stops.
abbrev pub copy_last : CopyArgs → ℕ
copy_last a =
    last
      (last (last (last (last (last (last (copy_opcode a) a.off1) a.off2) a.off3) a.off4) a.len1)
        a.len2)
      a.len3

abbrev store : (ℕ → ℕ → ℕ) → ℕ → Option ℕ → ℕ
store set acc none = acc
store set acc (some b) = set acc b

flag_clear : (opcode k : ℕ) → opcode / 2 ^ k % 2 ≡ 0 → (bit_and opcode (2 ^ k) == 0) ≡ true
flag_clear opcode k e = ground (arith, and_bit k opcode)

flag_set : (opcode k : ℕ) → opcode / 2 ^ k % 2 ≡ 1 → (bit_and opcode (2 ^ k) == 0) ≡ false
flag_set opcode k e = ground (arith, and_bit k opcode, one-le-pow k 2 (omega arith))

-- One field of an opcode, whose flag tells whether its byte is there.
opcode_field-onto :
    (opcode k : ℕ) (set : ℕ → ℕ → ℕ) (acc x : ℕ) (o : Option ℕ) (rest : Bytes)
    → opcode / 2 ^ k % 2 ≡ flag o
    → length (x ∷ onto o rest) < 2 ^ 64
    → opcode_field opcode (2 ^ k) set acc (start (x ∷ onto o rest))
      ≡ ok (store set acc o, start (last x o ∷ rest))
unfolding opcode_field deref
opcode_field-onto opcode k set acc x none rest e len = rw (flag_clear opcode k e)
opcode_field-onto opcode k set acc x (some b) rest e len =
    rw (flag_set opcode k e, next_delta_byte-start x (b ∷ rest) (omega arith) len)

onto-fits :
    (o : Option ℕ) (rest : Bytes) → suc (length (onto o rest)) < 2 ^ 64 → suc (length rest) < 2 ^ 64
onto-fits none rest h = h
onto-fits (some b) rest h = omega arith

or_default : (o : ℕ) → (if o == 0 then copy_default_off else o) ≡ o
or_default o = ground arith

-- Storing optional bytes by `|` adds them up.
store_or :
    (k acc : ℕ) (o : Option ℕ)
    → acc < 2 ^ k
    → store (λ v b. bit_or v (b * 2 ^ k)) acc o ≡ acc + value o * 2 ^ k
store_or k acc none h = omega arith
store_or k acc (some b) h = or_shifted k acc b h

value_below : (o : Option ℕ) → IsOptByte o → value o < 256
value_below none h = omega arith
value_below (some b) h = h

store_offset :
    (o1 o2 o3 o4 : Option ℕ)
    → IsOptByte o1
    → IsOptByte o2
    → IsOptByte o3
    → store
        (λ v b. bit_or v (b * 2 ^ 24))
        (store
          (λ v b. bit_or v (b * 2 ^ 16))
          (store (λ v b. bit_or v (b * 2 ^ 8)) (store (λ _ b. b) 0 o1) o2)
          o3)
        o4
      ≡ value o1 + value o2 * 256 + value o3 * 65536 + value o4 * 16777216
store_offset o1 o2 o3 o4 h1 h2 h3 =
    let v1 : value o1 < 256 = value_below o1 h1 in
    let v2 : value o2 < 256 = value_below o2 h2 in
    let v3 : value o3 < 256 = value_below o3 h3 in
    rw (
      store_or 8 (value o1) o2 v1,
      store_or 16 (value o1 + value o2 * 256) o3 (omega arith),
      store_or 24 (value o1 + value o2 * 256 + value o3 * 65536) o4 (omega arith),
    )

store_length :
    (o1 o2 o3 : Option ℕ)
    → IsOptByte o1
    → IsOptByte o2
    → store
        (λ v b. bit_or v (b * 2 ^ 16))
        (store (λ v b. bit_or v (b * 2 ^ 8)) (store (λ _ b. b) 0 o1) o2)
        o3
      ≡ value o1 + value o2 * 256 + value o3 * 65536
store_length o1 o2 o3 h1 h2 =
    let v1 : value o1 < 256 = value_below o1 h1 in
    let v2 : value o2 < 256 = value_below o2 h2 in
    rw (store_or 8 (value o1) o2 v1, store_or 16 (value o1 + value o2 * 256) o3 (omega arith))

flag-le : (o : Option ℕ) → flag o ≤ 1
flag-le none = omega arith
flag-le (some b) = omega arith

-- Bit `k` of the opcode is the flag of its byte.
opcode_flags :
    (f0 f1 f2 f3 f4 f5 f6 : ℕ)
    → f0 ≤ 1
    → f1 ≤ 1
    → f2 ≤ 1
    → f3 ≤ 1
    → f4 ≤ 1
    → f5 ≤ 1
    → f6 ≤ 1
    → (n : ℕ) → n ≡ 128 + f0 + 2 * f1 + 4 * f2 + 8 * f3 + 16 * f4 + 32 * f5 + 64 * f6
    → (n / 2 ^ 0 % 2 ≡ f0)
      × (n / 2 ^ 1 % 2 ≡ f1)
      × (n / 2 ^ 2 % 2 ≡ f2)
      × (n / 2 ^ 3 % 2 ≡ f3)
      × (n / 2 ^ 4 % 2 ≡ f4)
      × (n / 2 ^ 5 % 2 ≡ f5)
      × (n / 2 ^ 6 % 2 ≡ f6)
opcode_flags f0 f1 f2 f3 f4 f5 f6 h0 h1 h2 h3 h4 h5 h6 n e = omega arith

-- parse_opcode reads the offset and the length, and stops on the instruction's last byte.
pub parse_opcode-copy_onto :
    (a : CopyArgs) (rest : Bytes)
    → HasBytes a
    → length (copy_onto a rest) < 2 ^ 64
    → parse_opcode (start (copy_onto a rest))
      ≡ ok (copy_offset a, copy_length a, start (copy_last a ∷ rest))
unfolding parse_opcode deref
parse_opcode-copy_onto a rest h len =
    let n : ℕ = copy_opcode a in
    let bits =
      opcode_flags _ _ _ _ _ _ _ (flag-le a.off1) (flag-le a.off2) (flag-le a.off3) (flag-le a.off4)
        (flag-le a.len1) (flag-le a.len2) (flag-le a.len3) n refl in
    let fits1 = onto-fits a.off1 _ len in
    let fits2 = onto-fits a.off2 _ fits1 in
    let fits3 = onto-fits a.off3 _ fits2 in
    let fits4 = onto-fits a.off4 _ fits3 in
    let fits5 = onto-fits a.len1 _ fits4 in
    let fits6 = onto-fits a.len2 _ fits5 in
    rw
      (
        opcode_field-onto n 0 (λ _ b. b) _ _ a.off1 _ bits.0 len,
        opcode_field-onto n 1 (or_byte 8) _ _ a.off2 _ bits.1 fits1,
        opcode_field-onto n 2 (or_byte 16) _ _ a.off3 _ bits.2 fits2,
        opcode_field-onto n 3 (or_byte 24) _ _ a.off4 _ bits.3 fits3,
        opcode_field-onto n 4 (λ _ b. b) _ _ a.len1 _ bits.4 fits4,
        opcode_field-onto n 5 (or_byte 8) _ _ a.len2 _ bits.5 fits5,
        opcode_field-onto n 6 (or_byte 16) _ _ a.len3 _ bits.6 fits6,
        store_offset a.off1 a.off2 a.off3 a.off4 h.off1_byte h.off2_byte h.off3_byte,
        store_length a.len1 a.len2 a.len3 h.len1_byte h.len2_byte,
      )
      (ap (λ (v : ℕ). ok (v, copy_length a, start (copy_last a ∷ rest)))
        (or_default (copy_offset a)))

-- The most significant bit of a copy's opcode is set.
pub copy_opcode_bounds : (a : CopyArgs) → (128 ≤ copy_opcode a) × (copy_opcode a < 256)
copy_opcode_bounds a = omega (
  arith,
  flag-le a.off1,
  flag-le a.off2,
  flag-le a.off3,
  flag-le a.off4,
  flag-le a.len1,
  flag-le a.len2,
  flag-le a.len3,
)

pub copy_rest_fits :
    (a : CopyArgs) (rest : Bytes) → length (copy_onto a rest) < 2 ^ 64 → suc (length rest) < 2 ^ 64
copy_rest_fits a rest len = onto-fits a.len3 _ (
    onto-fits a.len2 _ (
      onto-fits a.len1 _
        (onto-fits a.off4 _ (onto-fits a.off3 _ (onto-fits a.off2 _ (onto-fits a.off1 _ len))))))

onto-longer : (o : Option ℕ) (rest : Bytes) → length rest ≤ length (onto o rest)
onto-longer none rest = omega arith
onto-longer (some b) rest = omega arith

pub copy_onto-longer : (a : CopyArgs) (rest : Bytes) → length rest < length (copy_onto a rest)
copy_onto-longer a rest = omega (
  arith,
  onto-longer a.len3 rest,
  onto-longer a.len2 (onto a.len3 rest),
  onto-longer a.len1 (onto a.len2 (onto a.len3 rest)),
  onto-longer a.off4 (onto a.len1 (onto a.len2 (onto a.len3 rest))),
  onto-longer a.off3 (onto a.off4 (onto a.len1 (onto a.len2 (onto a.len3 rest)))),
  onto-longer a.off2 (onto a.off3 (onto a.off4 (onto a.len1 (onto a.len2 (onto a.len3 rest))))),
  onto-longer a.off1
      (onto a.off2 (onto a.off3 (onto a.off4 (onto a.len1 (onto a.len2 (onto a.len3 rest)))))),
)
