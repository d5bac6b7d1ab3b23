-- ===== src/ObjectCreate.antt =====
-- lib/object_create.c: how trees, commits and tags are put together. A function's result is the
-- identifier and the file that it hands to create_object_file.
pub mod Commit
pub mod Tree
pub mod Tag
pub mod Fields
pub mod Trim
pub mod Written
mod Tests
use gameoftrees.Base.{
  ℕ, zero, suc, ◌+◌, ◌-◌, ◌*◌, ◌/◌, ◌%◌, ◌^◌, List, [], ◌∷◌, ◌++◌, Bytes, Option, none, some,
  get_elem?, ltb, if◌then◌else◌, length, take,
}
use gameoftrees.Base.Decimal.{print_decimal}
use gameoftrees.Base.Int.{ℤ, pos, negsuc}
use gameoftrees.Digest.{digest_text, is_space, skip_spaces}
use gameoftrees.FileIndex.Codec.{Sha1}

-- "%lld" and "%zd"
abbrev pub print_signed : ℤ → Bytes
print_signed (pos n) = print_decimal n
print_signed (negsuc n) = b'-' ∷ print_decimal (n + 1)

-- A `size_t` that "%zd" prints.
abbrev pub as_signed : ℕ → ℤ
as_signed n = if ltb n (2 ^ 63) then pos n else negsuc (2 ^ 64 - 1 - n)

-- asprintf(&header, "%s %zd", label, len)
abbrev pub header_text : Bytes → ℕ → Bytes
header_text label len = label ++ (b' ' ∷ print_signed (as_signed len))

-- " +0000\n"
abbrev pub utc : Bytes
utc = b' ' ∷ b'+' ∷ b'0' ∷ b'0' ∷ b'0' ∷ b'0' ∷ 0x0a ∷ []

-- "%s%s %lld +0000\n"
abbrev pub person_text : Bytes → Bytes → ℤ → Bytes
person_text label name time = label ++ (name ++ (b' ' ∷ (print_signed time ++ utc)))

-- "%s%s\n" of an identifier.
abbrev pub id_line : Bytes → Bytes → Bytes
id_line label id = label ++ (digest_text id ++ (0x0a ∷ []))

-- The loop that ends the message behind its last byte that is not a space, from `len`.
pub trim_loop : ℕ → Bytes → Bytes
trim_loop zero msg = []
trim_loop (suc len) msg =
    let shorter = trim_loop len msg in
    elim (get_elem? msg len) [
      | none ↦ msg
      | some c ↦ if is_space c then shorter else take (suc len) msg
    ]

pub trim : Bytes → Bytes
trim logmsg = let msg = skip_spaces logmsg in trim_loop (length msg) msg

-- What the functions do with a text.
pub data Step : Type 0 where
  -- SHA1Update
  update : Bytes → Step
  -- fwrite(3), which is taken to write all
  fwrite : Bytes → Step

-- The state of SHA1 and the file.
module _ (sha : Sha1) where
  pub record Output : Type 0 where
    pub ctx : sha.Ctx
    pub file : Bytes

  abbrev pub no_output : Output
  no_output = record { ctx = sha.init; file = [] }

  abbrev pub run_step : Output → Step → Output
  run_step o (update text) = record { ctx = sha.update o.ctx text; file = o.file }
  run_step o (fwrite text) = record { ctx = o.ctx; file = o.file ++ text }

  abbrev pub run_steps : Output → List Step → Output
  run_steps o [] = o
  run_steps o (step ∷ steps) = run_steps (run_step o step) steps

  -- The steps of a new object: the identifier, and the file.
  pub written : List Step → Bytes × Bytes
  written steps = let o = run_steps no_output steps in (sha.final o.ctx, o.file)
