-- ===== src/Reference.antt =====
-- lib/reference.c: references of a repository and their names. A string is the list of its bytes
-- before the NUL. The lock of a reference is not modelled.
pub mod Names
pub mod Open
pub mod Resolve
pub mod File
pub mod Packed
pub mod Change
mod Tests
use gameoftrees.Base.{
  ℕ, zero, suc, ◌+◌, ◌-◌, Bool, true, false, ◌&&◌, ◌||◌, not, List, [], ◌∷◌, ◌++◌, Bytes, ltb, leb,
  ◌==◌, if◌then◌else◌, length, take, drop, bytes_eq,
}

-- The flag GOT_REF_IS_SYMBOLIC tells the two members of the union apart; `packed` is the flag
-- GOT_REF_IS_PACKED.
pub data Reference : Type 0 where
  ref : (name sha1 : Bytes) → (packed : Bool) → Reference
  symref : (name target : Bytes) → Reference

abbrev pub ref_head : Bytes
ref_head = b'H' ∷ b'E' ∷ b'A' ∷ b'D' ∷ []

abbrev pub orig_head : Bytes
orig_head = b'O' ∷ b'R' ∷ b'I' ∷ b'G' ∷ b'_' ∷ ref_head

abbrev merge_head : Bytes
merge_head = b'M' ∷ b'E' ∷ b'R' ∷ b'G' ∷ b'E' ∷ b'_' ∷ ref_head

abbrev fetch_head : Bytes
fetch_head = b'F' ∷ b'E' ∷ b'T' ∷ b'C' ∷ b'H' ∷ b'_' ∷ ref_head

-- `strncmp(s, prefix, strlen(prefix)) == 0`
abbrev pub has_prefix : Bytes → Bytes → Bool
has_prefix prefix s = bytes_eq (take (length prefix) s) prefix

abbrev pub refs_slash : Bytes
refs_slash = b'r' ∷ b'e' ∷ b'f' ∷ b's' ∷ b'/' ∷ []

pub is_well_known_ref : Bytes → Bool
is_well_known_ref refname =
    bytes_eq refname ref_head
    || bytes_eq refname orig_head
    || bytes_eq refname merge_head
    || bytes_eq refname fetch_head

-- iscntrl(3) in the C locale
pub is_cntrl : ℕ → Bool
is_cntrl c = ltb c 0x20 || c == 0x7f

pub forbidden : ℕ → Bool
forbidden c =
    c == b' '
    || c == b'~'
    || c == b'^'
    || c == b':'
    || c == b'?'
    || c == b'*'
    || c == b'['
    || c == b'\\'

-- The byte at the start of a string, or the NUL, is `x`.
abbrev pub starts : ℕ → Bytes → Bool
starts x [] = false
starts x (c ∷ s) = c == x

abbrev pub is_empty : Bytes → Bool
is_empty [] = true
is_empty (c ∷ s) = false

abbrev pub forbidden_seq : ℕ → Bytes → Bool
forbidden_seq c s =
    (c == b'/' && starts b'/' s) || (c == b'.' && starts b'.' s) || (c == b'@' && starts b'{' s)

-- A segment must not start here.
abbrev pub bad_segment : Bytes → Bool
bad_segment s = is_empty s || starts b'.' s || starts b'/' s

-- The suffix GOT_LOCKFILE_SUFFIX, in a segment that is given from its last byte to its first.
abbrev pub is_lockfile : Bytes → Bool
is_lockfile seg = bytes_eq (take 5 seg) (b'k' ∷ b'c' ∷ b'o' ∷ b'l' ∷ b'.' ∷ [])

-- The loop of is_valid_ref_name at `s`, with the bytes from `seg` to `s`, the last one first.
pub name_loop : Bytes → Bytes → Bool
name_loop seg [] = not (is_lockfile seg)
name_loop seg (c ∷ s) =
    let slash = name_loop [] s in
    let rest = name_loop (c ∷ seg) s in
    if forbidden c
    then false
    else if forbidden_seq c s
    then false
    else if is_cntrl c
    then false
    else if c == b'.' && is_empty s
    then false
    else if c == b'/'
    then (if bad_segment s then false else if is_lockfile seg then false else slash)
    else rest

pub is_valid_ref_name : Bytes → Bool
is_valid_ref_name name =
    if bytes_eq name (b'@' ∷ [])
    then false
    else if bad_segment name
    then false
    else name_loop [] name
