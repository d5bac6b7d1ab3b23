-- ===== src/Reference/Change.antt =====
-- Looking into a reference and changing it. The copies of strings that the code makes succeed.
use gameoftrees.Base.{
  ◌≡◌, refl, ap, ◌∙◌, ◌⊎◌, inl, inr, Bool, true, false, Bytes, Option, none, some, All, length, ◌<◌,
}
use gameoftrees.Error.{bad_ref_type, bad_ref_data, Result, ok, err, trap}
use gameoftrees.Reference.{Reference, ref, symref}
use gameoftrees.Reference.Open.{first_line, parse_ref_file}
use gameoftrees.Reference.File.{ref_contents, name_of, parse_ref_file-ref_contents}

unfoldable pub ref_is_symbolic : Reference → Bool
ref_is_symbolic (symref name target) = true
ref_is_symbolic (ref name sha1 packed) = false

-- `none` is NULL.
pub ref_get_symref_target : Reference → Option Bytes
ref_get_symref_target (symref name target) = some target
ref_get_symref_target (ref name sha1 packed) = none

pub ref_change_ref : Reference → Bytes → Result Reference
ref_change_ref (symref name target) id = err bad_ref_type
ref_change_ref (ref name sha1 packed) id = ok (ref name id packed)

pub ref_change_symref : Reference → Bytes → Result Reference
ref_change_symref (symref name target) refname = ok (symref name refname)
ref_change_symref (ref name sha1 packed) refname = err bad_ref_type

-- A symbolic reference is never a packed one.
pub ref_change_symref_to_ref : Reference → Bytes → Result Reference
ref_change_symref_to_ref (symref name target) id = ok (ref name id false)
ref_change_symref_to_ref (ref name sha1 packed) id = err bad_ref_type

abbrev pub read_contents : Bytes → Option Bytes → Result (Option Reference)
read_contents name none = err bad_ref_data
read_contents name (some text) = parse_ref_file name (first_line text)

-- The file that got_ref_write leaves for the result of a change, read back by parse_ref_file.
abbrev pub read_back : Result Reference → Result (Option Reference)
read_back (ok r) = read_contents (name_of r) (ref_contents r)
read_back (err e) = err e
read_back (trap z) = trap z

read_back_id :
    (name id : Bytes) (packed : Bool)
    → length id ≡ 20
    → All (λ b. b < 256) id
    → read_back (ok (ref name id packed)) ≡ ok (some (ref name id false))
unfolding ref_contents
read_back_id name id packed n h =
    let (text, contents, read) = parse_ref_file-ref_contents (ref name id false) (n, h, refl) in
    let same : ref_contents (ref name id packed) ≡ some text = contents in
    ap (read_contents name) same ∙ read

-- Every reference can be given an identifier of 20 bytes in exactly one of two ways: a symbolic one
-- by got_ref_change_symref_to_ref, another by got_ref_change_ref. The other function reports a bad
-- type. What got_ref_write then leaves is read back as a reference of the same name that has the
-- identifier and is not symbolic.
pub ref_change_lem :
    (r : Reference) (id : Bytes)
    → length id ≡ 20
    → All (λ b. b < 256) id
    → ((ref_is_symbolic r ≡ true)
        × (ref_change_ref r id ≡ err bad_ref_type)
        × (read_back (ref_change_symref_to_ref r id) ≡ ok (some (ref (name_of r) id false))))
      ⊎ ((ref_is_symbolic r ≡ false)
          × (ref_change_symref_to_ref r id ≡ err bad_ref_type)
          × (read_back (ref_change_ref r id) ≡ ok (some (ref (name_of r) id false))))
unfolding ref_is_symbolic ref_change_ref ref_change_symref_to_ref
ref_change_lem (symref name target) id n h = inl (refl, refl, read_back_id name id false n h)
ref_change_lem (ref name sha1 packed) id n h = inr (refl, refl, read_back_id name id packed n h)
