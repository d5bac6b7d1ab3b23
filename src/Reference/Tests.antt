-- ===== src/Reference/Tests.antt =====
-- A repository whose HEAD is a branch and whose ORIG_HEAD is itself, and the theorems of Reference.
use gameoftrees.Base.{
  ℕ, zero, suc, ◌<◌, ◌≡◌, refl, true, false, ◌&&◌, not, List, [], ◌∷◌, ◌++◌, Bytes, none, some,
  arith, All, bytes_eq, replicate, if◌then◌else◌,
}
use gameoftrees.Error.{ok}
use gameoftrees.Digest.{
  digest_text, digit, parse_sha1_digest, parse_digest_loop, parse_xdigit, strtol, digits,
  skip_spaces, sign, skip_prefix, hex_value,
}
use gameoftrees.Reference.{
  ref, symref, ref_head, orig_head, has_prefix, refs_slash, is_well_known_ref, is_valid_ref_name,
  name_loop, is_cntrl, forbidden,
}
use gameoftrees.Reference.Names.{first, others, all_components, ends_in_dot, is_valid_ref_name_lem}
use gameoftrees.Reference.Open.{
  RefFile, missing, first_line, Repo, parse_symref, parse_ref_line, parse_ref_file,
  get_refs_dir_path, open_ref, goes_on, open_subdirs, ref_open, open_packed_ref,
}
use gameoftrees.Reference.Resolve.{
  arrives, follows, ref_resolve, ref_resolve-Leads, ref_resolve_endless,
}
use gameoftrees.Reference.File.{ref_contents, parse_ref_file-ref_contents}
use gameoftrees.Reference.Packed.{
  PackedLine, comment, peeled, entry, packed_file, lookup, IsPackable, open_packed_ref-lookup,
}

-- "refs/heads/x"
abbrev branch : Bytes
branch = refs_slash ++ (b'h' ∷ b'e' ∷ b'a' ∷ b'd' ∷ b's' ∷ b'/' ∷ b'x' ∷ [])

abbrev some_id : Bytes
some_id = replicate 20 0xa7

abbrev files : Bytes → RefFile
files path =
    if bytes_eq path (b'g' ∷ b'/' ∷ ref_head)
    then first_line (b'r' ∷ b'e' ∷ b'f' ∷ b':' ∷ b' ' ∷ (branch ++ 10 ∷ []))
    else if bytes_eq path (b'g' ∷ b'/' ∷ orig_head)
    then first_line (b'r' ∷ b'e' ∷ b'f' ∷ b':' ∷ b' ' ∷ (orig_head ++ 10 ∷ []))
    else if bytes_eq path (b'g' ∷ b'/' ∷ branch)
    then first_line (digest_text some_id ++ 10 ∷ [])
    else missing

abbrev repo : Repo
repo = record {
  path_git_dir = b'g' ∷ [];
  path_refs = b'g' ∷ b'/' ∷ b'r' ∷ b'e' ∷ b'f' ∷ b's' ∷ [];
  file = files;
  packed_refs = none;
}

head_opened : ref_open repo ref_head ≡ ok (symref ref_head branch)
unfolding ref_open open_ref open_subdirs goes_on get_refs_dir_path parse_ref_file parse_ref_line
    parse_symref is_well_known_ref bytes_eq digest_text digit
head_opened = refl

orig_opened : ref_open repo orig_head ≡ ok (symref orig_head orig_head)
unfolding ref_open open_ref open_subdirs goes_on get_refs_dir_path parse_ref_file parse_ref_line
    parse_symref is_well_known_ref bytes_eq digest_text digit
orig_opened = refl

branch_opened : ref_open repo branch ≡ ok (ref branch some_id false)
unfolding ref_open open_ref open_subdirs goes_on get_refs_dir_path parse_ref_file parse_ref_line
    parse_symref is_well_known_ref bytes_eq digest_text digit parse_sha1_digest parse_digest_loop
    parse_xdigit strtol digits skip_spaces sign skip_prefix hex_value
branch_opened = refl

ref_resolve-Leads_example : ref_resolve 2 repo (symref (b'z' ∷ []) ref_head) ≡ some (ok some_id)
ref_resolve-Leads_example =
    ref_resolve-Leads repo 2 2 (b'z' ∷ []) ref_head some_id
      (follows head_opened (arrives branch_opened)) (omega arith)

ref_resolve_endless_example : ref_resolve 1000 repo (symref (b'z' ∷ []) orig_head) ≡ none
ref_resolve_endless_example =
    ref_resolve_endless repo (λ i. orig_head) (λ i. orig_head) (b'z' ∷ []) 1000 (λ i. orig_opened)

locked_name : is_valid_ref_name (b'a' ∷ b'.' ∷ b'l' ∷ b'o' ∷ b'c' ∷ b'k' ∷ []) ≡ false
unfolding is_valid_ref_name name_loop bytes_eq is_cntrl forbidden
locked_name = refl

is_valid_ref_name_lem_example : is_valid_ref_name branch ≡ (
    not (bytes_eq branch (b'@' ∷ []))
    && all_components (first branch ∷ others branch)
    && not (ends_in_dot branch))
is_valid_ref_name_lem_example = is_valid_ref_name_lem branch

All-replicate : (k x : ℕ) → (P : ℕ → Type 0) → P x → All P (replicate k x)
All-replicate zero x P h = tt
All-replicate (suc k) x P h = (h, All-replicate k x P h)

parse_ref_file-ref_contents_example :
    (text : Bytes) × (ref_contents (ref branch some_id false) ≡ some text)
    × (parse_ref_file branch (first_line text) ≡ ok (some (ref branch some_id false)))
parse_ref_file-ref_contents_example =
    parse_ref_file-ref_contents (ref branch some_id false)
      (refl, All-replicate 20 0xa7 (λ b. b < 256) (omega arith), refl)

abbrev packed_lines : List PackedLine
packed_lines =
    comment (b'x' ∷ [])
    ∷ entry (b'y' ∷ []) some_id
    ∷ peeled (b'0' ∷ [])
    ∷ entry (refs_slash ++ b'v' ∷ []) some_id
    ∷ []

packed_lines-IsPackable : All IsPackable packed_lines
packed_lines-IsPackable =
    let id : All (λ b. b < 256) some_id = All-replicate 20 0xa7 (λ b. b < 256) (omega arith) in
    (
      tt,
      (
        (((omega arith, omega arith), tt), refl, id),
        (
          tt,
          (
            (
              (
                (omega arith, omega arith),
                (
                  (omega arith, omega arith),
                  (
                    (omega arith, omega arith),
                    (
                      (omega arith, omega arith),
                      ((omega arith, omega arith), ((omega arith, omega arith), tt)),
                    ),
                  ),
                ),
              ),
              refl,
              id,
            ),
            tt,
          ),
        ),
      ),
    )

refs_name : has_prefix refs_slash (refs_slash ++ b'v' ∷ []) ≡ true
unfolding bytes_eq
refs_name = refl

open_packed_ref-lookup_example :
    open_packed_ref (refs_slash ++ b'v' ∷ []) (packed_file packed_lines) false
    ≡ ok (lookup (refs_slash ++ b'v' ∷ []) packed_lines)
open_packed_ref-lookup_example =
    open_packed_ref-lookup (refs_slash ++ b'v' ∷ []) packed_lines refs_name packed_lines-IsPackable
