-- ===== src/Path.antt =====
-- lib/path.c: the order of paths, canonical absolute paths, and sorted lists of paths.
-- A C string is the list of its bytes before the NUL; reading at its end yields 0.
mod Tests
pub mod Order
pub mod Pathlist
pub mod Ancestor
pub mod Canon
use gameoftrees.Base.{
  ℕ, zero, suc, ◌+◌, ◌-◌, ◌%◌, ◌^◌, Bool, true, false, ◌&&◌, ◌||◌, not, List, [], ◌∷◌, ◌++◌, Bytes,
  Option, none, some, ltb, leb, ◌==◌, if◌then◌else◌, length, take, drop, bytes_eq, min, Ordering,
}
use gameoftrees.Error.{
  Error, no_space, bad_path, errno, Hazard, out_of_bounds, Result, ok, err, trap, ◌>>=◌,
}
use mathlib.Core.List.{reverse}

-- `s[i]`
abbrev pub char_at : Bytes → ℕ → ℕ
char_at [] i = 0
char_at (c ∷ s) zero = c
char_at (c ∷ s) (suc i) = char_at s i

abbrev pub slash : ℕ
slash = b'/'

abbrev pub dot : ℕ
dot = b'.'

pub is_absolute : Bytes → Bool
is_absolute path = char_at path 0 == slash

pub is_root_dir : Bytes → Bool
is_root_dir [] = true
is_root_dir (c ∷ path) = c == slash && is_root_dir path

pub is_current_dir : Bytes → Bool
is_current_dir path = char_at path 0 == dot && char_at path 1 == 0

-- `strncmp(a, b, n) == 0`
pub strn_eq : ℕ → Bytes → Bytes → Bool
strn_eq zero a b = true
strn_eq (suc n) [] [] = true
strn_eq (suc n) (x ∷ a) (y ∷ b) = x == y && strn_eq n a b
strn_eq (suc n) _ _ = false

pub is_child : Bytes → Bytes → ℕ → Bool
is_child child parent parent_len =
    if parent_len == 0 || is_root_dir parent
    then true
    else if not (strn_eq parent_len parent child)
    then false
    else char_at child parent_len == slash

-- `while (path[0] == '/') { path++; len--; }` on a `size_t`.
pub skip_slashes : Bytes → ℕ → Bytes × ℕ
skip_slashes [] len = ([], len)
skip_slashes (c ∷ path) len =
    let rest = skip_slashes path ((len + (2 ^ 64 - 1)) % 2 ^ 64) in
    if c == slash then rest else (c ∷ path, len)

-- `while (*path == '/') path++`
pub drop_slashes : Bytes → Bytes
drop_slashes [] = []
drop_slashes (c ∷ path) = if c == slash then drop_slashes path else c ∷ path

-- The loop over the common prefix with `left` rounds to go: the rounds left at its end, and the
-- paths from `i` on.
pub skip_common : ℕ → Bytes → Bytes → ℕ × Bytes × Bytes
skip_common (suc left) (x ∷ a) (y ∷ b) =
    let rest = skip_common left a b in if x == y then rest else (suc left, x ∷ a, y ∷ b)
skip_common left a b = (left, a, b)

-- `while (path[i] == '/' && path[i + 1] == '/') path++`
pub skip_redundant : Bytes → Bytes
skip_redundant [] = []
skip_redundant (c ∷ path) =
    let rest = skip_redundant path in
    if c == slash && char_at path 0 == slash then rest else c ∷ path

-- The tests behind the common prefix, on the paths from `i` on.
pub cmp_rest : Bytes → Bytes → Ordering
cmp_rest a b =
    if char_at a 0 == slash && char_at a 1 == 0 && char_at b 0 == 0
    then Ordering.eq
    else if char_at b 0 == slash && char_at b 1 == 0 && char_at a 0 == 0
    then Ordering.eq
    else if char_at a 0 == slash && char_at b 0 == 0
    then Ordering.gt
    else if char_at b 0 == slash && char_at a 0 == 0
    then Ordering.lt
    else if char_at a 0 == slash && not (char_at b 0 == 0)
    then Ordering.lt
    else if char_at b 0 == slash && not (char_at a 0 == 0)
    then Ordering.gt
    else if ltb (char_at a 0) (char_at b 0)
    then Ordering.lt
    else Ordering.gt

pub cmp_from : ℕ → ℕ → ℕ × Bytes × Bytes → Ordering
cmp_from len1 len2 (left, a, b) =
    if len1 == len2 && left == 0
    then Ordering.eq
    else cmp_rest (skip_redundant a) (skip_redundant b)

-- -1, 0 and 1 are `lt`, `eq` and `gt`.
pub path_cmp : Bytes → Bytes → ℕ → ℕ → Ordering
path_cmp path1 path2 len1 len2 =
    let (a, n1) = skip_slashes path1 len1 in
    let (b, n2) = skip_slashes path2 len2 in cmp_from n1 n2 (skip_common (min n1 n2) a b)

-- An entry of a path list; `payload` stands for the `data` pointer.
pub record PathlistEntry : Type 0 where
  pub path : Bytes
  pub payload : ℕ

-- `got_path_cmp` on two entries, whose `path_len` is `strlen(path)`.
abbrev pub entry_cmp : PathlistEntry → PathlistEntry → Ordering
entry_cmp e f = path_cmp e.path f.path (length e.path) (length f.path)

-- One round of the loop of got_pathlist_insert at the entry `pe`, where `rest` is what the loop
-- makes of the entries before it.
pub place :
    PathlistEntry
    → PathlistEntry
    → List PathlistEntry
    → Bool × List PathlistEntry
    → Ordering
    → Bool × List PathlistEntry
place new pe before rest Ordering.eq = (false, pe ∷ before)
place new pe before rest Ordering.lt = (true, new ∷ pe ∷ before)
place new pe before (inserted, l) Ordering.gt = (inserted, pe ∷ l)

-- The loop, on the list from its last entry to its first: whether the entry was inserted, and the
-- list.
pub insert_backwards : PathlistEntry → List PathlistEntry → Bool × List PathlistEntry
insert_backwards new [] = (true, new ∷ [])
insert_backwards new (pe ∷ before) =
    place new pe before (insert_backwards new before) (entry_cmp pe new)

-- A list is kept from its last entry to its first. `allocated` says whether malloc(3) succeeds.
pub pathlist_insert : Bool → List PathlistEntry → Bytes → ℕ → Result (Bool × List PathlistEntry)
pathlist_insert allocated pathlist path payload =
    if not allocated
    then err errno
    else ok (insert_backwards (record { path = path; payload = payload }) pathlist)

pub pathlist_append : Bool → List PathlistEntry → Bytes → ℕ → Result (List PathlistEntry)
pathlist_append allocated pathlist path payload =
    if not allocated then err errno else ok (record { path = path; payload = payload } ∷ pathlist)

-- got_path_skip_common_ancestor, whose loop skips separators while `abspath` stays ahead of
-- `len_parent` by the skipped ones.
pub skip_common_ancestor : Bool → Bytes → Bytes → Result Bytes
skip_common_ancestor allocated parent abspath =
    if leb (length abspath) (length parent)
    then err bad_path
    else if not (strn_eq (length parent) parent abspath)
    then err bad_path
    else if not (is_root_dir parent) && not (char_at abspath (length parent) == slash)
    then err bad_path
    else if not allocated
    then err errno
    else ok (drop_slashes (drop (length parent) abspath))

-- got_path_strip_trailing_slashes, on the path from its last byte to its first.
pub strip_trailing_slashes : Bytes → Bytes
strip_trailing_slashes path = reverse (drop_slashes (reverse path))
