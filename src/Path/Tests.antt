-- ===== src/Path/Tests.antt =====
-- Runs of lib/path.c on concrete paths, and its theorems at them.
use gameoftrees.Base.{
  ℕ, ◌≡◌, ◌≢◌, ◌≤◌, ◌⊎◌, refl, true, false, ◌||◌, not, List, [], ◌∷◌, ◌++◌, Bytes, arith, length,
  replicate, All, Ordering, bytes_eq,
}
use gameoftrees.Error.{ok, err, errno}
use gameoftrees.Path.{
  PathlistEntry, path_cmp, skip_slashes, skip_common, cmp_from, cmp_rest, skip_redundant, slash,
  pathlist_insert, skip_common_ancestor, strn_eq, is_root_dir, drop_slashes,
}
use gameoftrees.Path.Order.{IsPlain, lex, path_cmp_order}
use gameoftrees.Path.Pathlist.{IsPlainEntry, IsSorted, contains, pathlist_insert_lem}
use gameoftrees.Path.Ancestor.{skip_common_ancestor_split}
use gameoftrees.Path.Canon.{canonpath}
use gameoftrees.Path.Canon.Idempotent.{IsEntry, canonpath_idempotent}

-- "a/b", "a-b" and "b".
abbrev p_slash : Bytes
p_slash = b'a' ∷ b'/' ∷ b'b' ∷ []

abbrev p_dash : Bytes
p_dash = b'a' ∷ b'-' ∷ b'b' ∷ []

abbrev p_b : Bytes
p_b = b'b' ∷ []

p_slash-IsPlain : IsPlain p_slash
p_slash-IsPlain = ground arith

p_dash-IsPlain : IsPlain p_dash
p_dash-IsPlain = ground arith

p_b-IsPlain : IsPlain p_b
p_b-IsPlain = ground arith

slash_first : path_cmp p_slash p_dash 3 3 ≡ Ordering.lt
unfolding path_cmp skip_slashes skip_common cmp_from cmp_rest skip_redundant
slash_first = refl

path_cmp_order_example : path_cmp p_dash p_slash 3 3 ≡ Ordering.gt
path_cmp_order_example =
    (path_cmp_order p_slash p_dash p_b p_slash-IsPlain p_dash-IsPlain p_b-IsPlain).2 slash_first

abbrev listed : List PathlistEntry
listed = record { path = p_b; payload = 1 } ∷ record { path = p_slash; payload = 2 } ∷ []

listed-IsSorted : IsSorted listed
unfolding lex
listed-IsSorted = ((refl, tt), (tt, tt))

pathlist_insert_lem_example :
    (true ≡ false × (pathlist_insert true listed p_dash 3 ≡ err errno))
    ⊎ ((l' : List PathlistEntry) × (true ≡ true)
        × (pathlist_insert true listed p_dash 3 ≡ ok (not (contains listed p_dash), l'))
        × IsSorted l'
        × All IsPlainEntry l'
        × ((q : Bytes) → contains l' q ≡ (bytes_eq p_dash q || contains listed q)))
pathlist_insert_lem_example =
    pathlist_insert_lem true listed p_dash 3 p_dash-IsPlain (p_b-IsPlain, (p_slash-IsPlain, tt))
      listed-IsSorted

ancestor_of_b : skip_common_ancestor true p_b (p_b ++ slash ∷ p_b) ≡ ok p_b
unfolding skip_common_ancestor strn_eq is_root_dir drop_slashes
ancestor_of_b = refl

skip_common_ancestor_split_example :
    (k : ℕ) × (p_b ++ slash ∷ p_b ≡ p_b ++ (replicate k slash ++ p_b))
    × (b'b' ≢ slash)
    × ((is_root_dir p_b ≡ true) ⊎ (1 ≤ k))
skip_common_ancestor_split_example =
    skip_common_ancestor_split p_b (p_b ++ slash ∷ p_b) p_b ancestor_of_b

-- "/a/../b/./"
abbrev canon_parts : List Bytes
canon_parts = (b'b' ∷ []) ∷ (b'.' ∷ []) ∷ [] ∷ []

canonpath_idempotent_example :
    (result : Bytes) × (canonpath (b'/' ∷ b'b' ∷ b'/' ∷ b'.' ∷ b'/' ∷ []) 64 ≡ ok result)
    × (result ≡ b'/' ∷ b'b' ∷ [])
    × All IsEntry ((b'b' ∷ []) ∷ [])
    × (length result ≤ 5)
    × (canonpath result 64 ≡ ok result)
unfolding bytes_eq
canonpath_idempotent_example =
    canonpath_idempotent (b'b' ∷ []) ((b'.' ∷ []) ∷ [] ∷ []) 64 (ground arith) (omega arith)
