-- ===== src/ObjectParse/Tree.antt =====
-- The parser of tree objects of lib/object_parse.c.
mod Tests
pub mod RoundTrip
pub mod Listing
use gameoftrees.Base.{
  ℕ, zero, suc, ◌+◌, ◌-◌, ◌*◌, ◌%◌, ◌^◌, Bool, true, false, ◌&&◌, List, [], ◌∷◌, ◌++◌, Bytes,
  Option, none, some, bit_or, ltb, leb, ◌==◌, if◌then◌else◌, length, take, drop,
}
use gameoftrees.Error.{bad_obj_data, tree_dup_entry, Result, ok, err, trap, ◌>>=◌}
use gameoftrees.Path.{PathlistEntry, pathlist_insert}

pub record ParsedTreeEntry : Type 0 where
  pub mode : ℕ
  pub id : Bytes

-- strnlen(3) of a buffer, with its length.
abbrev pub strnlen : Bytes → ℕ
strnlen [] = 0
strnlen (c ∷ s) = if c == 0 then 0 else suc (strnlen s)

-- memchr(3) for a space.
abbrev pub find_space : Bytes → Option ℕ
find_space [] = none
find_space (c ∷ s) =
    let rest = find_space s in
    if c == b' ' then some 0 else elim rest [ none ↦ none | some i ↦ some (suc i) ]

-- The string from a place in a buffer.
abbrev pub string_of : Bytes → Bytes
string_of [] = []
string_of (c ∷ s) = if c == 0 then [] else c ∷ string_of s

-- `*p - '0'` of a `char` with a sign, as the mode's 32 bits.
abbrev pub digit_of : ℕ → ℕ
digit_of c =
    if ltb c 0x80 then (c + (2 ^ 32 - b'0')) % 2 ^ 32 else (c + (2 ^ 32 - 256 - b'0')) % 2 ^ 32

-- The loop over the mode. Its test is of a `char` that is less than '0' and greater than '7', which
-- none is.
pub mode_loop : ℕ → Bytes → ℕ
mode_loop mode [] = mode
mode_loop mode (c ∷ s) = mode_loop (bit_or (mode * 2 ^ 3 % 2 ^ 32) (digit_of c)) s

-- Behind the test of the space at `space`: the entry, its name, and its length in the buffer.
pub entry_with_space : Bytes → ℕ → Option ℕ → Result (ParsedTreeEntry × Bytes × ℕ)
entry_with_space buf elen none = err bad_obj_data
entry_with_space buf elen (some zero) = err bad_obj_data
entry_with_space buf elen (some (suc i)) =
    if ltb (length buf - elen) 20
    then err bad_obj_data
    else ok (
      record { mode = mode_loop 0 (take (suc i) buf); id = take 20 (drop elen buf) },
      string_of (drop (suc (suc i)) buf),
      elen + 20,
    )

-- `maxlen` is the length of `buf`. Memory is taken to be there.
pub parse_tree_entry : Bytes → Result (ParsedTreeEntry × Bytes × ℕ)
parse_tree_entry buf =
    let elen = strnlen buf + 1 in
    if ltb (length buf) elen
    then err bad_obj_data
    else entry_with_space buf elen (find_space (take elen buf))

-- The list, whose entries have as payload the place of their data; the data; and `nentries`.
pub record Tree : Type 0 where
  pub entries : List PathlistEntry
  pub parsed : List ParsedTreeEntry
  pub nentries : ℕ

-- The round's insertion into the list.
pub insert_entry : Tree → Bytes → ParsedTreeEntry → Result Tree
insert_entry t name pte = do
  (inserted, entries') ← pathlist_insert true t.entries name t.nentries
  if inserted
      then ok
          (record { entries = entries'; parsed = t.parsed ++ pte ∷ []; nentries = t.nentries + 1 })
      else err tree_dup_entry

-- The loop of got_object_parse_tree; a round takes 21 bytes or more, so that as much fuel as bytes
-- is enough, and without it the loop ends as for bytes that remain.
pub tree_loop : ℕ → Tree → Bytes → Result Tree
tree_loop fuel t [] = ok t
tree_loop zero t (c ∷ buf) = err bad_obj_data
tree_loop (suc fuel) t (c ∷ buf) = do
  (pte, name, elen) ← parse_tree_entry (c ∷ buf)
  t' ← insert_entry t name pte
  tree_loop fuel t' (drop elen (c ∷ buf))

abbrev pub no_entries : Tree
no_entries = record { entries = []; parsed = []; nentries = 0 }

pub parse_tree : Bytes → Result Tree
parse_tree buf = tree_loop (length buf) no_entries buf
