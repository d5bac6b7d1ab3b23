-- ===== src/FileIndex/Tree.antt =====
-- The index of lib/fileindex.c: its tree of entries and their count.
-- The red-black tree of compat/tree.h is a parameter: a tree stands as its entries in their order.
pub mod Order
pub mod Insert
pub mod Counting
use gameoftrees.Base.{
  ℕ, zero, suc, ◌+◌, ◌-◌, ◌%◌, ◌^◌, ◌≡◌, Bool, true, false, ◌&&◌, ◌||◌, not, List, [], ◌∷◌, ◌++◌,
  Bytes, Option, none, some, bit_and, bit_or, leb, ltb, ◌==◌, if◌then◌else◌, length, Ordering, All,
}
use gameoftrees.Error.{no_space, Result, ok, err, ◌>>=◌}
use gameoftrees.Path.{path_cmp}
use gameoftrees.FileIndex.{
  Entry, entry_path_len, zeroed, f_path_len, f_not_flushed, f_remove_on_flush,
}

unfoldable pub fileindex_cmp : Entry → Entry → Ordering
fileindex_cmp e1 e2 = path_cmp e1.path e2.path (entry_path_len e1) (entry_path_len e2)

-- Where an element goes in the order, if there is none equal to it.
abbrev pub insert_sorted : List Entry → Entry → List Entry
insert_sorted [] x = x ∷ []
insert_sorted (e ∷ l) x =
    let rest = insert_sorted l x in
    elim (fileindex_cmp x e) [
      | Ordering.lt ↦ x ∷ e ∷ l
      | Ordering.eq ↦ e ∷ l
      | Ordering.gt ↦ e ∷ rest
    ]

abbrev pub find_sorted : List Entry → Entry → Option Entry
find_sorted [] key = none
find_sorted (e ∷ l) key =
    let rest = find_sorted l key in elim (fileindex_cmp key e) [ Ordering.eq ↦ some e | _ ↦ rest ]

abbrev pub IsBefore : Entry → Entry → Type 0
IsBefore e f = fileindex_cmp e f ≡ Ordering.lt

abbrev pub IsSorted : List Entry → Type 0
IsSorted [] = Unit
IsSorted (e ∷ l) = All (IsBefore e) l × IsSorted l

-- RB_INSERT and RB_FIND on a tree whose entries are sorted. RB_INSERT leaves the tree as it is
-- where an equal element is there.
pub record RbTree : Type 0 where
  pub insert : List Entry → Entry → List Entry
  pub find : List Entry → Entry → Option Entry
  pub insert_law : (l : List Entry) (x : Entry) → IsSorted l → insert l x ≡ insert_sorted l x
  pub find_law : (l : List Entry) (key : Entry) → IsSorted l → find l key ≡ find_sorted l key

-- `nentries` is an `int`, as the 32-bit word that it is stored in.
pub record Index : Type 0 where
  pub entries : List Entry
  pub nentries : ℕ

abbrev pub int_max : ℕ
int_max = 2 ^ 31 - 1

abbrev pub is_removed : Entry → Bool
is_removed ie = not (bit_and ie.flags f_remove_on_flush == 0)

pub alloc : Bool → Option Index
alloc allocated = if not allocated then none else some (record { entries = []; nentries = 0 })

abbrev mark_removed : Entry → Entry
mark_removed ie = record ie { flags = bit_or ie.flags f_remove_on_flush }

-- The entry at a place of the tree flagged for removal.
abbrev pub remove_at : List Entry → ℕ → List Entry
remove_at [] i = []
remove_at (e ∷ l) zero = mark_removed e ∷ l
remove_at (e ∷ l) (suc i) = e ∷ remove_at l i

-- The entry is the one at place `i` of the tree.
pub entry_remove : Index → ℕ → Index
entry_remove fileindex i = record {
  entries = remove_at fileindex.entries i;
  nentries = (fileindex.nentries + (2 ^ 32 - 1)) % 2 ^ 32;
}

abbrev unless_removed : Option Entry → Option Entry
unless_removed none = none
unless_removed (some ie) = if is_removed ie then none else some ie

-- got_fileindex_for_each_entry_safe, with the callback's effects in a state.
pub for_each_entry_safe {ℓ} : {S : Type ℓ} → List Entry → (S → Entry → Result S) → S → Result S
for_each_entry_safe [] cb arg = ok arg
for_each_entry_safe (ie ∷ l) cb arg =
    let skipped = for_each_entry_safe l cb arg in
    let called = cb arg ie >>= λ arg'. for_each_entry_safe l cb arg' in
    if is_removed ie then skipped else called

module _ (rb : RbTree) where
  pub add_entry : Index → Entry → Result Index
  add_entry fileindex ie =
      if leb int_max fileindex.nentries && ltb fileindex.nentries (2 ^ 31)
      then err no_space
      else ok (record {
        entries = rb.insert fileindex.entries ie;
        nentries = (fileindex.nentries + 1) % 2 ^ 32;
      })

  pub entry_add : Index → Entry → Result Index
  entry_add fileindex ie = add_entry fileindex (record ie { flags = bit_or ie.flags f_not_flushed })

  pub entry_get : Index → Bytes → ℕ → Option Entry
  entry_get fileindex path path_len = unless_removed (
      rb.find fileindex.entries
        (record zeroed { path = path; flags = bit_and path_len f_path_len }))
