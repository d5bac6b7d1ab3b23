-- ===== src/ObjectIdset.antt =====
-- lib/object_idset.c: sets of object identifiers, each with a pointer of its user.
-- A set is a red-black tree of compat/tree.h, whose insertion and removal are parameters.
pub mod Search
pub mod Ordered
pub mod Refinement
pub mod Spine
mod Tests
use gameoftrees.Base.{
  ℕ, zero, suc, ◌+◌, ◌-◌, ◌^◌, ◌≡◌, Bool, true, false, not, List, [], ◌∷◌, ◌++◌, Bytes, Option,
  none, some, leb, ◌==◌, if◌then◌else◌, Ordering, memcmp, All,
}
use gameoftrees.Error.{no_space, no_obj, errno, null_pointer, Result, ok, err, trap, ◌>>=◌}

-- `payload` stands for the `data` pointer.
pub record IdElement : Type 0 where
  pub id : Bytes
  pub payload : ℕ

pub data IdTree : Type 0 where
  leaf : IdTree
  node : IdTree → IdElement → IdTree → IdTree

-- The elements in the tree's order.
abbrev pub elements : IdTree → List IdElement
elements leaf = []
elements (node l e r) = elements l ++ e ∷ elements r

unfoldable pub cmp_elements : IdElement → IdElement → Ordering
cmp_elements e1 e2 = memcmp e1.id e2.id

-- The loop of find_element, from a node down.
unfoldable pub find_element : IdTree → Bytes → Option IdElement
find_element leaf id = none
find_element (node l e r) id = elim (memcmp id e.id) [
  | Ordering.lt ↦ find_element l id
  | Ordering.gt ↦ find_element r id
  | Ordering.eq ↦ some e
]

abbrev pub root : IdTree → Option IdElement
root leaf = none
root (node l e r) = some e

-- What holds of the elements of a search tree.
abbrev pub IsBelow : IdElement → IdElement → Type 0
IsBelow e f = cmp_elements e f ≡ Ordering.lt

abbrev pub IsOrdered : List IdElement → Type 0
IsOrdered [] = Unit
IsOrdered (e ∷ l) = All (IsBelow e) l × IsOrdered l

abbrev pub with_element : List IdElement → IdElement → List IdElement
with_element [] x = x ∷ []
with_element (e ∷ l) x =
    let rest = with_element l x in
    elim (cmp_elements x e) [
      | Ordering.lt ↦ x ∷ e ∷ l
      | Ordering.eq ↦ e ∷ l
      | Ordering.gt ↦ e ∷ rest
    ]

abbrev pub without_element : List IdElement → IdElement → List IdElement
without_element [] x = []
without_element (e ∷ l) x =
    let rest = without_element l x in elim (cmp_elements x e) [ Ordering.eq ↦ l | _ ↦ e ∷ rest ]

-- RB_INSERT and RB_REMOVE on a search tree. RB_INSERT leaves the elements as they are where an equal one
-- is there.
pub record RbOps : Type 0 where
  pub insert : IdTree → IdElement → IdTree
  pub remove : IdTree → IdElement → IdTree
  pub insert_law :
      (t : IdTree) (x : IdElement)
      → IsOrdered (elements t)
      → elements (insert t x) ≡ with_element (elements t) x
  pub remove_law :
      (t : IdTree) (x : IdElement)
      → IsOrdered (elements t)
      → elements (remove t x) ≡ without_element (elements t) x

pub record Idset : Type 0 where
  pub entries : IdTree
  pub totelem : ℕ

abbrev pub max_elem : ℕ
max_elem = 2 ^ 31 - 1

pub idset_alloc : Bool → Option Idset
idset_alloc allocated =
    if not allocated then none else some (record { entries = leaf; totelem = 0 })

abbrev pub payload_of : Option IdElement → Option ℕ
payload_of none = none
payload_of (some e) = some e.payload

-- got_object_idset_get and got_object_idset_lookup_data; `none` is NULL.
unfoldable pub idset_get : Idset → Bytes → Option ℕ
idset_get set id = payload_of (find_element set.entries id)

unfoldable pub idset_contains : Idset → Bytes → Bool
idset_contains set id = elim (find_element set.entries id) [ none ↦ false | some e ↦ true ]

-- got_object_idset_for_each, with the callback's effects in a state.
pub idset_for_each {ℓ} : {S : Type ℓ} → List IdElement → (S → IdElement → Result S) → S → Result S
idset_for_each [] cb arg = ok arg
idset_for_each (e ∷ l) cb arg = cb arg e >>= λ arg'. idset_for_each l cb arg'

abbrev pub entry_of : IdTree → Option Bytes → Option IdElement
entry_of t none = root t
entry_of t (some id) = find_element t id

module _ (rb : RbOps) where
  unfoldable pub idset_add : Bool → Idset → Bytes → ℕ → Result Idset
  idset_add allocated set id payload =
      if leb max_elem set.totelem
      then err no_space
      else if not allocated
      then err errno
      else ok (record {
        entries = rb.insert set.entries (record { id = id; payload = payload });
        totelem = set.totelem + 1;
      })

  -- The element removed, if there is one. got_error_no_obj follows its argument, so that an empty
  -- tree without an `id` is a NULL pointer followed.
  unfoldable pub remove_found : Idset → Option Bytes → Option IdElement → Result (Idset × ℕ)
  remove_found set none none = trap null_pointer
  remove_found set (some id) none = err no_obj
  remove_found set id (some e) =
      ok (record { entries = rb.remove set.entries e; totelem = set.totelem - 1 }, e.payload)

  -- Without an `id` the root is removed.
  unfoldable pub idset_remove : Idset → Option Bytes → Result (Idset × ℕ)
  idset_remove set id =
      if set.totelem == 0 then err no_obj else remove_found set id (entry_of set.entries id)
