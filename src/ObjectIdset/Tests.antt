-- ===== src/ObjectIdset/Tests.antt =====
-- Sets of identifiers of one and two bytes, and the theorems at them.
use gameoftrees.Base.{◌≡◌, ◌⊎◌, refl, true, false, [], ◌∷◌, none, some, arith, memcmp}
use gameoftrees.Error.{ok, err, no_obj, no_space, errno}
use gameoftrees.ObjectIdset.{
  IdElement, IdTree, leaf, node, elements, cmp_elements, find_element, Idset, idset_get,
  idset_contains, idset_add, idset_remove, IsOrdered, max_elem,
}
use gameoftrees.ObjectIdset.Search.{lookup, find_element-lookup}
use gameoftrees.ObjectIdset.Refinement.{IsValid, idset_add_lem, idset_remove_lem}
use gameoftrees.ObjectIdset.Ordered.{update}
use gameoftrees.ObjectIdset.Spine.{spine_ops}

abbrev first : IdElement
first = record { id = 1 ∷ 7 ∷ []; payload = 70 }

abbrev second : IdElement
second = record { id = 4 ∷ 2 ∷ []; payload = 71 }

abbrev third : IdElement
third = record { id = 4 ∷ 9 ∷ []; payload = 72 }

abbrev three_ids : IdTree
three_ids = node (node leaf first leaf) second (node leaf third leaf)

abbrev three_set : Idset
three_set = record { entries = three_ids; totelem = 3 }

three-IsOrdered : IsOrdered (elements three_ids)
unfolding cmp_elements memcmp
three-IsOrdered = ((refl, (refl, tt)), ((refl, tt), (tt, tt)))

three-IsValid : IsValid three_set
three-IsValid = (three-IsOrdered, refl, omega arith)

get_third : idset_get three_set (4 ∷ 9 ∷ []) ≡ some 72
unfolding idset_get find_element memcmp
get_third = refl

contains_none : idset_contains three_set (4 ∷ 3 ∷ []) ≡ false
unfolding idset_contains find_element memcmp
contains_none = refl

remove_from_empty :
    idset_remove spine_ops (record { entries = leaf; totelem = 0 }) none ≡ err no_obj
unfolding idset_remove
remove_from_empty = refl

add_fourth :
    idset_add spine_ops true three_set (9 ∷ []) 5
    ≡ ok (record {
      entries = node leaf first (
          node leaf second
            (node leaf third (node leaf (record { id = 9 ∷ []; payload = 5 }) leaf)));
      totelem = 4;
    })
unfolding idset_add cmp_elements memcmp
add_fourth = refl

missing_ninth : find_element three_ids (9 ∷ []) ≡ none
unfolding find_element memcmp
missing_ninth = refl

find_element-lookup_example :
    find_element three_ids (4 ∷ 9 ∷ []) ≡ lookup (elements three_ids) (4 ∷ 9 ∷ [])
find_element-lookup_example = find_element-lookup three_ids (4 ∷ 9 ∷ []) three-IsOrdered

idset_add_lem_example :
    ((3 ≡ max_elem) × (idset_add spine_ops true three_set (9 ∷ []) 5 ≡ err no_space))
    ⊎ ((true ≡ false) × (idset_add spine_ops true three_set (9 ∷ []) 5 ≡ err errno))
    ⊎ ((set' : Idset) × (idset_add spine_ops true three_set (9 ∷ []) 5 ≡ ok set')
        × IsValid set'
        × (set'.totelem ≡ 4)
        × (idset_get set' ≡ update (idset_get three_set) (9 ∷ []) (some 5)))
idset_add_lem_example =
    idset_add_lem spine_ops true three_set (9 ∷ []) 5 three-IsValid missing_ninth

idset_remove_lem_example :
    ((idset_get three_set (1 ∷ 7 ∷ []) ≡ none)
      × (idset_remove spine_ops three_set (some (1 ∷ 7 ∷ [])) ≡ err no_obj))
    ⊎ ((set' : Idset) × (payload : _) × (idset_get three_set (1 ∷ 7 ∷ []) ≡ some payload)
        × (idset_remove spine_ops three_set (some (1 ∷ 7 ∷ [])) ≡ ok (set', payload))
        × IsValid set'
        × (idset_get set' ≡ update (idset_get three_set) (1 ∷ 7 ∷ []) none))
idset_remove_lem_example = idset_remove_lem spine_ops three_set (1 ∷ 7 ∷ []) three-IsValid
