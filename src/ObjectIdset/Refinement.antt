-- ===== src/ObjectIdset/Refinement.antt =====
-- A set of identifiers as a map: its operations change a function from identifiers to pointers.
use gameoftrees.Base.{
  ℕ, ◌+◌, ◌-◌, ◌≤◌, ◌<◌, ◌≡◌, refl, sym, ap, ◌∙◌, Bool, false, List, Bytes, Option, none, some,
  arith, length, memcmp_refl, inl, inr, ◌⊎◌, leb, Bool-cases, ◌==◌, Option-cases,
}
use mathlib.Core.Path.{fun_ext}
use gameoftrees.Error.{ok, err, no_space, no_obj, errno}
use gameoftrees.ObjectIdset.{
  IdElement, IdTree, leaf, node, elements, find_element, root, IsOrdered, with_element,
  without_element, RbOps, Idset, max_elem, idset_get, idset_add, remove_found, idset_remove,
}
use gameoftrees.ObjectIdset.Search.{lookup, find_element-lookup}
use gameoftrees.ObjectIdset.Ordered.{
  update, with_element-IsOrdered, without_element-IsOrdered, held, held-with, lookup-length,
  lookup-id, held-without,
}

-- The tree is ordered, and `totelem` counts its elements.
abbrev pub IsValid : Idset → Type 0
IsValid set =
    IsOrdered (elements set.entries)
    × (set.totelem ≡ length (elements set.entries))
    × (set.totelem ≤ max_elem)

pub idset_get-held :
    (set : Idset) → IsOrdered (elements set.entries) → idset_get set ≡ held (elements set.entries)
unfolding idset_get
idset_get-held set s = fun_ext λ q. rw (find_element-lookup set.entries q s) refl

root_empty : (t : IdTree) → root t ≡ none → length (elements t) ≡ 0
root_empty leaf h = refl
root_empty (node l e r) h = cc

root_found : (t : IdTree) (e : IdElement) → root t ≡ some e → find_element t e.id ≡ some e
unfolding find_element
root_found leaf e h = cc
root_found (node l x r) e h =
    let same : x ≡ e = cc in rw (sym same) (rw (find_element, memcmp_refl x.id) refl)

idset_get_found :
    (set : Idset) (e : IdElement)
    → find_element set.entries e.id ≡ some e
    → idset_get set e.id ≡ some e.payload
unfolding idset_get
idset_get_found set e h = rw h refl

module _ (rb : RbOps) where
  inserted :
      (set : Idset) (x : IdElement)
      → IsValid set
      → find_element set.entries x.id ≡ none
      → set.totelem < max_elem
      → IsValid (record { entries = rb.insert set.entries x; totelem = set.totelem + 1 })
        × (idset_get (record { entries = rb.insert set.entries x; totelem = set.totelem + 1 })
            ≡ update (idset_get set) x.id (some x.payload))
  inserted set x (s, n, m) absent room =
      let l : List IdElement = elements set.entries in
      let law : elements (rb.insert set.entries x) ≡ with_element l x =
        rb.insert_law set.entries x s in
      let s' : IsOrdered (elements (rb.insert set.entries x)) =
        rw law (with_element-IsOrdered l x s) in
      let missing : lookup l x.id ≡ none = sym (find_element-lookup set.entries x.id s) ∙ absent in
      (
        (s', rw law (omega (arith, (held-with l x x.id missing).1)), omega arith),
        idset_get-held (record { entries = rb.insert set.entries x; totelem = set.totelem + 1 }) s'
            ∙ ap held law
            ∙ fun_ext (λ q.
              (held-with l x q missing).0
              ∙ ap (λ (f : Bytes → Option ℕ). update f x.id (some x.payload) q)
                  (sym (idset_get-held set s))),
      )

  removed :
      (set : Idset) (e : IdElement) (y : IdElement)
      → IsValid set
      → lookup (elements set.entries) e.id ≡ some y
      → IsValid (record { entries = rb.remove set.entries e; totelem = set.totelem - 1 })
        × (idset_get (record { entries = rb.remove set.entries e; totelem = set.totelem - 1 })
            ≡ update (idset_get set) e.id none)
  removed set e y (s, n, m) there =
      let l : List IdElement = elements set.entries in
      let law : elements (rb.remove set.entries e) ≡ without_element l e =
        rb.remove_law set.entries e s in
      let s' : IsOrdered (elements (rb.remove set.entries e)) =
        rw law (without_element-IsOrdered l e s) in
      (
        (s', rw law (omega (arith, (held-without l e y e.id s there).1)), omega arith),
        idset_get-held (record { entries = rb.remove set.entries e; totelem = set.totelem - 1 }) s'
            ∙ ap held law
            ∙ fun_ext (λ q.
              (held-without l e y q s there).0
              ∙ ap (λ (f : Bytes → Option ℕ). update f e.id none q) (sym (idset_get-held set s))),
      )

  -- got_object_idset_add to a valid set of an identifier that it does not have: it reports "no
  -- space" if the set has INT_MAX elements, and otherwise the failure of malloc(3); where neither
  -- holds the set stays valid and counts one element more, and what got_object_idset_get returns changes for this identifier
  -- alone, to the pointer added.
  pub idset_add_lem :
      (allocated : Bool) (set : Idset) (id : Bytes) (payload : ℕ)
      → IsValid set
      → find_element set.entries id ≡ none
      → ((set.totelem ≡ max_elem) × (idset_add rb allocated set id payload ≡ err no_space))
        ⊎ ((allocated ≡ false) × (idset_add rb allocated set id payload ≡ err errno))
        ⊎ ((set' : Idset) × (idset_add rb allocated set id payload ≡ ok set')
            × IsValid set'
            × (set'.totelem ≡ set.totelem + 1)
            × (idset_get set' ≡ update (idset_get set) id (some payload)))
  unfolding idset_add
  idset_add_lem allocated set id payload v absent = elim (Bool-cases (leb max_elem set.totelem)) [
    | inl full ↦ rw full (inl (ground (arith, v.2), refl))
    | inr room ↦ elim (Bool-cases allocated) [
      | inr failed ↦ rw (room, failed) (inr (inl (refl, refl)))
      | inl given ↦
          rw (room, given)
            (let x : IdElement = record { id = id; payload = payload } in
              let (v', held') = inserted set x v absent (ground arith) in
              inr (inr (_, refl, v', refl, held')))
    ]
  ]

  -- got_object_idset_remove of an identifier from a valid set: it reports "no such object" if the
  -- set does not have it. Otherwise it returns the pointer held, the set stays valid, and what
  -- got_object_idset_get returns changes for this identifier alone, to NULL.
  pub idset_remove_lem :
      (set : Idset) (id : Bytes)
      → IsValid set
      → ((idset_get set id ≡ none) × (idset_remove rb set (some id) ≡ err no_obj))
        ⊎ ((set' : Idset) × (payload : ℕ) × (idset_get set id ≡ some payload)
            × (idset_remove rb set (some id) ≡ ok (set', payload))
            × IsValid set'
            × (idset_get set' ≡ update (idset_get set) id none))
  unfolding idset_remove remove_found idset_get
  idset_remove_lem set id v = elim (Option-cases (find_element set.entries id)) [
    | inl absent ↦ elim (Bool-cases (set.totelem == 0)) [
      | inl empty ↦ rw (absent, empty) (inl (refl, refl))
      | inr more ↦ rw (absent, more) (inl (refl, refl))
    ]
    | inr (e, found) ↦
        let there : lookup (elements set.entries) id ≡ some e =
          sym (find_element-lookup set.entries id v.0) ∙ found in
        let same : e.id ≡ id = lookup-id (elements set.entries) id e there in
        let (v', held') = removed set e e v (ap (lookup (elements set.entries)) same ∙ there) in
        let more : (set.totelem == 0) ≡ false =
          ground (arith, v.1, lookup-length (elements set.entries) id e there) in
        rw (found, more)
          (inr (
            _,
            e.payload,
            refl,
            refl,
            v',
            held' ∙ ap (λ (i : Bytes). update (idset_get set) i none) same,
          ))
  ]

  -- Without an identifier, got_object_idset_remove takes out the element at the root of a set that
  -- has one.
  pub idset_remove_root :
      (set : Idset)
      → IsValid set
      → 1 ≤ set.totelem
      → (e : IdElement) × (set' : Idset) × (idset_remove rb set none ≡ ok (set', e.payload))
        × (idset_get set e.id ≡ some e.payload)
        × IsValid set'
        × (set'.totelem + 1 ≡ set.totelem)
        × (idset_get set' ≡ update (idset_get set) e.id none)
  unfolding idset_remove remove_found
  idset_remove_root set v some_left = elim (Option-cases (root set.entries)) [
    | inl empty ↦ absurd (omega (arith, v.1, root_empty set.entries empty))
    | inr (e, top) ↦
        let found : find_element set.entries e.id ≡ some e = root_found set.entries e top in
        let there : lookup (elements set.entries) e.id ≡ some e =
          sym (find_element-lookup set.entries e.id v.0) ∙ found in
        let (v', held') = removed set e e v there in
        let more : (set.totelem == 0) ≡ false = ground arith in
        (
          e,
          record { entries = rb.remove set.entries e; totelem = set.totelem - 1 },
          rw (more, top) refl,
          idset_get_found set e found,
          v',
          omega arith,
          held',
        )
  ]
