-- ===== src/ObjectIdset/Search.antt =====
-- find_element finds in a search tree what stands in its elements.
use gameoftrees.Base.{
  ◌≡◌, refl, sym, ◌∙◌, List, [], ◌∷◌, ◌++◌, Bytes, Option, none, some, arith, Ordering, memcmp,
  memcmp_eq, memcmp_swap, memcmp_swap_gt, memcmp_trans, Ordering-cases, All, inl, inr,
}
use gameoftrees.ObjectIdset.{
  IdElement, IdTree, leaf, node, elements, cmp_elements, find_element, IsBelow, IsOrdered,
}

-- The element with an identifier among elements.
abbrev pub lookup : List IdElement → Bytes → Option IdElement
lookup [] id = none
lookup (e ∷ l) id =
    let rest = lookup l id in elim (memcmp id e.id) [ Ordering.eq ↦ some e | _ ↦ rest ]

All-split : (P : IdElement → Type 0) (a b : List IdElement) → All P (a ++ b) → All P a × All P b
All-split P [] b h = (tt, h)
All-split P (x ∷ a) b h = let (ha, hb) = All-split P a b h.1 in ((h.0, ha), hb)

-- An identifier below all of a list is not in it, nor one above.
pub lookup_below :
    (l : List IdElement) (id : Bytes)
    → All (λ e. memcmp id e.id ≡ Ordering.lt) l
    → lookup l id ≡ none
lookup_below [] id h = refl
lookup_below (e ∷ l) id h = rw (lookup, h.0) (lookup_below l id h.1)

pub below_trans :
    (e : IdElement) (l : List IdElement) (id : Bytes)
    → memcmp id e.id ≡ Ordering.lt
    → All (IsBelow e) l
    → All (λ f. memcmp id f.id ≡ Ordering.lt) l
unfolding cmp_elements
below_trans e [] id h k = tt
below_trans e (f ∷ l) id h k = (memcmp_trans id e.id f.id h k.0, below_trans e l id h k.1)

-- In ordered elements with `e` between, a search goes to one side.
lookup_left :
    (a : List IdElement) (e : IdElement) (b : List IdElement) (id : Bytes)
    → IsOrdered (a ++ e ∷ b)
    → memcmp id e.id ≡ Ordering.lt
    → lookup (a ++ e ∷ b) id ≡ lookup a id
lookup_left [] e b id s h = rw (lookup, h) (lookup_below b id (below_trans e b id h s.0))
lookup_left (x ∷ a) e b id s h = ground (arith, lookup_left a e b id s.1 h)

lookup_right :
    (a : List IdElement) (e : IdElement) (b : List IdElement) (id : Bytes)
    → IsOrdered (a ++ e ∷ b)
    → memcmp id e.id ≡ Ordering.gt
    → lookup (a ++ e ∷ b) id ≡ lookup b id
unfolding cmp_elements
lookup_right [] e b id s h = rw (lookup, h) refl
lookup_right (x ∷ a) e b id s h =
    let (front, back) = All-split (IsBelow x) a (e ∷ b) s.0 in
    let above : memcmp id x.id ≡ Ordering.gt =
      memcmp_swap x.id id (memcmp_trans x.id e.id id back.0 (memcmp_swap_gt id e.id h)) in
    rw (lookup, above) (lookup_right a e b id s.1 h)

lookup_here :
    (a : List IdElement) (e : IdElement) (b : List IdElement) (id : Bytes)
    → IsOrdered (a ++ e ∷ b)
    → memcmp id e.id ≡ Ordering.eq
    → lookup (a ++ e ∷ b) id ≡ some e
unfolding cmp_elements
lookup_here [] e b id s h = rw (lookup, h) refl
lookup_here (x ∷ a) e b id s h =
    let (front, back) = All-split (IsBelow x) a (e ∷ b) s.0 in
    let same : id ≡ e.id = memcmp_eq id e.id h in
    let above : memcmp id x.id ≡ Ordering.gt = rw same (memcmp_swap x.id e.id back.0) in
    rw (lookup, above) (lookup_here a e b id s.1 h)

IsOrdered-left : (a b : List IdElement) → IsOrdered (a ++ b) → IsOrdered a × IsOrdered b
IsOrdered-left [] b s = (tt, s)
IsOrdered-left (x ∷ a) b s =
    let (ha, hb) = IsOrdered-left a b s.1 in (((All-split (IsBelow x) a b s.0).0, ha), hb)

-- The descent of find_element finds what the tree's elements have.
pub find_element-lookup :
    (t : IdTree) (id : Bytes) → IsOrdered (elements t) → find_element t id ≡ lookup (elements t) id
unfolding find_element
find_element-lookup leaf id s = refl
find_element-lookup (node l e r) id s =
    let (sl, sr) = IsOrdered-left (elements l) (e ∷ elements r) s in
    elim (Ordering-cases (memcmp id e.id)) [
      | inl lt ↦
          rw (find_element, lt)
            (find_element-lookup l id sl ∙ sym (lookup_left (elements l) e (elements r) id s lt))
      | inr (inl eq) ↦ rw (find_element, eq) (sym (lookup_here (elements l) e (elements r) id s eq))
      | inr (inr gt) ↦
          rw (find_element, gt)
            (find_element-lookup r id sr.1 ∙ sym (lookup_right (elements l) e (elements r) id s gt))
    ]
