-- ===== src/ObjectIdset/Ordered.antt =====
-- Insertion into and removal from a list of elements in ascending order.
use gameoftrees.Base.{
  ℕ, ◌+◌, ◌≤◌, ◌≡◌, List, [], ◌∷◌, Bytes, Option, none, some, arith, Ordering, memcmp, length,
  memcmp_refl, memcmp_eq, memcmp_swap_gt, memcmp_trans, Ordering-cases, All, inl, inr,
}
use gameoftrees.ObjectIdset.{
  IdElement, cmp_elements, IsBelow, IsOrdered, with_element, without_element, payload_of,
}
use gameoftrees.ObjectIdset.Search.{lookup, lookup_below}

-- The abstract set, changed at one identifier.
abbrev pub update : (Bytes → Option ℕ) → Bytes → Option ℕ → Bytes → Option ℕ
update f id v q = elim (memcmp q id) [ Ordering.eq ↦ v | _ ↦ f q ]

pub with_element-All :
    (P : IdElement → Type 0) (l : List IdElement) (x : IdElement)
    → P x
    → All P l
    → All P (with_element l x)
with_element-All P [] x px h = (px, tt)
with_element-All P (e ∷ l) x px h = elim (Ordering-cases (cmp_elements x e)) [
  | inl o ↦ rw (o, with_element) (px, h)
  | inr (inl o) ↦ rw (o, with_element) h
  | inr (inr o) ↦ rw (o, with_element) (h.0, with_element-All P l x px h.1)
]

pub without_element-All :
    (P : IdElement → Type 0) (l : List IdElement) (x : IdElement)
    → All P l
    → All P (without_element l x)
without_element-All P [] x h = tt
without_element-All P (e ∷ l) x h = elim (Ordering-cases (cmp_elements x e)) [
  | inl o ↦ rw (o, without_element) (h.0, without_element-All P l x h.1)
  | inr (inl o) ↦ rw (o, without_element) h.1
  | inr (inr o) ↦ rw (o, without_element) (h.0, without_element-All P l x h.1)
]

pub All-IsBelow :
    (x e : IdElement) (l : List IdElement) → IsBelow x e → All (IsBelow e) l → All (IsBelow x) l
unfolding cmp_elements
All-IsBelow x e [] h k = tt
All-IsBelow x e (f ∷ l) h k = (memcmp_trans x.id e.id f.id h k.0, All-IsBelow x e l h k.1)

pub IsBelow-swap : (x e : IdElement) → cmp_elements x e ≡ Ordering.gt → IsBelow e x
unfolding cmp_elements
IsBelow-swap x e h = memcmp_swap_gt x.id e.id h

pub with_element-IsOrdered :
    (l : List IdElement) (x : IdElement) → IsOrdered l → IsOrdered (with_element l x)
with_element-IsOrdered [] x s = (tt, tt)
with_element-IsOrdered (e ∷ l) x s = elim (Ordering-cases (cmp_elements x e)) [
  | inl o ↦ rw (o, with_element) ((o, All-IsBelow x e l o s.0), s)
  | inr (inl o) ↦ rw (o, with_element) s
  | inr (inr o) ↦
      rw (o, with_element)
        (with_element-All (IsBelow e) l x (IsBelow-swap x e o) s.0, with_element-IsOrdered l x s.1)
]

pub without_element-IsOrdered :
    (l : List IdElement) (x : IdElement) → IsOrdered l → IsOrdered (without_element l x)
without_element-IsOrdered [] x s = tt
without_element-IsOrdered (e ∷ l) x s = elim (Ordering-cases (cmp_elements x e)) [
  | inl o ↦
      rw (o, without_element)
        (without_element-All (IsBelow e) l x s.0, without_element-IsOrdered l x s.1)
  | inr (inl o) ↦ rw (o, without_element) s.1
  | inr (inr o) ↦
      rw (o, without_element)
        (without_element-All (IsBelow e) l x s.0, without_element-IsOrdered l x s.1)
]

abbrev pub held : List IdElement → Bytes → Option ℕ
held l q = payload_of (lookup l q)

-- An insertion where the identifier is missing.
pub held-with :
    (l : List IdElement) (x : IdElement) (q : Bytes)
    → lookup l x.id ≡ none
    → (held (with_element l x) q ≡ update (held l) x.id (some x.payload) q)
      × (length (with_element l x) ≡ length l + 1)
unfolding cmp_elements
held-with [] x q h = ground arith
held-with (e ∷ l) x q h = ground (
  arith,
  held-with l x q,
  memcmp_eq q e.id,
  memcmp_eq q x.id,
  memcmp_eq x.id e.id,
  memcmp_refl q,
  memcmp_refl e.id,
)

pub lookup-length :
    (l : List IdElement) (id : Bytes) (x : IdElement) → lookup l id ≡ some x → 1 ≤ length l
lookup-length [] id x h = cc
lookup-length (e ∷ l) id x h = omega arith

pub lookup-id : (l : List IdElement) (id : Bytes) (x : IdElement) → lookup l id ≡ some x → x.id ≡ id
lookup-id [] id x h = cc
lookup-id (e ∷ l) id x h = ground (arith, lookup-id l id x, memcmp_eq id e.id)

-- A removal where the identifier is there.
pub held-without :
    (l : List IdElement) (x y : IdElement) (q : Bytes)
    → IsOrdered l
    → lookup l x.id ≡ some y
    → (held (without_element l x) q ≡ update (held l) x.id none q)
      × (length (without_element l x) + 1 ≡ length l)
unfolding cmp_elements
held-without [] x y q s h = cc
held-without (e ∷ l) x y q s h = elim (Ordering-cases (memcmp x.id e.id)) [
  | inr (inl o) ↦
      let same : x.id ≡ e.id = memcmp_eq x.id e.id o in
      let gone : lookup l e.id ≡ none = lookup_below l e.id s.0 in
      ground (arith, memcmp_eq q e.id, gone)
  | inl o ↦ ground (arith, held-without l x y q, memcmp_eq q e.id, memcmp_eq q x.id, memcmp_refl q)
  | inr (inr o) ↦
      ground (arith, held-without l x y q, memcmp_eq q e.id, memcmp_eq q x.id, memcmp_refl q)
]
