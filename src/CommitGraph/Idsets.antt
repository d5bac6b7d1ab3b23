-- ===== src/CommitGraph/Idsets.antt =====
-- The sets of lib/object_idset.c are sets as lib/commit_graph.c uses them.
use gameoftrees.Base.{
  suc, length, ℕ, ◌≡◌, ◌≢◌, refl, ap, sym, ◌∙◌, inl, inr, Bool, true, false, ◌&&◌, ◌||◌, not, List,
  [], ◌∷◌, Bytes, bytes_eq, bytes_eq_iff, Option, none, some, All, All-map, arith, Ordering, memcmp,
  memcmp_eq, memcmp_refl, Option-cases, Bool-cases, Ordering-cases,
}
use gameoftrees.Error.{Error, errno, no_space, no_obj, Result, ok, err, ◌>>=◌}
use gameoftrees.ObjectIdset.{
  IdElement, leaf, elements, find_element, IsOrdered, IsBelow, cmp_elements, RbOps, Idset,
  idset_get, idset_contains, idset_add, idset_remove,
}
use gameoftrees.ObjectIdset.Search.{lookup}
use gameoftrees.ObjectIdset.Ordered.{update, held}
use gameoftrees.ObjectIdset.Refinement.{IsValid, idset_get-held, idset_add_lem, idset_remove_lem}
use gameoftrees.CommitGraph.Sets.{IsDistinct, IsIn, is_no_obj, IdSets}

abbrev pub has : Option ℕ → Bool
has none = false
has (some v) = true

contains_lem : (set : Idset) (q : Bytes) → idset_contains set q ≡ has (idset_get set q)
unfolding idset_contains idset_get
contains_lem set q = elim (Option-cases (find_element set.entries q)) [
  | inl e ↦ rw (idset_contains, e) refl
  | inr (x, e) ↦ rw (idset_contains, e) refl
]

same_bytes : (a b : Bytes) → memcmp a b ≡ Ordering.eq → bytes_eq a b ≡ true
same_bytes a b h = (bytes_eq_iff a b).1 (memcmp_eq a b h)

other_bytes : (a b : Bytes) (o : Ordering) → memcmp a b ≡ o → o ≢ Ordering.eq → bytes_eq a b ≡ false
other_bytes a b o h n = elim (Bool-cases (bytes_eq a b)) [
  | inr e ↦ e
  | inl e ↦
      let same : a ≡ b = (bytes_eq_iff a b).0 e in
      absurd (n (sym h ∙ ap (λ (x : Bytes). memcmp x b) same ∙ memcmp_refl b))
]

update_some :
    (f : Bytes → Option ℕ) (id : Bytes) (v : ℕ) (q : Bytes)
    → has (update f id (some v) q) ≡ (bytes_eq q id || has (f q))
update_some f id v q = elim (Ordering-cases (memcmp q id)) [
  | inl o ↦ rw (update, o, other_bytes q id Ordering.lt o (λ e. cc)) refl
  | inr (inl o) ↦ rw (update, o, same_bytes q id o) refl
  | inr (inr o) ↦ rw (update, o, other_bytes q id Ordering.gt o (λ e. cc)) refl
]

update_none :
    (f : Bytes → Option ℕ) (id q : Bytes)
    → has (update f id none q) ≡ (not (bytes_eq q id) && has (f q))
update_none f id q = elim (Ordering-cases (memcmp q id)) [
  | inl o ↦ rw (update, o, other_bytes q id Ordering.lt o (λ e. cc)) refl
  | inr (inl o) ↦ rw (update, o, same_bytes q id o) refl
  | inr (inr o) ↦ rw (update, o, other_bytes q id Ordering.gt o (λ e. cc)) refl
]

abbrev pub ids_of : List IdElement → List Bytes
ids_of [] = []
ids_of (e ∷ l) = e.id ∷ ids_of l

below-ids_of :
    (e : IdElement) (l : List IdElement) → All (IsBelow e) l → All (λ y. y ≢ e.id) (ids_of l)
unfolding cmp_elements
below-ids_of e [] h = tt
below-ids_of e (x ∷ l) h = (
  λ same.
      let self : memcmp e.id x.id ≡ Ordering.eq = ap (memcmp e.id) same ∙ memcmp_refl e.id in
      let clash : Ordering.lt ≡ Ordering.eq = sym h.0 ∙ self in absurd cc,
  below-ids_of e l h.1,
)

pub ids_of-IsDistinct : (l : List IdElement) → IsOrdered l → IsDistinct (ids_of l)
ids_of-IsDistinct [] h = tt
ids_of-IsDistinct (e ∷ l) h = (below-ids_of e l h.0, ids_of-IsDistinct l h.1)

held_first :
    (e : IdElement) (l : List IdElement) (q : Bytes)
    → memcmp q e.id ≡ Ordering.eq
    → has (held (e ∷ l) q) ≡ true
held_first e l q o = rw (lookup, o) refl

held_lt :
    (e : IdElement) (l : List IdElement) (q : Bytes)
    → memcmp q e.id ≡ Ordering.lt
    → held (e ∷ l) q ≡ held l q
held_lt e l q o = rw (lookup, o) refl

held_gt :
    (e : IdElement) (l : List IdElement) (q : Bytes)
    → memcmp q e.id ≡ Ordering.gt
    → held (e ∷ l) q ≡ held l q
held_gt e l q o = rw (lookup, o) refl

held_more :
    (e : IdElement) (l : List IdElement) (q : Bytes)
    → has (held l q) ≡ true
    → has (held (e ∷ l) q) ≡ true
held_more e l q h = elim (Ordering-cases (memcmp q e.id)) [
  | inl o ↦ ap has (held_lt e l q o) ∙ h
  | inr (inl o) ↦ held_first e l q o
  | inr (inr o) ↦ ap has (held_gt e l q o) ∙ h
]

pub ids_of-held : (l : List IdElement) → All (λ q. has (held l q) ≡ true) (ids_of l)
ids_of-held [] = tt
ids_of-held (e ∷ l) = (
  held_first e l e.id (memcmp_refl e.id),
  All-map (λ q. has (held l q) ≡ true) (λ q. has (held (e ∷ l) q) ≡ true) (ids_of l) (held_more e l)
      (ids_of-held l),
)

pub held-IsIn : (l : List IdElement) (q : Bytes) → has (held l q) ≡ true → IsIn q (ids_of l)
held-IsIn [] q h = absurd cc
held-IsIn (e ∷ l) q h = elim (Ordering-cases (memcmp q e.id)) [
  | inl o ↦ inr (held-IsIn l q (ap has (sym (held_lt e l q o)) ∙ h))
  | inr (inl o) ↦ inl (memcmp_eq q e.id o)
  | inr (inr o) ↦ inr (held-IsIn l q (ap has (sym (held_gt e l q o)) ∙ h))
]

pub contains-held :
    (set : Idset) (q : Bytes)
    → IsValid set
    → idset_contains set q ≡ has (held (elements set.entries) q)
contains-held set q v =
    contains_lem set q
    ∙ ap has (
        let same : idset_get set q ≡ held (elements set.entries) q =
          ap (λ (f : Bytes → Option ℕ). f q) (idset_get-held set v.0) in
        same)

absent_find :
    (set : Idset) (q : Bytes) → idset_contains set q ≡ false → find_element set.entries q ≡ none
unfolding idset_contains
absent_find set q h = elim (Option-cases (find_element set.entries q)) [
  | inl e ↦ e
  | inr (x, e) ↦
      let there : idset_contains set q ≡ true = rw (idset_contains, e) refl in
      let clash : true ≡ false = sym there ∙ h in absurd cc
]

pub length-ids_of : (l : List IdElement) → length (ids_of l) ≡ length l
length-ids_of [] = refl
length-ids_of (e ∷ l) = ap suc (length-ids_of l)

module _ (rb : RbOps) where
  unfoldable pub set_remove : Idset → Bytes → Result Idset
  set_remove s id = idset_remove rb s (some id) >>= λ (t, payload). ok t

  pub add-IsValid :
      (s : Idset) (id : Bytes) (t : Idset)
      → IsValid s
      → idset_contains s id ≡ false
      → idset_add rb true s id 0 ≡ ok t
      → IsValid t × ((q : Bytes) → idset_contains t q ≡ (bytes_eq q id || idset_contains s q))
  add-IsValid s id t v absent e = elim (idset_add_lem rb true s id 0 v (absent_find s id absent)) [
    | inl (full, f) ↦ let clash : err no_space ≡ ok t = sym f ∙ e in absurd cc
    | inr (inl (failed, f)) ↦ let clash : err errno ≡ ok t = sym f ∙ e in absurd cc
    | inr (inr (s', f, v', n, g)) ↦
        let both : ok s' ≡ ok t = sym f ∙ e in
        let same : s' ≡ t = cc in
        rw (← same) (
          v',
          λ q.
              contains_lem s' q
              ∙ ap (λ (f : Bytes → Option ℕ). has (f q)) g
              ∙ update_some (idset_get s) id 0 q
              ∙ ap (λ (b : Bool). bytes_eq q id || b) (sym (contains_lem s q)),
        )
  ]

  pub remove-IsValid :
      (s : Idset) (id : Bytes) (t : Idset)
      → IsValid s
      → set_remove s id ≡ ok t
      → IsValid t × ((q : Bytes) → idset_contains t q ≡ (not (bytes_eq q id) && idset_contains s q))
  unfolding set_remove
  remove-IsValid s id t v e = elim (idset_remove_lem rb s id v) [
    | inl (n, f) ↦
        let failed : set_remove s id ≡ err no_obj = rw f refl in
        let clash : err no_obj ≡ ok t = sym failed ∙ e in absurd cc
    | inr (s', payload, there, f, v', g) ↦
        let removed : set_remove s id ≡ ok s' = rw f refl in
        let both : ok s' ≡ ok t = sym removed ∙ e in
        let same : s' ≡ t = cc in
        rw (← same) (
          v',
          λ q.
              contains_lem s' q
              ∙ ap (λ (f : Bytes → Option ℕ). has (f q)) g
              ∙ update_none (idset_get s) id q
              ∙ ap (λ (b : Bool). not (bytes_eq q id) && b) (sym (contains_lem s q)),
        )
  ]

  pub remove_missing :
      (s : Idset) (id : Bytes) (e : Error)
      → IsValid s
      → set_remove s id ≡ err e
      → is_no_obj e ≡ true
      → idset_contains s id ≡ false
  unfolding set_remove
  remove_missing s id e v r n = elim (idset_remove_lem rb s id v) [
    | inl (absent, f) ↦ contains_lem s id ∙ ap has absent
    | inr (s', payload, there, f, v', g) ↦
        let removed : set_remove s id ≡ ok s' = rw f refl in
        let clash : ok s' ≡ err e = sym removed ∙ r in absurd cc
  ]

  -- The sets of the library fill the interface.
  abbrev pub idset_sets : IdSets
  idset_sets = record {
    Set = Idset;
    empty = record { entries = leaf; totelem = 0 };
    contains = idset_contains;
    add = λ s id. idset_add rb true s id 0;
    remove = set_remove;
    ids = λ s. ids_of (elements s.entries);
    num_elements = λ s. s.totelem;
    IsWellFormed = IsValid;
    empty_law = (
      (tt, refl, omega arith),
      λ q. contains-held (record { entries = leaf; totelem = 0 }) q (tt, refl, omega arith),
    );
    add_law = add-IsValid;
    remove_law = remove-IsValid;
    remove_none = remove_missing;
    ids_law = λ s v. (
      ids_of-IsDistinct (elements s.entries) v.0,
      All-map (λ q. has (held (elements s.entries) q) ≡ true) (λ q. idset_contains s q ≡ true)
          (ids_of (elements s.entries)) (λ q h. contains-held s q v ∙ h)
          (ids_of-held (elements s.entries)),
      λ q h. held-IsIn (elements s.entries) q (sym (contains-held s q v) ∙ h),
    );
    num_law = λ s v. v.1 ∙ sym (length-ids_of (elements s.entries));
  }
