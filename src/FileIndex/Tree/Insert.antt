-- ===== src/FileIndex/Tree/Insert.antt =====
-- Insertion into a sorted tree of entries.
use gameoftrees.Base.{Ordering-cases}
use gameoftrees.Base.{
  ◌≡◌, refl, sym, ap, ◌∙◌, List, [], ◌∷◌, Bytes, none, some, All, Ordering, inl, inr,
}
use gameoftrees.Path.Order.{lex, lex_refl, lex_swap_gt}
use gameoftrees.FileIndex.{Entry}
use gameoftrees.FileIndex.Tree.{fileindex_cmp, insert_sorted, find_sorted, IsBefore, IsSorted}
use gameoftrees.FileIndex.Tree.Order.{IsProper, fileindex_cmp-lex, All-IsBefore}

pub insert-All :
    (P : Entry → Type 0) (l : List Entry) (x : Entry) → P x → All P l → All P (insert_sorted l x)
insert-All P [] x px h = (px, tt)
insert-All P (e ∷ l) x px h = elim (Ordering-cases (fileindex_cmp x e)) [
  | inl o ↦ rw (o, insert_sorted) (px, h)
  | inr (inl o) ↦ rw (o, insert_sorted) h
  | inr (inr o) ↦ rw (o, insert_sorted) (h.0, insert-All P l x px h.1)
]

pub insert-IsSorted :
    (l : List Entry) (x : Entry)
    → IsProper x
    → All IsProper l
    → IsSorted l
    → IsSorted (insert_sorted l x)
insert-IsSorted [] x hx hl s = (tt, tt)
insert-IsSorted (e ∷ l) x hx hl s = elim (Ordering-cases (fileindex_cmp x e)) [
  | inl o ↦ rw (o, insert_sorted) ((o, All-IsBefore x e l hx hl.0 hl.1 o s.0), s)
  | inr (inl o) ↦ rw (o, insert_sorted) s
  | inr (inr o) ↦
      rw (o, insert_sorted)
        (
          insert-All (IsBefore e) l x
              (fileindex_cmp-lex e x hl.0 hx
                ∙ lex_swap_gt x.path e.path (sym (fileindex_cmp-lex x e hx hl.0) ∙ o))
              s.0,
          insert-IsSorted l x hx hl.1 s.1,
        )
]

find-IsBefore : (l : List Entry) (x : Entry) → All (IsBefore x) l → find_sorted l x ≡ none
find-IsBefore [] x h = refl
find-IsBefore (e ∷ l) x h = rw (h.0, find_sorted) (find-IsBefore l x h.1)

-- Where an equal entry is in the tree, the insertion leaves the tree.
pub insert_present :
    (l : List Entry) (x y : Entry)
    → IsProper x
    → All IsProper l
    → IsSorted l
    → find_sorted l x ≡ some y
    → insert_sorted l x ≡ l
insert_present [] x y hx hl s h = cc
insert_present (e ∷ l) x y hx hl s h = elim (Ordering-cases (fileindex_cmp x e)) [
  | inl o ↦
      let absent : find_sorted (e ∷ l) x ≡ none =
        rw (o, find_sorted) (find-IsBefore l x (All-IsBefore x e l hx hl.0 hl.1 o s.0)) in
      absurd (let clash : none ≡ some y = sym absent ∙ h in cc)
  | inr (inl o) ↦ rw (o, insert_sorted) refl
  | inr (inr o) ↦
      let later : find_sorted (e ∷ l) x ≡ find_sorted l x = rw (o, find_sorted) refl in
      rw (o, insert_sorted) (ap (◌∷◌ e) (insert_present l x y hx hl.1 s.1 (sym later ∙ h)))
]

pub find-insert :
    (l : List Entry) (x key : Entry)
    → IsProper x
    → IsProper key
    → key.path ≡ x.path
    → All IsProper l
    → find_sorted l x ≡ none
    → find_sorted (insert_sorted l x) key ≡ some x
find-insert [] x key hx hk p hl h =
    rw (insert_sorted, find_sorted, fileindex_cmp-lex key x hk hx, p, lex_refl x.path) refl
find-insert (e ∷ l) x key hx hk p hl h = elim (Ordering-cases (fileindex_cmp x e)) [
  | inl o ↦
      rw (o, insert_sorted, find_sorted, fileindex_cmp-lex key x hk hx, p, lex_refl x.path) refl
  | inr (inl o) ↦
      let present : find_sorted (e ∷ l) x ≡ some e = rw (o, find_sorted) refl in
      absurd (let clash : some e ≡ none = sym present ∙ h in cc)
  | inr (inr o) ↦
      let later : find_sorted (e ∷ l) x ≡ find_sorted l x = rw (o, find_sorted) refl in
      let same : fileindex_cmp key e ≡ Ordering.gt =
        fileindex_cmp-lex key e hk hl.0
        ∙ ap (λ (q : Bytes). lex q e.path) p
        ∙ sym (fileindex_cmp-lex x e hx hl.0)
        ∙ o in
      rw (o, insert_sorted, find_sorted, same) (find-insert l x key hx hk p hl.1 (sym later ∙ h))
]
