-- ===== src/Path/Pathlist.antt =====
-- got_pathlist_insert keeps a list of plain paths strictly sorted, as a set of paths.
use gameoftrees.Base.{
  ℕ, ◌≡◌, ◌⊎◌, inl, inr, refl, ap, Bool, true, false, not, ◌||◌, List, [], ◌∷◌, Bytes, arith,
  Ordering, bytes_eq, bytes_eq_iff, All,
}
use mathlib.Core.List.{Perm}
use mathlib.Core.List.Perm
use gameoftrees.Error.{ok, err, errno}
use gameoftrees.Path.{PathlistEntry, entry_cmp, place, insert_backwards, pathlist_insert}
use gameoftrees.Path.Order.{IsPlain, lex, path_cmp-lex, lex_eq, lex_refl, lex_swap_gt, lex_trans}

abbrev pub IsPlainEntry : PathlistEntry → Type 0
IsPlainEntry e = IsPlain e.path

-- From the last entry on, each entry is after all entries before it.
abbrev pub IsAfter : PathlistEntry → PathlistEntry → Type 0
IsAfter e f = lex f.path e.path ≡ Ordering.lt

abbrev pub IsSorted : List PathlistEntry → Type 0
IsSorted [] = Unit
IsSorted (e ∷ l) = All (IsAfter e) l × IsSorted l

-- Whether a path is in a list.
abbrev pub contains : List PathlistEntry → Bytes → Bool
contains [] p = false
contains (e ∷ l) p = bytes_eq e.path p || contains l p

All-IsAfter :
    (e f : PathlistEntry) (l : List PathlistEntry)
    → IsAfter e f
    → All (IsAfter f) l
    → All (IsAfter e) l
All-IsAfter e f [] h k = tt
All-IsAfter e f (g ∷ l) h k = (lex_trans g.path f.path e.path k.0 h, All-IsAfter e f l h k.1)

ne_of_lt : (p q : Bytes) → lex p q ≡ Ordering.lt → bytes_eq p q ≡ false
ne_of_lt p q h = ground (arith, bytes_eq_iff p q, lex_refl p)

ne_of_gt : (p q : Bytes) → lex p q ≡ Ordering.gt → bytes_eq p q ≡ false
ne_of_gt p q h = ground (arith, bytes_eq_iff p q, lex_refl p)

-- A path after all of a list's is not in it.
contains-IsAfter :
    (e : PathlistEntry) (l : List PathlistEntry) → All (IsAfter e) l → contains l e.path ≡ false
contains-IsAfter e [] h = refl
contains-IsAfter e (f ∷ l) h = rw (ne_of_lt f.path e.path h.0) (contains-IsAfter e l h.1)

module _ (new : PathlistEntry) where
  place-All :
      (P : PathlistEntry → Type 0) (e : PathlistEntry) (l : List PathlistEntry)
      (r : Bool × List PathlistEntry) (o : Ordering)
      → P new
      → P e
      → All P l
      → All P r.1
      → All P (place new e l r o).1
  unfolding place
  place-All P e l r Ordering.lt n pe h k = (n, (pe, h))
  place-All P e l r Ordering.eq n pe h k = (pe, h)
  place-All P e l r Ordering.gt n pe h k = (pe, k)

  insert-All :
      (P : PathlistEntry → Type 0) (l : List PathlistEntry)
      → P new
      → All P l
      → All P (insert_backwards new l).1
  unfolding insert_backwards
  insert-All P [] n h = (n, tt)
  insert-All P (e ∷ l) n h = place-All P e l _ (entry_cmp e new) n h.0 h.1 (insert-All P l n h.1)

  place-IsSorted :
      (e : PathlistEntry) (l : List PathlistEntry) (o : Ordering)
      → lex e.path new.path ≡ o
      → IsSorted (e ∷ l)
      → IsSorted (insert_backwards new l).1
      → IsSorted (place new e l (insert_backwards new l) o).1
  unfolding place
  place-IsSorted e l Ordering.lt c s k = ((c, All-IsAfter new e l c s.0), s)
  place-IsSorted e l Ordering.eq c s k = s
  place-IsSorted e l Ordering.gt c s k =
      (insert-All (IsAfter e) l (lex_swap_gt e.path new.path c) s.0, k)

  place-contains :
      (e : PathlistEntry) (l : List PathlistEntry) (q : Bytes) (o : Ordering)
      → lex e.path new.path ≡ o
      → contains (insert_backwards new l).1 q ≡ (bytes_eq new.path q || contains l q)
      → contains (place new e l (insert_backwards new l) o).1 q
        ≡ (bytes_eq new.path q || contains (e ∷ l) q)
  unfolding place
  place-contains e l q Ordering.lt c k = refl
  place-contains e l q Ordering.eq c k = ground (arith, lex_eq e.path new.path c)
  place-contains e l q Ordering.gt c k = ground arith

  place_inserted :
      (e : PathlistEntry) (l : List PathlistEntry) (o : Ordering)
      → lex e.path new.path ≡ o
      → IsSorted (e ∷ l)
      → (insert_backwards new l).0 ≡ not (contains l new.path)
      → (place new e l (insert_backwards new l) o).0 ≡ not (contains (e ∷ l) new.path)
  unfolding place
  place_inserted e l Ordering.lt c s k =
      rw (ne_of_lt e.path new.path c, contains-IsAfter new l (All-IsAfter new e l c s.0))
  place_inserted e l Ordering.eq c s k =
      ground (arith, bytes_eq_iff e.path new.path, lex_eq e.path new.path c)
  place_inserted e l Ordering.gt c s k = rw (ne_of_gt e.path new.path c) k

module _ (new : PathlistEntry) (plain : IsPlainEntry new) where
  insert-IsSorted :
      (l : List PathlistEntry)
      → All IsPlainEntry l
      → IsSorted l
      → IsSorted (insert_backwards new l).1
  unfolding insert_backwards
  insert-IsSorted [] p s = (tt, tt)
  insert-IsSorted (e ∷ l) p s =
      rw (path_cmp-lex e.path new.path p.0 plain)
        (place-IsSorted new e l _ refl s (insert-IsSorted l p.1 s.1))

  insert-contains :
      (l : List PathlistEntry) (q : Bytes)
      → All IsPlainEntry l
      → contains (insert_backwards new l).1 q ≡ (bytes_eq new.path q || contains l q)
  unfolding insert_backwards
  insert-contains [] q p = refl
  insert-contains (e ∷ l) q p =
      rw (path_cmp-lex e.path new.path p.0 plain)
        (place-contains new e l q _ refl (insert-contains l q p.1))

  insert_inserted :
      (l : List PathlistEntry)
      → All IsPlainEntry l
      → IsSorted l
      → (insert_backwards new l).0 ≡ not (contains l new.path)
  unfolding insert_backwards
  insert_inserted [] p s = refl
  insert_inserted (e ∷ l) p s =
      rw (path_cmp-lex e.path new.path p.0 plain)
        (place_inserted new e l _ refl s (insert_inserted l p.1 s.1))

-- got_pathlist_insert of a plain path into a strictly sorted list of plain paths: it fails exactly
-- when malloc(3) does; otherwise it reports an insertion exactly if the path was not in the list,
-- the list stays strictly sorted and plain, and it contains the path and what it contained before.
pub pathlist_insert_lem :
    (allocated : Bool) (l : List PathlistEntry) (path : Bytes) (payload : ℕ)
    → IsPlain path
    → All IsPlainEntry l
    → IsSorted l
    → (allocated ≡ false × (pathlist_insert allocated l path payload ≡ err errno))
      ⊎ ((l' : List PathlistEntry) × (allocated ≡ true)
          × (pathlist_insert allocated l path payload ≡ ok (not (contains l path), l'))
          × IsSorted l'
          × All IsPlainEntry l'
          × ((q : Bytes) → contains l' q ≡ (bytes_eq path q || contains l q)))
unfolding pathlist_insert
pathlist_insert_lem false l path payload h p s = inl (refl, refl)
pathlist_insert_lem true l path payload h p s =
    let new : PathlistEntry = record { path = path; payload = payload } in
    inr (
      (insert_backwards new l).1,
      refl,
      ap (λ (b : Bool). ok (b, (insert_backwards new l).1)) (insert_inserted new h l p s),
      insert-IsSorted new h l p s,
      insert-All new IsPlainEntry l h p,
      λ q. insert-contains new h l q p,
    )

module _ (new : PathlistEntry) where
  place-Perm :
      (e : PathlistEntry) (l : List PathlistEntry) (r : Bool × List PathlistEntry) (o : Ordering)
      → (r.0 ≡ true → Perm r.1 (new ∷ l))
      → (place new e l r o).0 ≡ true
      → Perm (place new e l r o).1 (new ∷ e ∷ l)
  unfolding place
  place-Perm e l r Ordering.lt h t = Perm.refl _
  place-Perm e l r Ordering.eq h t = absurd cc
  place-Perm e l r Ordering.gt h t = Perm.trans (Perm.cons e (h t)) (Perm.swap new e l)

  -- An insertion adds the entry to the list.
  insert-Perm :
      (l : List PathlistEntry)
      → (insert_backwards new l).0 ≡ true
      → Perm (insert_backwards new l).1 (new ∷ l)
  unfolding insert_backwards
  insert-Perm [] t = Perm.refl _
  insert-Perm (e ∷ l) t = place-Perm e l _ (entry_cmp e new) (insert-Perm l) t

pub pathlist_insert-Perm :
    (l l' : List PathlistEntry) (path : Bytes) (payload : ℕ)
    → pathlist_insert true l path payload ≡ ok (true, l')
    → Perm l' (record { path = path; payload = payload } ∷ l)
unfolding pathlist_insert
pathlist_insert-Perm l l' path payload e =
    let new : PathlistEntry = record { path = path; payload = payload } in
    let same : insert_backwards new l ≡ (true, l') = cc in
    rw (ap (λ (r : Bool × List PathlistEntry). r.1) same) at
      (insert-Perm new l (ap (λ (r : Bool × List PathlistEntry). r.0) same))
