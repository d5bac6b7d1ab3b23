-- ===== src/FileIndex/Codec/Flushed.antt =====
-- What an index keeps when it is written, and its order.
use gameoftrees.Base.{
  ℕ, ◌+◌, ◌*◌, ◌/◌, ◌%◌, ◌^◌, ◌≡◌, ◌<◌, refl, sym, ap, ◌∙◌, not, List, [], ◌∷◌, ◌++◌, ◌==◌,
  if◌then◌else◌, bit_and, All, map, length, arith, Bool-cases, inl, inr, Ordering,
}
use gameoftrees.Base.Bits.{and_ones, and_bit, and_clear}
use gameoftrees.Path.Order.{lex_swap}
use gameoftrees.FileIndex.{Entry, entry_path_len, clear32, f_not_flushed, f_remove_on_flush}
use gameoftrees.FileIndex.Tree.{IsSorted, IsBefore, fileindex_cmp, insert_sorted, is_removed}
use gameoftrees.FileIndex.Tree.Order.{IsProper, fileindex_cmp-lex}
use gameoftrees.FileIndex.Tree.Counting.{count_live}
use gameoftrees.FileIndex.Codec.{has_staged_blob, flushed}
use gameoftrees.FileIndex.Codec.Entries.{IsStorable, recorded}

-- The entries that stay in the tree when the index is written.
abbrev pub kept : List Entry → List Entry
kept [] = []
kept (ie ∷ l) = if is_removed (flushed ie) then kept l else flushed ie ∷ kept l

is_removed-flushed : (ie : Entry) → is_removed (flushed ie) ≡ is_removed ie
is_removed-flushed ie =
    let f : ℕ = ie.flags in
    ap (λ (b : ℕ). not (b == 0))
      (let same : bit_and (clear32 f f_not_flushed) f_remove_on_flush
            ≡ bit_and f f_remove_on_flush =
          omega (arith, and_bit 20 (clear32 f f_not_flushed), and_bit 20 f, and_clear 16 1 15 f) in
        same)

pub length-kept : (l : List Entry) → length (kept l) ≡ count_live l
length-kept [] = refl
length-kept (ie ∷ l) = ground (arith, is_removed-flushed ie, length-kept l)

-- What is read of an entry.
abbrev pub stored : Entry → Entry
stored ie = recorded (flushed ie)

stored_flags :
    (ie : Entry)
    → ie.flags < 2 ^ 32
    → (entry_path_len (stored ie) ≡ entry_path_len ie) × ((flushed ie).flags < 2 ^ 32)
unfolding entry_path_len
stored_flags ie h =
    let f : ℕ = ie.flags in
    let cleared : clear32 f f_not_flushed
        ≡ f / 2 ^ 16 / 2 ^ 1 % 2 ^ 15 * 2 ^ 1 * 2 ^ 16 + f % 2 ^ 16 =
      and_clear 16 1 15 f in
    let kept_len : bit_and (clear32 f f_not_flushed) 4095 ≡ bit_and f 4095 =
      omega (arith, and_ones 12 (clear32 f f_not_flushed), and_ones 12 f) in
    elim (Bool-cases (has_staged_blob (flushed ie))) [
      | inl staged ↦ rw staged (kept_len, omega arith)
      | inr unstaged ↦ rw unstaged (kept_len, omega arith)
    ]

stored_path : (ie : Entry) → (stored ie).path ≡ ie.path
stored_path ie = elim (Bool-cases (has_staged_blob (flushed ie))) [
  | inl staged ↦ rw staged refl
  | inr unstaged ↦ rw unstaged refl
]

stored-IsProper : (ie : Entry) → ie.flags < 2 ^ 32 → IsProper ie → IsProper (stored ie)
stored-IsProper ie h k = rw (stored_path ie) (k.0, (stored_flags ie h).0 ∙ k.1)

flushed-IsStorable : (ie : Entry) → IsStorable ie → IsStorable (flushed ie)
flushed-IsStorable ie s = record {
  ctime_sec_fits = s.ctime_sec_fits;
  ctime_nsec_fits = s.ctime_nsec_fits;
  mtime_sec_fits = s.mtime_sec_fits;
  mtime_nsec_fits = s.mtime_nsec_fits;
  uid_fits = s.uid_fits;
  gid_fits = s.gid_fits;
  size_fits = s.size_fits;
  mode_fits = s.mode_fits;
  blob_length = s.blob_length;
  commit_length = s.commit_length;
  staged_length = s.staged_length;
  path_clean = s.path_clean;
  flags_fit = (stored_flags ie s.flags_fit).1;
}

-- The order does not see what flushing and storing change.
stored-IsBefore :
    (e f : Entry)
    → e.flags < 2 ^ 32
    → f.flags < 2 ^ 32
    → IsBefore e f
    → IsBefore (stored e) (stored f)
unfolding fileindex_cmp
stored-IsBefore e f he hf h =
    rw (stored_path e, stored_path f, (stored_flags e he).0, (stored_flags f hf).0) h

IsBefore-kept :
    (e : Entry) (l : List Entry)
    → IsStorable e
    → All IsStorable l
    → All (IsBefore e) l
    → All (IsBefore (stored e)) (map recorded (kept l))
IsBefore-kept e [] s hs h = tt
IsBefore-kept e (f ∷ l) s hs h = elim (Bool-cases (is_removed (flushed f))) [
  | inl gone ↦ rw (kept, gone) (IsBefore-kept e l s hs.1 h.1)
  | inr stays ↦
      rw (kept, stays)
        (stored-IsBefore e f s.flags_fit hs.0.flags_fit h.0, IsBefore-kept e l s hs.1 h.1)
]

-- What is read is sorted, of plain paths, and fits its fields.
pub kept_invariants :
    (l : List Entry)
    → All IsStorable l
    → All IsProper l
    → IsSorted l
    → IsSorted (map recorded (kept l))
      × All IsProper (map recorded (kept l))
      × All IsStorable (kept l)
kept_invariants [] hs hp h = (tt, tt, tt)
kept_invariants (f ∷ l) hs hp h =
    let (sorted, proper, storable) = kept_invariants l hs.1 hp.1 h.1 in
    elim (Bool-cases (is_removed (flushed f))) [
      | inl gone ↦ rw (kept, gone) (sorted, proper, storable)
      | inr stays ↦
          rw (kept, stays)
            (
              (IsBefore-kept f l hs.0 hs.1 h.0, sorted),
              (stored-IsProper f hs.0.flags_fit hp.0, proper),
              (flushed-IsStorable f hs.0, storable),
            )
    ]

All-split : (P : Entry → Type 0) (a b : List Entry) → All P (a ++ b) → All P a × All P b
All-split P [] b h = (tt, h)
All-split P (x ∷ a) b h = let (ha, hb) = All-split P a b h.1 in ((h.0, ha), hb)

pub All-last :
    (P : Entry → Type 0) (a : List Entry) (x : Entry) → All P a → P x → All P (a ++ (x ∷ []))
All-last P [] x h px = (px, tt)
All-last P (e ∷ a) x h px = (h.0, All-last P a x h.1 px)

-- Insertion behind all entries of a sorted tree.
pub insert_last :
    (acc l : List Entry) (x : Entry)
    → All IsProper acc
    → IsProper x
    → IsSorted (acc ++ (x ∷ l))
    → (insert_sorted acc x ≡ acc ++ (x ∷ [])) × IsSorted acc
insert_last [] l x hp hx s = (refl, tt)
insert_last (e ∷ acc) l x hp hx s =
    let (before_acc, before_rest) = All-split (IsBefore e) acc (x ∷ l) s.0 in
    let (inserted, sorted) = insert_last acc l x hp.1 hx s.1 in
    let after : fileindex_cmp x e ≡ Ordering.gt =
      fileindex_cmp-lex x e hx hp.0
      ∙ lex_swap e.path x.path (sym (fileindex_cmp-lex e x hp.0 hx) ∙ before_rest.0) in
    (rw (insert_sorted, after) (ap (◌∷◌ e) inserted), (before_acc, sorted))
