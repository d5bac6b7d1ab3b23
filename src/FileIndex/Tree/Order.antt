-- ===== src/FileIndex/Tree/Order.antt =====
-- The tree's order on entries of plain paths, and a search in a sorted tree.
use gameoftrees.Base.{
  ℕ, zero, suc, ◌≡◌, sym, ap, ◌∙◌, true, not, List, [], ◌∷◌, Bytes, some, arith, length, get_elem?,
  All, bit_and, bit_or, ◌==◌,
}
use gameoftrees.Base.Bits.{and_ones, and_bit, or_bit}
use gameoftrees.Path.Order.{IsPlain, lex, path_cmp-lex, lex_refl, lex_swap, lex_trans}
use gameoftrees.FileIndex.{
  Entry, zeroed, entry_path_len, f_path_len, f_not_flushed, f_remove_on_flush,
}
use gameoftrees.FileIndex.Tree.{
  fileindex_cmp, find_sorted, IsBefore, IsSorted, is_removed, mark_removed, remove_at,
}

-- An entry of a plain path that is short enough for its length to stand in `flags`.
abbrev pub IsProper : Entry → Type 0
IsProper e = IsPlain e.path × (entry_path_len e ≡ length e.path)

pub is_removed-mark : (e : Entry) → is_removed (mark_removed e) ≡ true
is_removed-mark e =
    let f : ℕ = e.flags in
    ap (λ (b : ℕ). not (b == 0))
      (let set : bit_and (bit_or f f_remove_on_flush) f_remove_on_flush ≡ f_remove_on_flush =
          omega (arith, and_bit 20 (bit_or f f_remove_on_flush), or_bit 20 f) in
        set)

path_len-mark : (e : Entry) → entry_path_len (mark_removed e) ≡ entry_path_len e
unfolding entry_path_len
path_len-mark e =
    let f : ℕ = e.flags in
    omega (arith, and_ones 12 (bit_or f f_remove_on_flush), and_ones 12 f, or_bit 20 f)

pub IsProper-mark : (e : Entry) → IsProper e → IsProper (mark_removed e)
IsProper-mark e h = (h.0, path_len-mark e ∙ h.1)

pub IsProper-not_flushed :
    (e : Entry) → IsProper e → IsProper (record e { flags = bit_or e.flags f_not_flushed })
unfolding entry_path_len
IsProper-not_flushed e h =
    let f : ℕ = e.flags in
    (h.0, omega (arith, h.1, and_ones 12 (bit_or f f_not_flushed), and_ones 12 f, or_bit 16 f))

pub is_removed-not_flushed :
    (e : Entry) → is_removed (record e { flags = bit_or e.flags f_not_flushed }) ≡ is_removed e
is_removed-not_flushed e =
    let f : ℕ = e.flags in
    ap (λ (b : ℕ). not (b == 0))
      (let same : bit_and (bit_or f f_not_flushed) f_remove_on_flush ≡ bit_and f f_remove_on_flush =
          omega (arith, and_bit 20 (bit_or f f_not_flushed), and_bit 20 f, or_bit 16 f) in
        same)

-- The key that got_fileindex_entry_get searches for.
abbrev pub key_of : Bytes → ℕ → Entry
key_of path path_len = record zeroed { path = path; flags = bit_and path_len f_path_len }

pub IsProper-key_of : (e : Entry) → IsProper e → IsProper (key_of e.path (length e.path))
unfolding entry_path_len
IsProper-key_of e h =
    let n : ℕ = length e.path in
    (
      h.0,
      omega (arith, h.1, and_ones 12 (bit_and n f_path_len), and_ones 12 n, and_ones 12 e.flags),
    )

pub fileindex_cmp-lex :
    (x e : Entry) → IsProper x → IsProper e → fileindex_cmp x e ≡ lex x.path e.path
unfolding fileindex_cmp
fileindex_cmp-lex x e hx he = rw (hx.1, he.1) (path_cmp-lex x.path e.path hx.0 he.0)

IsBefore-trans :
    (x e f : Entry)
    → IsProper x
    → IsProper e
    → IsProper f
    → IsBefore x e
    → IsBefore e f
    → IsBefore x f
IsBefore-trans x e f hx he hf h k =
    fileindex_cmp-lex x f hx hf
    ∙ lex_trans x.path e.path f.path (sym (fileindex_cmp-lex x e hx he) ∙ h)
        (sym (fileindex_cmp-lex e f he hf) ∙ k)

pub All-IsBefore :
    (x e : Entry) (l : List Entry)
    → IsProper x
    → IsProper e
    → All IsProper l
    → IsBefore x e
    → All (IsBefore e) l
    → All (IsBefore x) l
All-IsBefore x e [] hx he hl h k = tt
All-IsBefore x e (f ∷ l) hx he hl h k =
    (IsBefore-trans x e f hx he hl.0 h k.0, All-IsBefore x e l hx he hl.1 h k.1)

pub All-get_elem? :
    (P : Entry → Type 0) (l : List Entry) (i : ℕ) (e : Entry)
    → get_elem? l i ≡ some e
    → All P l
    → P e
All-get_elem? P [] i e g h = cc
All-get_elem? P (x ∷ l) zero e g h = let same : x ≡ e = cc in rw (sym same) h.0
All-get_elem? P (x ∷ l) (suc i) e g h = All-get_elem? P l i e g h.1

-- Flagging an entry keeps what holds of all entries and does not depend on the flag.
pub remove_at-All :
    (P : Entry → Type 0) (l : List Entry) (i : ℕ)
    → ((e : Entry) → P e → P (mark_removed e))
    → All P l
    → All P (remove_at l i)
remove_at-All P [] i k h = tt
remove_at-All P (e ∷ l) zero k h = (k e h.0, h.1)
remove_at-All P (e ∷ l) (suc i) k h = (h.0, remove_at-All P l i k h.1)

IsBefore-mark : (x e : Entry) → IsBefore x e → IsBefore x (mark_removed e)
unfolding fileindex_cmp
IsBefore-mark x e h = rw (path_len-mark e) h

All-mark : (e : Entry) (l : List Entry) → All (IsBefore e) l → All (IsBefore (mark_removed e)) l
unfolding fileindex_cmp
All-mark e [] h = tt
All-mark e (f ∷ l) h = (rw (path_len-mark e) h.0, All-mark e l h.1)

pub remove_at-IsSorted : (l : List Entry) (i : ℕ) → IsSorted l → IsSorted (remove_at l i)
remove_at-IsSorted [] i h = tt
remove_at-IsSorted (e ∷ l) zero h = (All-mark e l h.0, h.1)
remove_at-IsSorted (e ∷ l) (suc i) h =
    (remove_at-All (IsBefore e) l i (IsBefore-mark e) h.0, remove_at-IsSorted l i h.1)

-- A search with a key of an entry's path finds that entry, flagged.
pub find-remove_at :
    (l : List Entry) (i : ℕ) (e key : Entry)
    → IsProper key
    → All IsProper l
    → IsSorted l
    → get_elem? l i ≡ some e
    → key.path ≡ e.path
    → find_sorted (remove_at l i) key ≡ some (mark_removed e)
find-remove_at [] i e key hk hl s g p = cc
find-remove_at (x ∷ l) zero e key hk hl s g p =
    let xe : x ≡ e = cc in
    rw
      (
        remove_at,
        find_sorted,
        fileindex_cmp-lex key (mark_removed x) hk (IsProper-mark x hl.0),
        p ∙ ap (λ (y : Entry). y.path) (sym xe),
        lex_refl x.path,
      )
      (ap (λ (y : Entry). some (mark_removed y)) xe)
find-remove_at (x ∷ l) (suc i) e key hk hl s g p =
    let he : IsProper e = All-get_elem? IsProper l i e g hl.1 in
    let before : IsBefore x e = All-get_elem? (IsBefore x) l i e g s.0 in
    rw
      (
        remove_at,
        find_sorted,
        fileindex_cmp-lex key x hk hl.0,
        p,
        lex_swap x.path e.path (sym (fileindex_cmp-lex x e hl.0 he) ∙ before),
      )
      (find-remove_at l i e key hk hl.1 s.1 g p)
