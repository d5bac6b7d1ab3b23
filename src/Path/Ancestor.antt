-- ===== src/Path/Ancestor.antt =====
-- got_path_skip_common_ancestor and got_path_is_child.
use gameoftrees.Base.{
  ℕ, zero, suc, ◌+◌, ◌≤◌, ◌<◌, ◌≡◌, ◌≢◌, ◌⊎◌, inl, inr, refl, ap, ◌∙◌, Bool, true, false, not, ◌&&◌,
  [], ◌∷◌, ◌++◌, Bytes, arith, length, drop, ==_iff, length-replicate, replicate, leb, ◌==◌,
  Bool-cases, length-append, drop-append, All,
}
use gameoftrees.Error.{ok}
use gameoftrees.Path.{char_at, slash, is_root_dir, strn_eq, drop_slashes, skip_common_ancestor}

-- A C string has no NUL.
abbrev pub HasNoNul : Bytes → Type 0
HasNoNul = All (λ c. c ≢ 0)

strn_eq-prefix : (a b : Bytes) → strn_eq (length a) a b ≡ true → b ≡ a ++ drop (length a) b
unfolding strn_eq
strn_eq-prefix [] b h = refl
strn_eq-prefix (x ∷ a) [] h = cc
strn_eq-prefix (x ∷ a) (y ∷ b) h = ground (arith, strn_eq-prefix a b)

strn_eq-append : (a b : Bytes) → strn_eq (length a) a (a ++ b) ≡ true
unfolding strn_eq
strn_eq-append [] b = refl
strn_eq-append (x ∷ a) b = ground (arith, strn_eq-append a b)

char_at-append : (a b : Bytes) → char_at (a ++ b) (length a) ≡ char_at b 0
char_at-append [] b = refl
char_at-append (x ∷ a) b = char_at-append a b

-- The path below the separators.
drop_slashes-replicate :
    (k : ℕ) (c : Bytes) → char_at c 0 ≢ slash → drop_slashes (replicate k slash ++ c) ≡ c
unfolding drop_slashes
drop_slashes-replicate zero [] h = refl
drop_slashes-replicate zero (x ∷ c) h = ground arith
drop_slashes-replicate (suc k) c h = drop_slashes-replicate k c h

cons_eq : (c d : ℕ) (s t : Bytes) → c ≡ d → s ≡ t → c ∷ s ≡ d ∷ t
cons_eq c d s t p q = cc

drop_slashes_split :
    (s : Bytes)
    → (k : ℕ) × (s ≡ replicate k slash ++ drop_slashes s) × (char_at (drop_slashes s) 0 ≢ slash)
unfolding drop_slashes
drop_slashes_split [] = (0, refl, λ e. cc)
drop_slashes_split (c ∷ s) =
    let (k, e, h) = drop_slashes_split s in
    elim (Bool-cases (c == slash)) [
      | inl is_slash ↦
          (suc k, rw is_slash (cons_eq c slash s _ ((==_iff c slash).0 is_slash) e), rw is_slash h)
      | inr other ↦ (0, rw other refl, rw other (λ q. absurd (ground (arith, q, other))))
    ]

longer : (a b : Bytes) → 0 < length b → leb (length (a ++ b)) (length a) ≡ false
longer a b h = ground (arith, length-append a b)

separated :
    (k : ℕ) (child : Bytes) (root : Bool)
    → (root ≡ true) ⊎ (1 ≤ k)
    → (not root && not (char_at (replicate k slash ++ child) 0 == slash)) ≡ false
separated zero child root h = ground arith
separated (suc k) child true h = refl
separated (suc k) child false h = refl

-- got_path_skip_common_ancestor of a parent and a path `k` separators and a child below it is that
-- child, where the parent is the root directory or `k` is at least 1.
pub skip_common_ancestor-child :
    (parent child : Bytes) (k : ℕ)
    → char_at child 0 ≢ slash
    → (is_root_dir parent ≡ true) ⊎ (1 ≤ k)
    → 0 < k + length child
    → skip_common_ancestor true parent (parent ++ (replicate k slash ++ child)) ≡ ok child
unfolding skip_common_ancestor
skip_common_ancestor-child parent child k h root ne =
    let below = replicate k slash ++ child in
    rw
      (
        longer parent below (
            omega
              (arith, length-append {0} (replicate k slash) child, length-replicate {0} k slash)),
        strn_eq-append parent below,
        char_at-append parent below,
        separated k child (is_root_dir parent) root,
        drop-append parent below,
      )
      (ap ok (drop_slashes-replicate k child h))

-- The tests that a success has passed.
skip_common_ancestor_ok :
    (parent abspath child : Bytes)
    → skip_common_ancestor true parent abspath ≡ ok child
    → (strn_eq (length parent) parent abspath ≡ true)
      × ((is_root_dir parent ≡ true) ⊎ (char_at abspath (length parent) ≡ slash))
      × (drop_slashes (drop (length parent) abspath) ≡ child)
unfolding skip_common_ancestor
skip_common_ancestor_ok parent abspath child h = ground arith

sep_below :
    (parent abspath below s : Bytes)
    → {root : Bool} → abspath ≡ parent ++ below
    → below ≡ s
    → (root ≡ true) ⊎ (char_at abspath (length parent) ≡ slash)
    → (root ≡ true) ⊎ (char_at s 0 ≡ slash)
sep_below parent abspath below s e f (inl h) = inl h
sep_below parent abspath below s e f (inr h) = inr (cc (char_at-append parent below))

slashes_between :
    (k : ℕ) (root : Bool) (child : Bytes)
    → char_at child 0 ≢ slash
    → (root ≡ true) ⊎ (char_at (replicate k slash ++ child) 0 ≡ slash)
    → (root ≡ true) ⊎ (1 ≤ k)
slashes_between zero root child ne (inl h) = inl h
slashes_between zero root child ne (inr h) = absurd (ne h)
slashes_between (suc k) root child ne h = inr (omega arith)

-- What got_path_skip_common_ancestor returns is the part of the path below the parent and one or
-- more separators, or below the root directory.
pub skip_common_ancestor_split :
    (parent abspath child : Bytes)
    → skip_common_ancestor true parent abspath ≡ ok child
    → (k : ℕ) × (abspath ≡ parent ++ (replicate k slash ++ child))
      × (char_at child 0 ≢ slash)
      × ((is_root_dir parent ≡ true) ⊎ (1 ≤ k))
unfolding skip_common_ancestor
skip_common_ancestor_split parent abspath child h =
    let (prefix, sep, rest_is) = skip_common_ancestor_ok parent abspath child h in
    let below = drop (length parent) abspath in
    let (k, below_is, stops) = drop_slashes_split below in
    (
      k,
      strn_eq-prefix parent abspath prefix
          ∙ ap (λ (t : Bytes). parent ++ t) (rw (← rest_is) below_is),
      rw (← rest_is) stops,
      slashes_between k (is_root_dir parent) (drop_slashes below) stops
          (sep_below parent abspath _ _ (strn_eq-prefix parent abspath prefix) below_is sep),
    )
