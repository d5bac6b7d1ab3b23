-- ===== src/Path/Canon/Idempotent.antt =====
-- What got_canonpath returns is canonical: it has no empty, "." or ".." component, and
-- got_canonpath leaves it as it is.
use gameoftrees.Base.{
  ℕ, ◌+◌, ◌≤◌, ◌<◌, ◌≡◌, refl, sym, ap, ◌∙◌, false, List, [], ◌∷◌, Bytes, arith, length, All,
  Bool-cases, inl, inr, length-append, append-nil,
}
use mathlib.Core.Path.{subst}
use gameoftrees.Error.{ok}
use gameoftrees.Path.{is_absolute, slash}
use gameoftrees.Path.Canon.{rev_onto, canonpath}
use gameoftrees.Path.Canon.Resolve.{
  join, IsComponent, is_here, is_up, parent, enter, rendered, resolve, length-rev_onto,
  parent-shorter, rev_onto-rev_onto, rev_onto-rendered, kept, canonpath-join,
}

-- A component that names an entry of a directory: neither empty nor "." nor "..".
abbrev pub IsEntry : Bytes → Type 0
IsEntry c = IsComponent c × (is_here c ≡ false) × (is_up c ≡ false)

parent-IsEntry : (st : List Bytes) → All IsEntry st → All IsEntry (parent st)
parent-IsEntry [] h = tt
parent-IsEntry (c ∷ st) h = h.1

-- What entering a component makes of the components in force.
data Entered (st : List Bytes) (c : Bytes) : Type 0 where
  same : enter st c ≡ st → Entered st c
  up : enter st c ≡ parent st → Entered st c
  down : enter st c ≡ c ∷ st → is_here c ≡ false → is_up c ≡ false → Entered st c

entered : (st : List Bytes) (c : Bytes) → Entered st c
entered st c = elim (Bool-cases (is_here c)) [
  | inl here ↦ same (rw here)
  | inr named ↦ elim (Bool-cases (is_up c)) [
    | inl u ↦ up (rw (named, u))
    | inr plain ↦ down (rw (named, plain)) named plain
  ]
]

enter-IsEntry :
    (st : List Bytes) (c : Bytes)
    → Entered st c
    → IsComponent c
    → All IsEntry st
    → All IsEntry (enter st c)
enter-IsEntry st c (same e) h k = subst (All IsEntry) (sym e) k
enter-IsEntry st c (up e) h k = subst (All IsEntry) (sym e) (parent-IsEntry st k)
enter-IsEntry st c (down e n p) h k = subst (All IsEntry) (sym e) ((h, n, p), k)

resolve-IsEntry :
    (cs st : List Bytes) → All IsComponent cs → All IsEntry st → All IsEntry (resolve st cs)
resolve-IsEntry [] st hc hs = hs
resolve-IsEntry (c ∷ cs) st hc hs =
    resolve-IsEntry cs (enter st c) hc.1 (enter-IsEntry st c (entered st c) hc.0 hs)

length-enter :
    (st : List Bytes) (c : Bytes)
    → Entered st c
    → length (rendered (enter st c)) ≤ length (rendered st) + (length c + 1)
length-enter st c (same e) = rw e (omega arith)
length-enter st c (up e) = rw e (omega (arith, parent-shorter st))
length-enter st c (down e n p) = rw e (omega (arith, length-rev_onto {0} c (slash ∷ rendered st)))

length-resolve :
    (cs st : List Bytes)
    → length (rendered (resolve st cs)) ≤ length (rendered st) + length (join cs)
length-resolve [] st = omega arith
length-resolve (c ∷ cs) st = omega (
  arith,
  length-resolve cs (enter st c),
  length-enter st c (entered st c),
  length-append {0} c (join cs),
)

-- Entries are entered one below the other.
resolve_entries : (cs st : List Bytes) → All IsEntry cs → resolve st cs ≡ rev_onto cs st
resolve_entries [] st h = refl
resolve_entries (c ∷ cs) st ((_, here, up'), h) = rw (here, up') (resolve_entries cs (c ∷ st) h)

rev_onto-All {ℓ} :
    {A : Type ℓ} (P : A → Type 0) (xs ys : List A) → All P xs → All P ys → All P (rev_onto xs ys)
rev_onto-All P [] ys h k = k
rev_onto-All P (x ∷ xs) ys h k = rev_onto-All P xs (x ∷ ys) h.1 (h.0, k)

kept-IsEntry : (cs : List Bytes) → All IsComponent cs → All IsEntry (kept cs)
kept-IsEntry cs h = rev_onto-All IsEntry (resolve [] cs) [] (resolve-IsEntry cs [] h tt) tt

kept_entries : (cs : List Bytes) → All IsEntry cs → kept cs ≡ cs
kept_entries cs h =
    ap (λ (l : List Bytes). rev_onto l []) (resolve_entries cs [] h)
    ∙ rev_onto-rev_onto cs [] []
    ∙ append-nil cs

All-IsComponent : (cs : List Bytes) → All IsEntry cs → All IsComponent cs
All-IsComponent [] h = tt
All-IsComponent (c ∷ cs) h = (h.0.0, All-IsComponent cs h.1)

canonpath_entries :
    (cs : List Bytes) (bufsize : ℕ)
    → All IsEntry cs
    → length (join cs) < bufsize
    → canonpath (join cs) bufsize ≡ ok (join cs)
canonpath_entries [] bufsize h room = unfold canonpath is_absolute in ground arith
canonpath_entries (c ∷ cs) bufsize h room =
    canonpath-join c cs bufsize (All-IsComponent (c ∷ cs) h) room
    ∙ ap (λ (l : List Bytes). ok (join l)) (kept_entries (c ∷ cs) h)

length-kept : (cs : List Bytes) → length (join (kept cs)) ≤ length (join cs)
length-kept cs = omega (
  arith,
  ap (λ (l : Bytes). length l) (rev_onto-rendered (resolve [] cs) []),
  length-rev_onto {0} (rendered (resolve [] cs)) [],
  length-resolve cs [],
)

-- For every absolute path, given by its components, and a buffer larger than the path,
-- got_canonpath succeeds. Every component of its result names an entry: it is neither empty nor
-- "." nor "..". The result is no longer than the path, and got_canonpath leaves it as it is.
pub canonpath_idempotent :
    (c : Bytes) (cs : List Bytes) (bufsize : ℕ)
    → All IsComponent (c ∷ cs)
    → length (join (c ∷ cs)) < bufsize
    → (result : Bytes) × (canonpath (join (c ∷ cs)) bufsize ≡ ok result)
      × (result ≡ join (kept (c ∷ cs)))
      × All IsEntry (kept (c ∷ cs))
      × (length result ≤ length (join (c ∷ cs)))
      × (canonpath result bufsize ≡ ok result)
canonpath_idempotent c cs bufsize h room = (
  join (kept (c ∷ cs)),
  canonpath-join c cs bufsize h room,
  refl,
  kept-IsEntry (c ∷ cs) h,
  length-kept (c ∷ cs),
  canonpath_entries (kept (c ∷ cs)) bufsize (kept-IsEntry (c ∷ cs) h)
      (omega (arith, length-kept (c ∷ cs))),
)
