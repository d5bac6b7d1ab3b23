-- ===== src/Path/Canon/Resolve.antt =====
-- got_canonpath resolves a path's components: it drops empty ones and ".", and ".." takes back the
-- one before.
use gameoftrees.Base.{
  ℕ, zero, suc, ◌+◌, ◌-◌, ◌≤◌, ◌<◌, ◌≡◌, ◌≢◌, refl, ap, ◌∙◌, Bool, true, ◌||◌, List, [], ◌∷◌, ◌++◌,
  Bytes, some, arith, length, All, bytes_eq, ◌==◌, if◌then◌else◌, Bool-cases, inl, inr,
  length-append,
}
use gameoftrees.Error.{ok}
use gameoftrees.Path.{char_at, slash, dot, is_absolute}
use gameoftrees.Path.Canon.{
  rev_onto, pop_to_slash, pop_dir, moved, canon_step, canon_finish, canon_next, canon_loop,
  canonpath,
}

-- A path of the components `cs`: each with a separator before it.
abbrev pub join : List Bytes → Bytes
join [] = []
join (c ∷ cs) = slash ∷ (c ++ join cs)

abbrev pub IsName : ℕ → Type 0
IsName x = (x ≢ 0) × (x ≢ slash)

abbrev pub IsComponent : Bytes → Type 0
IsComponent = All IsName

abbrev pub is_here : Bytes → Bool
is_here c = bytes_eq c [] || bytes_eq c (dot ∷ [])

abbrev pub is_up : Bytes → Bool
is_up c = bytes_eq c (dot ∷ dot ∷ [])

abbrev pub parent : List Bytes → List Bytes
parent [] = []
parent (c ∷ st) = st

-- The components in force, the innermost first.
abbrev pub enter : List Bytes → Bytes → List Bytes
enter st c = if is_here c then st else if is_up c then parent st else c ∷ st

abbrev pub resolve : List Bytes → List Bytes → List Bytes
resolve st [] = st
resolve st (c ∷ cs) = resolve (enter st c) cs

-- The buffer that holds the components in force.
abbrev pub rendered : List Bytes → Bytes
rendered [] = []
rendered (c ∷ st) = rev_onto c (slash ∷ rendered st)

join_ends : (cs : List Bytes) → (char_at (join cs) 0 == slash || char_at (join cs) 0 == 0) ≡ true
join_ends [] = refl
join_ends (c ∷ cs) = refl

canon_step-component :
    (c : Bytes) (cs : List Bytes) (q : Bytes)
    → IsComponent c
    → canon_step (slash ∷ (c ++ join cs)) q ≡ (
        if is_here c
        then some (join cs, q)
        else if is_up c
        then moved (join cs) (pop_dir q)
        else some (c ++ join cs, slash ∷ q))
unfolding canon_step bytes_eq
canon_step-component [] cs q h = ground (arith, join_ends cs)
canon_step-component (x ∷ []) cs q h = ground (arith, join_ends cs)
canon_step-component (x ∷ y ∷ []) cs q h = ground (arith, join_ends cs)
canon_step-component (x ∷ y ∷ z ∷ w) cs q h = ground (arith, join_ends cs)

pop_to_slash-rev_onto : (c t : Bytes) → IsComponent c → pop_to_slash (rev_onto c t) ≡ pop_to_slash t
unfolding pop_to_slash
pop_to_slash-rev_onto [] t h = refl
pop_to_slash-rev_onto (x ∷ c) t h = ground (arith, pop_to_slash-rev_onto c (x ∷ t) h.1)

pub length-rev_onto {ℓ} :
    {A : Type ℓ} (xs ys : List A) → length (rev_onto xs ys) ≡ length xs + length ys
length-rev_onto [] ys = omega arith
length-rev_onto (x ∷ xs) ys = omega (arith, length-rev_onto xs (x ∷ ys))

pop_dir-pop_to_slash : (q : Bytes) → 0 < length q → pop_dir q ≡ pop_to_slash q
unfolding pop_dir
pop_dir-pop_to_slash [] h = absurd (omega arith)
pop_dir-pop_to_slash (c ∷ q) h = refl

-- Taking a directory back never runs past the start of the buffer.
pop_dir-rendered :
    (st : List Bytes) → All IsComponent st → pop_dir (rendered st) ≡ some (rendered (parent st))
unfolding pop_dir
pop_dir-rendered [] h = refl
pop_dir-rendered (c ∷ st) h =
    pop_dir-pop_to_slash (rendered (c ∷ st))
      (omega (arith, length-rev_onto {0} c (slash ∷ rendered st)))
    ∙ pop_to_slash-rev_onto c (slash ∷ rendered st) h.0
    ∙ (unfold pop_to_slash in refl)

parent-All : (st : List Bytes) → All IsComponent st → All IsComponent (parent st)
parent-All [] h = tt
parent-All (c ∷ st) h = h.1

canon_loop-name :
    (fuel bufsize : ℕ) (x : ℕ) (p q : Bytes)
    → IsName x
    → length q < bufsize
    → canon_loop (suc fuel) bufsize (x ∷ p) q ≡ canon_loop fuel bufsize p (x ∷ q)
unfolding canon_loop canon_step canon_next
canon_loop-name fuel bufsize x p q h room = ground arith

canon_loop-names :
    (w : Bytes) (n fuel bufsize : ℕ) (p q : Bytes)
    → IsComponent w
    → n ≡ length w + fuel
    → length q + length w < bufsize
    → canon_loop n bufsize (w ++ p) q ≡ canon_loop fuel bufsize p (rev_onto w q)
canon_loop-names [] n fuel bufsize p q h e room = rw (let e' : n ≡ fuel = omega arith in e')
canon_loop-names (x ∷ w) zero fuel bufsize p q h e room = absurd (omega arith)
canon_loop-names (x ∷ w) (suc n) fuel bufsize p q h e room =
    canon_loop-name n bufsize x (w ++ p) q h.0 (omega arith)
    ∙ canon_loop-names w n fuel bufsize p (x ∷ q) h.1 (omega arith) (omega arith)

canon_loop_step :
    (fuel bufsize : ℕ) (p q : Bytes)
    → length q < bufsize
    → canon_loop (suc fuel) bufsize (slash ∷ p) q
      ≡ canon_next (λ p' q'. canon_loop fuel bufsize p' q') (canon_step (slash ∷ p) q)
unfolding canon_loop
canon_loop_step fuel bufsize p q room = ground arith

pub parent-shorter : (st : List Bytes) → length (rendered (parent st)) ≤ length (rendered st)
parent-shorter [] = omega arith
parent-shorter (c ∷ st) = omega (arith, length-rev_onto {0} c (slash ∷ rendered st))

joined :
    (c : Bytes) (cs : List Bytes) (fuel : ℕ)
    → length (join (c ∷ cs)) ≤ suc fuel
    → length (join cs) ≤ fuel
joined c cs fuel h = omega (arith, length-append {0} c (join cs))

canon_loop-join :
    (cs : List Bytes) (fuel bufsize : ℕ) (st : List Bytes)
    → All IsComponent cs
    → All IsComponent st
    → length (join cs) ≤ fuel
    → length (rendered st) + length (join cs) < bufsize
    → canon_loop fuel bufsize (join cs) (rendered st) ≡ ok (rev_onto (rendered (resolve st cs)) [])
unfolding canon_next canon_loop canon_finish
canon_loop-join [] zero bufsize st hc hs enough room = ground arith
canon_loop-join [] (suc fuel) bufsize st hc hs enough room = ground arith
canon_loop-join (c ∷ cs) zero bufsize st hc hs enough room = absurd (omega arith)
canon_loop-join (c ∷ cs) (suc fuel) bufsize st hc hs enough room =
    canon_loop_step fuel bufsize (c ++ join cs) (rendered st) (omega arith)
    ∙ rw (canon_step-component c cs (rendered st) hc.0) (elim (Bool-cases (is_here c)) [
      | inl here ↦ rw here (
          canon_loop-join cs fuel bufsize st hc.1 hs (joined c cs fuel enough)
            (omega (arith, length-append {0} c (join cs))))
      | inr named ↦ rw named (elim (Bool-cases (is_up c)) [
        | inl up ↦
            rw (up, pop_dir-rendered st hs)
              (canon_loop-join cs fuel bufsize (parent st) hc.1 (parent-All st hs)
                (joined c cs fuel enough)
                (omega (arith, length-append {0} c (join cs), parent-shorter st)))
        | inr plain ↦ rw plain (
            canon_loop-names c fuel (fuel - length c) bufsize (join cs) (slash ∷ rendered st) hc.0
              (omega (arith, length-append {0} c (join cs)))
              (omega (arith, length-append {0} c (join cs)))
            ∙ canon_loop-join cs (fuel - length c) bufsize (c ∷ st) hc.1 (hc.0, hs)
                (omega (arith, length-append {0} c (join cs)))
                (omega (
                  arith,
                  length-append {0} c (join cs),
                  length-rev_onto {0} c (slash ∷ rendered st),
                )))
      ])
    ])

pub rev_onto-rev_onto {ℓ} :
    {A : Type ℓ} (c q t : List A) → rev_onto (rev_onto c q) t ≡ rev_onto q (c ++ t)
rev_onto-rev_onto [] q t = refl
rev_onto-rev_onto (x ∷ c) q t = rev_onto-rev_onto c (x ∷ q) t

pub rev_onto-rendered :
    (st cs : List Bytes) → rev_onto (rendered st) (join cs) ≡ join (rev_onto st cs)
rev_onto-rendered [] cs = refl
rev_onto-rendered (c ∷ st) cs =
    rev_onto-rev_onto c (slash ∷ rendered st) (join cs) ∙ rev_onto-rendered st (c ∷ cs)

-- The components that got_canonpath keeps, in their order.
abbrev pub kept : List Bytes → List Bytes
kept cs = rev_onto (resolve [] cs) []

-- For every absolute path, given by its components, and a buffer larger than the path,
-- got_canonpath succeeds, and its result has the components that are kept: not the empty ones, not
-- ".", and not those that a ".." takes back.
pub canonpath-join :
    (c : Bytes) (cs : List Bytes) (bufsize : ℕ)
    → All IsComponent (c ∷ cs)
    → length (join (c ∷ cs)) < bufsize
    → canonpath (join (c ∷ cs)) bufsize ≡ ok (join (kept (c ∷ cs)))
unfolding canonpath is_absolute
canonpath-join c cs bufsize h room =
    canon_loop-join (c ∷ cs) _ bufsize [] h tt (omega arith) (omega arith)
    ∙ ap ok (rev_onto-rendered (resolve [] (c ∷ cs)) [])
