-- ===== src/Reference/Resolve.antt =====
-- Resolution of symbolic references in lib/reference.c.
use gameoftrees.Base.{ℕ, zero, suc, ◌≤◌, ◌≡◌, refl, Bytes, Option, none, some, arith}
use gameoftrees.Error.{recursion, Result, ok, err, trap}
use gameoftrees.Reference.{Reference, ref, symref}
use gameoftrees.Reference.Open.{Repo, ref_open}

-- What a call of resolve_symbolic_ref gives once it has opened the reference that it is at; the
-- recursive call stands for `rest`.
pub opened : Result Reference → (Bytes → Option (Result Reference)) → Option (Result Reference)
opened (err e) rest = some (err e)
opened (trap z) rest = some (trap z)
opened (ok (symref name target)) rest = rest target
opened (ok (ref name sha1 packed)) rest = some (ok (ref name sha1 packed))

-- `none`: the code is still running after as many nested calls as the fuel allows.
pub resolve_symbolic_ref : ℕ → Repo → Bytes → Option (Result Reference)
resolve_symbolic_ref zero repo target = none
resolve_symbolic_ref (suc fuel) repo target =
    opened (ref_open repo target) (resolve_symbolic_ref fuel repo)

pub ref_recurse_max : ℕ
ref_recurse_max = 20

-- ref_resolve behind resolve_symbolic_ref.
pub resolved :
    Option (Result Reference) → (Reference → Option (Result Bytes)) → Option (Result Bytes)
resolved none again = none
resolved (some (err e)) again = some (err e)
resolved (some (trap z)) again = some (trap z)
resolved (some (ok r)) again = again r

-- The counter goes down with each call of ref_resolve itself.
pub ref_resolve_loop : ℕ → Repo → ℕ → Reference → Option (Result Bytes)
ref_resolve_loop fuel repo zero r = some (err recursion)
ref_resolve_loop fuel repo (suc left) (ref name sha1 packed) = some (ok sha1)
ref_resolve_loop fuel repo (suc left) (symref name target) =
    resolved (resolve_symbolic_ref fuel repo target) (ref_resolve_loop fuel repo left)

-- got_ref_resolve
pub ref_resolve : ℕ → Repo → Reference → Option (Result Bytes)
ref_resolve fuel repo r = ref_resolve_loop fuel repo ref_recurse_max r

-- A name leads to an identifier over a number of references, all but the last of them symbolic.
pub data Leads (repo : Repo) : ℕ → Bytes → Bytes → Type 0 where
  arrives :
      {target name sha1 : Bytes} {packed : _}
      → ref_open repo target ≡ ok (ref name sha1 packed)
      → Leads repo 1 target sha1
  follows :
      {n : ℕ} {target name target' sha1 : Bytes}
      → ref_open repo target ≡ ok (symref name target')
      → Leads repo n target' sha1
      → Leads repo (suc n) target sha1

resolve_symbolic_ref-Leads :
    (repo : Repo) (n fuel : ℕ) (target sha1 : Bytes)
    → Leads repo n target sha1
    → n ≤ fuel
    → (name : Bytes) × (packed : _) × (resolve_symbolic_ref fuel repo target
        ≡ some (ok (ref name sha1 packed)))
unfolding resolve_symbolic_ref opened
resolve_symbolic_ref-Leads repo n zero target sha1 (arrives e) h = absurd (omega arith)
resolve_symbolic_ref-Leads repo n zero target sha1 (follows e l) h = absurd (omega arith)
resolve_symbolic_ref-Leads repo n (suc fuel) target sha1 (arrives {name = name} {packed = packed} e)
      h =
    (name, packed, rw e refl)
resolve_symbolic_ref-Leads repo (suc n) (suc fuel) target sha1 (follows {target' = t} e l) h =
    let (name, packed, same) = resolve_symbolic_ref-Leads repo n fuel t sha1 l (omega arith) in
    (name, packed, rw e same)

-- A symbolic reference whose target leads to an identifier over `n` references, however many, is
-- resolved to it: `n` nested calls are enough, and the limit of GOT_REF_RECURSE_MAX is not met.
pub ref_resolve-Leads :
    (repo : Repo) (n fuel : ℕ) (name target sha1 : Bytes)
    → Leads repo n target sha1
    → n ≤ fuel
    → ref_resolve fuel repo (symref name target) ≡ some (ok sha1)
unfolding ref_resolve ref_resolve_loop resolved ref_recurse_max
ref_resolve-Leads repo n fuel name target sha1 l h =
    let (name', packed, e) = resolve_symbolic_ref-Leads repo n fuel target sha1 l h in rw e refl

resolve_symbolic_ref_endless :
    (repo : Repo) (chain name : ℕ → Bytes) (n fuel : ℕ)
    → ((i : ℕ) → ref_open repo (chain i) ≡ ok (symref (name i) (chain (suc i))))
    → resolve_symbolic_ref fuel repo (chain n) ≡ none
unfolding resolve_symbolic_ref opened
resolve_symbolic_ref_endless repo chain name n zero h = refl
resolve_symbolic_ref_endless repo chain name n (suc fuel) h =
    rw (h n) (resolve_symbolic_ref_endless repo chain name (suc n) fuel h)

-- Where each reference of an endless chain, such as a cycle, is symbolic and leads to the next,
-- got_ref_resolve of a reference to its first does not return: no number of nested calls is
-- enough, and the limit of GOT_REF_RECURSE_MAX is not met.
pub ref_resolve_endless :
    (repo : Repo) (chain name : ℕ → Bytes) (own_name : Bytes) (fuel : ℕ)
    → ((i : ℕ) → ref_open repo (chain i) ≡ ok (symref (name i) (chain (suc i))))
    → ref_resolve fuel repo (symref own_name (chain 0)) ≡ none
unfolding ref_resolve ref_resolve_loop resolved ref_recurse_max
ref_resolve_endless repo chain name own_name fuel h =
    rw (resolve_symbolic_ref_endless repo chain name 0 fuel h) refl
