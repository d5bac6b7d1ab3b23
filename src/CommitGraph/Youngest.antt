-- ===== src/CommitGraph/Youngest.antt =====
-- got_commit_graph_find_youngest_common_ancestor of lib/commit_graph.c.
use gameoftrees.Base.{
  ℕ, zero, suc, Bool, true, false, ◌&&◌, [], ◌∷◌, Bytes, Option, none, some, if◌then◌else◌,
}
use gameoftrees.Error.{iter_completed, ancestry, Error, Result, ok, err, trap, ◌>>=◌}
use gameoftrees.CommitGraph.{Repository, Graph, graph_open, iter_start, iter_next}
use gameoftrees.CommitGraph.Sets.{IdSets}

-- The test of an error's code for GOT_ERR_ITER_COMPLETED.
unfoldable pub is_completed : Error → Bool
is_completed iter_completed = true
is_completed _ = false

-- A run that may need more fuel, and then one.
abbrev pub then_run :
    {S T : Type 0} → Option (Result S) → (S → Option (Result T)) → Option (Result T)
then_run none next = none
then_run (some (err e)) next = some (err e)
then_run (some (trap z)) next = some (trap z)
then_run (some (ok s)) next = next s

module _ (sets : IdSets) (repo : Repository) (cancel : Graph sets repo → Result (Unit {0})) where
  -- One of the two traversals, and whether it has completed.
  pub record Side : Type 0 where
    pub graph : Graph sets repo
    pub completed : Bool

  abbrev pub stepped :
      Graph sets repo
      → Option (Result (Bytes × Graph sets repo))
      → Option (Result (Option Bytes × Side))
  stepped g none = none
  stepped g (some (ok (id, g'))) = some (ok (some id, record { graph = g'; completed = false }))
  stepped g (some (err e)) =
      if is_completed e
      then some (ok (none, record { graph = g; completed = true }))
      else some (err e)
  stepped g (some (trap z)) = some (trap z)

  unfoldable pub next_id : ℕ → Side → Option (Result (Option Bytes × Side))
  next_id fuel side =
      if side.completed
      then some (ok (none, side))
      else stepped side.graph (iter_next sets repo cancel fuel side.graph)

  -- A commit that has been passed by one of the two before, or the set with it.
  pub data Visit : Type 0 where
    found : Bytes → Visit
    visited : sets.Set → Visit

  unfoldable pub visit : sets.Set → Option Bytes → Result Visit
  visit commit_ids none = ok (visited commit_ids)
  visit commit_ids (some id) =
      if sets.contains commit_ids id
      then ok (found id)
      else sets.add commit_ids id >>= λ commit_ids'. ok (visited commit_ids')

  -- The second commit of a round, behind the first.
  unfoldable pub visit_other : Option Bytes → Visit → Result Visit
  visit_other id2 (found id) = ok (found id)
  visit_other id2 (visited commit_ids) = visit commit_ids id2

  unfoldable pub yca_loop : ℕ → ℕ → Side → Side → sets.Set → Option (Result Bytes)
  yca_loop zero steps side side2 commit_ids = none
  yca_loop (suc fuel) steps side side2 commit_ids = then_run (some (cancel side.graph)) (λ stop.
      then_run (next_id steps side) (λ (id, side'). then_run (next_id steps side2) (λ (id2, side2').
        then_run (some (visit commit_ids id >>= visit_other id2)) (λ v. elim v [
          | found yca_id ↦ some (ok yca_id)
          | visited commit_ids' ↦
              if side'.completed && side2'.completed
              then some (err ancestry)
              else yca_loop fuel steps side' side2' commit_ids'
        ]))))

  -- `fuel` is of the rounds, `steps` of the two traversals.
  unfoldable pub find_youngest_common_ancestor : ℕ → ℕ → Bytes → Bytes → Option (Result Bytes)
  find_youngest_common_ancestor fuel steps commit_id commit_id2 =
      then_run (iter_start sets repo cancel steps (graph_open sets repo (b'/' ∷ []) true) commit_id)
        (λ graph.
          then_run
            (iter_start sets repo cancel steps (graph_open sets repo (b'/' ∷ []) true) commit_id2)
            (λ graph2.
              yca_loop fuel steps (record { graph = graph; completed = false })
                (record { graph = graph2; completed = false }) sets.empty))
