-- ===== src/Core/Dag/Sort.antt =====
-- DAG.topological_sort of src/job_orchestrator/core/dag.py. An in-degree is kept as the number of
-- dependencies and the number of decrements so far: their difference is the number in the code,
-- which may go below zero. The fuel of the loop is the number of nodes.
pub mod Relax
pub mod Hits
pub mod Step
pub mod Loop
pub mod Correct
pub mod Report
use job_orchestrator.Prelude.{
  ℕ, zero, suc, ◌+◌, Bool, Option, none, some, List, [], ◌∷◌, ◌++◌, ◌==◌, ltb, if◌then◌else◌,
  length, filter, map,
}
use job_orchestrator.Prelude.Dict
use job_orchestrator.Prelude.Dict.{Dict}
use job_orchestrator.Core.Job.{Job}
use job_orchestrator.Core.Dag.{Node, Dag}

pub record Degree : Type 0 where
  pub needs : ℕ
  pub met : ℕ

unfoldable pub is_free : Degree → Bool
is_free d = d.met == d.needs

unfoldable pub decrease : Degree → Degree
decrease d = record d { met = d.met + 1 }

unfoldable pub in_degrees : Dict Node → Dict Degree
in_degrees [] = []
in_degrees ((id, n) ∷ nodes) =
    (id, record { needs = length n.dependencies; met = 0 }) ∷ in_degrees nodes

-- The loop over the dependents of a job; none for a KeyError.
unfoldable pub relax : Dict Degree → List ℕ → List ℕ → Option (Dict Degree × List ℕ)
unfolding is_free decrease
relax degrees queue [] = some (degrees, queue)
relax degrees queue (d ∷ ds) = elim (Dict.lookup d degrees) [
  | none ↦ none
  | some old ↦
      relax (Dict.insert d (decrease old) degrees)
        (if is_free (decrease old) then queue ++ d ∷ [] else queue) ds
]

pub data Sorted (F : Type 0) : Type 0 where
  sorted : List (Job F) → Sorted F
  cycle_among : List ℕ → Sorted F
  key_error : Sorted F
  out_of_fuel : Sorted F

module _ {F : Type 0} (g : Dag F) where
  -- The end of the method: fewer jobs than nodes means a cycle.
  unfoldable pub conclude : Dict Degree → List (Job F) → Sorted F
  conclude degrees result =
      if length result == length g.nodes
      then sorted result
      else cycle_among (Dict.keys (filter (λ e. ltb e.1.met e.1.needs) degrees))

  unfoldable pub kahn : ℕ → Dict Degree → List ℕ → List (Job F) → Sorted F
  kahn fuel degrees [] result = conclude degrees result
  kahn zero degrees (id ∷ queue) result = out_of_fuel
  kahn (suc fuel) degrees (id ∷ queue) result = elim (Dict.lookup id g.jobs) [
    | none ↦ key_error
    | some job ↦ elim (Dict.lookup id g.nodes) [
      | none ↦ key_error
      | some node ↦ elim (relax degrees queue node.dependents) [
        | none ↦ key_error
        | some (relaxed, later) ↦ kahn fuel relaxed later (result ++ job ∷ [])
      ]
    ]
  ]

  unfoldable pub topological_sort : Sorted F
  unfolding in_degrees is_free
  topological_sort =
      let degrees = in_degrees g.nodes in
      kahn (length g.nodes) degrees (Dict.keys (filter (λ e. is_free e.1) degrees)) []
