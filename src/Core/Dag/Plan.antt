-- ===== src/Core/Dag/Plan.antt =====
-- DAG.get_execution_plan of src/job_orchestrator/core/dag.py. The set of remaining nodes is a list
-- in some order, here that of the dictionary. The fuel of the loop is the number of nodes.
use job_orchestrator.Prelude.{
  ℕ, zero, suc, Option, none, some, List, [], ◌∷◌, if◌then◌else◌, length, ◌>>=◌,
}
use job_orchestrator.Prelude.Ids.{contains}
use mathlib.Core.Option
use job_orchestrator.Prelude.Dict
use job_orchestrator.Prelude.Dict.{Dict}
use job_orchestrator.Core.Job.{Job}
use job_orchestrator.Core.Dag.{Node, Dag}
use job_orchestrator.Core.Dag.Sort.{Degree, is_free, decrease, in_degrees}

pub data Plan (F : Type 0) : Type 0 where
  levels : List (List (Job F)) → Plan F
  cycle : Plan F
  key_error : Plan F
  out_of_fuel : Plan F

unfoldable pub left_over : Dict Degree → List ℕ → List ℕ
left_over degrees [] = []
left_over degrees (id ∷ rest) =
    let later = left_over degrees rest in
    elim (Dict.lookup id degrees) [
      | none ↦ id ∷ later
      | some degree ↦ if is_free degree then later else id ∷ later
    ]

-- The loop over the dependents of a job of the level; none for a KeyError.
unfoldable pub lower_all : List ℕ → List ℕ → Dict Degree → Option (Dict Degree)
lower_all remaining [] degrees = some degrees
lower_all remaining (d ∷ ds) degrees =
    let skip = lower_all remaining ds degrees in
    let lowered = (do
      old ← Dict.lookup d degrees
      lower_all remaining ds (Dict.insert d (decrease old) degrees)) in
    if contains d remaining then lowered else skip

module _ {F : Type 0} where
  -- The jobs of the nodes without waiting dependencies; none for a KeyError.
  unfoldable pub level_of : Dict (Job F) → Dict Degree → List ℕ → Option (List (Job F))
  level_of jobs degrees [] = some []
  level_of jobs degrees (id ∷ rest) = do
    degree ← Dict.lookup id degrees
    later ← level_of jobs degrees rest
    if is_free degree then Option.map (λ job. job ∷ later) (Dict.lookup id jobs) else some later

  unfoldable pub lower_level :
      Dict Node → List ℕ → List (Job F) → Dict Degree → Option (Dict Degree)
  unfolding lower_all
  lower_level nodes remaining [] degrees = some degrees
  lower_level nodes remaining (job ∷ jobs) degrees = do
    node ← Dict.lookup job.id nodes
    next ← lower_all remaining node.dependents degrees
    lower_level nodes remaining jobs next

  unfoldable pub prepend : List (Job F) → Plan F → Plan F
  prepend level (levels rest) = levels (level ∷ rest)
  prepend level cycle = cycle
  prepend level key_error = key_error
  prepend level out_of_fuel = out_of_fuel

  unfoldable pub plan_loop : Dag F → ℕ → Dict Degree → List ℕ → Plan F
  unfolding level_of left_over lower_level prepend
  plan_loop g fuel degrees [] = levels []
  plan_loop g zero degrees (id ∷ rest) = out_of_fuel
  plan_loop g (suc fuel) degrees (id ∷ rest) = elim (level_of g.jobs degrees (id ∷ rest)) [
    | none ↦ key_error
    | some [] ↦ cycle
    | some (job ∷ jobs) ↦
        elim (lower_level g.nodes (left_over degrees (id ∷ rest)) (job ∷ jobs) degrees) [
          | none ↦ key_error
          | some lowered ↦
              prepend (job ∷ jobs) (plan_loop g fuel lowered (left_over degrees (id ∷ rest)))
        ]
  ]

  unfoldable pub get_execution_plan : Dag F → Plan F
  unfolding in_degrees
  get_execution_plan g = plan_loop g (length g.nodes) (in_degrees g.nodes) (Dict.keys g.nodes)
