-- ===== src/Core/Dag/Builder.antt =====
-- Class DAGBuilder of src/job_orchestrator/core/dag.py. A key is a number. The job is given: making
-- it from a callable is left to the caller, with its key.
pub mod Acyclic
use job_orchestrator.Prelude.{
  ℕ, Bool, true, false, Option, none, some, List, [], ◌∷◌, if◌then◌else◌,
}
use job_orchestrator.Prelude.Dict
use job_orchestrator.Prelude.Dict.{Dict}
use job_orchestrator.Core.Job.{Job}
use job_orchestrator.Core.Dag.{Dag, new, add_node, add_edge}
use job_orchestrator.Core.Dag.Cycles.{Problem, validate}

pub record Builder (F : Type 0) : Type 0 where
  pub dag : Dag F
  pub job_ids : Dict ℕ

module _ {F : Type 0} where
  unfoldable pub new_builder : Builder F
  new_builder = record { dag = new; job_ids = [] }

  -- The loop over the keys of the dependencies; false when a key is unknown or an edge raises.
  unfoldable pub depend : List ℕ → ℕ → Builder F → Bool × Builder F
  depend [] id b = (true, b)
  depend (key ∷ rest) id b = elim (Dict.lookup key b.job_ids) [
    | none ↦ (false, b)
    | some dep ↦
        let edge = add_edge dep id b.dag in
        let later = depend rest id (record b { dag = edge.1 }) in
        if edge.0 then later else (false, record b { dag = edge.1 })
  ]

  unfoldable pub add_job : Job F → ℕ → List ℕ → Builder F → Bool × Builder F
  unfolding depend
  add_job job key depends_on b =
      depend depends_on job.id
        (record b { dag = add_node job b.dag; job_ids = Dict.insert key job.id b.job_ids })

  unfoldable pub with_fail_fast : Bool → Builder F → Builder F
  with_fail_fast enabled b = record b { dag = record b.dag { fail_fast = enabled } }

  unfoldable pub with_max_parallel : ℕ → Builder F → Builder F
  with_max_parallel limit b = record b { dag = record b.dag { max_parallel = some limit } }

  unfoldable pub with_rollback : Builder F → Builder F
  with_rollback b = record b { dag = record b.dag { enable_rollback = true } }

  -- The graph, or the errors of `validate`; none for its KeyError.
  unfoldable pub build : Builder F → Option (List Problem)
  build b = validate b.dag
