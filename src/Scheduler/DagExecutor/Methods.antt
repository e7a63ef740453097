-- ===== src/Scheduler/DagExecutor/Methods.antt =====
-- The methods of class DAGExecutor, scheduler/dag_executor.py, on the table of its executions. A DAG
-- that is started again takes the place of its earlier execution.
use job_orchestrator.Prelude.{
  ℕ, Bool, true, false, Option, none, some, List, [], ◌∷◌, length, map, filter,
}
use job_orchestrator.Prelude.Dict
use job_orchestrator.Prelude.Dict.{Dict}
use job_orchestrator.Core.Dag.{Node, is_root}
use job_orchestrator.Scheduler.DagExecutor.{
  Workflow, Execution, Executor, Scheduling, Queued, running, queue_all, complete_in, fail_in,
  cancel_in,
}

-- `DAG.get_root_nodes`
unfoldable pub root_ids : Dict Node → List ℕ
root_ids nodes = map (λ n. n.job_id) (filter is_root (Dict.values nodes))

unfoldable pub map_jobs : List ℕ → ℕ → Dict ℕ → Dict ℕ
map_jobs [] dag_id m = m
map_jobs (id ∷ ids) dag_id m = map_jobs ids dag_id (Dict.insert id dag_id m)

unfoldable pub begin : (now : ℕ) → Workflow → Execution
begin now dag = record {
  dag = dag;
  status = running;
  started_at = some now;
  completed_at = none;
  completed_jobs = [];
  failed_jobs = [];
  running_jobs = [];
  cancelled_jobs = [];
  error = none;
}

unfoldable pub put : ℕ → Execution → Executor → Executor
put dag_id e x = record x { active_dags = Dict.insert dag_id e x.active_dags }

-- `_job_to_dag.get(job_id)`, then `_active_dags.get(dag_id)`.
unfoldable pub execution_of : ℕ → Executor → Option (ℕ × Execution)
execution_of job_id x = elim (Dict.lookup job_id x.job_to_dag) [
  | none ↦ none
  | some dag_id ↦ elim (Dict.lookup dag_id x.active_dags) [
    | none ↦ none
    | some e ↦ some (dag_id, e)
  ]
]

-- What a method leaves: false after a KeyError, the jobs that were queued, and the two states.
pub record Called (S : Type 0) : Type 0 where
  pub ok : Bool
  pub queued : List ℕ
  pub executor : Executor
  pub outer : S

unfoldable pub store : {S : Type 0} → ℕ → Executor → Queued S → Called S
unfolding put
store dag_id x r = record {
  ok = r.ok;
  queued = r.queued;
  executor = put dag_id r.execution x;
  outer = r.outer;
}

abbrev pub unchanged : {S : Type 0} → Executor → S → Called S
unchanged x s = record { ok = true; queued = []; executor = x; outer = s }

module _ {S : Type 0} (sched : Scheduling S) where
  unfoldable pub start_dag : (now : ℕ) → Workflow → Executor → S → Called S
  unfolding root_ids map_jobs begin store
  start_dag now dag x s =
      let mapped = record x { job_to_dag = map_jobs (Dict.keys dag.jobs) dag.id x.job_to_dag } in
      store dag.id mapped (queue_all sched (root_ids dag.nodes) (begin now dag) s)

  unfoldable pub on_job_complete : ℕ → (now : ℕ) → Executor → S → Called S
  unfolding execution_of store
  on_job_complete id now x s = elim (execution_of id x) [
    | none ↦ unchanged x s
    | some (dag_id, e) ↦ store dag_id x (complete_in sched id now e s)
  ]

  unfoldable pub on_job_failed : ℕ → (error now : ℕ) → Executor → S → Called S
  unfolding execution_of store
  on_job_failed id error now x s = elim (execution_of id x) [
    | none ↦ unchanged x s
    | some (dag_id, e) ↦ store dag_id x (fail_in sched id error now e s)
  ]

  unfoldable pub cancel_dag : ℕ → (now : ℕ) → Executor → S → Bool × Executor × S
  unfolding put
  cancel_dag dag_id now x s = elim (Dict.lookup dag_id x.active_dags) [
    | none ↦ (false, x, s)
    | some e ↦ let r = cancel_in sched now e s in (true, put dag_id r.0 x, r.1)
  ]

unfoldable pub get_status : ℕ → Executor → Option Execution
get_status dag_id x = Dict.lookup dag_id x.active_dags

unfoldable pub get_dag_for_job : ℕ → Executor → Option ℕ
get_dag_for_job job_id x = Dict.lookup job_id x.job_to_dag

-- `active_dags` and `total_jobs`
unfoldable pub get_stats : Executor → ℕ × ℕ
get_stats x = (length x.active_dags, length x.job_to_dag)
