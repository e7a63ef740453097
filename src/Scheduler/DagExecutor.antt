-- ===== src/Scheduler/DagExecutor.antt =====
-- src/job_orchestrator/scheduler/dag_executor.py, class DAGExecutor. Its lock makes each method one
-- step. What it uses of the scheduler is an interface, so that the scheduler, which owns it and which
-- it calls back, can be defined after it. The graph of an execution is what the executor reads of a
-- DAG: the nodes, the addresses of the job objects by identifier, and the fail-fast mode. A job is
-- under its own identifier there (Core/Dag/Shape). A DAG is not changed while it runs.
mod Examples
pub mod Methods
pub mod Sets
pub mod Loops
pub mod Keeps
pub mod Calls
pub mod Outer
pub mod Order
pub mod Settled
pub mod Complete
pub mod Progress
use job_orchestrator.Prelude.{
  ℕ, ◌+◌, Bool, true, false, ◌&&◌, ◌||◌, not, Option, none, some, List, [], ◌∷◌, ltb, all,
  if◌then◌else◌, length, map, filter,
}
use job_orchestrator.Prelude.Ids.{contains, add, discard}
use job_orchestrator.Prelude.Dict
use job_orchestrator.Prelude.Dict.{Dict}
use job_orchestrator.Core.Dag.{Node, is_root}

pub data DagStatus : Type 0 where
  pending running completed failed cancelled : DagStatus

-- The texts of errors: that of a job, or the number of jobs that failed.
pub data Reason : Type 0 where
  job_failed : (job_id error : ℕ) → Reason
  jobs_failed : ℕ → Reason

pub record Workflow : Type 0 where
  pub id : ℕ
  pub nodes : Dict Node
  pub jobs : Dict ℕ
  pub fail_fast : Bool

pub record Execution : Type 0 where
  pub dag : Workflow
  pub status : DagStatus
  pub started_at : Option ℕ
  pub completed_at : Option ℕ
  pub completed_jobs : List ℕ
  pub failed_jobs : List ℕ
  pub running_jobs : List ℕ
  pub cancelled_jobs : List ℕ
  pub error : Option Reason

pub record Executor : Type 0 where
  pub active_dags : Dict Execution
  pub job_to_dag : Dict ℕ

-- What the executor uses of the scheduler: `submit` of the job at an address, which may raise
-- (false), `cancel_job`, whose errors are ignored, and the two callbacks.
pub record Scheduling (S : Type 0) : Type 0 where
  pub submit : ℕ → S → Bool × S
  pub cancel_job : ℕ → S → S
  pub on_dag_complete : ℕ → S → S
  pub on_dag_failed : ℕ → S → S

unfoldable pub new : Executor
new = record { active_dags = []; job_to_dag = [] }

unfoldable pub total_jobs : Execution → ℕ
total_jobs e = length e.dag.jobs

-- `progress`: the quotient of the two numbers, and 1.0 for an empty graph.
unfoldable pub progress : Execution → ℕ × ℕ
progress e = (length e.completed_jobs, total_jobs e)

unfoldable pub node_is_ready : Option Node → ℕ → Execution → Bool
node_is_ready none id e = false
node_is_ready (some node) id e =
    not (contains id e.running_jobs)
    && not (contains id e.completed_jobs)
    && not (contains id e.failed_jobs)
    && not (contains id e.cancelled_jobs)
    && all (λ d. contains d e.completed_jobs) node.dependencies

unfoldable pub is_job_ready : ℕ → Execution → Bool
unfolding node_is_ready
is_job_ready id e = node_is_ready (Dict.lookup id e.dag.nodes) id e

-- What calls leave: false after a KeyError, the jobs that were queued, and the two states.
pub record Queued (S : Type 0) : Type 0 where
  pub ok : Bool
  pub queued : List ℕ
  pub execution : Execution
  pub outer : S

-- `_queue_job` after `submit` returned (true) or raised (false).
unfoldable pub note_queued : ℕ → Bool → Execution → Execution
note_queued id true e = record e { running_jobs = add id e.running_jobs }
note_queued id false e = record e { failed_jobs = add id e.failed_jobs }

unfoldable pub cancel_unfinished : List ℕ → Execution → Execution
cancel_unfinished [] e = e
cancel_unfinished (id ∷ ids) e =
    let marked = cancel_unfinished ids (record e { cancelled_jobs = add id e.cancelled_jobs }) in
    let kept = cancel_unfinished ids e in
    if not (contains id e.completed_jobs) && not (contains id e.failed_jobs) then marked else kept

unfoldable pub is_over : DagStatus → Bool
is_over failed = true
is_over cancelled = true
is_over pending = false
is_over running = false
is_over completed = false

unfoldable pub accounted : Execution → ℕ
accounted e = length e.completed_jobs + length e.failed_jobs + length e.cancelled_jobs

-- The sets after `on_job_complete`.
unfoldable pub mark_complete : ℕ → Execution → Execution
mark_complete id e = record e {
  running_jobs = discard id e.running_jobs;
  completed_jobs = add id e.completed_jobs;
}

unfoldable pub dependents_of : Option Node → List ℕ
dependents_of none = []
dependents_of (some node) = node.dependents

-- The sets after `on_job_failed`.
unfoldable pub mark_failed : ℕ → Execution → Execution
mark_failed id e = record e {
  running_jobs = discard id e.running_jobs;
  failed_jobs = add id e.failed_jobs;
}

module _ {S : Type 0} (sched : Scheduling S) where
  -- `dag.jobs[id]`, which may raise KeyError, and `_queue_job` on the job.
  unfoldable pub queue_found : Option ℕ → ℕ → Execution → S → Queued S
  unfolding note_queued
  queue_found none id e s = record { ok = false; queued = []; execution = e; outer = s }
  queue_found (some address) id e s =
      let r = sched.submit address s in
      record { ok = true; queued = id ∷ []; execution = note_queued id r.0 e; outer = r.1 }

  unfoldable pub queue_job : ℕ → Execution → S → Queued S
  unfolding queue_found
  queue_job id e s = queue_found (Dict.lookup id e.dag.jobs) id e s

  -- The loop of `start_dag`.
  unfoldable pub queue_all : List ℕ → Execution → S → Queued S
  unfolding queue_job
  queue_all [] e s = record { ok = true; queued = []; execution = e; outer = s }
  queue_all (id ∷ ids) e s =
      let first = queue_job id e s in
      let rest = queue_all ids first.execution first.outer in
      if first.ok then record rest { queued = id ∷ rest.queued } else first

  -- The loop that `on_job_complete` runs over the dependents, and `_check_dag_completion` over all
  -- the jobs.
  unfoldable pub queue_ready : List ℕ → Execution → S → Queued S
  unfolding queue_job is_job_ready
  queue_ready [] e s = record { ok = true; queued = []; execution = e; outer = s }
  queue_ready (id ∷ ids) e s =
      let first = queue_job id e s in
      let rest = queue_ready ids first.execution first.outer in
      let skip = queue_ready ids e s in
      if is_job_ready id e
      then (if first.ok then record rest { queued = id ∷ rest.queued } else first)
      else skip

  unfoldable pub fail_dag : Reason → (now : ℕ) → Execution → S → Execution × S
  unfolding cancel_unfinished is_over
  fail_dag reason now e s =
      let stopped = record e { status = failed; completed_at = some now; error = some reason } in
      if is_over e.status
      then (e, s)
      else (cancel_unfinished (Dict.keys e.dag.jobs) stopped, sched.on_dag_failed e.dag.id s)

  -- The end of `_check_dag_completion`: the DAG is over.
  unfoldable pub conclude : (now : ℕ) → Execution → S → Execution × S
  unfolding fail_dag
  conclude now e s =
      if ltb 0 (length e.failed_jobs)
      then fail_dag (jobs_failed (length e.failed_jobs)) now e s
      else (
        record e { status = completed; completed_at = some now },
        sched.on_dag_complete e.dag.id s,
      )

  -- `if queued_any: return`, and an error of the loop leaves the method.
  unfoldable pub conclude_unless : (now : ℕ) → Queued S → Queued S
  unfolding conclude
  conclude_unless now r =
      let over = conclude now r.execution r.outer in
      if not r.ok || ltb 0 (length r.queued)
      then r
      else record r { execution = over.0; outer = over.1 }

  unfoldable pub check_dag_completion : (now : ℕ) → Execution → S → Queued S
  unfolding accounted conclude_unless queue_ready total_jobs
  check_dag_completion now e s =
      let idle : Queued S = record { ok = true; queued = []; execution = e; outer = s } in
      if ltb 0 (length e.running_jobs)
      then idle
      else if ltb (accounted e) (total_jobs e)
      then conclude_unless now (queue_ready (Dict.keys e.dag.jobs) e s)
      else conclude_unless now idle

  -- `on_job_complete` on the execution of the job.
  unfoldable pub complete_in : ℕ → (now : ℕ) → Execution → S → Queued S
  unfolding mark_complete dependents_of queue_ready check_dag_completion
  complete_in id now e s =
      let r = queue_ready (dependents_of (Dict.lookup id e.dag.nodes)) (mark_complete id e) s in
      let checked = check_dag_completion now r.execution r.outer in
      if r.ok then record checked { queued = r.queued } else r

  -- `on_job_failed` on the execution of the job.
  unfoldable pub fail_in : ℕ → (error now : ℕ) → Execution → S → Queued S
  unfolding mark_failed fail_dag check_dag_completion
  fail_in id error now e s =
      let marked = mark_failed id e in
      let stopped = fail_dag (job_failed id error) now marked s in
      if e.dag.fail_fast
      then record { ok = true; queued = []; execution = stopped.0; outer = stopped.1 }
      else record (check_dag_completion now marked s) { queued = [] }

  -- The loop of `cancel_dag`.
  unfoldable pub cancel_each : List ℕ → Execution → S → Execution × S
  cancel_each [] e s = (e, s)
  cancel_each (id ∷ ids) e s =
      let marked = record e { cancelled_jobs = add id e.cancelled_jobs } in
      let stopped = cancel_each ids marked (sched.cancel_job id s) in
      let kept = cancel_each ids e s in
      if not (contains id e.completed_jobs) && not (contains id e.failed_jobs)
      then stopped
      else kept

  unfoldable pub cancel_in : (now : ℕ) → Execution → S → Execution × S
  unfolding cancel_each
  cancel_in now e s =
      cancel_each (Dict.keys e.dag.jobs) (record e { status = cancelled; completed_at = some now })
        s
