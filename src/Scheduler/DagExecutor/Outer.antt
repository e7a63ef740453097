-- ===== src/Scheduler/DagExecutor/Outer.antt =====
-- class DAGExecutor, scheduler/dag_executor.py, seen from the scheduler: what its four calls of the
-- scheduler keep, the methods of the executor keep.
use job_orchestrator.Prelude.{
  ℕ, true, ◌||◌, ◌&&◌, not, Option, none, some, List, [], ◌∷◌, either, length, ltb, Option-cases,
  inl, inr,
}
use job_orchestrator.Prelude.Ids.{contains, add}
use job_orchestrator.Prelude.Dict
use job_orchestrator.Scheduler.DagExecutor.{
  Reason, Workflow, Execution, Executor, Scheduling, Queued, is_job_ready, queue_found, queue_job,
  queue_all, queue_ready, fail_dag, conclude, conclude_unless, check_dag_completion, complete_in,
  fail_in, cancel_each, cancel_in, mark_complete, mark_failed, dependents_of, is_over, accounted,
  total_jobs, jobs_failed, job_failed,
}
use job_orchestrator.Scheduler.DagExecutor.Methods.{
  root_ids, begin, execution_of, store, start_dag, on_job_complete, on_job_failed, cancel_dag,
}

module _ {S : Type 0} (sched : Scheduling S) (I : S → Type 0) where
  -- The calls of the scheduler keep a property of its state.
  pub record IsObserved : Type 0 where
    pub submits : (a : ℕ) (s : S) → I s → I (sched.submit a s).1
    pub cancels : (id : ℕ) (s : S) → I s → I (sched.cancel_job id s)
    pub completes : (id : ℕ) (s : S) → I s → I (sched.on_dag_complete id s)
    pub fails : (id : ℕ) (s : S) → I s → I (sched.on_dag_failed id s)

  module _ (o : IsObserved) where
    queue_found-outer :
        (found : Option ℕ) (id : ℕ) (e : Execution) (s : S)
        → I s
        → I (queue_found sched found id e s).outer
    unfolding queue_found
    queue_found-outer none id e s i = i
    queue_found-outer (some a) id e s i = o.submits a s i

    queue_job-outer : (id : ℕ) (e : Execution) (s : S) → I s → I (queue_job sched id e s).outer
    unfolding queue_job
    queue_job-outer id e s i = queue_found-outer (Dict.lookup id e.dag.jobs) id e s i

    queue_all-outer :
        (ids : List ℕ) (e : Execution) (s : S) → I s → I (queue_all sched ids e s).outer
    unfolding queue_all
    queue_all-outer [] e s i = i
    queue_all-outer (id ∷ ids) e s i =
        let first = queue_job sched id e s in
        let step = queue_job-outer id e s i in
        either (λ (r : Queued S). I r.outer) first.ok _ _
          (queue_all-outer ids first.execution first.outer step) step

    queue_ready-outer :
        (ids : List ℕ) (e : Execution) (s : S) → I s → I (queue_ready sched ids e s).outer
    unfolding queue_ready
    queue_ready-outer [] e s i = i
    queue_ready-outer (id ∷ ids) e s i =
        let first = queue_job sched id e s in
        let step = queue_job-outer id e s i in
        let rest = queue_ready-outer ids first.execution first.outer step in
        either (λ (r : Queued S). I r.outer) (is_job_ready id e) _ _
          (either (λ (r : Queued S). I r.outer) first.ok _ _ rest step)
          (queue_ready-outer ids e s i)

    fail_dag-outer :
        (reason : Reason) (now : ℕ) (e : Execution) (s : S)
        → I s
        → I (fail_dag sched reason now e s).1
    unfolding fail_dag
    fail_dag-outer reason now e s i =
        either (λ (r : Execution × S). I r.1) (is_over e.status) _ _ i (o.fails e.dag.id s i)

    conclude-outer : (now : ℕ) (e : Execution) (s : S) → I s → I (conclude sched now e s).1
    unfolding conclude
    conclude-outer now e s i =
        either (λ (r : Execution × S). I r.1) (ltb 0 (length e.failed_jobs)) _ _
          (fail_dag-outer (jobs_failed (length e.failed_jobs)) now e s i) (o.completes e.dag.id s i)

    conclude_unless-outer :
        (now : ℕ) (r : Queued S) → I r.outer → I (conclude_unless sched now r).outer
    unfolding conclude_unless
    conclude_unless-outer now r i =
        either (λ (q : Queued S). I q.outer) (not r.ok || ltb 0 (length r.queued)) _ _ i
          (conclude-outer now r.execution r.outer i)

    check-outer :
        (now : ℕ) (e : Execution) (s : S) → I s → I (check_dag_completion sched now e s).outer
    unfolding check_dag_completion
    check-outer now e s i =
        let ids = Dict.keys e.dag.jobs in
        let idle : Queued S = record { ok = true; queued = []; execution = e; outer = s } in
        either (λ (q : Queued S). I q.outer) (ltb 0 (length e.running_jobs)) _ _ i
          (either (λ (q : Queued S). I q.outer) (ltb (accounted e) (total_jobs e)) _ _
            (conclude_unless-outer now (queue_ready sched ids e s) (queue_ready-outer ids e s i))
            (conclude_unless-outer now idle i))

    complete_in-outer :
        (id now : ℕ) (e : Execution) (s : S) → I s → I (complete_in sched id now e s).outer
    unfolding complete_in
    complete_in-outer id now e s i =
        let ids = dependents_of (Dict.lookup id e.dag.nodes) in
        let r = queue_ready sched ids (mark_complete id e) s in
        let step = queue_ready-outer ids (mark_complete id e) s i in
        either (λ (q : Queued S). I q.outer) r.ok _ _ (check-outer now r.execution r.outer step)
          step

    fail_in-outer :
        (id error now : ℕ) (e : Execution) (s : S) → I s → I (fail_in sched id error now e s).outer
    unfolding fail_in
    fail_in-outer id error now e s i =
        either (λ (q : Queued S). I q.outer) e.dag.fail_fast _ _
          (fail_dag-outer (job_failed id error) now (mark_failed id e) s i)
          (check-outer now (mark_failed id e) s i)

    cancel_each-outer :
        (ids : List ℕ) (e : Execution) (s : S) → I s → I (cancel_each sched ids e s).1
    unfolding cancel_each
    cancel_each-outer [] e s i = i
    cancel_each-outer (id ∷ ids) e s i =
        let marked = record e { cancelled_jobs = add id e.cancelled_jobs } in
        either (λ (r : Execution × S). I r.1)
          (not (contains id e.completed_jobs) && not (contains id e.failed_jobs)) _ _
          (cancel_each-outer ids marked (sched.cancel_job id s) (o.cancels id s i))
          (cancel_each-outer ids e s i)

    -- The methods of the executor keep what the calls of the scheduler keep.
    pub start_dag-outer :
        (now : ℕ) (dag : Workflow) (x : Executor) (s : S)
        → I s
        → I (start_dag sched now dag x s).outer
    unfolding start_dag store
    start_dag-outer now dag x s i = queue_all-outer (root_ids dag.nodes) (begin now dag) s i

    pub on_job_complete-outer :
        (id now : ℕ) (x : Executor) (s : S) → I s → I (on_job_complete sched id now x s).outer
    unfolding on_job_complete store
    on_job_complete-outer id now x s i = elim (Option-cases (execution_of id x)) [
      | inl absent ↦ rw (absent, on_job_complete) i
      | inr (found, e) ↦ rw (e, on_job_complete) (complete_in-outer id now found.1 s i)
    ]

    pub on_job_failed-outer :
        (id error now : ℕ) (x : Executor) (s : S)
        → I s
        → I (on_job_failed sched id error now x s).outer
    unfolding on_job_failed store
    on_job_failed-outer id error now x s i = elim (Option-cases (execution_of id x)) [
      | inl absent ↦ rw (absent, on_job_failed) i
      | inr (found, e) ↦ rw (e, on_job_failed) (fail_in-outer id error now found.1 s i)
    ]

    pub cancel_dag-outer :
        (id now : ℕ) (x : Executor) (s : S) → I s → I (cancel_dag sched id now x s).2
    unfolding cancel_dag cancel_in
    cancel_dag-outer id now x s i = elim (Option-cases (Dict.lookup id x.active_dags)) [
      | inl absent ↦ rw (absent, cancel_dag) i
      | inr (e, found) ↦ rw (found, cancel_dag) (cancel_each-outer (Dict.keys e.dag.jobs) _ s i)
    ]
