-- ===== src/Scheduler/DagExecutor/Keeps.antt =====
-- Induction over the methods of class DAGExecutor, scheduler/dag_executor.py: what holds of an
-- execution while ready jobs are queued, jobs are marked as cancelled and the end is noted, holds
-- after each method.
use job_orchestrator.Prelude.{
  ℕ, ◌≡◌, sym, subst, Bool, true, ◌||◌, not, Option, some, List, [], ◌∷◌, length, ltb, Bool-cases,
  Option-cases, inl, inr, either,
}
use job_orchestrator.Prelude.Dict
use job_orchestrator.Scheduler.DagExecutor.{
  DagStatus, Reason, Execution, Scheduling, Queued, failed, cancelled, completed, is_job_ready,
  cancel_unfinished, note_queued, queue_found, queue_job, queue_ready, fail_dag, conclude,
  conclude_unless, check_dag_completion, mark_complete, complete_in, mark_failed, fail_in,
  cancel_in, is_over, accounted, total_jobs, dependents_of, jobs_failed, job_failed,
}
use job_orchestrator.Scheduler.DagExecutor.Sets.{cancel_each-cancel_unfinished}

-- The elementary changes that keep a property.
pub record IsClosed (P : Execution → Type 0) : Type 0 where
  pub queues :
      (id : ℕ) (ok : Bool) (e : Execution)
      → is_job_ready id e ≡ true
      → P e
      → P (note_queued id ok e)
  pub cancels : (ids : List ℕ) (e : Execution) → P e → P (cancel_unfinished ids e)
  pub ends :
      (status : DagStatus) (at : Option ℕ) (error : Option Reason) (e : Execution)
      → P e
      → P (record e { status = status; completed_at = at; error = error })

-- Queueing a job changes an execution as its `submit` ends, or not at all.
pub queue_job-keeps :
    {S : Type 0} (sched : Scheduling S) (P : Execution → Type 0) (id : ℕ) (e : Execution) (s : S)
    → ((ok : Bool) → P (note_queued id ok e))
    → P e
    → P (queue_job sched id e s).execution
unfolding queue_job queue_found
queue_job-keeps sched P id e s noted p = elim (Option-cases (Dict.lookup id e.dag.jobs)) [
  | inl absent ↦ rw absent p
  | inr (address, found) ↦ rw found (noted (sched.submit address s).0)
]

module _ {S : Type 0} (sched : Scheduling S) (P : Execution → Type 0) (c : IsClosed P) where
  pub queue_ready-keeps :
      (ids : List ℕ) (e : Execution) (s : S) → P e → P (queue_ready sched ids e s).execution
  unfolding queue_ready
  queue_ready-keeps [] e s p = p
  queue_ready-keeps (id ∷ ids) e s p =
      let first = queue_job sched id e s in
      elim (Bool-cases (is_job_ready id e)) [
        | inr waits ↦ rw waits (queue_ready-keeps ids e s p)
        | inl ready ↦
            let step = queue_job-keeps sched P id e s (λ ok. c.queues id ok e ready p) p in
            let rest = queue_ready-keeps ids first.execution first.outer step in
            elim (Bool-cases first.ok) [
              | inl ok ↦ rw ready (rw ok rest)
              | inr error ↦ rw ready (rw error step)
            ]
      ]

  pub fail_dag-keeps :
      (reason : Reason) (now : ℕ) (e : Execution) (s : S)
      → P e
      → P (fail_dag sched reason now e s).0
  unfolding fail_dag
  fail_dag-keeps reason now e s p = elim (Bool-cases (is_over e.status)) [
    | inl over ↦ rw over p
    | inr active ↦
        rw active (c.cancels (Dict.keys e.dag.jobs) _ (c.ends failed (some now) (some reason) e p))
  ]

  pub conclude-keeps : (now : ℕ) (e : Execution) (s : S) → P e → P (conclude sched now e s).0
  unfolding conclude
  conclude-keeps now e s p = elim (Bool-cases (ltb 0 (length e.failed_jobs))) [
    | inl bad ↦ rw bad (fail_dag-keeps (jobs_failed (length e.failed_jobs)) now e s p)
    | inr good ↦ rw good (c.ends completed (some now) e.error e p)
  ]

  conclude_unless-keeps :
      (now : ℕ) (r : Queued S) → P r.execution → P (conclude_unless sched now r).execution
  unfolding conclude_unless
  conclude_unless-keeps now r p = elim (Bool-cases (not r.ok || ltb 0 (length r.queued))) [
    | inl early ↦ rw early p
    | inr late ↦ rw late (conclude-keeps now r.execution r.outer p)
  ]

  pub check-keeps :
      (now : ℕ) (e : Execution) (s : S) → P e → P (check_dag_completion sched now e s).execution
  unfolding check_dag_completion
  check-keeps now e s p =
      let r = queue_ready sched (Dict.keys e.dag.jobs) e s in
      let idle_now : Queued S = record { ok = true; queued = []; execution = e; outer = s } in
      elim (Bool-cases (ltb 0 (length e.running_jobs))) [
        | inl busy ↦ rw busy p
        | inr idle ↦ elim (Bool-cases (ltb (accounted e) (total_jobs e))) [
          | inl short ↦ rw idle (
              rw short
                (conclude_unless-keeps now r (queue_ready-keeps (Dict.keys e.dag.jobs) e s p)))
          | inr full ↦ rw idle (rw full (conclude_unless-keeps now idle_now p))
        ]
      ]

  pub complete_in-keeps :
      (id now : ℕ) (e : Execution) (s : S)
      → P (mark_complete id e)
      → P (complete_in sched id now e s).execution
  unfolding complete_in
  complete_in-keeps id now e s p =
      let ids = dependents_of (Dict.lookup id e.dag.nodes) in
      let r = queue_ready sched ids (mark_complete id e) s in
      let step = queue_ready-keeps ids (mark_complete id e) s p in
      either (λ (q : Queued S). P q.execution) r.ok _ _ (check-keeps now r.execution r.outer step)
        step

  pub fail_in-keeps :
      (id error now : ℕ) (e : Execution) (s : S)
      → P (mark_failed id e)
      → P (fail_in sched id error now e s).execution
  unfolding fail_in
  fail_in-keeps id error now e s p =
      either (λ (q : Queued S). P q.execution) e.dag.fail_fast _ _
        (fail_dag-keeps (job_failed id error) now (mark_failed id e) s p)
        (check-keeps now (mark_failed id e) s p)

  pub cancel_in-keeps : (now : ℕ) (e : Execution) (s : S) → P e → P (cancel_in sched now e s).0
  unfolding cancel_in
  cancel_in-keeps now e s p =
      let ended : Execution = record e { status = cancelled; completed_at = some now } in
      subst P (sym (cancel_each-cancel_unfinished sched (Dict.keys e.dag.jobs) ended s))
        (c.cancels (Dict.keys e.dag.jobs) ended (c.ends cancelled (some now) e.error e p))
