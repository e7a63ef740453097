-- ===== src/Scheduler/DagExecutor/Settled.antt =====
-- class DAGExecutor, scheduler/dag_executor.py: a DAG that failed or was cancelled submits no job.
use job_orchestrator.Prelude.{
  ℕ, ◌≡◌, refl, sym, ap, subst, ◌∙◌, Bool, true, false, ◌||◌, List, [], ◌∷◌, arith, inl, inr,
  Bool-cases, All, some,
}
use job_orchestrator.Prelude.Ids.{contains, discard, contains-add, contains-keys}
use job_orchestrator.Prelude.Dict
use job_orchestrator.Scheduler.DagExecutor.{
  Reason, Execution, Scheduling, Queued, completed, cancelled, is_job_ready, note_queued, fail_dag,
  conclude, conclude_unless, check_dag_completion, mark_complete, mark_failed, complete_in, fail_in,
  cancel_in, cancel_unfinished, is_over, dependents_of,
}
use job_orchestrator.Scheduler.DagExecutor.Keeps.{IsClosed, complete_in-keeps, fail_in-keeps}
use job_orchestrator.Scheduler.DagExecutor.Loops.{IsKeyed, queue_ready-none}
use job_orchestrator.Scheduler.DagExecutor.Sets.{
  is_job_ready_iff, cancel_unfinished_frame, cancel_each-cancel_unfinished,
  contains-cancel_unfinished,
}

-- Every job of the DAG is completed, failed or cancelled.
abbrev pub is_settled : ℕ → Execution → Bool
is_settled k e =
    contains k e.completed_jobs || contains k e.failed_jobs || contains k e.cancelled_jobs

abbrev pub IsSettled : Execution → Type 0
IsSettled e = (k : ℕ) → Dict.has_key k e.dag.nodes ≡ true → is_settled k e ≡ true

settled_waits : (k : ℕ) (e : Execution) → IsSettled e → is_job_ready k e ≡ false
settled_waits k e t = elim (Bool-cases (is_job_ready k e)) [
  | inr waits ↦ waits
  | inl ready ↦ let h = (is_job_ready_iff k e).0 ready in absurd (ground (arith, h.0, h.1, t k h.0))
]

all_wait : (ids : List ℕ) (e : Execution) → IsSettled e → All (λ id. is_job_ready id e ≡ false) ids
all_wait [] e t = tt
all_wait (id ∷ ids) e t = (settled_waits id e t, all_wait ids e t)

mark_complete-IsSettled : (id : ℕ) (e : Execution) → IsSettled e → IsSettled (mark_complete id e)
unfolding mark_complete
mark_complete-IsSettled id e t = λ k h. ground (arith, t k h, contains-add k id e.completed_jobs)

mark_failed-IsSettled : (id : ℕ) (e : Execution) → IsSettled e → IsSettled (mark_failed id e)
unfolding mark_failed
mark_failed-IsSettled id e t = λ k h. ground (arith, t k h, contains-add k id e.failed_jobs)

note_queued-IsSettled :
    (id : ℕ) (ok : Bool) (e : Execution) → IsSettled e → IsSettled (note_queued id ok e)
unfolding note_queued
note_queued-IsSettled id true e t = t
note_queued-IsSettled id false e t = λ k h. ground (arith, t k h, contains-add k id e.failed_jobs)

cancel_unfinished-IsSettled :
    (ids : List ℕ) (e : Execution) → IsSettled e → IsSettled (cancel_unfinished ids e)
cancel_unfinished-IsSettled ids e t =
    subst IsSettled (sym (cancel_unfinished_frame ids e))
      (λ k h. ground (arith, t k h, contains-cancel_unfinished k ids e))

-- Marking all jobs of the DAG settles it.
cancelling-IsSettled :
    (e : Execution) → IsKeyed e.dag → IsSettled (cancel_unfinished (Dict.keys e.dag.jobs) e)
cancelling-IsSettled e w =
    let ids = Dict.keys e.dag.jobs in
    subst IsSettled (sym (cancel_unfinished_frame ids e)) (λ k h.
      let listed = contains-keys k e.dag.jobs ∙ w k ∙ h in
      ground (arith, listed, contains-cancel_unfinished k ids e))

IsSettled-IsClosed : IsClosed IsSettled
IsSettled-IsClosed = record {
  queues = λ id ok e ready t. note_queued-IsSettled id ok e t;
  cancels = cancel_unfinished-IsSettled;
  ends = λ status at error e t. t;
}

module _ {S : Type 0} (sched : Scheduling S) where
  -- `cancel_dag` changes the status, its time and the set of cancelled jobs.
  cancel_in-frame :
      (now : ℕ) (e : Execution) (s : S)
      → (cancel_in sched now e s).0 ≡ record e {
        status = cancelled;
        completed_at = some now;
        cancelled_jobs = (cancel_in sched now e s).0.cancelled_jobs;
      }
  unfolding cancel_in
  cancel_in-frame now e s =
      let ended : Execution = record e { status = cancelled; completed_at = some now } in
      let same = cancel_each-cancel_unfinished sched (Dict.keys e.dag.jobs) ended s in
      same ∙ rw same (cancel_unfinished_frame (Dict.keys e.dag.jobs) ended)

  cancel_in-IsSettled :
      (now : ℕ) (e : Execution) (s : S) → IsKeyed e.dag → IsSettled (cancel_in sched now e s).0
  unfolding cancel_in
  cancel_in-IsSettled now e s w =
      let ended : Execution = record e { status = cancelled; completed_at = some now } in
      subst IsSettled (sym (cancel_each-cancel_unfinished sched (Dict.keys e.dag.jobs) ended s))
        (cancelling-IsSettled ended w)

  fail_dag-IsSettled :
      (reason : Reason) (now : ℕ) (e : Execution) (s : S)
      → IsKeyed e.dag
      → is_over e.status ≡ false
      → IsSettled (fail_dag sched reason now e s).0
  unfolding fail_dag
  fail_dag-IsSettled reason now e s w active = rw active (cancelling-IsSettled _ w)

-- A report on a job, as `on_job_complete` or `on_job_failed` gets it.
pub data Report : Type 0 where
  completion : (job_id now : ℕ) → Report
  failure : (job_id error now : ℕ) → Report

module _ {S : Type 0} where
  unfoldable pub report : Scheduling S → Report → Execution → S → Queued S
  unfolding complete_in fail_in
  report sched (completion id now) e s = complete_in sched id now e s
  report sched (failure id error now) e s = fail_in sched id error now e s

  unfoldable pub reports : Scheduling S → List Report → Execution → S → Execution × S
  unfolding report
  reports sched [] e s = (e, s)
  reports sched (r ∷ rs) e s = let q = report sched r e s in reports sched rs q.execution q.outer

  module _ (sched : Scheduling S) (submit : ℕ → S → Bool × S) where
    -- The same scheduler with another `submit`.
    abbrev other : Scheduling S
    other = record sched { submit = submit }

    check-other :
        (now : ℕ) (e : Execution) (s : S)
        → IsSettled e
        → check_dag_completion sched now e s ≡ check_dag_completion other now e s
    unfolding check_dag_completion conclude_unless conclude fail_dag
    check-other now e s t =
        let waits = all_wait (Dict.keys e.dag.jobs) e t in
        rw (queue_ready-none sched (Dict.keys e.dag.jobs) e s waits)
          (rw (queue_ready-none other (Dict.keys e.dag.jobs) e s waits) refl)

    report-other :
        (r : Report) (e : Execution) (s : S) → IsSettled e → report sched r e s ≡ report other r e s
    unfolding report complete_in fail_in fail_dag
    report-other (completion id now) e s t =
        let marked = mark_complete-IsSettled id e t in
        let ids = dependents_of (Dict.lookup id e.dag.nodes) in
        let waits = all_wait ids (mark_complete id e) marked in
        rw (queue_ready-none sched ids (mark_complete id e) s waits) (
          rw (queue_ready-none other ids (mark_complete id e) s waits)
            (rw (check-other now (mark_complete id e) s marked) refl))
    report-other (failure id error now) e s t =
        rw (check-other now (mark_failed id e) s (mark_failed-IsSettled id e t)) refl

    report-IsSettled :
        (r : Report) (e : Execution) (s : S)
        → IsSettled e
        → IsSettled (report sched r e s).execution
    unfolding report
    report-IsSettled (completion id now) e s t =
        complete_in-keeps sched IsSettled IsSettled-IsClosed id now e s
          (mark_complete-IsSettled id e t)
    report-IsSettled (failure id error now) e s t =
        fail_in-keeps sched IsSettled IsSettled-IsClosed id error now e s
          (mark_failed-IsSettled id e t)

    reports-other :
        (rs : List Report) (e : Execution) (s : S)
        → IsSettled e
        → reports sched rs e s ≡ reports other rs e s
    unfolding reports
    reports-other [] e s t = refl
    reports-other (r ∷ rs) e s t =
        let q = report sched r e s in
        reports-other rs q.execution q.outer (report-IsSettled r e s t)
        ∙ ap (λ (p : Queued S). reports other rs p.execution p.outer) (report-other r e s t)

    -- After `cancel_dag`, whatever the status was, and after a DAG that has not ended fails, no
    -- report on any job, in any order, submits a job: all states that follow are the same whatever
    -- `submit` does. The dictionaries of nodes and of jobs of the DAGs have the same keys.
    pub stopped-reports :
        (rs : List Report) (reason : Reason) (now : ℕ) (e active : Execution) (s : S)
        → IsKeyed e.dag
        → IsKeyed active.dag
        → is_over active.status ≡ false
        → let c = cancel_in sched now e s in
          let f = fail_dag sched reason now active s in
          (reports sched rs c.0 c.1 ≡ reports other rs c.0 c.1)
          × (reports sched rs f.0 f.1 ≡ reports other rs f.0 f.1)
    stopped-reports rs reason now e active s k l runs =
        let c = cancel_in sched now e s in
        let f = fail_dag sched reason now active s in
        (
          reports-other rs c.0 c.1 (cancel_in-IsSettled sched now e s k),
          reports-other rs f.0 f.1 (fail_dag-IsSettled sched reason now active s l runs),
        )

-- A settled DAG without running and failed jobs is completed by the check.
settled-completed :
    {S : Type 0} (sched : Scheduling S) (now : ℕ) (e : Execution) (s : S)
    → IsSettled e
    → e.running_jobs ≡ []
    → e.failed_jobs ≡ []
    → (check_dag_completion sched now e s).execution.status ≡ completed
unfolding check_dag_completion conclude_unless conclude
settled-completed sched now e s t free whole =
    rw (queue_ready-none sched (Dict.keys e.dag.jobs) e s (all_wait (Dict.keys e.dag.jobs) e t))
      (ground (arith, free, whole))

-- A job that is marked as cancelled stays so.
abbrev IsCancelled : ℕ → Execution → Type 0
IsCancelled k e = contains k e.cancelled_jobs ≡ true

note_queued-IsCancelled :
    (k id : ℕ) (ok : Bool) (e : Execution) → IsCancelled k e → IsCancelled k (note_queued id ok e)
unfolding note_queued
note_queued-IsCancelled k id true e h = h
note_queued-IsCancelled k id false e h = h

IsCancelled-IsClosed : (k : ℕ) → IsClosed (IsCancelled k)
IsCancelled-IsClosed k = record {
  queues = λ id ok e ready h. note_queued-IsCancelled k id ok e h;
  cancels = λ ids e h. (contains-cancel_unfinished k ids e).1 (inr h);
  ends = λ status at error e h. h;
}

-- `cancel_dag` marks each job of the DAG that is neither completed nor failed.
cancel_in-IsCancelled :
    {S : Type 0} (sched : Scheduling S) (now k : ℕ) (e : Execution) (s : S)
    → IsKeyed e.dag
    → e.failed_jobs ≡ []
    → Dict.has_key k e.dag.nodes ≡ true
    → contains k e.completed_jobs ≡ false
    → IsCancelled k (cancel_in sched now e s).0
unfolding cancel_in
cancel_in-IsCancelled sched now k e s w whole known open_ =
    let ids = Dict.keys e.dag.jobs in
    let ended : Execution = record e { status = cancelled; completed_at = some now } in
    let listed = contains-keys k e.dag.jobs ∙ w k ∙ known in
    let spared : contains k e.failed_jobs ≡ false = rw whole (unfold contains in refl) in
    subst (IsCancelled k) (sym (cancel_each-cancel_unfinished sched ids ended s))
      ((contains-cancel_unfinished k ids ended).1 (inl (ground (arith, listed, open_, spared))))

-- A DAG that is cancelled while its last job runs, and in which no job failed, is called completed
-- when this job reports its completion, although each job that was not completed when it was
-- cancelled is still in its set of cancelled jobs.
pub cancelled_revives :
    {S : Type 0} (sched : Scheduling S) (id now later k : ℕ) (e : Execution) (s : S)
    → IsKeyed e.dag
    → e.running_jobs ≡ id ∷ []
    → e.failed_jobs ≡ []
    → Dict.has_key k e.dag.nodes ≡ true
    → contains k e.completed_jobs ≡ false
    → let c = cancel_in sched now e s in
      let r = complete_in sched id later c.0 c.1 in
      (c.0.status ≡ cancelled)
      × (r.execution.status ≡ completed)
      × (contains k r.execution.cancelled_jobs ≡ true)
unfolding complete_in
cancelled_revives sched id now later k e s w busy whole known open_ =
    let c = cancel_in sched now e s in
    let t = mark_complete-IsSettled id c.0 (cancel_in-IsSettled sched now e s w) in
    let ids = dependents_of (Dict.lookup id c.0.dag.nodes) in
    let waits = all_wait ids (mark_complete id c.0) t in
    let frame = cancel_in-frame sched now e s in
    let marked = cancel_in-IsCancelled sched now k e s w whole known open_ in
    (
      ap (λ (r : Execution). r.status) frame,
      rw (queue_ready-none sched ids (mark_complete id c.0) c.1 waits) (
          settled-completed sched later (mark_complete id c.0) c.1 t
            (unfold mark_complete in rw frame (rw busy (unfold discard in ground arith)))
            (unfold mark_complete in rw frame whole)),
      complete_in-keeps sched (IsCancelled k) (IsCancelled-IsClosed k) id later c.0 c.1
          (unfold mark_complete in marked),
    )
