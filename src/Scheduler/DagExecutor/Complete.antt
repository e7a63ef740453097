-- ===== src/Scheduler/DagExecutor/Complete.antt =====
-- DAGExecutor._check_dag_completion, scheduler/dag_executor.py: which jobs a completed DAG has run.
use job_orchestrator.Prelude.{
  ℕ, zero, suc, ◌≤◌, ◌<◌, ◌≡◌, ◌≢◌, refl, sym, ap, subst, ◌∙◌, Bool, true, false, ◌||◌, not, List,
  [], ◌∷◌, arith, inl, inr, Bool-cases, List-cases, All, length, ltb, ◌==◌,
}
use job_orchestrator.Prelude.Ids.{contains, IsNodup, contains-keys, keys-IsNodup, length-keys}
use job_orchestrator.Prelude.Dict
use job_orchestrator.Prelude.Dict.{Dict, IsDict}
use job_orchestrator.Core.Dag.Graph.{IsGraph}
use job_orchestrator.Core.Dag.Sort.Hits.{Nodup-length-le}
use job_orchestrator.Core.Dag.Sort.Correct.{IsAcyclic}
use job_orchestrator.Scheduler.DagExecutor.{
  Workflow, DagStatus, Reason, Execution, Scheduling, Queued, completed, failed, is_job_ready,
  queue_ready, fail_dag, conclude, conclude_unless, check_dag_completion, accounted, total_jobs,
  is_over, jobs_failed,
}
use job_orchestrator.Scheduler.DagExecutor.Loops.{
  IsKeyed, idle, none-queue_ready, queue_ready-none, queue_ready-status,
}
use job_orchestrator.Scheduler.DagExecutor.Sets.{
  is_job_ready_iff, is_placed, cancel_unfinished_frame, note_queued_frame,
}
use job_orchestrator.Scheduler.DagExecutor.Keeps.{IsClosed, conclude-keeps}

-- A DAG whose graph has no cycle.
pub record IsSound (dag : Workflow) : Type 0 where
  pub graph : IsGraph dag.nodes
  pub once : IsDict dag.jobs
  pub keyed : IsKeyed dag
  pub acyclic : IsAcyclic dag.nodes

-- All jobs of the DAG are completed.
abbrev pub IsDone : Execution → Type 0
IsDone e = (k : ℕ) → Dict.has_key k e.dag.nodes ≡ true → contains k e.completed_jobs ≡ true

All-keys : (P : ℕ → Type 0) (ids : List ℕ) (k : ℕ) → contains k ids ≡ true → All P ids → P k
unfolding contains
All-keys P [] k h a = absurd (ground (arith, h))
All-keys P (x ∷ xs) k h a = elim (Bool-cases (x == k)) [
  | inl same ↦ subst P (ground (arith, same)) a.0
  | inr other ↦ All-keys P xs k (ground (arith, h, other)) a.1
]

is_completed : DagStatus → Bool
is_completed completed = true
is_completed _ = false

module _ (e : Execution) (w : IsSound e.dag) where
  module _ (free : (k : ℕ) → contains k e.running_jobs ≡ false)
      (whole : (k : ℕ) → contains k e.failed_jobs ≡ false)
      (kept : (k : ℕ) → contains k e.cancelled_jobs ≡ false) where
    -- Without a cycle, a DAG in which nothing is ready is done.
    unready_done :
        All (λ id. is_job_ready id e ≡ false) (Dict.keys e.dag.jobs)
        → (bound k : ℕ) → w.acyclic.0 k < bound
        → Dict.has_key k e.dag.nodes ≡ true
        → contains k e.completed_jobs ≡ true
    unready_done a zero k h here = absurd (omega (arith, h))
    unready_done a (suc bound) k h here = elim (Bool-cases (contains k e.completed_jobs)) [
      | inl done ↦ done
      | inr open_job ↦
          let listed = contains-keys k e.dag.jobs ∙ w.keyed k ∙ here in
          let waits =
            All-keys (λ id. is_job_ready id e ≡ false) (Dict.keys e.dag.jobs) k listed a in
          let placed : is_placed k e ≡ false = ground (arith, free k, whole k, kept k, open_job) in
          let ready = (is_job_ready_iff k e).1 (
            here,
            placed,
            λ d i.
                unready_done a bound d (omega (arith, h, w.acyclic.1 d k i)) (w.graph.closed d k i),
          ) in
          absurd (ground (arith, waits, ready))
    ]

  -- With as many jobs accounted for as there are, a DAG is done.
  counted-IsDone :
      IsNodup e.completed_jobs
      → ((k : ℕ) → contains k e.completed_jobs ≡ true → Dict.has_key k e.dag.jobs ≡ true)
      → length e.dag.jobs ≤ length e.completed_jobs
      → IsDone e
  counted-IsDone once known full k here = elim (Bool-cases (contains k e.completed_jobs)) [
    | inl done ↦ done
    | inr open_job ↦
        let fit =
          Nodup-length-le (k ∷ e.completed_jobs) (Dict.keys e.dag.jobs) (open_job, once)
            (keys-IsNodup e.dag.jobs w.once)
            (λ x h.
              unfold contains in
              ground (arith, h, here, w.keyed k, known x, contains-keys x e.dag.jobs)) in
        absurd (omega (arith, fit, full, length-keys e.dag.jobs))
  ]

IsDone-IsClosed : IsClosed IsDone
IsDone-IsClosed = record {
  queues = λ id ok e ready d. subst IsDone (sym (note_queued_frame id ok e)) d;
  cancels = λ ids e d. subst IsDone (sym (cancel_unfinished_frame ids e)) d;
  ends = λ status at error e d. d;
}

empty : (ids : List ℕ) → ltb 0 (length ids) ≡ false → ids ≡ []
empty ids h = elim (List-cases ids) [ inl e ↦ e | inr (x, rest, e) ↦ absurd (ground (arith, h, e)) ]

nothing : (ids : List ℕ) → ltb 0 (length ids) ≡ false → (k : ℕ) → contains k ids ≡ false
unfolding contains
nothing ids h k = rw (empty ids h) refl

failed-completed : failed ≢ completed
failed-completed h = unfold is_completed in absurd (ground (arith, ap is_completed h))

module _ {S : Type 0} (sched : Scheduling S) where
  fail_dag-completed :
      (reason : Reason) (now : ℕ) (e : Execution) (s : S)
      → e.status ≢ completed
      → (fail_dag sched reason now e s).0.status ≢ completed
  unfolding fail_dag
  fail_dag-completed reason now e s n = elim (Bool-cases (is_over e.status)) [
    | inl over ↦ rw over n
    | inr active ↦ rw active (λ h. failed-completed (
        sym (ap (λ (r : Execution). r.status) (cancel_unfinished_frame (Dict.keys e.dag.jobs) _))
        ∙ h))
  ]

  -- The status is set to completed only without a failed job.
  conclude-completed :
      (now : ℕ) (e : Execution) (s : S)
      → e.status ≢ completed
      → (conclude sched now e s).0.status ≡ completed
      → ltb 0 (length e.failed_jobs) ≡ false
  unfolding conclude
  conclude-completed now e s n h = elim (Bool-cases (ltb 0 (length e.failed_jobs))) [
    | inr good ↦ good
    | inl bad ↦
        absurd (
          fail_dag-completed (jobs_failed (length e.failed_jobs)) now e s n
            (ground (arith, h, bad)))
  ]

  -- Only `conclude`, after a loop that found nothing, completes a DAG.
  conclude_unless-IsDone :
      (now : ℕ) (r : Queued S)
      → r.execution.status ≢ completed
      → (r.ok ≡ true
          → ltb 0 (length r.queued) ≡ false
          → ltb 0 (length r.execution.failed_jobs) ≡ false
          → IsDone r.execution)
      → (conclude_unless sched now r).execution.status ≡ completed
      → IsDone (conclude_unless sched now r).execution
  unfolding conclude_unless
  conclude_unless-IsDone now r n f h = elim (Bool-cases (not r.ok || ltb 0 (length r.queued))) [
    | inl early ↦ absurd (n (ground (arith, h, early)))
    | inr late ↦
        let whole = conclude-completed now r.execution r.outer n (ground (arith, h, late)) in
        rw late (
          conclude-keeps sched IsDone IsDone-IsClosed now r.execution r.outer
            (f (ground (arith, late)) (ground (arith, late)) whole))
  ]

  -- A loop over all jobs that queues none leaves a DAG that is done.
  quiet-IsDone :
      (e : Execution) (s : S)
      → IsSound e.dag
      → ltb 0 (length e.running_jobs) ≡ false
      → ((k : ℕ) → contains k e.cancelled_jobs ≡ false)
      → let r = queue_ready sched (Dict.keys e.dag.jobs) e s in
        r.ok ≡ true
        → ltb 0 (length r.queued) ≡ false
        → ltb 0 (length r.execution.failed_jobs) ≡ false
        → IsDone r.execution
  quiet-IsDone e s w free kept ok none_queued whole =
      let ids = Dict.keys e.dag.jobs in
      let r = queue_ready sched ids e s in
      let waits = none-queue_ready sched ids e s ok (empty r.queued none_queued) in
      let same = ap (λ (q : Queued S). q.execution) (queue_ready-none sched ids e s waits) in
      let unfailed = subst (λ (f : Execution). ltb 0 (length f.failed_jobs) ≡ false) same whole in
      subst IsDone (sym same) (λ k here.
        unready_done e w (nothing e.running_jobs free) (nothing e.failed_jobs unfailed) kept waits
          (suc (w.acyclic.0 k)) k (omega arith) here)

  -- `_check_dag_completion` sets the status to completed only when every job of the DAG is
  -- completed: for a graph without a cycle that is not yet completed, with no job cancelled, and
  -- with a completed set that holds jobs of the DAG, each once.
  pub check_dag_completion-IsDone :
      (now : ℕ) (e : Execution) (s : S)
      → IsSound e.dag
      → IsNodup e.completed_jobs
      → ((k : ℕ) → contains k e.completed_jobs ≡ true → Dict.has_key k e.dag.jobs ≡ true)
      → e.cancelled_jobs ≡ []
      → e.status ≢ completed
      → (check_dag_completion sched now e s).execution.status ≡ completed
      → IsDone (check_dag_completion sched now e s).execution
  unfolding check_dag_completion
  check_dag_completion-IsDone now e s w once known kept n h =
      let ids = Dict.keys e.dag.jobs in
      let r = queue_ready sched ids e s in
      let uncancelled : (k : ℕ) → contains k e.cancelled_jobs ≡ false =
        λ k. unfold contains in ground (arith, kept) in
      elim (Bool-cases (ltb 0 (length e.running_jobs))) [
        | inl busy ↦ absurd (n (ground (arith, h, busy)))
        | inr free ↦ elim (Bool-cases (ltb (accounted e) (total_jobs e))) [
          | inl short ↦ rw free (
              rw short (
                conclude_unless-IsDone now r (λ t. n (sym (queue_ready-status sched ids e s) ∙ t))
                  (quiet-IsDone e s w free uncancelled) (ground (arith, h, free, short))))
          | inr full ↦ rw free (
              rw full (
                conclude_unless-IsDone now (idle sched e s) n
                  (λ ok none_queued whole.
                    counted-IsDone e w once known
                      (unfold accounted total_jobs in ground (arith, full, whole, kept)))
                  (ground (arith, h, free, full))))
        ]
      ]
