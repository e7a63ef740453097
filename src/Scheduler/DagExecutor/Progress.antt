-- ===== src/Scheduler/DagExecutor/Progress.antt =====
-- class DAGExecutor, scheduler/dag_executor.py: while the scheduler accepts every job, a DAG does
-- not stall.
use job_orchestrator.Prelude.{
  ℕ, ◌≡◌, refl, sym, ap, subst, ◌∙◌, Bool, true, false, arith, ◌⊎◌, inl, inr, Bool-cases, either,
  List, [], ◌∷◌, ◌==◌, ==_iff, length, ltb,
}
use job_orchestrator.Prelude.Ids.{contains, contains-add, contains-discard}
use job_orchestrator.Prelude.Dict
use job_orchestrator.Prelude.Dict.{Dict}
use job_orchestrator.Scheduler.DagExecutor.{
  DagStatus, Reason, Execution, Scheduling, Queued, pending, running, completed, failed, cancelled,
  note_queued, queue_ready, fail_dag, conclude, conclude_unless, check_dag_completion, accounted,
  total_jobs, mark_complete, mark_failed, dependents_of, complete_in, fail_in, is_over, jobs_failed,
  job_failed, is_job_ready,
}
use job_orchestrator.Scheduler.DagExecutor.Keeps.{
  IsClosed, queue_ready-keeps, complete_in-keeps, fail_in-keeps,
}
use job_orchestrator.Scheduler.DagExecutor.Loops.{IsKeyed, idle, queue_ready-accepted}
use job_orchestrator.Scheduler.DagExecutor.Sets.{cancel_unfinished_frame, is_job_ready_iff}

-- The DAG has come to an end.
unfoldable pub is_finished : DagStatus → Bool
is_finished pending = false
is_finished running = false
is_finished completed = true
is_finished failed = true
is_finished cancelled = true

-- The running set is not empty, or the DAG has come to an end.
abbrev IsMoving : Execution → Type 0
IsMoving e = (ltb 0 (length e.running_jobs) ≡ true) ⊎ (is_finished e.status ≡ true)

-- A job of the DAG whose end has not been reported.
abbrev pub IsOpen : ℕ → Execution → Type 0
IsOpen k e =
    (Dict.has_key k e.dag.nodes ≡ true)
    × (contains k e.completed_jobs ≡ false)
    × (contains k e.failed_jobs ≡ false)

-- The running set holds such jobs only.
abbrev pub IsTracked : Execution → Type 0
IsTracked e = (k : ℕ) → contains k e.running_jobs ≡ true → IsOpen k e

-- An open job runs, or the DAG has come to an end.
abbrev pub IsLive : Execution → Type 0
IsLive e =
    ((k : ℕ) × ((contains k e.running_jobs ≡ true) × IsOpen k e)) ⊎ (is_finished e.status ≡ true)

first_contained : (xs : List ℕ) → ltb 0 (length xs) ≡ true → (k : ℕ) × (contains k xs ≡ true)
unfolding contains
first_contained [] h = absurd (ground (arith, h))
first_contained (x ∷ xs) h = (x, ground arith)

moving-IsLive : (e : Execution) → IsTracked e → IsMoving e → IsLive e
moving-IsLive e t (inl busy) =
    let (k, runs) = first_contained e.running_jobs busy in inl (k, (runs, t k runs))
moving-IsLive e t (inr over) = inr over

mark_complete-IsTracked : (id : ℕ) (e : Execution) → IsTracked e → IsTracked (mark_complete id e)
unfolding mark_complete
mark_complete-IsTracked id e t k h =
    let stays = contains-discard k id e.running_jobs in
    let old = t k (ground (arith, h, stays)) in
    (old.0, ground (arith, old.1, h, stays, contains-add k id e.completed_jobs), old.2)

mark_failed-IsTracked : (id : ℕ) (e : Execution) → IsTracked e → IsTracked (mark_failed id e)
unfolding mark_failed
mark_failed-IsTracked id e t k h =
    let stays = contains-discard k id e.running_jobs in
    let old = t k (ground (arith, h, stays)) in
    (old.0, old.1, ground (arith, old.2, h, stays, contains-add k id e.failed_jobs))

-- A job that is ready is open, and in no set.
note_queued-IsTracked :
    (id : ℕ) (ok : Bool) (e : Execution)
    → is_job_ready id e ≡ true
    → IsTracked e
    → IsTracked (note_queued id ok e)
unfolding note_queued
note_queued-IsTracked id true e ready t k h =
    let (known, placed, met) = (is_job_ready_iff id e).0 ready in
    elim (Bool-cases (id == k)) [
      | inl same ↦
          let e' = (==_iff id k).0 same in
          (
            subst (λ j. Dict.has_key j e.dag.nodes ≡ true) e' known,
            subst (λ j. contains j e.completed_jobs ≡ false) e' (ground (arith, placed)),
            subst (λ j. contains j e.failed_jobs ≡ false) e' (ground (arith, placed)),
          )
      | inr other ↦ t k (ground (arith, h, other, contains-add k id e.running_jobs))
    ]
note_queued-IsTracked id false e ready t k h =
    let (known, placed, met) = (is_job_ready_iff id e).0 ready in
    let old = t k h in
    let apart : (id == k) ≡ false = elim (Bool-cases (id == k)) [
      | inr other ↦ other
      | inl same ↦
          let here = subst (λ j. contains j e.running_jobs ≡ true) (sym ((==_iff id k).0 same)) h in
          absurd (ground (arith, placed, here))
    ] in
    (old.0, old.1, ground (arith, old.2, apart, contains-add k id e.failed_jobs))

IsTracked-IsClosed : IsClosed IsTracked
IsTracked-IsClosed = record {
  queues = note_queued-IsTracked;
  cancels = λ ids e t. subst IsTracked (sym (cancel_unfinished_frame ids e)) t;
  ends = λ status at error e t. t;
}

note_queued-dag : (id : ℕ) (ok : Bool) (e : Execution) → (note_queued id ok e).dag ≡ e.dag
unfolding note_queued
note_queued-dag id true e = refl
note_queued-dag id false e = refl

pub IsKeyed-IsClosed : IsClosed (λ e. IsKeyed e.dag)
IsKeyed-IsClosed = record {
  queues = λ id ok e ready k. subst IsKeyed (sym (note_queued-dag id ok e)) k;
  cancels =
      λ ids e k. subst (λ (r : Execution). IsKeyed r.dag) (sym (cancel_unfinished_frame ids e)) k;
  ends = λ status at error e k. k;
}

over-finished : (status : DagStatus) → is_over status ≡ true → is_finished status ≡ true
unfolding is_over is_finished
over-finished status h = ground (arith, h)

module _ {S : Type 0} (sched : Scheduling S) where
  pub fail_dag-finished :
      (reason : Reason) (now : ℕ) (e : Execution) (s : S)
      → is_finished (fail_dag sched reason now e s).0.status ≡ true
  unfolding fail_dag
  fail_dag-finished reason now e s = elim (Bool-cases (is_over e.status)) [
    | inl over ↦ rw over (over-finished e.status over)
    | inr active ↦ rw active (
        ap (λ (r : Execution). is_finished r.status)
          (cancel_unfinished_frame (Dict.keys e.dag.jobs) _)
        ∙ (unfold is_finished in refl))
  ]

  conclude-finished :
      (now : ℕ) (e : Execution) (s : S) → is_finished (conclude sched now e s).0.status ≡ true
  unfolding conclude
  conclude-finished now e s = elim (Bool-cases (ltb 0 (length e.failed_jobs))) [
    | inl bad ↦ rw bad (fail_dag-finished (jobs_failed (length e.failed_jobs)) now e s)
    | inr good ↦ rw good (unfold is_finished in refl)
  ]

  conclude_unless-IsMoving :
      (now : ℕ) (r : Queued S)
      → r.ok ≡ true
      → (ltb 0 (length r.queued) ≡ true → ltb 0 (length r.execution.running_jobs) ≡ true)
      → let r' = conclude_unless sched now r in (r'.ok ≡ true) × IsMoving r'.execution
  unfolding conclude_unless
  conclude_unless-IsMoving now r ok busy = elim (Bool-cases (ltb 0 (length r.queued))) [
    | inl more ↦ rw ok (rw more (refl, inl (busy more)))
    | inr none_left ↦ rw ok (rw none_left (refl, inr (conclude-finished now r.execution r.outer)))
  ]

  module _ (accepts : (a : ℕ) (s : S) → (sched.submit a s).0 ≡ true) where
    check-IsMoving :
        (now : ℕ) (e : Execution) (s : S)
        → IsKeyed e.dag
        → let r = check_dag_completion sched now e s in (r.ok ≡ true) × IsMoving r.execution
    unfolding check_dag_completion
    check-IsMoving now e s k =
        let r = queue_ready sched (Dict.keys e.dag.jobs) e s in
        let (ok, stays, more) = queue_ready-accepted sched accepts (Dict.keys e.dag.jobs) e s k in
        elim (Bool-cases (ltb 0 (length e.running_jobs))) [
          | inl busy ↦ rw busy (refl, inl busy)
          | inr free ↦ elim (Bool-cases (ltb (accounted e) (total_jobs e))) [
            | inl short ↦ rw free (rw short (conclude_unless-IsMoving now r ok more))
            | inr full ↦ rw free (
                rw full (
                  conclude_unless-IsMoving now (idle sched e s) refl
                    (λ h. absurd (ground (arith, h)))))
          ]
        ]

    reports-IsMoving :
        (id error now : ℕ) (e : Execution) (s : S)
        → IsKeyed e.dag
        → let r = complete_in sched id now e s in
          let f = fail_in sched id error now e s in
          ((r.ok ≡ true) × IsMoving r.execution) × ((f.ok ≡ true) × IsMoving f.execution)
    unfolding complete_in fail_in
    reports-IsMoving id error now e s k =
        let ids = dependents_of (Dict.lookup id e.dag.nodes) in
        let marked : IsKeyed (mark_complete id e).dag = unfold mark_complete in k in
        let r = queue_ready sched ids (mark_complete id e) s in
        let (ok, stays, more) =
          queue_ready-accepted sched accepts ids (mark_complete id e) s marked in
        let keyed =
          queue_ready-keeps sched (λ e. IsKeyed e.dag) IsKeyed-IsClosed ids (mark_complete id e) s
            marked in
        let checked = check-IsMoving now r.execution r.outer keyed in
        let slow = check-IsMoving now (mark_failed id e) s (unfold mark_failed in k) in
        (
          rw ok checked,
          either (λ (q : Queued S). (q.ok ≡ true) × IsMoving q.execution) e.dag.fail_fast _ _
              (refl, inr (fail_dag-finished (job_failed id error) now (mark_failed id e) s)) slow,
        )

    -- If the scheduler accepts every job, then after each report on a job of a DAG whose
    -- dictionaries of nodes and of jobs have the same keys, and whose running set holds only jobs of
    -- the DAG that are neither completed nor failed, no KeyError is raised, the running set holds
    -- only such jobs again, and there is one of them in it, or the DAG is completed, failed or
    -- cancelled.
    pub reports-progress :
        (id error now : ℕ) (e : Execution) (s : S)
        → IsKeyed e.dag
        → IsTracked e
        → let r = complete_in sched id now e s in
          let f = fail_in sched id error now e s in
          ((r.ok ≡ true) × IsTracked r.execution × IsLive r.execution)
          × ((f.ok ≡ true) × IsTracked f.execution × IsLive f.execution)
    reports-progress id error now e s k t =
        let ((ok, r_moves), (fine, f_moves)) = reports-IsMoving id error now e s k in
        let r =
          complete_in-keeps sched IsTracked IsTracked-IsClosed id now e s
            (mark_complete-IsTracked id e t) in
        let f =
          fail_in-keeps sched IsTracked IsTracked-IsClosed id error now e s
            (mark_failed-IsTracked id e t) in
        (
          (ok, r, moving-IsLive (complete_in sched id now e s).execution r r_moves),
          (fine, f, moving-IsLive (fail_in sched id error now e s).execution f f_moves),
        )
