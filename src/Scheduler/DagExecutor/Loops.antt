-- ===== src/Scheduler/DagExecutor/Loops.antt =====
-- The loop of class DAGExecutor, scheduler/dag_executor.py, that queues the ready jobs of a list.
use job_orchestrator.Prelude.{
  ℕ, ◌≡◌, refl, sym, ap, subst, ◌∙◌, true, false, List, [], ◌∷◌, arith, inl, inr, Bool-cases,
  Option-cases, All, length, ltb,
}
use job_orchestrator.Prelude.Ids.{contains, add}
use job_orchestrator.Prelude.Dict
use job_orchestrator.Scheduler.DagExecutor.{
  Workflow, Execution, Scheduling, Queued, is_job_ready, queue_found, queue_job, queue_ready,
  note_queued,
}
use job_orchestrator.Scheduler.DagExecutor.Sets.{queue_job_frame, dag-queue_job, is_job_ready_iff}

-- The dictionary of jobs has the keys of that of nodes.
abbrev pub IsKeyed : Workflow → Type 0
IsKeyed dag = (k : ℕ) → Dict.has_key k dag.jobs ≡ Dict.has_key k dag.nodes

add_nonempty : (id : ℕ) (ids : List ℕ) → ltb 0 (length (add id ids)) ≡ true
unfolding add contains
add_nonempty id [] = ground arith
add_nonempty id (x ∷ xs) = ground arith

module _ {S : Type 0} (sched : Scheduling S) where
  -- What the loop leaves when nothing is ready.
  abbrev pub idle : Execution → S → Queued S
  idle e s = record { ok = true; queued = []; execution = e; outer = s }

  -- Without a ready job the loop does nothing.
  pub queue_ready-none :
      (ids : List ℕ) (e : Execution) (s : S)
      → All (λ id. is_job_ready id e ≡ false) ids
      → queue_ready sched ids e s ≡ idle e s
  unfolding queue_ready
  queue_ready-none [] e s a = refl
  queue_ready-none (id ∷ ids) e s a = rw a.0 (queue_ready-none ids e s a.1)

  -- A loop that ends well without a queued job found no job ready.
  pub none-queue_ready :
      (ids : List ℕ) (e : Execution) (s : S)
      → (queue_ready sched ids e s).ok ≡ true
      → (queue_ready sched ids e s).queued ≡ []
      → All (λ id. is_job_ready id e ≡ false) ids
  unfolding queue_ready
  none-queue_ready [] e s h n = tt
  none-queue_ready (id ∷ ids) e s h n = elim (Bool-cases (is_job_ready id e)) [
    | inr waits ↦
        (waits, none-queue_ready ids e s (ground (arith, h, waits)) (ground (arith, n, waits)))
    | inl ready ↦ absurd (ground (arith, h, n, ready))
  ]

  -- The status is not changed.
  pub queue_ready-status :
      (ids : List ℕ) (e : Execution) (s : S)
      → (queue_ready sched ids e s).execution.status ≡ e.status
  unfolding queue_ready
  queue_ready-status [] e s = refl
  queue_ready-status (id ∷ ids) e s =
      let first = queue_job sched id e s in
      let step : first.execution.status ≡ e.status =
        ap (λ (r : Execution). r.status) (queue_job_frame sched id e s) in
      let rest : (queue_ready sched ids first.execution first.outer).execution.status ≡ e.status =
        queue_ready-status ids first.execution first.outer ∙ step in
      let skip = queue_ready-status ids e s in
      elim (Bool-cases (is_job_ready id e)) [
        | inr waits ↦ rw waits skip
        | inl ready ↦ elim (Bool-cases first.ok) [
          | inl ok ↦ rw ready (rw ok rest)
          | inr error ↦ rw ready (rw error step)
        ]
      ]

  module _ (accepts : (a : ℕ) (s : S) → (sched.submit a s).0 ≡ true) where
    -- An accepted job of the DAG is in the set of running jobs.
    pub queue_job-accepted :
        (id : ℕ) (e : Execution) (s : S)
        → Dict.has_key id e.dag.jobs ≡ true
        → ((queue_job sched id e s).ok ≡ true)
          × ((queue_job sched id e s).execution ≡ record e { running_jobs = add id e.running_jobs })
    unfolding queue_job queue_found note_queued
    queue_job-accepted id e s here = elim (Option-cases (Dict.lookup id e.dag.jobs)) [
      | inl absent ↦ absurd (ground (arith, here, absent))
      | inr (address, found) ↦ rw found (refl, rw (accepts address s, note_queued) refl)
    ]

    -- If every job is accepted, the loop ends well, running jobs stay, and with a job queued there
    -- are some.
    pub queue_ready-accepted :
        (ids : List ℕ) (e : Execution) (s : S)
        → IsKeyed e.dag
        → let r = queue_ready sched ids e s in
          (r.ok ≡ true)
          × (ltb 0 (length e.running_jobs) ≡ true → ltb 0 (length r.execution.running_jobs) ≡ true)
          × (ltb 0 (length r.queued) ≡ true → ltb 0 (length r.execution.running_jobs) ≡ true)
    unfolding queue_ready
    queue_ready-accepted [] e s k = (refl, λ h. h, λ h. absurd (ground (arith, h)))
    queue_ready-accepted (id ∷ ids) e s k =
        let first = queue_job sched id e s in
        let skip = queue_ready-accepted ids e s k in
        elim (Bool-cases (is_job_ready id e)) [
          | inr waits ↦ rw waits skip
          | inl ready ↦
              let here = k id ∙ ((is_job_ready_iff id e).0 ready).0 in
              let (ok, noted) = queue_job-accepted id e s here in
              let busy : ltb 0 (length first.execution.running_jobs) ≡ true =
                subst (λ (r : Execution). ltb 0 (length r.running_jobs) ≡ true) (sym noted)
                  (add_nonempty id e.running_jobs) in
              let rest =
                queue_ready-accepted ids first.execution first.outer
                  (subst IsKeyed (sym (dag-queue_job sched id e s)) k) in
              rw ready (rw ok (rest.0, λ _. rest.1 busy, λ _. rest.1 busy))
        ]
