-- ===== src/Scheduler/DagExecutor/Sets.antt =====
-- What the loops of class DAGExecutor leave alone, and when a job is ready. The two loops that mark
-- jobs as cancelled change nothing else of an execution.
use job_orchestrator.Prelude.{
  ℕ, ◌≡◌, refl, ap, ◌⊎◌, Bool, true, false, ◌&&◌, not, List, [], ◌∷◌, all, arith, ◌↔◌, Bool-cases,
  Option-cases, inl, inr,
}
use job_orchestrator.Prelude.Ids.{contains, add, contains-add}
use job_orchestrator.Prelude.Dict
use job_orchestrator.Prelude.Dict.{Dict}
use job_orchestrator.Core.Dag.Graph.{ins, ins_of}
use job_orchestrator.Scheduler.DagExecutor.{
  Execution, Scheduling, is_job_ready, node_is_ready, cancel_unfinished, cancel_each, queue_job,
  queue_found, note_queued,
}

-- All dependencies of a job are completed.
abbrev pub IsMet : ℕ → Execution → Type 0
IsMet id e = (d : ℕ) → contains d (ins id e.dag.nodes) ≡ true → contains d e.completed_jobs ≡ true

pub all-contains :
    (done ds : List ℕ)
    → (all (λ d. contains d done) ds ≡ true)
      ↔ ((d : ℕ) → contains d ds ≡ true → contains d done ≡ true)
unfolding contains
all-contains done [] = (λ _ d h. ground (arith, h), λ _. refl)
all-contains done (x ∷ xs) = (
  λ h d i. ground (arith, h, i, (all-contains done xs).0 _ d),
  λ f. ground (arith, f x, (all-contains done xs).1 (λ d i. ground (arith, f d, i))),
)

-- The job is in one of the sets.
abbrev pub is_placed : ℕ → Execution → Bool
is_placed id e = not (
    not (contains id e.running_jobs)
    && not (contains id e.completed_jobs)
    && not (contains id e.failed_jobs)
    && not (contains id e.cancelled_jobs))

-- A job is ready exactly when it is a job of the DAG in none of the sets, and all its dependencies
-- are completed.
pub is_job_ready_iff :
    (id : ℕ) (e : Execution)
    → (is_job_ready id e ≡ true)
      ↔ ((Dict.has_key id e.dag.nodes ≡ true) × (is_placed id e ≡ false) × IsMet id e)
unfolding is_job_ready node_is_ready ins_of
is_job_ready_iff id e = elim (Option-cases (Dict.lookup id e.dag.nodes)) [
  | inl absent ↦
      (λ h. absurd (ground (arith, h, absent)), λ h. absurd (ground (arith, h.0, absent)))
  | inr (node, found) ↦ (
    λ h. (
      ground (arith, found),
      ground (arith, h, found),
      λ d i. ground (arith, h, found, i, (all-contains e.completed_jobs node.dependencies).0 _ d),
    ),
    λ h. ground (
      arith,
      found,
      h.1,
      (all-contains e.completed_jobs node.dependencies).1 (λ d i. ground (arith, h.2 d, found, i)),
    ),
  )
]

pub cancel_unfinished_frame :
    (ids : List ℕ) (e : Execution)
    → cancel_unfinished ids e
      ≡ record e { cancelled_jobs = (cancel_unfinished ids e).cancelled_jobs }
unfolding cancel_unfinished
cancel_unfinished_frame [] e = refl
cancel_unfinished_frame (id ∷ ids) e =
    let marked =
      cancel_unfinished_frame ids (record e { cancelled_jobs = add id e.cancelled_jobs }) in
    let kept = cancel_unfinished_frame ids e in
    elim (Bool-cases (not (contains id e.completed_jobs) && not (contains id e.failed_jobs))) [
      | inl left ↦ rw left marked
      | inr done ↦ rw done kept
    ]

-- `cancel_dag` marks the same jobs as a DAG that fails.
pub cancel_each-cancel_unfinished :
    {S : Type 0} (sched : Scheduling S) (ids : List ℕ) (e : Execution) (s : S)
    → (cancel_each sched ids e s).0 ≡ cancel_unfinished ids e
unfolding cancel_unfinished cancel_each
cancel_each-cancel_unfinished sched [] e s = refl
cancel_each-cancel_unfinished sched (id ∷ ids) e s =
    let marked =
      cancel_each-cancel_unfinished sched ids
        (record e { cancelled_jobs = add id e.cancelled_jobs }) (sched.cancel_job id s) in
    let kept = cancel_each-cancel_unfinished sched ids e s in
    elim (Bool-cases (not (contains id e.completed_jobs) && not (contains id e.failed_jobs))) [
      | inl left ↦ rw left marked
      | inr done ↦ rw done kept
    ]

-- Exactly the jobs of the list that are neither completed nor failed are marked.
pub contains-cancel_unfinished :
    (a : ℕ) (ids : List ℕ) (e : Execution)
    → (contains a (cancel_unfinished ids e).cancelled_jobs ≡ true) ↔ (
        ((contains a ids && not (contains a e.completed_jobs) && not (contains a e.failed_jobs))
          ≡ true)
        ⊎ (contains a e.cancelled_jobs ≡ true))
unfolding cancel_unfinished contains
contains-cancel_unfinished a [] e = ground arith
contains-cancel_unfinished a (id ∷ ids) e = ground (
  arith,
  contains-cancel_unfinished a ids e,
  contains-cancel_unfinished a ids (record e { cancelled_jobs = add id e.cancelled_jobs }),
  contains-add a id e.cancelled_jobs,
)

pub note_queued_frame :
    (id : ℕ) (ok : Bool) (e : Execution)
    → note_queued id ok e ≡ record e {
      running_jobs = (note_queued id ok e).running_jobs;
      failed_jobs = (note_queued id ok e).failed_jobs;
    }
unfolding note_queued
note_queued_frame id true e = refl
note_queued_frame id false e = refl

-- Queueing a job changes the sets of running and of failed jobs only.
pub queue_job_frame :
    {S : Type 0} (sched : Scheduling S) (id : ℕ) (e : Execution) (s : S)
    → let r = (queue_job sched id e s).execution in
      r ≡ record e { running_jobs = r.running_jobs; failed_jobs = r.failed_jobs }
unfolding queue_job queue_found
queue_job_frame sched id e s = elim (Option-cases (Dict.lookup id e.dag.jobs)) [
  | inl absent ↦ rw absent refl
  | inr (address, found) ↦ rw found (note_queued_frame id (sched.submit address s).0 e)
]

pub dag-queue_job :
    {S : Type 0} (sched : Scheduling S) (id : ℕ) (e : Execution) (s : S)
    → (queue_job sched id e s).execution.dag ≡ e.dag
dag-queue_job sched id e s = ap (λ (r : Execution). r.dag) (queue_job_frame sched id e s)
