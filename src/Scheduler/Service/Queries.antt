-- ===== src/Scheduler/Service/Queries.antt =====
-- The other methods of class Scheduler, scheduler/scheduler.py: DAGs, the next job, start and stop,
-- and the queries. The state and the start that `submit_dag` writes to a DAG are read nowhere.
use job_orchestrator.Prelude.{
  ℕ, ◌+◌, Bool, true, false, Option, none, some, List, [], ◌∷◌, ◌==◌, ltb, filter, ◌-◌, ◌⊎◌, inl,
  inr, if◌then◌else◌, length,
}
use job_orchestrator.Prelude.Dict
use job_orchestrator.Prelude.Dict.{Dict}
use job_orchestrator.Core.Job.{Job, JobState, pending}
use job_orchestrator.Core.Dag.{Dag}
use job_orchestrator.Core.Dag.Cycles.{validate}
use job_orchestrator.Queue.{Objects, Queue}
use job_orchestrator.Queue
use job_orchestrator.Queue.Wait.{Round, Popped, returned, pop}
use job_orchestrator.Scheduler.JobStore
use job_orchestrator.Scheduler.DagExecutor.{Workflow, Execution, DagStatus, Reason, total_jobs}
use job_orchestrator.Scheduler.DagExecutor
use job_orchestrator.Scheduler.DagExecutor.Methods.{start_dag, get_status}
use job_orchestrator.Scheduler.Service.{
  World, Env, Outcome, Error, next, called, scheduling, while_others, count, done, raise,
  invalid_dag, key_error, job_not_found,
}

-- The objects under their identifiers.
unfoldable pub job_values : {F : Type 0} → Objects F → Dict ℕ → Dict (Job F)
job_values objs [] = []
job_values objs ((id, a) ∷ m) = (id, objs a) ∷ job_values objs m

-- The DAG of class DAG that a workflow is, as `validate` reads it.
unfoldable pub dag_view : {F : Type 0} → Objects F → Workflow → Dag F
unfolding job_values
dag_view objs dag = record {
  nodes = dag.nodes;
  jobs = job_values objs dag.jobs;
  state = pending;
  started_at = none;
  completed_at = none;
  fail_fast = dag.fail_fast;
  max_parallel = none;
  enable_rollback = false;
}

-- Stable, in descending order of a key: an element stands before those with a lower key.
unfoldable pub insert_desc : {A : Type 0} → (A → ℕ) → A → List A → List A
insert_desc key x [] = x ∷ []
insert_desc key x (y ∷ ys) = if ltb (key x) (key y) then y ∷ insert_desc key x ys else x ∷ y ∷ ys

unfoldable pub sort_desc : {A : Type 0} → (A → ℕ) → List A → List A
unfolding insert_desc
sort_desc key [] = []
sort_desc key (x ∷ xs) = insert_desc key x (sort_desc key xs)

unfoldable pub drop : {A : Type 0} → ℕ → List A → List A
drop n [] = []
drop n (x ∷ xs) = let rest = drop (n - 1) xs in if n == 0 then x ∷ xs else rest

unfoldable pub take : {A : Type 0} → ℕ → List A → List A
take n [] = []
take n (x ∷ xs) = let rest = take (n - 1) xs in if n == 0 then [] else x ∷ rest

-- `xs[offset:offset + limit]`
unfoldable pub slice : {A : Type 0} → (limit offset : ℕ) → List A → List A
unfolding drop take
slice limit offset xs = take limit (drop offset xs)

abbrev status_index : DagStatus → ℕ
status_index DagExecutor.pending = 0
status_index DagExecutor.running = 1
status_index DagExecutor.completed = 2
status_index DagExecutor.failed = 3
status_index DagExecutor.cancelled = 4

unfoldable pub same_status : DagStatus → DagStatus → Bool
same_status s t = status_index s == status_index t

pub record DagReport : Type 0 where
  pub status : DagStatus
  pub progress : ℕ × ℕ
  pub started_at : Option ℕ
  pub completed_at : Option ℕ
  pub jobs : List (ℕ × JobState)
  pub completed : ℕ
  pub failed : ℕ
  pub running : ℕ
  pub cancelled : ℕ
  pub total : ℕ
  pub error : Option Reason

module _ {F : Type 0} where
  -- `validate` raises on a problem, or with a KeyError.
  unfoldable pub submit_dag : Env F → (now : ℕ) → Workflow → World F → Outcome F
  unfolding called scheduling count dag_view
  submit_dag env now dag w = elim (validate (dag_view w.objects dag)) [
    | none ↦ raise key_error w
    | some [] ↦
        next (called (start_dag (scheduling env now) now dag w.executor w))
          (λ v. done (count (λ t. record t { dags_submitted = t.dags_submitted + 1 }) v))
    | some (p ∷ ps) ↦ raise invalid_dag w
  ]

  -- It takes the lock of the executor only; `others` is what other threads do between its calls.
  unfoldable pub cancel_dag :
      Env F → (others : World F → World F) → ℕ → (now : ℕ) → World F → Bool × World F
  unfolding scheduling while_others
  cancel_dag env others dag_id now w =
      let sched = while_others others (scheduling env now) in
      let (found, x, v) = DagExecutor.Methods.cancel_dag sched dag_id now w.executor w in
      (found, record v { executor = x })

  -- `get_next_job`, whose `pop` reads the clock in rounds.
  unfoldable pub get_next_job :
      (timeout : Option ℕ) (started : ℕ) → List Round → World F → Popped × World F
  get_next_job timeout started rounds w =
      let (job, q) = pop timeout started rounds w.queue in
      if w.running then (job, record w { queue = q }) else (returned none, w)

  unfoldable pub start : World F → World F
  start w = record w { running = true }

  -- Without the end of the threads.
  unfoldable pub stop : World F → World F
  stop w =
      if w.running then record w { running = false; queue = Queue.Methods.shutdown w.queue } else w

  unfoldable pub get_job_status : ℕ → World F → Error ⊎ JobState
  get_job_status id w = elim (JobStore.get id w.job_store) [
    | none ↦ inl (job_not_found id)
    | some a ↦ inr (w.objects a).state
  ]

  unfoldable pub job_states : Objects F → Dict ℕ → List (ℕ × JobState)
  job_states objs [] = []
  job_states objs ((id, a) ∷ m) = (id, (objs a).state) ∷ job_states objs m

  unfoldable pub report_on : Objects F → Execution → DagReport
  unfolding job_states
  report_on objs e = record {
    status = e.status;
    progress = DagExecutor.progress e;
    started_at = e.started_at;
    completed_at = e.completed_at;
    jobs = job_states objs e.dag.jobs;
    completed = length e.completed_jobs;
    failed = length e.failed_jobs;
    running = length e.running_jobs;
    cancelled = length e.cancelled_jobs;
    total = total_jobs e;
    error = e.error;
  }

  -- None for the answer `not_found`.
  unfoldable pub get_dag_status : ℕ → World F → Option DagReport
  unfolding report_on
  get_dag_status id w = elim (get_status id w.executor) [
    | none ↦ none
    | some e ↦ some (report_on w.objects e)
  ]

  unfoldable pub list_jobs : Option JobState → (limit offset : ℕ) → World F → List ℕ
  unfolding sort_desc slice
  list_jobs state limit offset w =
      let jobs : List ℕ = elim state [
        | none ↦ JobStore.get_all w.job_store
        | some s ↦ JobStore.get_by_state s w.objects w.job_store
      ] in
      slice limit offset (sort_desc (λ a. (w.objects a).created_at) jobs)

  -- An execution that has not started counts as the earliest.
  unfoldable pub list_dags : Option DagStatus → (limit offset : ℕ) → World F → List Execution
  unfolding sort_desc slice same_status
  list_dags status limit offset w =
      let all_of = Dict.values w.executor.active_dags in
      let chosen : List Execution = elim status [
        | none ↦ all_of
        | some s ↦ filter (λ e. same_status e.status s) all_of
      ] in
      let age : Execution → ℕ = λ e. elim e.started_at [ none ↦ 0 | some t ↦ t + 1 ] in
      slice limit offset (sort_desc age chosen)
