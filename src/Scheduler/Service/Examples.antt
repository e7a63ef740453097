-- ===== src/Scheduler/Service/Examples.antt =====
-- A scheduler with one job, and the theorems on class Scheduler and class JobRunner at it.
use job_orchestrator.Prelude.{
  arith, List, ℕ, ◌+◌, ◌≡◌, ◌↔◌, refl, true, false, [], ◌∷◌, none, some, ltb,
}
use job_orchestrator.Prelude.Dict
use job_orchestrator.Samples.{sample}
use job_orchestrator.Core.Job.{Job, normal, scheduled, running, completed, cancelled, in_states}
use job_orchestrator.Core.State.{can_transition, invalid_transition}
use job_orchestrator.Queue
use job_orchestrator.Queue.{Objects, assign, is_queued, size, is_full}
use job_orchestrator.Scheduler.Retry.{Floats, should_retry, policy_allows, get_policy_for_job}
use job_orchestrator.Scheduler.Dlq
use job_orchestrator.Scheduler.JobStore
use job_orchestrator.Scheduler.DagExecutor
use job_orchestrator.Scheduler.DagExecutor.Methods.{get_dag_for_job}
use job_orchestrator.Scheduler.Runner.{Ran, finished, threw, report}
use job_orchestrator.Scheduler.Runner
use job_orchestrator.Scheduler.Runner.Runs.{state_at_call, run_lem}
use job_orchestrator.Scheduler.Service.{
  World, Env, Draw, new, submit, cancel_job, complete_job, fail_job, illegal, job_not_found,
  overflow_error,
}
use job_orchestrator.Scheduler.Service.Submit.{is_admitted, submit_lem}
use job_orchestrator.Scheduler.Service.Cancel.{waiting, cancel_job_lem}
use job_orchestrator.Scheduler.DagExecutor.{Workflow}
use job_orchestrator.Scheduler.DagExecutor.Order.{IsNamed}
use job_orchestrator.Scheduler.Service.Run.{moving, telling_complete}
use job_orchestrator.Scheduler.Service.Calls.{
  Call, starting, submitting_dag, stepping, submitting, cancelling, failing, run,
}
use job_orchestrator.Scheduler.Service.System.{IsWithin, run-IsWithin}
use job_orchestrator.Scheduler.Service.Ended.{complete_job_lem, fail_job_lem}
use job_orchestrator.Scheduler.Service.Steps.{retried, noted, dead, retry_time}

abbrev whole : Floats ℕ
whole = record {
  nought = 0;
  half = 0;
  add = λ a b. a + b;
  mul = λ a b. a;
  pow = λ a n. some a;
  lt = λ a b. ltb a b;
  later = λ now d. some (now + d);
}

abbrev env : Env ℕ
env = record {
  floats = whole;
  isinstance = λ e es. true;
  text_of = λ e. e;
  kind_of = λ e. 0;
  max_size = some 2;
}

-- The job at address `a` has the identifier `a + 1`.
abbrev jobs : Objects ℕ
jobs a = sample (a + 1) normal none 0

abbrev empty : World ℕ
empty = new env jobs none none

-- Job 1 runs, and is known to the store.
abbrev busy : World ℕ
busy = record empty {
  objects = λ a. record (sample (a + 1) normal none 0) { state = running };
  job_store = (1, 0) ∷ [];
}

empty_limit : empty.queue.max_size ≡ (Queue.new (some 2) none).max_size
unfolding new
empty_limit = refl

submit_lem_example :
    let o = submit env 0 empty in
    ((o.raised ≡ none)
      ↔ ((is_admitted env 0 empty ≡ true) × (can_transition (jobs 0).state scheduled ≡ true)))
    × (o.raised ≡ none
        → (o.state.objects 0 ≡ record (empty.objects 0) { state = scheduled })
          × (JobStore.get (empty.objects 0).id o.state.job_store ≡ some 0)
          × (is_queued (empty.objects 0).id o.state.queue ≡ true)
          × (o.state.stats.jobs_submitted ≡ empty.stats.jobs_submitted + 1))
    × (is_admitted env 0 empty ≡ false → o.state ≡ empty)
    × (is_admitted env 0 empty ≡ true
        → can_transition (empty.objects 0).state scheduled ≡ false
        → (o.raised
            ≡ some (
                illegal
                  (invalid_transition (empty.objects 0).id (empty.objects 0).state scheduled)))
          × (JobStore.get (empty.objects 0).id o.state.job_store ≡ some 0)
          × (o.state.queue ≡ empty.queue))
unfolding new
submit_lem_example = submit_lem env 0 empty empty_limit

cancel_job_lem_example :
    let r = cancel_job 1 9 busy in
    (JobStore.get 1 busy.job_store ≡ none
      → (r.1.raised ≡ some (job_not_found 1)) × (r.1.state ≡ busy))
    × ((a : ℕ)
        → JobStore.get 1 busy.job_store ≡ some a
        → in_states (busy.objects a).state waiting ≡ false
        → (r.0 ≡ false) × (r.1.raised ≡ none) × (r.1.state ≡ busy))
    × ((a : ℕ)
        → JobStore.get 1 busy.job_store ≡ some a
        → in_states (busy.objects a).state waiting ≡ true
        → (r.0 ≡ true)
          × (r.1.raised ≡ none)
          × (r.1.state.objects a
              ≡ record (busy.objects a) { state = cancelled; completed_at = some 9 })
          × (is_queued 1 r.1.state.queue ≡ false)
          × (r.1.state.executor ≡ busy.executor))
cancel_job_lem_example = cancel_job_lem 1 9 busy

complete_job_lem_example :
    let o = complete_job env 1 (some 5) 9 busy in
    (JobStore.get 1 busy.job_store ≡ none → (o.raised ≡ some (job_not_found 1)) × (o.state ≡ busy))
    × ((a : ℕ)
        → JobStore.get 1 busy.job_store ≡ some a
        → (busy.objects a).state ≡ running
        → get_dag_for_job 1 busy.executor ≡ none
        → (o.raised ≡ none)
          × (o.state.objects a ≡ record (busy.objects a) {
            state = completed;
            result = some 5;
            completed_at = some 9;
          })
          × (o.state.stats.jobs_completed ≡ busy.stats.jobs_completed + 1))
    × ((a : ℕ)
        → JobStore.get 1 busy.job_store ≡ some a
        → can_transition (busy.objects a).state completed ≡ false
        → (o.raised
            ≡ some
                (illegal (invalid_transition (busy.objects a).id (busy.objects a).state completed)))
          × (o.state ≡ record busy {
            objects =
                assign busy.objects a
                  (record (busy.objects a) { result = some 5; completed_at = some 9 });
          }))
complete_job_lem_example = complete_job_lem env 1 busy (some 5) 9

busy_stored : JobStore.get 1 busy.job_store ≡ some 0
unfolding JobStore.get Dict.lookup
busy_stored = refl

busy_alone : get_dag_for_job 1 busy.executor ≡ none
unfolding get_dag_for_job Dict.lookup new DagExecutor.new
busy_alone = refl

abbrev draw : Draw ℕ
draw = record { random = 0; now = 9; later = 9; fresh = 100 }

fail_job_lem_example :
    let o = fail_job env 1 7 8 draw busy in
    let job = busy.objects 0 in
    let retry = should_retry env.floats env.isinstance job (some 7) in
    (retry ≡ true
      → retry_time env 0 9 job ≡ none
      → (o.raised ≡ some overflow_error)
        × (o.state ≡ record busy { objects = assign busy.objects 0 (noted env 7 8 job) }))
    × (retry ≡ true
        → (due : ℕ) → retry_time env 0 9 job ≡ some due
        → (o.raised ≡ none)
          × (o.state.objects 0 ≡ retried env due job)
          × (o.state.dlq ≡ busy.dlq)
          × (is_full busy.queue ≡ false → is_queued job.id o.state.queue ≡ true)
          × (is_full busy.queue ≡ true → o.state.queue ≡ busy.queue))
    × (retry ≡ false
        → (o.raised ≡ none)
          × (o.state.objects 0 ≡ dead env 7 8 9 job)
          × (o.state.dlq ≡ Dlq.add env.kind_of 100 (dead env 7 8 9 job) (some 7) none 9 9 busy.dlq)
          × (o.state.queue ≡ busy.queue)
          × (o.state.stats.jobs_sent_to_dlq ≡ busy.stats.jobs_sent_to_dlq + 1))
fail_job_lem_example = fail_job_lem env 1 busy 0 7 8 draw busy_stored refl busy_alone

-- The job of the sample has retries left, and the queue has room.
busy_retries : should_retry whole (λ e es. true) (busy.objects 0) (some 7) ≡ true
unfolding should_retry policy_allows get_policy_for_job
busy_retries = refl

-- A function that raises, and counts its calls.
abbrev raising : Job ℕ → ℕ → Ran × ℕ
raising job calls = (threw 7 8, calls + 1)

run_lem_example :
    let r = Runner.run raising (λ e. (0, 0)) 3 4 0 busy 0 in
    let called = record (busy.objects 0) { state = state_at_call running; started_at = some 3 } in
    (r.0 ≡ report 1 3 4 (threw 7 8)) × (r.1.objects 0 ≡ called) × (r.2 ≡ 1)
run_lem_example = run_lem 0 raising (λ e. (0, 0)) 3 4 busy 0

-- Job 2 waits for job 1.
abbrev pair : Workflow
pair = record {
  id = 7;
  nodes =
      (1, record { job_id = 1; dependencies = []; dependents = 2 ∷ [] })
      ∷ (2, record { job_id = 2; dependencies = 1 ∷ []; dependents = [] })
      ∷ [];
  jobs = (1, 0) ∷ (2, 1) ∷ [];
  fail_fast = true;
}

pair-IsNamed : IsNamed pair
unfolding Dict.lookup
pair-IsNamed = record { once = (refl, (refl, tt)); named = λ k. ground arith }

-- A DAG of two jobs, its first job run on the spot while a third one is submitted, and later cancelled.
abbrev session : List (Call ℕ)
session =
    starting
    ∷ submitting_dag 1 pair
    ∷ stepping 0 (moving running)
    ∷ submitting 2
    ∷ stepping 0 (moving completed)
    ∷ stepping 0 (telling_complete (λ w. w) 1 3)
    ∷ cancelling 3 4
    ∷ failing 2 7 8 draw
    ∷ []

run-IsWithin_example :
    IsWithin (Queue.new (some 2) none).max_size (run env session (new env jobs none none))
run-IsWithin_example =
    run-IsWithin env jobs none none session
      (tt, (pair-IsNamed, (tt, (tt, (tt, ((λ w h. h), (tt, (tt, tt))))))))
