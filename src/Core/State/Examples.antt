-- ===== src/Core/State/Examples.antt =====
-- Runs of core/state.py on small inputs, and its theorems at them.
use job_orchestrator.Prelude.{
  ℕ, ◌+◌, ◌≡◌, ◌≢◌, ◌↔◌, refl, Bool, true, false, none, some, List, [], ◌∷◌, In,
}
use job_orchestrator.Core.Job.{
  JobState, pending, scheduled, running, completed, normal, Job, RetryPolicy, same_state,
}
use job_orchestrator.Core.State.{
  StateMachine, transition_call, state_call, Outside, invalid_transition, new, set_job_store,
  can_transition, transition, execute_hooks, run_hooks, register_state_hook,
  register_transition_hook, register_global_hook,
}
use job_orchestrator.Core.State.Transitions.{save_fails, transition_atomic}
use job_orchestrator.Core.State.Runs.{Request, IsPath, drive, drive-IsPath, completed_needs_running}

abbrev policy : RetryPolicy ℕ
policy = record {
  max_retries = 3;
  base_delay = 1;
  max_delay = 300;
  exponential_base = 2;
  jitter = false;
  retry_on = 0 ∷ [];
}

abbrev job : Job ℕ
job = record {
  id = 7;
  priority = normal;
  scheduled_at = none;
  state = pending;
  attempt = 0;
  depends_on = [];
  retry_policy = policy;
  retry_count = 0;
  created_at = 100;
  started_at = none;
  completed_at = none;
  result = none;
  error = none;
  traceback = none;
}

-- Every callback raises, and the store counts the writes; it refuses a job that runs.
abbrev refuses : JobState → Bool
refuses running = true
refuses _ = false

abbrev outside : Outside ℕ ℕ
outside = record { run_hook = λ c j. (j, true); update = λ j writes. (writes + 1, refuses j.state) }

machine : StateMachine
unfolding new set_job_store register_global_hook register_state_hook register_transition_hook
    same_state
machine =
    register_state_hook
      (register_transition_hook (register_global_hook (set_job_store new) 1) pending scheduled 2)
      scheduled 3

transition_atomic_example :
    let o = transition outside machine true true job scheduled 0 in
    let moved = record job { state = scheduled } in
    ((o.raised ≡ none) ↔ (
      (can_transition job.state scheduled ≡ true)
      × (save_fails outside machine true job scheduled 0 ≡ false)))
    × (o.raised ≡ none
        → true ≡ true
        → (o.job ≡ (execute_hooks outside machine moved job.state scheduled).job)
          × (o.calls ≡ (execute_hooks outside machine moved job.state scheduled).calls))
    × (o.raised ≡ none → true ≡ false → (o.job ≡ moved) × (o.calls ≡ []))
    × (o.raised ≢ none → (o.job ≡ job) × (o.calls ≡ []))
    × (can_transition job.state scheduled ≡ false
        → (o.raised ≡ some (invalid_transition job.id job.state scheduled)) × (o.store ≡ 0))
transition_atomic_example = transition_atomic outside machine true true job scheduled 0

-- The write of the running state raises, so the job stays scheduled, and the write stays counted.
transition_rolls_back :
    let o = transition outside machine true true (record job { state = scheduled }) running 4 in
    (o.job ≡ record job { state = scheduled }) × (o.store ≡ 5)
unfolding transition machine
transition_rolls_back = (refl, refl)

execute_hooks_run :
    (execute_hooks outside machine job pending scheduled).calls
    ≡ transition_call 1 pending scheduled ∷ transition_call 2 pending scheduled ∷ state_call 3 ∷ []
unfolding execute_hooks run_hooks machine
execute_hooks_run = refl

abbrev request : JobState → Request
request s = record { target = s; persist = false; with_hooks = true }

abbrev requests : List Request
requests = request scheduled ∷ request completed ∷ request running ∷ request completed ∷ []

drive_run :
    let r = drive outside machine requests job 0 in
    (r.job.state ≡ completed) × (r.visited ≡ scheduled ∷ running ∷ completed ∷ [])
unfolding drive transition execute_hooks run_hooks machine
drive_run = (refl, refl)

drive-IsPath_example :
    let r = drive outside machine requests job 0 in IsPath pending r.visited r.job.state
drive-IsPath_example = drive-IsPath outside machine (λ c j. refl) requests job 0

completed_needs_running_example : In running (drive outside machine requests job 0).visited
completed_needs_running_example =
    completed_needs_running outside machine (λ c j. refl) requests job 0 (λ e. cc) (λ e. cc)
      drive_run.0
