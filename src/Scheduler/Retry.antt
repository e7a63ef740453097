-- ===== src/Scheduler/Retry.antt =====
-- src/job_orchestrator/scheduler/retry.py, classes RetryPolicy and RetryHandler. Python's floats,
-- the sum of a point in time and a delay, and `isinstance` are parameters. A random number is drawn
-- by the caller. A job always has a policy, so the default policy of the handler is never used.
pub mod Budget
pub mod Delay
mod Examples
use job_orchestrator.Prelude.{
  ℕ, ◌+◌, ◌-◌, Bool, true, false, Option, none, some, List, leb, if◌then◌else◌,
}
use job_orchestrator.Core.Job.{Job}

-- What the code uses of floats. `pow` is `**` and `later now delay` is
-- `now + timedelta(seconds=delay)`: both are none when they raise OverflowError.
pub record Floats (F : Type 0) : Type 0 where
  pub nought : F
  pub half : F
  pub add : F → F → F
  pub mul : F → F → F
  pub pow : F → ℕ → Option F
  pub lt : F → F → Bool
  pub later : ℕ → F → Option ℕ

pub record Policy (F : Type 0) : Type 0 where
  pub max_retries : ℕ
  pub initial_delay : F
  pub max_delay : F
  pub exponential_base : F
  pub jitter : Bool
  pub retry_on : List ℕ

-- How `schedule_retry` ends: it returns, or raises OverflowError.
pub data Answer : Type 0 where
  refused granted power_overflow time_overflow : Answer

module _ {F : Type 0} (fl : Floats F) (isinstance : ℕ → List ℕ → Bool) where
  -- `min(a, b)` of Python.
  unfoldable pub py_min : F → F → F
  py_min a b = if fl.lt b a then b else a

  -- The power is taken before the cap, and may raise.
  unfoldable pub calculate_delay : Policy F → ℕ → (random : F) → Option F
  unfolding py_min
  calculate_delay p retry_count random = elim (fl.pow p.exponential_base retry_count) [
    | none ↦ none
    | some power ↦
        let delay = py_min (fl.mul p.initial_delay power) p.max_delay in
        some (if p.jitter then fl.mul delay (fl.add fl.half random) else delay)
  ]

  unfoldable pub policy_allows : Policy F → ℕ → Option ℕ → Bool
  policy_allows p retry_count error =
      if leb p.max_retries retry_count
      then false
      else elim error [ none ↦ true | some e ↦ isinstance e p.retry_on ]

  unfoldable pub get_policy_for_job : Job F → Policy F
  get_policy_for_job job = record {
    max_retries = job.retry_policy.max_retries;
    initial_delay = job.retry_policy.base_delay;
    max_delay = job.retry_policy.max_delay;
    exponential_base = job.retry_policy.exponential_base;
    jitter = job.retry_policy.jitter;
    retry_on = job.retry_policy.retry_on;
  }

  unfoldable pub get_retry_delay : Job F → (random : F) → Option F
  get_retry_delay job random = calculate_delay (get_policy_for_job job) job.attempt random

  unfoldable pub should_retry : Job F → Option ℕ → Bool
  unfolding policy_allows get_policy_for_job
  should_retry job error = policy_allows (get_policy_for_job job) job.attempt error

  -- An attempt is used up before the time of the retry is computed.
  unfoldable pub schedule_retry : Job F → Option ℕ → (random : F) (now : ℕ) → Answer × Job F
  schedule_retry job error random now =
      let policy = get_policy_for_job job in
      let counted = record job { attempt = job.attempt + 1 } in
      if policy_allows policy job.attempt error
      then elim (calculate_delay policy job.attempt random) [
        | none ↦ (power_overflow, job)
        | some delay ↦ elim (fl.later now delay) [
          | none ↦ (time_overflow, counted)
          | some at ↦
              (granted, record counted { scheduled_at = some at; error = none; traceback = none })
        ]
      ]
      else (refused, job)

  -- None when it raises; the job is then as it was.
  unfoldable pub prepare_for_retry : Job F → (random : F) (now : ℕ) → Option (F × ℕ × Job F)
  prepare_for_retry job random now =
      elim (calculate_delay (get_policy_for_job job) job.attempt random) [
        | none ↦ none
        | some delay ↦ elim (fl.later now delay) [
          | none ↦ none
          | some at ↦
              some (delay, at, record job { attempt = job.attempt + 1; scheduled_at = some at })
        ]
      ]

  -- Subtraction on ℕ stops at 0, as `max(0, ...)` does.
  unfoldable pub get_remaining_retries : Job F → ℕ
  unfolding get_policy_for_job
  get_remaining_retries job = (get_policy_for_job job).max_retries - job.attempt
