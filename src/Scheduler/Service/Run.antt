-- ===== src/Scheduler/Service/Run.antt =====
-- Scheduler.run_job, scheduler/scheduler.py: a job run on the spot, outside the workers. It takes no
-- lock: each statement is a step, between which other threads act, and series of calls
-- (Service/Calls) hold the single steps. `run_job` is what they do when no other thread acts. The
-- texts are parameters: that of an error of a transition, `Exception(result.error or "Unknown")` and
-- `result.error or "Unknown error"`.
use job_orchestrator.Prelude.{ℕ, ◌+◌, Option, none, some, List, [], ◌∷◌, if◌then◌else◌}
use job_orchestrator.Core.Job.{Job, JobState, failed, completed, retrying, scheduled}
use job_orchestrator.Queue.{push}
use job_orchestrator.Scheduler.Retry.{should_retry, prepare_for_retry}
use job_orchestrator.Scheduler.Runner.{Ran, JobResult, run}
use job_orchestrator.Scheduler.Service.{
  World, Env, Draw, Outcome, Error, Stats, overflow_error, next, done, raise, move, set_job, count,
  tell_complete, tell_failed, while_others, scheduling,
}

pub record Texts : Type 0 where
  pub describe : Error → ℕ × ℕ
  pub plain : Option ℕ → ℕ
  pub shown : Option ℕ → ℕ

-- The steps of `run_job` and of `JobRunner.run` on a job: an assignment to its attributes, a
-- transition, the push, the statistics, and the calls of the DAG executor, which take its lock only;
-- `others` is what other threads do between the calls that it makes.
pub data RunStep (F : Type 0) : Type 0 where
  writing : (Job F → Job F) → RunStep F
  moving : JobState → RunStep F
  pushing : RunStep F
  tallying : (Stats → Stats) → RunStep F
  telling_complete : (others : World F → World F) (job_id now : ℕ) → RunStep F
  telling_failed : (others : World F → World F) (job_id error now : ℕ) → RunStep F

module _ {F : Type 0} (env : Env F) where
  unfoldable pub run_step : ℕ → RunStep F → World F → Outcome F
  unfolding move set_job count tell_complete tell_failed while_others scheduling
  run_step a (writing change) w = done (set_job a change w)
  run_step a (moving target) w = move a target w
  run_step a pushing w = done (record w { queue = (push w.objects a w.queue).1 })
  run_step a (tallying change) w = done (count change w)
  run_step a (telling_complete others id now) w =
      tell_complete (while_others others (scheduling env now)) id now w
  run_step a (telling_failed others id error now) w =
      tell_failed (while_others others (scheduling env now)) id error now w

  -- Steps in a row, up to the first that raises.
  unfoldable pub run_steps : ℕ → List (RunStep F) → World F → Outcome F
  unfolding run_step next
  run_steps a [] w = done w
  run_steps a (s ∷ ss) w = next (run_step a s w) (run_steps a ss)

  unfoldable pub settle_success : ℕ → JobResult → World F → Outcome F
  unfolding run_steps
  settle_success a r w =
      run_steps a
        (writing (λ job. record job { result = r.result })
          ∷ writing (λ job. record job { completed_at = some r.completed_at })
          ∷ moving completed
          ∷ tallying (λ t. record t { jobs_completed = t.jobs_completed + 1 })
          ∷ telling_complete (λ v. v) (w.objects a).id r.completed_at
          ∷ [])
        w

unfoldable pub retry_steps : {F : Type 0} → Job F → List (RunStep F)
retry_steps prepared =
    writing (λ job. record job { attempt = prepared.attempt })
    ∷ writing (λ job. record job { scheduled_at = prepared.scheduled_at })
    ∷ moving retrying
    ∷ moving scheduled
    ∷ writing (λ job. record job { error = none })
    ∷ writing (λ job. record job { traceback = none })
    ∷ pushing
    ∷ tallying (λ t. record t { jobs_retried = t.jobs_retried + 1 })
    ∷ []

module _ {F : Type 0} (env : Env F) (texts : Texts) where
  -- No entry of the dead letter queue is made here.
  unfoldable pub give_up_steps : (id : ℕ) → JobResult → (now : ℕ) → List (RunStep F)
  give_up_steps id r now =
      moving failed
      ∷ writing (λ job. record job { completed_at = some r.completed_at })
      ∷ tallying (λ t. record t { jobs_failed = t.jobs_failed + 1 })
      ∷ telling_failed (λ v. v) id (texts.shown r.error) now
      ∷ []

  unfoldable pub settle_failure : ℕ → JobResult → (random : F) (now : ℕ) → World F → Outcome F
  unfolding run_steps retry_steps give_up_steps set_job
  settle_failure a r random now w =
      let noted = set_job a (λ job. record job { error = r.error; traceback = r.traceback }) w in
      let job = noted.objects a in
      if should_retry env.floats env.isinstance job (some (texts.plain r.error))
      then elim (prepare_for_retry env.floats env.isinstance job random now) [
        | none ↦ raise overflow_error noted
        | some p ↦ run_steps env a (retry_steps p.2) noted
      ]
      else run_steps env a (give_up_steps job.id r now) noted

  -- The result is returned unless the call raises. `rest` is the state that the function changes.
  unfoldable pub run_job :
      {E : Type 0} (func : Job F → E → Ran × E) (started ended : ℕ)
      → Draw F
      → ℕ
      → World F
      → (rest : E) → JobResult × Outcome F × E
  unfolding settle_success settle_failure
  run_job func started ended d a w rest =
      let r = run func texts.describe started ended a w rest in
      if r.0.success
      then (r.0, settle_success env a r.0 r.1, r.2)
      else (r.0, settle_failure a r.0 d.random d.now r.1, r.2)
