-- ===== src/Scheduler/Runner.antt =====
-- src/job_orchestrator/scheduler/runner.py, class JobRunner, with the state machine of a scheduler.
-- The function of a job, with its arguments and where it is loaded from, is a parameter: it returns
-- or raises, changes a state of its own, and does not touch the scheduler. So is the text of an error
-- of the state machine. `run` takes no lock; its transitions and its assignment are steps
-- (Service/Run).
pub mod Runs
use job_orchestrator.Prelude.{ℕ, Bool, true, false, Option, none, some, if◌then◌else◌}
use job_orchestrator.Core.Job.{Job, JobState, pending, scheduled, running, retrying, same_state}
use job_orchestrator.Core.State.{can_transition}
use job_orchestrator.Scheduler.Service.{World, Outcome, Error, next, move, set_job, done}

-- How the load and the call of the function end: with a value, or with the text of an error and a
-- traceback.
pub data Ran : Type 0 where
  finished : ℕ → Ran
  threw : (error traceback : ℕ) → Ran

pub record JobResult : Type 0 where
  pub job_id : ℕ
  pub success : Bool
  pub result : Option ℕ
  pub error : Option ℕ
  pub traceback : Option ℕ
  pub started_at : ℕ
  pub completed_at : ℕ

unfoldable pub report : (id started completed : ℕ) → Ran → JobResult
report id started completed (finished r) = record {
  job_id = id;
  success = true;
  result = some r;
  error = none;
  traceback = none;
  started_at = started;
  completed_at = completed;
}
report id started completed (threw e t) = record {
  job_id = id;
  success = false;
  result = none;
  error = some e;
  traceback = some t;
  started_at = started;
  completed_at = completed;
}

module _ {F : Type 0} where
  -- The second part of the transitions, by the state that the job has then.
  unfoldable pub enter_running : ℕ → JobState → World F → Outcome F
  unfolding same_state next move can_transition
  enter_running a state w =
      let twice = next (move a scheduled w) (move a running) in
      if same_state state scheduled
      then move a running w
      else if same_state state running
      then done w
      else if same_state state retrying
      then twice
      else if can_transition state running
      then move a running w
      else done w

  -- The transitions before the call.
  unfoldable pub prepare : ℕ → World F → Outcome F
  unfolding enter_running
  prepare a w =
      let first = (if same_state (w.objects a).state pending then move a scheduled w else done w) in
      next first (λ v. enter_running a (v.objects a).state v)

module _ {F E : Type 0} where
  -- `describe` gives the text and the traceback of an error of a transition.
  unfoldable pub run_prepared :
      (func : Job F → E → Ran × E) (describe : Error → ℕ × ℕ) (started completed : ℕ)
      → ℕ
      → Outcome F
      → E
      → JobResult × World F × E
  unfolding report set_job
  run_prepared func describe started completed a o env = elim o.raised [
    | some e ↦ (
      report (o.state.objects a).id started completed (threw (describe e).0 (describe e).1),
      o.state,
      env,
    )
    | none ↦
        let w = set_job a (λ job. record job { started_at = some started }) o.state in
        let ran = func (w.objects a) env in
        (report (w.objects a).id started completed ran.0, w, ran.1)
  ]

  unfoldable pub run :
      (func : Job F → E → Ran × E) (describe : Error → ℕ × ℕ) (started completed : ℕ)
      → ℕ
      → World F
      → E
      → JobResult × World F × E
  unfolding run_prepared prepare
  run func describe started completed a w env =
      run_prepared func describe started completed a (prepare a w) env
