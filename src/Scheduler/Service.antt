-- ===== src/Scheduler/Service.antt =====
-- src/job_orchestrator/scheduler/scheduler.py, class Scheduler, over the components that it owns.
-- Its lock makes each method one step. A method that may raise leaves the error, if any, with the
-- state that it leaves behind. Identifiers come parsed, log lines and callbacks of users are left out,
-- and so are the methods that only hand a call on. No hook is registered with the state machine of a
-- scheduler, and its `update` of the job store does not raise. The methods of a job store are those
-- of Scheduler/JobStore. The dead letter queue stores the job as it is at the time of the call.
pub mod Moves
pub mod Submit
pub mod Steps
pub mod Ended
pub mod Cancel
pub mod Run
pub mod Queries
pub mod Calls
pub mod Invariant
pub mod Told
pub mod Safety
pub mod System
mod Examples
use job_orchestrator.Prelude.{
  ℕ, ◌+◌, Bool, true, false, ◌&&◌, not, Option, none, some, List, [], ◌∷◌, ◌==◌, ltb, leb, length,
  map, is_some, if◌then◌else◌,
}
use job_orchestrator.Prelude.Dict
use job_orchestrator.Core.Job.{
  Job, JobState, pending, scheduled, running, completed, failed, retrying, cancelled, in_states,
}
use job_orchestrator.Core.Dag.{Dag}
use job_orchestrator.Core.Dag.Cycles.{validate}
use job_orchestrator.Core.State
use job_orchestrator.Core.State.{Outside, StateMachine, transition}
use job_orchestrator.Queue
use job_orchestrator.Queue.{Objects, assign, Queue, push, size}
use job_orchestrator.Queue.Methods
use job_orchestrator.Queue.Wait.{Round, Popped, returned, pop}
use job_orchestrator.Scheduler.Retry.{Floats, should_retry, prepare_for_retry}
use job_orchestrator.Scheduler.Dlq
use job_orchestrator.Scheduler.Dlq.{Dlq}
use job_orchestrator.Scheduler.JobStore
use job_orchestrator.Scheduler.JobStore.{JobStore}
use job_orchestrator.Scheduler.DagExecutor
use job_orchestrator.Scheduler.DagExecutor.{Executor, Scheduling, Workflow}
use job_orchestrator.Scheduler.DagExecutor.Methods.{
  Called, start_dag, on_job_complete, on_job_failed, get_dag_for_job,
}

pub data Error : Type 0 where
  job_already_exists : (job_id : ℕ) → Error
  job_not_found : (job_id : ℕ) → Error
  queue_full : (queue_size max_size : ℕ) → Error
  illegal : State.Error → Error
  invalid_dag : Error
  key_error : Error
  overflow_error : Error

pub record Stats : Type 0 where
  pub jobs_submitted : ℕ
  pub jobs_completed : ℕ
  pub jobs_failed : ℕ
  pub jobs_retried : ℕ
  pub jobs_sent_to_dlq : ℕ
  pub dags_submitted : ℕ
  pub dags_completed : ℕ
  pub dags_failed : ℕ

pub record World (F : Type 0) : Type 0 where
  pub objects : Objects F
  pub job_store : JobStore
  pub queue : Queue
  pub dlq : Dlq F
  pub executor : Executor
  pub running : Bool
  pub stats : Stats

-- What the program around the scheduler gives: floats, `isinstance`, `str` of an exception, the name
-- of its type, and the limit of the queue in the configuration.
pub record Env (F : Type 0) : Type 0 where
  pub floats : Floats F
  pub isinstance : ℕ → List ℕ → Bool
  pub text_of : ℕ → ℕ
  pub kind_of : ℕ → ℕ
  pub max_size : Option ℕ

-- The readings of the clock and the fresh identifier that a call draws.
pub record Draw (F : Type 0) : Type 0 where
  pub random : F
  pub now : ℕ
  pub later : ℕ
  pub fresh : ℕ

-- What a method leaves: the error that it raised, and the state.
pub record Outcome (F : Type 0) : Type 0 where
  pub raised : Option Error
  pub state : World F

-- The state machine of a scheduler, which is set up with its job store and has no hooks. It tests the
-- truth of the store, and a store without jobs is false.
unfoldable pub machine : JobStore → StateMachine
machine st = record State.new { has_store = ltb 0 (length st) }

-- `self._config.queue.max_size is not None and len(self._queue) >= self._config.queue.max_size`
unfoldable pub at_capacity : Option ℕ → ℕ → Bool
at_capacity none n = false
at_capacity (some limit) n = leb limit n

unfoldable pub limit_or_zero : Option ℕ → ℕ
limit_or_zero none = 0
limit_or_zero (some limit) = limit

module _ {F : Type 0} where
  unfoldable pub new : Env F → Objects F → (dlq_max ttl : Option ℕ) → World F
  new env objs dlq_max ttl = record {
    objects = objs;
    job_store = JobStore.new;
    queue = Queue.new env.max_size none;
    dlq = Dlq.new none dlq_max ttl false;
    executor = DagExecutor.new;
    running = false;
    stats = record {
      jobs_submitted = 0;
      jobs_completed = 0;
      jobs_failed = 0;
      jobs_retried = 0;
      jobs_sent_to_dlq = 0;
      dags_submitted = 0;
      dags_completed = 0;
      dags_failed = 0;
    };
  }

  abbrev pub done : World F → Outcome F
  done w = record { raised = none; state = w }

  abbrev pub raise : Error → World F → Outcome F
  raise e w = record { raised = some e; state = w }

  -- The next statement, unless the one before it raised.
  unfoldable pub next : Outcome F → (World F → Outcome F) → Outcome F
  next o f = elim o.raised [ none ↦ f o.state | some e ↦ o ]

  unfoldable pub set_job : ℕ → (Job F → Job F) → World F → World F
  set_job a change w = record w { objects = assign w.objects a (change (w.objects a)) }

  unfoldable pub count : (Stats → Stats) → World F → World F
  count change w = record w { stats = change w.stats }

  -- The state machine around the job at an address.
  unfoldable pub outside : ℕ → Outside F JobStore
  outside a = record {
    run_hook = λ c job. (job, false);
    update = λ job st. (Dict.insert job.id a st, false);
  }

  unfoldable pub moved : ℕ → State.Outcome F JobStore → World F → Outcome F
  moved a o w = elim o.raised [
    | some e ↦ raise (illegal e) w
    | none ↦ done (record w { objects = assign w.objects a o.job; job_store = o.store })
  ]

  -- `self._state_machine.transition(job, target)`. A transition that raises leaves the job and the
  -- store as they were (Core/State/Transitions).
  unfoldable pub move : ℕ → JobState → World F → Outcome F
  unfolding outside machine moved
  move a target w =
      moved a
        (transition (outside a) (machine w.job_store) true true (w.objects a) target w.job_store) w

  unfoldable pub called : Called (World F) → Outcome F
  called r =
      let w : World F = record r.outer { executor = r.executor } in
      if r.ok then done w else raise key_error w

  -- `cancel_job` on the job found: whether it was cancelled, with the outcome.
  unfoldable pub cancel_found : (now : ℕ) → Option ℕ → ℕ → World F → Bool × Outcome F
  unfolding in_states next move set_job
  cancel_found now none id w = (false, raise (job_not_found id) w)
  cancel_found now (some a) id w =
      let removed = record w { queue = (Queue.Methods.remove id w.queue).1 } in
      if in_states (w.objects a).state (pending ∷ scheduled ∷ retrying ∷ [])
      then (
        true,
        next (move a cancelled removed)
            (λ v. done (set_job a (λ job. record job { completed_at = some now }) v)),
      )
      else (false, done w)

  unfoldable pub cancel_job : ℕ → (now : ℕ) → World F → Bool × Outcome F
  unfolding cancel_found
  cancel_job id now w = cancel_found now (JobStore.get id w.job_store) id w

  -- What the executor is given when the scheduler's lock is free: before each of its calls other
  -- threads act, though not on the executor, whose lock is held.
  unfoldable pub while_others : (World F → World F) → Scheduling (World F) → Scheduling (World F)
  while_others others sched = record {
    submit = λ a w. sched.submit a (others w);
    cancel_job = λ id w. sched.cancel_job id (others w);
    on_dag_complete = λ id w. sched.on_dag_complete id (others w);
    on_dag_failed = λ id w. sched.on_dag_failed id (others w);
  }

  -- `if dag_id: self._dag_executor.on_job_complete(job_uuid)`, by what the executor is given.
  unfoldable pub tell_complete : Scheduling (World F) → ℕ → (now : ℕ) → World F → Outcome F
  unfolding called get_dag_for_job
  tell_complete sched id now w =
      if is_some (get_dag_for_job id w.executor)
      then called (on_job_complete sched id now w.executor w)
      else done w

  unfoldable pub tell_failed : Scheduling (World F) → ℕ → (error now : ℕ) → World F → Outcome F
  unfolding called get_dag_for_job
  tell_failed sched id error now w =
      if is_some (get_dag_for_job id w.executor)
      then called (on_job_failed sched id error now w.executor w)
      else done w

module _ {F : Type 0} (env : Env F) where
  -- The end of `submit`: the push, which rolls the call back when it fails.
  unfoldable pub enqueue_job : ℕ → World F → Outcome F
  unfolding set_job count limit_or_zero
  enqueue_job a w =
      let r = push w.objects a w.queue in
      let reverted = set_job a (λ job. record job { state = pending }) (record w { queue = r.1 }) in
      if r.0
      then done (
          count (λ t. record t { jobs_submitted = t.jobs_submitted + 1 })
            (record w { queue = r.1 }))
      else raise (queue_full (size r.1) (limit_or_zero env.max_size))
          (record reverted { job_store = (JobStore.delete (w.objects a).id w.job_store).1 })

  unfoldable pub submit : ℕ → World F → Outcome F
  unfolding at_capacity next move enqueue_job
  submit a w =
      let job = w.objects a in
      let added = record w { job_store = JobStore.add w.objects a w.job_store } in
      if JobStore.contains job.id w.job_store
      then raise (job_already_exists job.id) w
      else if at_capacity env.max_size (size w.queue)
      then raise (queue_full (size w.queue) (limit_or_zero env.max_size)) w
      else next (move a scheduled added) (enqueue_job a)

  -- What the DAG executor is given; `now` is the clock at its calls.
  unfoldable pub scheduling : (now : ℕ) → Scheduling (World F)
  unfolding submit cancel_job count
  scheduling now = record {
    submit = λ a w. let o = submit a w in (not (is_some o.raised), o.state);
    cancel_job = λ id w. (cancel_job id now w).1.state;
    on_dag_complete = λ id w. count (λ t. record t { dags_completed = t.dags_completed + 1 }) w;
    on_dag_failed = λ id w. count (λ t. record t { dags_failed = t.dags_failed + 1 }) w;
  }

  unfoldable pub notify_complete : ℕ → (now : ℕ) → World F → Outcome F
  unfolding tell_complete scheduling
  notify_complete id now w = tell_complete (scheduling now) id now w

  unfoldable pub notify_failed : ℕ → (error now : ℕ) → World F → Outcome F
  unfolding tell_failed scheduling
  notify_failed id error now w = tell_failed (scheduling now) id error now w

  unfoldable pub complete_found : Option ℕ → ℕ → (result : Option ℕ) (now : ℕ) → World F → Outcome F
  unfolding next move set_job count notify_complete
  complete_found none id result now w = raise (job_not_found id) w
  complete_found (some a) id result now w =
      let noted = set_job a (λ job. record job { result = result; completed_at = some now }) w in
      next (move a completed noted) (λ v.
        notify_complete id now (count (λ t. record t { jobs_completed = t.jobs_completed + 1 }) v))

  unfoldable pub complete_job : ℕ → (result : Option ℕ) (now : ℕ) → World F → Outcome F
  unfolding complete_found
  complete_job id result now w = complete_found (JobStore.get id w.job_store) id result now w

  -- The job as the retry handler left it becomes SCHEDULED. The result of `push` is ignored.
  unfoldable pub requeue : ℕ → Job F → World F → Outcome F
  unfolding next move set_job count
  requeue a prepared w = next (move a retrying (set_job a (λ job. prepared) w)) (λ u.
      next (move a scheduled u) (λ v.
        let cleared = set_job a (λ job. record job { error = none; traceback = none }) v in
        let queued = record cleared { queue = (push cleared.objects a cleared.queue).1 } in
        done (count (λ t. record t { jobs_retried = t.jobs_retried + 1 }) queued)))

  -- The retry of `fail_job` and `run_job`, which raises when the handler does.
  unfoldable pub retry_job : ℕ → (random : F) (now : ℕ) → World F → Outcome F
  unfolding requeue
  retry_job a random now w =
      elim (prepare_for_retry env.floats env.isinstance (w.objects a) random now) [
        | none ↦ raise overflow_error w
        | some p ↦ requeue a p.2 w
      ]

  -- The job leaves for the dead letter queue, and its DAG hears of it.
  unfoldable pub bury : ℕ → ℕ → (error : ℕ) → Draw F → World F → Outcome F
  unfolding next move set_job count notify_failed
  bury a id error d w = next (move a failed w) (λ v.
      let ended = set_job a (λ job. record job { completed_at = some d.now }) v in
      let buried = record ended {
        dlq =
            Dlq.add env.kind_of d.fresh (ended.objects a) (some error) none d.now d.later ended.dlq;
      } in
      notify_failed id (env.text_of error) d.now (
        count
          (λ t. record t {
            jobs_failed = t.jobs_failed + 1;
            jobs_sent_to_dlq = t.jobs_sent_to_dlq + 1;
          })
          buried))

  unfoldable pub fail_found : Option ℕ → ℕ → (error traceback : ℕ) → Draw F → World F → Outcome F
  unfolding set_job retry_job bury
  fail_found none id error traceback d w = raise (job_not_found id) w
  fail_found (some a) id error traceback d w =
      let noted =
        set_job a
          (λ job. record job { error = some (env.text_of error); traceback = some traceback }) w in
      if should_retry env.floats env.isinstance (noted.objects a) (some error)
      then retry_job a d.random d.now noted
      else bury a id error d noted

  unfoldable pub fail_job : ℕ → (error traceback : ℕ) → Draw F → World F → Outcome F
  unfolding fail_found
  fail_job id error traceback d w = fail_found (JobStore.get id w.job_store) id error traceback d w
