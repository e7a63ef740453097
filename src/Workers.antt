-- ===== src/Workers.antt =====
-- src/job_orchestrator/workers: worker.py, and of thread_worker.py the methods that start and stop a
-- worker. A thread, a process or an event loop runs beside the program: whether it is alive, its
-- state, its heartbeat and its counts change by themselves between the steps of the pool.
pub mod Pool
use job_orchestrator.Prelude.{
  ℕ, ◌+◌, Bool, true, false, Option, none, some, ◌==◌, ◌||◌, if◌then◌else◌,
}

pub data WorkerState : Type 0 where
  idle busy stopping stopped : WorkerState

unfoldable pub state_index : WorkerState → ℕ
state_index idle = 0
state_index busy = 1
state_index stopping = 2
state_index stopped = 3

unfoldable pub in_state : WorkerState → WorkerState → Bool
unfolding state_index
in_state s t = state_index s == state_index t

pub record Worker : Type 0 where
  pub state : WorkerState
  pub is_alive : Bool
  pub current_job : Option ℕ
  pub started_at : Option ℕ
  pub last_heartbeat : Option ℕ
  pub jobs_completed : ℕ
  pub jobs_failed : ℕ

-- `__init__`
unfoldable pub new_worker : Worker
new_worker = record {
  state = stopped;
  is_alive = false;
  current_job = none;
  started_at = none;
  last_heartbeat = none;
  jobs_completed = 0;
  jobs_failed = 0;
}

-- `start` of a thread worker that does not run and has a scheduler.
unfoldable pub start_worker : (now : ℕ) → Worker → Worker
start_worker now w = record w {
  state = idle;
  is_alive = true;
  started_at = some now;
  last_heartbeat = some now;
}

-- `stop` of a thread worker; `joined` says whether it waited for the end of the thread.
unfoldable pub stop_worker : (joined : Bool) → Worker → Worker
unfolding in_state
stop_worker joined w =
    if in_state w.state stopped
    then w
    else if joined
    then record w { state = stopped; is_alive = false }
    else record w { state = stopping }

-- `_execute_job` before and after the call of the scheduler; `success` is none when it raises.
unfoldable pub begin_job : (job_id now : ℕ) → Worker → Worker
begin_job job_id now w = record w {
  state = busy;
  current_job = some job_id;
  last_heartbeat = some now;
}

unfoldable pub end_job : (success : Option Bool) (now : ℕ) → Worker → Worker
end_job success now w =
    let counted : Worker = elim success [
      | none ↦ w
      | some true ↦ record w { jobs_completed = w.jobs_completed + 1 }
      | some false ↦ record w { jobs_failed = w.jobs_failed + 1 }
    ] in
    record counted { state = idle; current_job = none; last_heartbeat = some now }
