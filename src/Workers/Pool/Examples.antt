-- ===== src/Workers/Pool/Examples.antt =====
-- A small pool, and the theorems on class WorkerPool at it.
use job_orchestrator.Prelude.{
  ℕ, ◌+◌, ◌-◌, ◌≡◌, refl, true, false, ◌∷◌, [], none, some, length, leb, if◌then◌else◌, arith, List,
}
use job_orchestrator.Prelude.Dict
use job_orchestrator.Workers.{Worker, idle, busy, in_state, start_worker, new_worker, state_index}
use job_orchestrator.Workers.Pool.{
  PoolConfig, Pool, scale_up, scale_down, spawn_worker, remove_idle, sort_idle, insert_idle,
  idle_workers, remove_worker, begin_restart, check_step, checking, keep,
}
use job_orchestrator.Workers.Pool.Size.{IsKept}
use job_orchestrator.Workers.Pool.Bounds.{
  Step, IsSized, started, grow, shrink, look, act, check, work, step, run, run-IsSized,
}
use job_orchestrator.Workers.Pool.Scale.{scale_lem}

abbrev config : PoolConfig
config = record {
  min_workers = 1;
  max_workers = 3;
  is_high = λ engaged total. leb total engaged;
  is_low = λ engaged total. leb engaged 0;
  worker_max_idle_time = 60;
  worker_heartbeat_timeout = 30;
}

abbrev a_worker : Worker
a_worker = record {
  state = idle;
  is_alive = true;
  current_job = none;
  started_at = some 0;
  last_heartbeat = some 0;
  jobs_completed = 0;
  jobs_failed = 0;
}

-- Worker 1 is busy, and workers 0 and 2 are idle.
abbrev trio : Pool
trio = record {
  workers = (0, a_worker) ∷ (1, record a_worker { state = busy }) ∷ (2, a_worker) ∷ [];
  idle_since = (0, 20) ∷ (2, 10) ∷ [];
  next_id = 3;
  running = true;
  started_at = some 0;
}

program : Unit {0}
unfolding scale_down remove_idle sort_idle insert_idle idle_workers remove_worker begin_restart run
    step check_step scale_up spawn_worker start_worker new_worker in_state state_index Dict.lookup
    Dict.insert Dict.remove
program = tt

-- The longest idle worker leaves first.
trio_shrinks : Dict.keys (scale_down config 1 trio).1.workers ≡ 0 ∷ 1 ∷ []
unfolding program
trio_shrinks = refl

-- A worker is added between a restart and the spawn of its replacement: the pool goes over its limit.
restart_overflows :
    length
      (run config (check 5 ∷ grow 1 5 ∷ check 5 ∷ []) (record {
        pool = trio;
        checker = checking (1 ∷ []) [];
        plan = keep;
        replaced = 0;
      })).pool.workers
    ≡ 4
unfolding program
restart_overflows = refl

trio-IsKept : IsKept trio
unfolding Dict.lookup
trio-IsKept = record { keyed = (refl, (refl, (refl, tt))); fresh = λ k h. ground (arith, h) }

abbrev series : List Step
series =
    grow 5 1 ∷ look 7 ∷ check 99 ∷ act 2 ∷ check 99 ∷ shrink 9 ∷ check 100 ∷ work 1 (λ w. w) ∷ []

run-IsSized_example : IsSized config (run config series (started config 0))
run-IsSized_example = run-IsSized config 0 series (ground arith)

scale_lem_example :
    let up = scale_up config 2 5 trio in
    let room = 3 - length trio.workers in
    ((up.0 ≡ (if leb 2 room then 2 else room)) × (length up.1.workers ≡ length trio.workers + up.0))
    × ((k : ℕ) (w : Worker)
        → Dict.lookup k trio.workers ≡ some w
        → in_state w.state idle ≡ false
        → Dict.lookup k (scale_down config 2 trio).1.workers ≡ some w)
scale_lem_example = scale_lem config 2 5 trio trio-IsKept
