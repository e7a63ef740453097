-- ===== src/Workers/Pool.antt =====
-- src/job_orchestrator/workers/pool.py, class WorkerPool, with thread workers. A fresh identifier of a
-- worker is the next number. Quotients of numbers are floats and left to the configuration: whether
-- the share of busy workers reaches a threshold is a parameter. The two loops in the background are
-- threads: what they do while they hold the lock is a step, and other steps come between.
pub mod Size
pub mod Bounds
pub mod Scale
mod Examples
use job_orchestrator.Prelude.{
  ℕ, zero, suc, ◌+◌, ◌-◌, ◌*◌, ◌/◌, Bool, true, false, ◌&&◌, ◌||◌, not, Option, none, some, List,
  [], ◌∷◌, ◌++◌, ◌==◌, ltb, leb, is_some, if◌then◌else◌, length, filter, map,
}
use job_orchestrator.Prelude.Dict
use job_orchestrator.Prelude.Dict.{Dict}
use job_orchestrator.Workers.{
  Worker, idle, busy, stopping, stopped, in_state, new_worker, start_worker, stop_worker,
}

-- `is_high busy total` is `busy / max(total, 1) >= scale_up_threshold`, and `is_low` is
-- `<= scale_down_threshold`.
pub record PoolConfig : Type 0 where
  pub min_workers : ℕ
  pub max_workers : ℕ
  pub is_high : ℕ → ℕ → Bool
  pub is_low : ℕ → ℕ → Bool
  pub worker_max_idle_time : ℕ
  pub worker_heartbeat_timeout : ℕ

pub record Pool : Type 0 where
  pub workers : Dict Worker
  pub idle_since : Dict ℕ
  pub next_id : ℕ
  pub running : Bool
  pub started_at : Option ℕ

unfoldable pub new : Pool
new = record { workers = []; idle_since = []; next_id = 0; running = false; started_at = none }

unfoldable pub spawn_worker : (now : ℕ) → Pool → Pool
unfolding new_worker start_worker
spawn_worker now p = record p {
  workers = Dict.insert p.next_id (start_worker now new_worker) p.workers;
  idle_since = Dict.insert p.next_id now p.idle_since;
  next_id = p.next_id + 1;
}

-- The worker is told to stop and forgotten.
unfoldable pub remove_worker : ℕ → Pool → Pool
remove_worker id p =
    let left = record p {
      workers = Dict.remove id p.workers;
      idle_since = Dict.remove id p.idle_since;
    } in
    if Dict.has_key id p.workers then left else p

-- The part of `_restart_worker` that holds the lock. After it, without the lock, a replacement is
-- spawned, also when the worker was gone.
unfoldable pub begin_restart : ℕ → Pool → Pool
unfolding remove_worker
begin_restart id p = remove_worker id p

unfoldable pub spawn_workers : ℕ → (now : ℕ) → Pool → Pool
unfolding spawn_worker
spawn_workers zero now p = p
spawn_workers (suc n) now p = spawn_workers n now (spawn_worker now p)

unfoldable pub stop_all : (joined : Bool) → Dict Worker → Dict Worker
unfolding stop_worker
stop_all joined [] = []
stop_all joined ((id, w) ∷ ws) = (id, stop_worker joined w) ∷ stop_all joined ws

-- `stop` leaves the workers in the table.
unfoldable pub stop : (joined : Bool) → Pool → Pool
unfolding stop_all
stop joined p =
    if p.running then record p { running = false; workers = stop_all joined p.workers } else p

unfoldable pub idle_workers : Dict ℕ → Dict Worker → List (ℕ × ℕ)
unfolding in_state
idle_workers since [] = []
idle_workers since ((id, w) ∷ ws) =
    let rest = idle_workers since ws in
    elim (Dict.lookup id since) [
      | none ↦ rest
      | some t ↦ if in_state w.state idle then (id, t) ∷ rest else rest
    ]

-- Stable, the longest idle first.
unfoldable pub insert_idle : ℕ × ℕ → List (ℕ × ℕ) → List (ℕ × ℕ)
insert_idle x [] = x ∷ []
insert_idle x (y ∷ ys) = if ltb y.1 x.1 then y ∷ insert_idle x ys else x ∷ y ∷ ys

unfoldable pub sort_idle : List (ℕ × ℕ) → List (ℕ × ℕ)
unfolding insert_idle
sort_idle [] = []
sort_idle (x ∷ xs) = insert_idle x (sort_idle xs)

unfoldable pub count_state : (Worker → Bool) → Dict Worker → ℕ
count_state test ws = length (filter test (Dict.values ws))

unfoldable pub py_min : ℕ → ℕ → ℕ
py_min a b = if ltb b a then b else a

-- What a scaling decision leads to.
pub data Decision : Type 0 where
  keep : Decision
  add_workers : (count : ℕ) → Decision
  drop_worker : Decision

-- Where the thread of the health checks stands: between two checks, or before the next of the
-- restarts, the spawn of a replacement, or the removals.
pub data Checker : Type 0 where
  resting : Checker
  checking : (to_restart to_remove : List ℕ) → Checker
  replacing : (to_restart to_remove : List ℕ) → Checker

-- What the first loop of the health check finds.
pub record Check : Type 0 where
  pub to_restart : List ℕ
  pub to_remove : List ℕ
  pub idle_since : Dict ℕ

-- The idle times after a worker was looked at.
unfoldable pub note_idle : (now : ℕ) → ℕ → Worker → Dict ℕ → Dict ℕ
unfolding in_state
note_idle now id w since =
    if in_state w.state idle
    then (if Dict.has_key id since then since else Dict.insert id now since)
    else Dict.remove id since

module _ (config : PoolConfig) where
  unfoldable pub start : (now : ℕ) → Pool → Pool
  unfolding spawn_workers
  start now p =
      if p.running
      then p
      else spawn_workers config.min_workers now (record p { running = true; started_at = some now })

  -- The loop ends early when the pool is full.
  unfoldable pub scale_up : (count : ℕ) (now : ℕ) → Pool → ℕ × Pool
  unfolding spawn_worker
  scale_up zero now p = (0, p)
  scale_up (suc count) now p =
      let (added, q) = scale_up count now (spawn_worker now p) in
      if leb config.max_workers (length p.workers) then (0, p) else (added + 1, q)

  -- The loop over the first `count` of the idle workers.
  unfoldable pub remove_idle : (count : ℕ) → List (ℕ × ℕ) → Pool → ℕ × Pool
  unfolding remove_worker
  remove_idle zero xs p = (0, p)
  remove_idle (suc count) [] p = (0, p)
  remove_idle (suc count) (x ∷ xs) p =
      let (removed, q) = remove_idle count xs (remove_worker x.0 p) in
      if leb (length p.workers) config.min_workers then (0, p) else (removed + 1, q)

  unfoldable pub scale_down : (count : ℕ) → Pool → ℕ × Pool
  unfolding remove_idle sort_idle idle_workers
  scale_down count p = remove_idle count (sort_idle (idle_workers p.idle_since p.workers)) p

  -- The part of `_perform_scaling_decision` that holds the lock, and the tests after it.
  -- `queue_size` is the length of the queue of the scheduler.
  unfoldable pub decide_scaling : (queue_size : ℕ) → Pool → Decision
  unfolding count_state py_min
  decide_scaling queue_size p =
      let current = count_state (λ w. not (in_state w.state stopped)) p.workers in
      let engaged = count_state (λ w. in_state w.state busy) p.workers in
      let to_add = py_min (1 + queue_size / 10) (config.max_workers - current) in
      if config.is_high engaged current || ltb (current * 2) queue_size
      then (if ltb current config.max_workers then add_workers to_add else keep)
      else if config.is_low engaged current && queue_size == 0
      then (if ltb config.min_workers current then drop_worker else keep)
      else keep

  -- The calls of `scale_up` and `scale_down` that follow.
  unfoldable pub carry_out : Decision → (now : ℕ) → Pool → Pool
  unfolding scale_up scale_down
  carry_out keep now p = p
  carry_out (add_workers count) now p = (scale_up count now p).1
  carry_out drop_worker now p = (scale_down 1 p).1

  unfoldable pub is_stuck : (now : ℕ) → Worker → Bool
  unfolding in_state
  is_stuck now w = elim w.last_heartbeat [
    | none ↦ false
    | some t ↦ ltb config.worker_heartbeat_timeout (now - t) && in_state w.state busy
  ]

  unfoldable pub is_long_idle : (now : ℕ) → Option ℕ → Bool
  is_long_idle now none = false
  is_long_idle now (some t) = ltb config.worker_max_idle_time (now - t)

  -- `total` is the number of workers, which the loop does not change.
  unfoldable pub inspect : (now total : ℕ) → Dict Worker → Dict ℕ → Check
  unfolding is_stuck note_idle is_long_idle
  inspect now total [] since = record { to_restart = []; to_remove = []; idle_since = since }
  inspect now total ((id, w) ∷ ws) since =
      let noted = note_idle now id w since in
      let dead = inspect now total ws since in
      let rest = inspect now total ws noted in
      let excess = is_long_idle now (Dict.lookup id noted) && ltb config.min_workers total in
      if not w.is_alive && not (in_state w.state stopped)
      then record dead { to_restart = id ∷ dead.to_restart }
      else record rest {
        to_restart = if is_stuck now w then id ∷ rest.to_restart else rest.to_restart;
        to_remove = if excess then id ∷ rest.to_remove else rest.to_remove;
      }

  -- The next step of the thread of the health checks. A check takes the lock for the inspection,
  -- for each restart and for each removal, and releases it between them. Idle workers leave as long
  -- as there are more than the least number.
  unfoldable pub check_step : (now : ℕ) → Pool → Checker → Pool × Checker
  unfolding inspect begin_restart spawn_worker remove_worker
  check_step now p resting =
      let c = inspect now (length p.workers) p.workers p.idle_since in
      (record p { idle_since = c.idle_since }, checking c.to_restart c.to_remove)
  check_step now p (checking (id ∷ ids) rs) = (begin_restart id p, replacing ids rs)
  check_step now p (checking [] (id ∷ rs)) =
      (if ltb config.min_workers (length p.workers) then remove_worker id p else p, checking [] rs)
  check_step now p (checking [] []) = (p, resting)
  check_step now p (replacing ids rs) = (spawn_worker now p, checking ids rs)

pub record PoolStats : Type 0 where
  pub total_workers : ℕ
  pub idle_workers : ℕ
  pub busy_workers : ℕ
  pub stopping_workers : ℕ
  pub jobs_completed : ℕ
  pub jobs_failed : ℕ

unfoldable pub sum_of : (Worker → ℕ) → List Worker → ℕ
sum_of f [] = 0
sum_of f (w ∷ ws) = f w + sum_of f ws

-- Without times and quotients.
unfoldable pub get_stats : Pool → PoolStats
unfolding count_state sum_of in_state
get_stats p = record {
  total_workers = length p.workers;
  idle_workers = count_state (λ w. in_state w.state idle) p.workers;
  busy_workers = count_state (λ w. in_state w.state busy) p.workers;
  stopping_workers = count_state (λ w. in_state w.state stopping) p.workers;
  jobs_completed = sum_of (λ w. w.jobs_completed) (Dict.values p.workers);
  jobs_failed = sum_of (λ w. w.jobs_failed) (Dict.values p.workers);
}
