-- ===== src/Workers/Pool/Bounds.antt =====
-- class WorkerPool, workers/pool.py: the limits on the number of workers, under every series of
-- steps of the pool and of its workers.
use job_orchestrator.Prelude.{
  ℕ, zero, suc, ◌+◌, ◌≤◌, ◌<◌, ◌≡◌, refl, true, some, List, [], ◌∷◌, ltb, leb, length, arith,
  Bool-cases, inl, inr,
}
use job_orchestrator.Prelude.Dict
use job_orchestrator.Prelude.Dict.{
  Dict, IsDict, lookup-insert, lookup-remove, insert-IsDict, remove-IsDict, length-insert,
  length-remove, modify-IsDict, lookup-modify,
}
use job_orchestrator.Workers.{Worker}
use job_orchestrator.Workers.Pool.{
  PoolConfig, Pool, Decision, keep, add_workers, drop_worker, Checker, resting, checking, replacing,
  new, spawn_worker, remove_worker, begin_restart, start, scale_up, remove_idle, scale_down,
  decide_scaling, carry_out, check_step,
}
use job_orchestrator.Workers.Pool.Size.{
  IsKept, spawn_worker-IsKept, length-spawn_worker, remove_worker-IsKept, length-remove_worker,
  spawn_workers_lem,
}

module _ (config : PoolConfig) where
  -- The table is in order, and the number of workers within the limits, up to the replacements that
  -- are about to be spawned, and those that were.
  pub record IsWithin (pending replaced : ℕ) (p : Pool) : Type 0 where
    pub kept : IsKept p
    pub least : config.min_workers ≤ length p.workers + pending
    pub most : length p.workers ≤ config.max_workers + replaced

  module _ (pending replaced : ℕ) where
    abbrev IsFine : Pool → Type 0
    IsFine p = IsWithin pending replaced p

    scale_up-IsWithin :
        (count now : ℕ) (p : Pool) → IsFine p → IsFine (scale_up config count now p).1
    unfolding scale_up
    scale_up-IsWithin zero now p s = s
    scale_up-IsWithin (suc count) now p s =
        elim (Bool-cases (leb config.max_workers (length p.workers))) [
          | inl full ↦ rw full s
          | inr room ↦
              let grown = length-spawn_worker now p s.kept in
              rw room (
                scale_up-IsWithin count now (spawn_worker now p) (record {
                  kept = spawn_worker-IsKept now p s.kept;
                  least = ground (arith, grown, s.least);
                  most = ground (arith, grown, room);
                }))
        ]

    remove_worker-IsWithin :
        (id : ℕ) (p : Pool)
        → config.min_workers < length p.workers
        → IsFine p
        → IsFine (remove_worker id p)
    remove_worker-IsWithin id p more s = record {
      kept = remove_worker-IsKept id p s.kept;
      least = ground (arith, length-remove_worker id p s.kept, more);
      most = ground (arith, length-remove_worker id p s.kept, s.most);
    }

    remove_idle-IsWithin :
        (count : ℕ) (xs : List (ℕ × ℕ)) (p : Pool)
        → IsFine p
        → IsFine (remove_idle config count xs p).1
    unfolding remove_idle
    remove_idle-IsWithin zero xs p s = s
    remove_idle-IsWithin (suc count) [] p s = s
    remove_idle-IsWithin (suc count) (x ∷ xs) p s =
        elim (Bool-cases (leb (length p.workers) config.min_workers)) [
          | inl few ↦ rw few s
          | inr more ↦ rw more (
              remove_idle-IsWithin count xs (remove_worker x.0 p)
                (remove_worker-IsWithin x.0 p (ground (arith, more)) s))
        ]

    scale_down-IsWithin : (count : ℕ) (p : Pool) → IsFine p → IsFine (scale_down config count p).1
    unfolding scale_down
    scale_down-IsWithin count p s = remove_idle-IsWithin count _ p s

    carry_out-IsWithin :
        (d : Decision) (now : ℕ) (p : Pool) → IsFine p → IsFine (carry_out config d now p)
    unfolding carry_out
    carry_out-IsWithin keep now p s = s
    carry_out-IsWithin (add_workers count) now p s = scale_up-IsWithin count now p s
    carry_out-IsWithin drop_worker now p s = scale_down-IsWithin 1 p s

-- The pool with the threads beside it, and how many replacements the checker spawned.
pub record Threads : Type 0 where
  pub pool : Pool
  pub checker : Checker
  pub plan : Decision
  pub replaced : ℕ

-- A step of a thread while it holds the lock, or a change that a worker makes to itself.
pub data Step : Type 0 where
  grow : (count now : ℕ) → Step
  shrink : (count : ℕ) → Step
  look : (queue_size : ℕ) → Step
  act : (now : ℕ) → Step
  check : (now : ℕ) → Step
  work : (id : ℕ) → (Worker → Worker) → Step

-- The replacements that the checker is about to spawn.
abbrev pub pending : Checker → ℕ
pending resting = 0
pending (checking ids rs) = 0
pending (replacing ids rs) = 1

-- The replacements that were spawned, after a step of the checker.
abbrev pub count_spawn : Checker → ℕ → ℕ
count_spawn resting n = n
count_spawn (checking ids rs) n = n
count_spawn (replacing ids rs) n = n + 1

unfoldable pub step : PoolConfig → Step → Threads → Threads
unfolding scale_up scale_down decide_scaling carry_out check_step
step config (grow count now) t = record t { pool = (scale_up config count now t.pool).1 }
step config (shrink count) t = record t { pool = (scale_down config count t.pool).1 }
step config (look queue_size) t = record t { plan = decide_scaling config queue_size t.pool }
step config (act now) t = record t { pool = carry_out config t.plan now t.pool; plan = keep }
step config (check now) t =
    let r = check_step config now t.pool t.checker in
    record t { pool = r.0; checker = r.1; replaced = count_spawn t.checker t.replaced }
step config (work id f) t = record t {
  pool = record t.pool { workers = Dict.modify f id t.pool.workers };
}

unfoldable pub run : PoolConfig → List Step → Threads → Threads
unfolding step
run config [] t = t
run config (s ∷ ss) t = run config ss (step config s t)

length-modify :
    (f : Worker → Worker) (id : ℕ) (ws : Dict Worker) → length (Dict.modify f id ws) ≡ length ws
unfolding Dict.modify
length-modify f id [] = refl
length-modify f id ((k, w) ∷ ws) = ground (arith, length-modify f id ws)

module _ (config : PoolConfig) where
  abbrev pub IsSized : Threads → Type 0
  IsSized t = IsWithin config (pending t.checker) t.replaced t.pool

  check_step-IsWithin :
      (now replaced : ℕ) (p : Pool) (c : Checker)
      → IsWithin config (pending c) replaced p
      → let r = check_step config now p c in
        IsWithin config (pending r.1) (count_spawn c replaced) r.0
  unfolding check_step begin_restart
  check_step-IsWithin now replaced p resting h = record {
    kept = record { keyed = h.kept.keyed; fresh = h.kept.fresh };
    least = h.least;
    most = h.most;
  }
  check_step-IsWithin now replaced p (checking (id ∷ ids) rs) h = record {
    kept = remove_worker-IsKept id p h.kept;
    least = ground (arith, length-remove_worker id p h.kept, h.least);
    most = ground (arith, length-remove_worker id p h.kept, h.most);
  }
  check_step-IsWithin now replaced p (checking [] (id ∷ rs)) h =
      elim (Bool-cases (ltb config.min_workers (length p.workers))) [
        | inl more ↦
            rw more (remove_worker-IsWithin config 0 replaced id p (ground (arith, more)) h)
        | inr few ↦ rw few h
      ]
  check_step-IsWithin now replaced p (checking [] []) h = h
  check_step-IsWithin now replaced p (replacing ids rs) h =
      let grown = length-spawn_worker now p h.kept in
      record {
        kept = spawn_worker-IsKept now p h.kept;
        least = ground (arith, grown, h.least);
        most = ground (arith, grown, h.most);
      }

  step-IsSized : (s : Step) (t : Threads) → IsSized t → IsSized (step config s t)
  unfolding step
  step-IsSized (grow count now) t h =
      scale_up-IsWithin config (pending t.checker) t.replaced count now t.pool h
  step-IsSized (shrink count) t h =
      scale_down-IsWithin config (pending t.checker) t.replaced count t.pool h
  step-IsSized (look queue_size) t h = h
  step-IsSized (act now) t h =
      carry_out-IsWithin config (pending t.checker) t.replaced t.plan now t.pool h
  step-IsSized (check now) t h = check_step-IsWithin now t.replaced t.pool t.checker h
  step-IsSized (work id f) t h =
      let ws = t.pool.workers in
      record {
        kept = record {
          keyed = modify-IsDict f id ws h.kept.keyed;
          fresh = λ k here. h.kept.fresh k (ground (arith, here, lookup-modify f k id ws));
        };
        least = ground (arith, length-modify f id ws, h.least);
        most = ground (arith, length-modify f id ws, h.most);
      }

  steps-IsSized : (ss : List Step) (t : Threads) → IsSized t → IsSized (run config ss t)
  unfolding run
  steps-IsSized [] t h = h
  steps-IsSized (s ∷ ss) t h = steps-IsSized ss (step config s t) (step-IsSized s t h)

  -- A new pool that is started, with threads that have done nothing.
  abbrev pub started : (now : ℕ) → Threads
  started now = record { pool = start config now new; checker = resting; plan = keep; replaced = 0 }

  -- Take a new pool that is started, and any series of steps of its threads and workers: calls of
  -- `scale_up` and `scale_down`, scaling decisions, which act later than they look, health checks,
  -- which release the lock between the inspection, each restart, its replacement and each removal,
  -- and changes that workers make to themselves. If `min_workers` is at most `max_workers`, the
  -- workers are under distinct identifiers, there are at least `min_workers` of them, one less
  -- while a replacement is due, and at most `max_workers`, with one more for each replacement that
  -- was spawned.
  pub run-IsSized :
      (now : ℕ) (ss : List Step)
      → config.min_workers ≤ config.max_workers
      → IsSized (run config ss (started now))
  run-IsSized now ss valid =
      let opened : Pool = record new { running = true; started_at = some now } in
      let k : IsKept opened =
        unfold new Dict.lookup in record { keyed = tt; fresh = λ j h. ground (arith, h) } in
      let (kept, grown) = spawn_workers_lem config.min_workers now opened k in
      steps-IsSized ss (started now) (
        unfold start new in
        record { kept = kept; least = ground (arith, grown); most = ground (arith, grown, valid) })
