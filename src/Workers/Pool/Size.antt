-- ===== src/Workers/Pool/Size.antt =====
-- The number of workers of class WorkerPool, workers/pool.py, under every series of steps.
use job_orchestrator.Prelude.{
  ℕ, zero, suc, ◌+◌, ◌<◌, ◌≡◌, true, false, if◌then◌else◌, length, arith, either,
}
use job_orchestrator.Prelude.Dict
use job_orchestrator.Prelude.Dict.{
  Dict, IsDict, lookup-insert, lookup-remove, insert-IsDict, remove-IsDict, length-insert,
  length-remove, modify-IsDict, lookup-modify,
}
use job_orchestrator.Workers.{start_worker, new_worker}
use job_orchestrator.Workers.Pool.{Pool, spawn_worker, remove_worker, spawn_workers}

-- Workers are under distinct identifiers below the next one.
pub record IsKept (p : Pool) : Type 0 where
  pub keyed : IsDict p.workers
  pub fresh : (k : ℕ) → Dict.has_key k p.workers ≡ true → k < p.next_id

pub spawn_worker-IsKept : (now : ℕ) (p : Pool) → IsKept p → IsKept (spawn_worker now p)
unfolding spawn_worker
spawn_worker-IsKept now p k = record {
  keyed = insert-IsDict p.next_id _ p.workers k.keyed;
  fresh = λ j h.
      ground
        (arith, h, k.fresh j, lookup-insert j p.next_id (start_worker now new_worker) p.workers);
}

pub next_absent : (p : Pool) → IsKept p → Dict.has_key p.next_id p.workers ≡ false
next_absent p k = ground (arith, k.fresh p.next_id)

pub length-spawn_worker :
    (now : ℕ) (p : Pool) → IsKept p → length (spawn_worker now p).workers ≡ length p.workers + 1
unfolding spawn_worker
length-spawn_worker now p k =
    ground (arith, next_absent p k, length-insert p.next_id (start_worker now new_worker) p.workers)

pub remove_worker-IsKept : (id : ℕ) (p : Pool) → IsKept p → IsKept (remove_worker id p)
unfolding remove_worker
remove_worker-IsKept id p k =
    either IsKept (Dict.has_key id p.workers) _ _
      (record {
        keyed = remove-IsDict id p.workers k.keyed;
        fresh = λ j h. ground (arith, h, k.fresh j, lookup-remove j id p.workers);
      })
      k

pub length-remove_worker :
    (id : ℕ) (p : Pool)
    → IsKept p
    → length p.workers ≡ (
        if Dict.has_key id p.workers
        then length (remove_worker id p).workers + 1
        else length (remove_worker id p).workers)
unfolding remove_worker
length-remove_worker id p k = ground (arith, length-remove id p.workers k.keyed)

pub spawn_workers_lem :
    (n now : ℕ) (p : Pool)
    → IsKept p
    → IsKept (spawn_workers n now p)
      × (length (spawn_workers n now p).workers ≡ length p.workers + n)
unfolding spawn_workers
spawn_workers_lem zero now p k = (k, omega arith)
spawn_workers_lem (suc n) now p k =
    let rest = spawn_workers_lem n now (spawn_worker now p) (spawn_worker-IsKept now p k) in
    (rest.0, ground (arith, rest.1, length-spawn_worker now p k))
