-- ===== src/Workers/Pool/Scale.antt =====
-- class WorkerPool, workers/pool.py: what `scale_up` and `scale_down` do.
use job_orchestrator.Prelude.{
  ℕ, zero, suc, ◌+◌, ◌-◌, ◌≡◌, refl, subst, Bool, false, Option, none, some, List, [], ◌∷◌, ◌==◌,
  leb, if◌then◌else◌, length, arith, Bool-cases, inl, inr, All,
}
use job_orchestrator.Prelude.Dict
use job_orchestrator.Prelude.Dict.{Dict, IsDict, lookup-remove}
use job_orchestrator.Workers.{Worker, idle, in_state}
use job_orchestrator.Workers.Pool.{
  PoolConfig, Pool, spawn_worker, remove_worker, scale_up, remove_idle, scale_down, sort_idle,
  insert_idle, idle_workers,
}
use job_orchestrator.Workers.Pool.Size.{IsKept, spawn_worker-IsKept, length-spawn_worker}

module _ (config : PoolConfig) where
  scale_up-length :
      (count now : ℕ) (p : Pool)
      → IsKept p
      → let r = scale_up config count now p in
        let room = config.max_workers - length p.workers in
        (r.0 ≡ (if leb count room then count else room))
        × (length r.1.workers ≡ length p.workers + r.0)
  unfolding scale_up
  scale_up-length zero now p k = (ground arith, ground arith)
  scale_up-length (suc count) now p k =
      let q = spawn_worker now p in
      let (added, longer) = scale_up-length count now q (spawn_worker-IsKept now p k) in
      (
        ground (arith, added, length-spawn_worker now p k),
        ground (arith, longer, length-spawn_worker now p k),
      )

-- An identifier that is not in a list of idle workers.
abbrev Spares : ℕ → List (ℕ × ℕ) → Type 0
Spares k xs = All (λ (x : ℕ × ℕ). (x.0 == k) ≡ false) xs

insert_idle-Spares :
    (k : ℕ) (x : ℕ × ℕ) (xs : List (ℕ × ℕ))
    → (x.0 == k) ≡ false
    → Spares k xs
    → Spares k (insert_idle x xs)
unfolding insert_idle
insert_idle-Spares k x [] h a = (h, tt)
insert_idle-Spares k x (y ∷ ys) h a = ground (arith, h, a, insert_idle-Spares k x ys h a.1)

sort_idle-Spares : (k : ℕ) (xs : List (ℕ × ℕ)) → Spares k xs → Spares k (sort_idle xs)
unfolding sort_idle
sort_idle-Spares k [] a = tt
sort_idle-Spares k (x ∷ xs) a =
    insert_idle-Spares k x (sort_idle xs) a.0 (sort_idle-Spares k xs a.1)

abbrev is_idle : Option Worker → Bool
is_idle none = false
is_idle (some w) = in_state w.state idle

idle_workers-Spares :
    (k : ℕ) (since : Dict ℕ) (ws : Dict Worker)
    → IsDict ws
    → is_idle (Dict.lookup k ws) ≡ false
    → Spares k (idle_workers since ws)
unfolding idle_workers Dict.lookup
idle_workers-Spares k since [] d h = tt
idle_workers-Spares k since ((id, w) ∷ ws) d h = elim (Bool-cases (id == k)) [
  | inl same ↦
      let gone : Dict.lookup k ws ≡ none =
        subst (λ j. Dict.lookup j ws ≡ none) (ground (arith, same)) d.0 in
      ground (arith, same, h, idle_workers-Spares k since ws d.1 (ground (arith, gone)))
  | inr other ↦ ground (arith, other, h, idle_workers-Spares k since ws d.1)
]

module _ (config : PoolConfig) where
  remove_idle-kept :
      (k count : ℕ) (xs : List (ℕ × ℕ)) (p : Pool)
      → Spares k xs
      → Dict.lookup k (remove_idle config count xs p).1.workers ≡ Dict.lookup k p.workers
  unfolding remove_idle
  remove_idle-kept k zero xs p a = refl
  remove_idle-kept k (suc count) [] p a = refl
  remove_idle-kept k (suc count) (x ∷ xs) p a =
      let left : Dict.lookup k (remove_worker x.0 p).workers ≡ Dict.lookup k p.workers =
        unfold remove_worker in ground (arith, a.0, lookup-remove k x.0 p.workers) in
      ground (arith, left, remove_idle-kept k count xs (remove_worker x.0 p) a.1)

  -- `scale_up` adds as many workers as are asked for and as fit below `max_workers`, and returns how
  -- many it added. `scale_down` keeps every worker that is not idle, as it is. The workers of the
  -- pool are under distinct identifiers, below the next one.
  pub scale_lem :
      (count now : ℕ) (p : Pool)
      → IsKept p
      → let up = scale_up config count now p in
        let room = config.max_workers - length p.workers in
        ((up.0 ≡ (if leb count room then count else room))
          × (length up.1.workers ≡ length p.workers + up.0))
        × ((k : ℕ) (w : Worker)
            → Dict.lookup k p.workers ≡ some w
            → in_state w.state idle ≡ false
            → Dict.lookup k (scale_down config count p).1.workers ≡ some w)
  unfolding scale_down
  scale_lem count now p kept = (
    scale_up-length config count now p kept,
    λ k w here other. ground (
      arith,
      here,
      remove_idle-kept k count _ p (
          sort_idle-Spares k _ (
            idle_workers-Spares k p.idle_since p.workers kept.keyed (ground (arith, here, other)))),
    ),
  )
