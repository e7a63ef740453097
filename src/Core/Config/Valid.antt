-- ===== src/Core/Config/Valid.antt =====
-- `validate` of the configuration classes, src/job_orchestrator/core/config.py, and the ranges that
-- the settings are meant to have.
use job_orchestrator.Prelude.{ℕ, ◌≤◌, ◌≡◌, ◌≢◌, true, false, Option, none, some}
use job_orchestrator.Core.Config.{
  ℤ, pos, negsuc, Comparisons, WorkerType, other_type, Backend, redis, postgresql, other_backend,
  WorkerPoolConfig, RetryConfig, StorageConfig, OrchestratorConfig,
}

-- The order of the integers.
infix 50 ◌≤ℤ◌
unfoldable pub ◌≤ℤ◌ : ℤ → ℤ → Type 0
pos a ≤ℤ pos b = a ≤ b
pos a ≤ℤ negsuc b = ⊥
negsuc a ≤ℤ pos b = Unit
negsuc a ≤ℤ negsuc b = b ≤ a

-- A setting that may be missing is in a range when it is given.
unfoldable pub IsWithin : (P : ℤ → Type 0) → Option ℤ → Type 0
IsWithin P none = Unit
IsWithin P (some z) = P z

unfoldable pub IsGiven : Option ℕ → Type 0
IsGiven none = ⊥
IsGiven (some url) = url ≢ 0

unfoldable pub IsKnownType : WorkerType → Type 0
IsKnownType t = (text : ℕ) → t ≢ other_type text

unfoldable pub IsKnownBackend : Backend → Type 0
IsKnownBackend b = (text : ℕ) → b ≢ other_backend text

unfoldable pub IsValidStorage : StorageConfig → Type 0
IsValidStorage c =
    IsKnownBackend c.backend
    × ((c.backend ≡ redis → IsGiven c.redis_url)
        × ((c.backend ≡ postgresql → IsGiven c.postgresql_url) × (pos 1 ≤ℤ c.postgresql_pool_size)))

module _ {F : Type 0} (fl : Comparisons F) where
  unfoldable pub IsFraction : F → Type 0
  IsFraction x = (fl.le fl.nought x ≡ true) × (fl.le x fl.one ≡ true)

  unfoldable pub IsValidPool : WorkerPoolConfig F → Type 0
  IsValidPool c =
      (pos 1 ≤ℤ c.min_workers)
      × ((c.min_workers ≤ℤ c.max_workers)
          × (IsKnownType c.worker_type
              × (IsFraction c.scale_up_threshold
                  × (IsFraction c.scale_down_threshold
                      × (fl.lt c.scale_up_threshold c.scale_down_threshold ≡ false)))))

  unfoldable pub IsValidRetry : RetryConfig F → Type 0
  IsValidRetry c =
      (pos 0 ≤ℤ c.max_retries)
      × ((fl.le c.base_delay fl.nought ≡ false)
          × ((fl.lt c.max_delay c.base_delay ≡ false) × (fl.lt c.exponential_base fl.one ≡ false)))

  unfoldable pub IsValid : (upper : ℕ → ℕ) → OrchestratorConfig F → Type 0
  IsValid upper c =
      IsValidPool c.worker_pool
      × (IsWithin (λ size. pos 1 ≤ℤ size) c.queue.max_size
          × (IsValidRetry c.retry
              × (((pos 1 ≤ℤ c.dlq.max_size) × (pos 1 ≤ℤ c.dlq.auto_cleanup_days))
                  × (IsValidStorage c.storage
                      × ((IsKnownBackend c.lock.backend
                            × ((fl.le c.lock.default_timeout fl.nought ≡ false)
                                × (fl.le c.lock.default_expiry fl.nought ≡ false)))
                          × (((1 ≤ upper c.logging.level) × (upper c.logging.level ≤ 5))
                              × (((fl.le c.metrics.export_interval fl.nought ≡ false)
                                    × IsWithin (λ port. (pos 1 ≤ℤ port) × (port ≤ℤ pos 65535))
                                        c.metrics.prometheus_port)
                                  × ((fl.le c.job_timeout fl.nought ≡ false)
                                      × (fl.le c.graceful_shutdown_timeout fl.nought
                                          ≡ false)))))))))
