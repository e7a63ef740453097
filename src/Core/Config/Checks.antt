-- ===== src/Core/Config/Checks.antt =====
-- `validate` of the configuration classes, src/job_orchestrator/core/config.py: the first test that
-- fails raises.
use job_orchestrator.Prelude.{
  ℕ, Bool, true, false, ◌||◌, ◌&&◌, not, Option, none, some, ◌==◌, if◌then◌else◌,
}
use job_orchestrator.Core.Config.{
  ℤ, pos, ltℤ, Comparisons, WorkerType, thread_type, process_type, async_type, other_type, Backend,
  memory, redis, postgresql, other_backend, WorkerPoolConfig, QueueConfig, RetryConfig,
  DeadLetterQueueConfig, StorageConfig, LockConfig, LoggingConfig, MetricsConfig,
  OrchestratorConfig, ValueError, few_workers, max_below_min, invalid_worker_type, scale_up_range,
  scale_down_range, thresholds_crossed, queue_max_size, negative_retries, retry_base_delay,
  retry_max_delay, retry_exponential_base, dlq_max_size, dlq_cleanup_days, invalid_backend,
  missing_redis_url, missing_postgresql_url, small_pool_size, lock_timeout, lock_expiry,
  invalid_log_level, metrics_interval, metrics_port, global_job_timeout, global_shutdown_timeout,
}

-- `if bad: raise error`, and what follows it.
unfoldable pub raise_if : Bool → ValueError → Option ValueError → Option ValueError
raise_if bad error rest = if bad then some error else rest

-- A call that may raise, and what follows it.
unfoldable pub first_raised : Option ValueError → Option ValueError → Option ValueError
first_raised none rest = rest
first_raised (some error) rest = some error

unfoldable pub is_worker_type : WorkerType → Bool
is_worker_type (other_type text) = false
is_worker_type thread_type = true
is_worker_type process_type = true
is_worker_type async_type = true

unfoldable pub is_backend : Backend → Bool
is_backend (other_backend text) = false
is_backend memory = true
is_backend redis = true
is_backend postgresql = true

unfoldable pub is_redis : Backend → Bool
is_redis redis = true
is_redis _ = false

unfoldable pub is_postgresql : Backend → Bool
is_postgresql postgresql = true
is_postgresql _ = false

-- `not url`: none, or the empty text.
unfoldable pub is_blank : Option ℕ → Bool
is_blank none = true
is_blank (some url) = url == 0

-- The texts DEBUG, INFO, WARNING, ERROR and CRITICAL.
unfoldable pub is_level : ℕ → Bool
is_level text = (text == 1) || (text == 2) || (text == 3) || (text == 4) || (text == 5)

-- A bound on a setting that may be missing.
unfoldable pub below : Option ℤ → ℕ → Bool
below none n = false
below (some z) n = ltℤ z (pos n)

unfoldable pub above : Option ℤ → ℕ → Bool
above none n = false
above (some z) n = ltℤ (pos n) z

unfoldable pub validate_queue : QueueConfig → Option ValueError
unfolding raise_if below
validate_queue c = raise_if (below c.max_size 1) queue_max_size none

unfoldable pub validate_dlq : DeadLetterQueueConfig → Option ValueError
unfolding raise_if
validate_dlq c =
    raise_if (ltℤ c.max_size (pos 1)) dlq_max_size
      (raise_if (ltℤ c.auto_cleanup_days (pos 1)) dlq_cleanup_days none)

unfoldable pub validate_storage : StorageConfig → Option ValueError
unfolding raise_if
validate_storage c = raise_if (not (is_backend c.backend)) invalid_backend (
    raise_if (is_redis c.backend && is_blank c.redis_url) missing_redis_url (
      raise_if (is_postgresql c.backend && is_blank c.postgresql_url) missing_postgresql_url
        (raise_if (ltℤ c.postgresql_pool_size (pos 1)) small_pool_size none)))

unfoldable pub validate_logging : (upper : ℕ → ℕ) → LoggingConfig → Option ValueError
validate_logging upper c = raise_if (not (is_level (upper c.level))) invalid_log_level none

module _ {F : Type 0} (fl : Comparisons F) where
  -- `not 0 <= x <= 1`
  unfoldable pub is_out_of_unit : F → Bool
  is_out_of_unit x = not (fl.le fl.nought x && fl.le x fl.one)

  unfoldable pub validate_worker_pool : WorkerPoolConfig F → Option ValueError
  validate_worker_pool c = raise_if (ltℤ c.min_workers (pos 1)) few_workers (
      raise_if (ltℤ c.max_workers c.min_workers) max_below_min (
        raise_if (not (is_worker_type c.worker_type)) invalid_worker_type (
          raise_if (is_out_of_unit c.scale_up_threshold) scale_up_range (
            raise_if (is_out_of_unit c.scale_down_threshold) scale_down_range (
              raise_if (fl.lt c.scale_up_threshold c.scale_down_threshold) thresholds_crossed
                none)))))

  unfoldable pub validate_retry : RetryConfig F → Option ValueError
  validate_retry c = raise_if (ltℤ c.max_retries (pos 0)) negative_retries (
      raise_if (fl.le c.base_delay fl.nought) retry_base_delay (
        raise_if (fl.lt c.max_delay c.base_delay) retry_max_delay
          (raise_if (fl.lt c.exponential_base fl.one) retry_exponential_base none)))

  unfoldable pub validate_lock : LockConfig F → Option ValueError
  validate_lock c = raise_if (not (is_backend c.backend)) invalid_backend (
      raise_if (fl.le c.default_timeout fl.nought) lock_timeout
        (raise_if (fl.le c.default_expiry fl.nought) lock_expiry none))

  unfoldable pub validate_metrics : MetricsConfig F → Option ValueError
  validate_metrics c =
      raise_if (fl.le c.export_interval fl.nought) metrics_interval
        (raise_if (below c.prometheus_port 1 || above c.prometheus_port 65535) metrics_port none)

  unfoldable pub validate : (upper : ℕ → ℕ) → OrchestratorConfig F → Option ValueError
  validate upper c = first_raised (validate_worker_pool c.worker_pool) (
      first_raised (validate_queue c.queue) (
        first_raised (validate_retry c.retry) (
          first_raised (validate_dlq c.dlq) (
            first_raised (validate_storage c.storage) (
              first_raised (validate_lock c.lock) (
                first_raised (validate_logging upper c.logging) (
                  first_raised (validate_metrics c.metrics) (
                    raise_if (fl.le c.job_timeout fl.nought) global_job_timeout (
                      raise_if (fl.le c.graceful_shutdown_timeout fl.nought) global_shutdown_timeout
                        none)))))))))
