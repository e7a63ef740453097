-- ===== src/Core/Config.antt =====
-- src/job_orchestrator/core/config.py: the configuration classes, whose `validate` is in Checks.
-- Python's integers are the integers ℤ over the native numbers, its floats and their comparisons
-- are parameters, and so is `upper` of a text. A text is a number, the empty one 0. The
-- conversions from and to dictionaries, and from files and the environment, are left out.
pub mod Checks
pub mod Valid
mod Examples
use job_orchestrator.Prelude.{ℕ, Bool, true, false, Option, ltb}
use job_orchestrator.Core.Job.{JobPriority}

pub data ℤ : Type 0 where
  pos : ℕ → ℤ
  negsuc : ℕ → ℤ

unfoldable pub ltℤ : ℤ → ℤ → Bool
ltℤ (pos a) (pos b) = ltb a b
ltℤ (pos a) (negsuc b) = false
ltℤ (negsuc a) (pos b) = true
ltℤ (negsuc a) (negsuc b) = ltb b a

-- What the code uses of floats: 0 and 1, `<` and `<=`. A NaN is in neither relation to any float.
pub record Comparisons (F : Type 0) : Type 0 where
  pub nought : F
  pub one : F
  pub lt : F → F → Bool
  pub le : F → F → Bool

-- The texts that a `Literal` allows, and the others.
pub data WorkerType : Type 0 where
  thread_type : WorkerType
  process_type : WorkerType
  async_type : WorkerType
  other_type : ℕ → WorkerType

pub data Backend : Type 0 where
  memory : Backend
  redis : Backend
  postgresql : Backend
  other_backend : ℕ → Backend

pub record WorkerPoolConfig (F : Type 0) : Type 0 where
  pub min_workers : ℤ
  pub max_workers : ℤ
  pub worker_type : WorkerType
  pub scale_up_threshold : F
  pub scale_down_threshold : F
  pub scale_interval : F
  pub heartbeat_interval : F
  pub worker_timeout : F

pub record QueueConfig : Type 0 where
  pub max_size : Option ℤ
  pub default_priority : JobPriority

pub record RetryConfig (F : Type 0) : Type 0 where
  pub max_retries : ℤ
  pub base_delay : F
  pub max_delay : F
  pub exponential_base : F
  pub jitter : Bool

pub record DeadLetterQueueConfig : Type 0 where
  pub enabled : Bool
  pub max_size : ℤ
  pub auto_cleanup_days : ℤ

pub record StorageConfig : Type 0 where
  pub backend : Backend
  pub redis_url : Option ℕ
  pub redis_prefix : ℕ
  pub postgresql_url : Option ℕ
  pub postgresql_pool_size : ℤ

pub record LockConfig (F : Type 0) : Type 0 where
  pub backend : Backend
  pub default_timeout : F
  pub default_expiry : F

pub record LoggingConfig : Type 0 where
  pub level : ℕ
  pub format : ℕ
  pub log_file : Option ℕ

pub record MetricsConfig (F : Type 0) : Type 0 where
  pub enabled : Bool
  pub export_interval : F
  pub prometheus_port : Option ℤ

pub record OrchestratorConfig (F : Type 0) : Type 0 where
  pub worker_pool : WorkerPoolConfig F
  pub queue : QueueConfig
  pub retry : RetryConfig F
  pub dlq : DeadLetterQueueConfig
  pub storage : StorageConfig
  pub lock : LockConfig F
  pub logging : LoggingConfig
  pub metrics : MetricsConfig F
  pub job_timeout : F
  pub graceful_shutdown_timeout : F

-- The errors, named for the setting that the message is about.
pub data ValueError : Type 0 where
  few_workers : ValueError
  max_below_min : ValueError
  invalid_worker_type : ValueError
  scale_up_range : ValueError
  scale_down_range : ValueError
  thresholds_crossed : ValueError
  queue_max_size : ValueError
  negative_retries : ValueError
  retry_base_delay : ValueError
  retry_max_delay : ValueError
  retry_exponential_base : ValueError
  dlq_max_size : ValueError
  dlq_cleanup_days : ValueError
  invalid_backend : ValueError
  missing_redis_url : ValueError
  missing_postgresql_url : ValueError
  small_pool_size : ValueError
  lock_timeout : ValueError
  lock_expiry : ValueError
  invalid_log_level : ValueError
  metrics_interval : ValueError
  metrics_port : ValueError
  global_job_timeout : ValueError
  global_shutdown_timeout : ValueError
