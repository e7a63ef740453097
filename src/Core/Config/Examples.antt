-- ===== src/Core/Config/Examples.antt =====
-- The default configuration and wrong ones, src/job_orchestrator/core/config.py, with floats in
-- tenths.
use job_orchestrator.Prelude.{ℕ, ◌≡◌, refl, true, none, some, ltb, leb}
use job_orchestrator.Core.Job.{normal}
use job_orchestrator.Core.Config.{
  pos, negsuc, ltℤ, Comparisons, thread_type, memory, redis, OrchestratorConfig, max_below_min,
  negative_retries, missing_redis_url,
}
use job_orchestrator.Core.Config.Checks.{
  raise_if, first_raised, is_worker_type, is_backend, is_redis, is_postgresql, is_blank, is_level,
  below, above, validate_queue, validate_dlq, validate_storage, validate_logging, is_out_of_unit,
  validate_worker_pool, validate_retry, validate_lock, validate_metrics, validate,
}

abbrev tenths : Comparisons ℕ
tenths = record { nought = 0; one = 10; lt = ltb; le = leb }

abbrev no_change : ℕ → ℕ
no_change text = text

abbrev defaults : OrchestratorConfig ℕ
defaults = record {
  worker_pool = record {
    min_workers = pos 2;
    max_workers = pos 10;
    worker_type = thread_type;
    scale_up_threshold = 8;
    scale_down_threshold = 2;
    scale_interval = 100;
    heartbeat_interval = 50;
    worker_timeout = 3000;
  };
  queue = record { max_size = none; default_priority = normal };
  retry = record {
    max_retries = pos 3;
    base_delay = 10;
    max_delay = 3000;
    exponential_base = 20;
    jitter = true;
  };
  dlq = record { enabled = true; max_size = pos 10000; auto_cleanup_days = pos 7 };
  storage = record {
    backend = memory;
    redis_url = none;
    redis_prefix = 7;
    postgresql_url = none;
    postgresql_pool_size = pos 5;
  };
  lock = record { backend = memory; default_timeout = 300; default_expiry = 600 };
  logging = record { level = 2; format = 8; log_file = none };
  metrics = record { enabled = true; export_interval = 600; prometheus_port = none };
  job_timeout = 36000;
  graceful_shutdown_timeout = 300;
}

program : Unit {0}
unfolding ltℤ raise_if first_raised is_worker_type is_backend is_redis is_postgresql is_blank
    is_level below above validate_queue validate_dlq validate_storage validate_logging
    is_out_of_unit validate_worker_pool validate_retry validate_lock validate_metrics validate
program = tt

defaults_pass : validate tenths no_change defaults ≡ none
unfolding program
defaults_pass = refl

max_below_min_raises :
    validate tenths no_change
      (record defaults { worker_pool = record defaults.worker_pool { max_workers = pos 1 } })
    ≡ some max_below_min
unfolding program
max_below_min_raises = refl

-- The address of Redis is the empty text.
redis_raises :
    validate tenths no_change (record defaults {
      storage = record defaults.storage { backend = redis; redis_url = some 0 };
    })
    ≡ some missing_redis_url
unfolding program
redis_raises = refl

-- Of two errors the earlier one is raised.
first_raises :
    validate tenths no_change (record defaults {
      retry = record defaults.retry { max_retries = negsuc 0 };
      metrics = record defaults.metrics { prometheus_port = some (pos 65536) };
    })
    ≡ some negative_retries
unfolding program
first_raises = refl
