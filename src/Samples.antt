-- ===== src/Samples.antt =====
-- Sample jobs for the tests of the other files.
use job_orchestrator.Prelude.{ℕ, Option, none, [], ◌∷◌, false}
use job_orchestrator.Core.Job.{Job, JobPriority, pending, RetryPolicy}

abbrev pub policy : RetryPolicy ℕ
policy = record {
  max_retries = 3;
  base_delay = 1;
  max_delay = 300;
  exponential_base = 2;
  jitter = false;
  retry_on = 0 ∷ [];
}

abbrev pub sample : (id : ℕ) → JobPriority → (scheduled_at : Option ℕ) (created_at : ℕ) → Job ℕ
sample id priority scheduled_at created_at = record {
  id = id;
  priority = priority;
  scheduled_at = scheduled_at;
  state = pending;
  attempt = 0;
  depends_on = [];
  retry_policy = policy;
  retry_count = 0;
  created_at = created_at;
  started_at = none;
  completed_at = none;
  result = none;
  error = none;
  traceback = none;
}
