-- ===== src/Scheduler.antt =====
-- src/job_orchestrator/scheduler: the job store, the retry handler, the dead letter queue, the DAG
-- executor, the scheduler over them, and the runner.
pub mod Dlq
pub mod Retry
pub mod JobStore
pub mod DagExecutor
pub mod Service
pub mod Runner
