-- ===== src/Core.antt =====
-- src/job_orchestrator/core: the job model, the state machine, the dependency graph and the
-- configuration.
pub mod Job
pub mod State
pub mod Dag
pub mod Config
