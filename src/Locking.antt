-- ===== src/Locking.antt =====
-- src/job_orchestrator/locking: the lease record of base.py and the lock manager of memory.py.
pub mod Memory
