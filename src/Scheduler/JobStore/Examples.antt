-- ===== src/Scheduler/JobStore/Examples.antt =====
-- A store of two jobs.
use job_orchestrator.Prelude.{ℕ, zero, suc, ◌+◌, ◌≡◌, refl, ◌∷◌, [], none, some}
use job_orchestrator.Prelude.Dict
use job_orchestrator.Samples.{sample}
use job_orchestrator.Core.Job.{normal, completed, same_state}
use job_orchestrator.Queue.{Objects}
use job_orchestrator.Scheduler.JobStore.{
  JobStore, cleanup, cleanup_completed, is_old_completed, keys_where, delete_all,
}

-- The job at address 1 is completed.
abbrev jobs : Objects ℕ
jobs zero = sample 1 normal none 0
jobs (suc a) = record (sample (a + 2) normal none 0) { state = completed; completed_at = some 5 }

abbrev two_jobs : JobStore
two_jobs = (1, 0) ∷ (2, 1) ∷ []

program : Unit {0}
unfolding cleanup_completed cleanup is_old_completed keys_where delete_all same_state Dict.remove
program = tt

old_job_goes : cleanup_completed (some 9) jobs two_jobs ≡ (1, (1, 0) ∷ [])
unfolding program
old_job_goes = refl

young_job_stays : cleanup_completed (some 5) jobs two_jobs ≡ (0, two_jobs)
unfolding program
young_job_stays = refl
