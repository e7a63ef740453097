-- ===== src/Scheduler/Service/Moves.antt =====
-- A transition as class Scheduler, scheduler/scheduler.py, makes it: by the rules of its state machine
-- and with the write to its job store, if that holds a job.
use job_orchestrator.Prelude.{
  ℕ, ◌≡◌, refl, true, false, ltb, length, if◌then◌else◌, Bool-cases, inl, inr,
}
use job_orchestrator.Prelude.Dict
use job_orchestrator.Core.Job.{Job, JobState}
use job_orchestrator.Core.State
use job_orchestrator.Core.State.{
  transition, can_transition, invalid_transition, execute_hooks, run_hooks, finish,
}
use job_orchestrator.Queue.{assign}
use job_orchestrator.Scheduler.Service.{World, illegal, move, moved, machine, outside, done, raise}

module _ {F : Type 0} (a : ℕ) (target : JobState) (w : World F) where
  -- The world after a legal transition: a store without jobs is not written to.
  abbrev pub after_move : World F
  after_move =
      let job : Job F = record (w.objects a) { state = target } in
      record w {
        objects = assign w.objects a job;
        job_store =
            if ltb 0 (length w.job_store) then Dict.insert job.id a w.job_store else w.job_store;
      }

  pub move_legal :
      can_transition (w.objects a).state target ≡ true → move a target w ≡ done after_move
  unfolding move moved machine outside transition State.finish execute_hooks run_hooks State.new
  move_legal legal = elim (Bool-cases (ltb 0 (length w.job_store))) [
    | inl kept ↦ rw legal (rw kept refl)
    | inr empty ↦ rw legal (rw empty refl)
  ]

  pub move_illegal :
      can_transition (w.objects a).state target ≡ false
      → move a target w
        ≡ raise (illegal (invalid_transition (w.objects a).id (w.objects a).state target)) w
  unfolding move moved machine outside transition
  move_illegal banned = rw banned refl
