-- ===== src/Scheduler/Service/Cancel.antt =====
-- Scheduler.cancel_job, scheduler/scheduler.py, by how it ends.
use job_orchestrator.Prelude.{ℕ, ◌≡◌, refl, true, false, none, some, List, [], ◌∷◌, arith, ==_refl}
use job_orchestrator.Prelude.Ids
use job_orchestrator.Core.Job.{
  JobState, pending, scheduled, running, completed, failed, retrying, cancelled, timeout, in_states,
  same_state,
}
use job_orchestrator.Core.State.{can_transition, valid_transitions}
use job_orchestrator.Queue.{Queue, is_queued, mark_removed, assign}
use job_orchestrator.Queue
use job_orchestrator.Queue.Methods
use job_orchestrator.Scheduler.JobStore
use job_orchestrator.Scheduler.Service.{
  World, cancel_job, cancel_found, next, set_job, job_not_found, done,
}
use job_orchestrator.Scheduler.Service.Moves.{after_move, move_legal}

pub is_queued-remove : (id : ℕ) (q : Queue) → is_queued id (Queue.Methods.remove id q).1 ≡ false
unfolding Queue.Methods.remove mark_removed is_queued
is_queued-remove id q = ground (arith, Ids.contains-add id id q.removed)

-- The states that `cancel_job` accepts.
abbrev pub waiting : List JobState
waiting = pending ∷ scheduled ∷ retrying ∷ []

waiting_legal :
    (state : JobState) → in_states state waiting ≡ true → can_transition state cancelled ≡ true
unfolding in_states same_state can_transition valid_transitions
waiting_legal pending h = refl
waiting_legal scheduled h = refl
waiting_legal retrying h = refl
waiting_legal running h = h
waiting_legal completed h = h
waiting_legal failed h = h
waiting_legal cancelled h = h
waiting_legal timeout h = h

module _ {F : Type 0} (id now : ℕ) (w : World F) where
  cancel_waiting :
      (a : ℕ)
      → in_states (w.objects a).state waiting ≡ true
      → let removed = record w { queue = (Queue.Methods.remove id w.queue).1 } in
        cancel_found now (some a) id w ≡ (
          true,
          done (
              set_job a
                (λ job. record job { completed_at = some now })
                (after_move a cancelled removed)),
        )
  unfolding cancel_found
  cancel_waiting a h =
      let removed = record w { queue = (Queue.Methods.remove id w.queue).1 } in
      rw h (
        rw (move_legal a cancelled removed (waiting_legal (w.objects a).state h))
          (unfold next in refl))

  -- `cancel_job` raises for an identifier that is not stored. For a job that is not PENDING,
  -- SCHEDULED or RETRYING it returns false. Both change nothing. In all other cases it returns true,
  -- never raises, and the job is CANCELLED, has its time of completion, and is not queued any more;
  -- the executor of its DAG hears nothing of it.
  pub cancel_job_lem :
      let r = cancel_job id now w in
      (JobStore.get id w.job_store ≡ none
        → (r.1.raised ≡ some (job_not_found id)) × (r.1.state ≡ w))
      × ((a : ℕ)
          → JobStore.get id w.job_store ≡ some a
          → in_states (w.objects a).state waiting ≡ false
          → (r.0 ≡ false) × (r.1.raised ≡ none) × (r.1.state ≡ w))
      × ((a : ℕ)
          → JobStore.get id w.job_store ≡ some a
          → in_states (w.objects a).state waiting ≡ true
          → (r.0 ≡ true)
            × (r.1.raised ≡ none)
            × (r.1.state.objects a
                ≡ record (w.objects a) { state = cancelled; completed_at = some now })
            × (is_queued id r.1.state.queue ≡ false)
            × (r.1.state.executor ≡ w.executor))
  unfolding cancel_job
  cancel_job_lem = (
    λ absent. rw absent (unfold cancel_found in (refl, refl)),
    λ a found busy. rw found (unfold cancel_found in rw busy (refl, refl, refl)),
    λ a found h. rw found (
        rw (cancel_waiting a h) (
          refl,
          refl,
          unfold set_job in rw (==_refl a) refl,
          unfold set_job in is_queued-remove id w.queue,
          unfold set_job in refl,
        )),
  )
