-- ===== src/Core/State/Transitions.antt =====
-- What one call of `transition` does on each branch, and what a series of calls can do.
use job_orchestrator.Prelude.{◌≡◌, ◌≢◌, Bool, true, false, ◌&&◌, ◌↔◌, none, some, [], arith}
use job_orchestrator.Core.Job.{JobState, Job}
use job_orchestrator.Core.State.{
  StateMachine, invalid_transition, Outside, can_transition, transition, execute_hooks,
}

module _ {F S : Type 0} (out : Outside F S) (m : StateMachine) where
  -- Whether a call persists the job, and that the write raises.
  abbrev pub save_fails : Bool → Job F → JobState → S → Bool
  save_fails persist job target store =
      persist && m.has_store && (out.update (record job { state = target }) store).1

  -- A transition succeeds exactly when it is legal and the write, if one is made, does not raise.
  -- It then hands the job in its new state to the hooks. In every other case it raises, with the
  -- job as it was and no hook called, and an illegal transition does not touch the store either.
  pub transition_atomic :
      (persist with_hooks : Bool) (job : Job F) (target : JobState) (store : S)
      → let o = transition out m persist with_hooks job target store in
        let moved = record job { state = target } in
        ((o.raised ≡ none) ↔ (
          (can_transition job.state target ≡ true) × (save_fails persist job target store ≡ false)))
        × (o.raised ≡ none
            → with_hooks ≡ true
            → (o.job ≡ (execute_hooks out m moved job.state target).job)
              × (o.calls ≡ (execute_hooks out m moved job.state target).calls))
        × (o.raised ≡ none → with_hooks ≡ false → (o.job ≡ moved) × (o.calls ≡ []))
        × (o.raised ≢ none → (o.job ≡ job) × (o.calls ≡ []))
        × (can_transition job.state target ≡ false
            → (o.raised ≡ some (invalid_transition job.id job.state target)) × (o.store ≡ store))
  unfolding transition
  transition_atomic persist with_hooks job target store =
      (ground arith, ground arith, ground arith, ground arith, ground arith)
