-- ===== src/Scheduler/Runner/Runs.antt =====
-- JobRunner.run, scheduler/runner.py, by the state of the job.
use job_orchestrator.Prelude.{
  ℕ, ◌≡◌, refl, ap, ◌∙◌, Bool, true, false, none, some, [], ◌∷◌, arith, if◌then◌else◌, ==_refl, inl,
  inr, Bool-cases,
}
use job_orchestrator.Core.Job.{
  Job, JobState, pending, scheduled, running, completed, failed, retrying, cancelled, timeout,
  same_state, same_state_iff, in_states,
}
use job_orchestrator.Core.State.{can_transition, valid_transitions}
use job_orchestrator.Scheduler.Service.{World, Outcome, Error, next, move, set_job, done}
use job_orchestrator.Scheduler.Service.Moves.{after_move, move_legal}
use job_orchestrator.Scheduler.Runner.{Ran, enter_running, prepare, report, run_prepared, run}

-- The states from which `run` takes a job to RUNNING.
unfoldable pub can_start : JobState → Bool
unfolding in_states
can_start s = in_states s (pending ∷ scheduled ∷ running ∷ retrying ∷ [])

-- The state that `run` leaves the job in.
unfoldable pub state_at_call : JobState → JobState
unfolding can_start
state_at_call s = if can_start s then running else s

module _ {F : Type 0} (a : ℕ) where
  -- No transition raises, and an assignment of the state is all that happens to the job.
  abbrev IsAtCall : World F → Outcome F → Type 0
  IsAtCall w o =
      (o.raised ≡ none)
      × (o.state.objects a ≡ record (w.objects a) { state = state_at_call (w.objects a).state })

  legal_at :
      (w : World F) (s target : JobState)
      → (w.objects a).state ≡ s
      → can_transition s target ≡ true
      → move a target w ≡ done (after_move a target w)
  legal_at w s target h legal = move_legal a target w (rw h legal)

  stays :
      (w : World F) (s : JobState)
      → (w.objects a).state ≡ s
      → s ≡ state_at_call s
      → w.objects a ≡ record (w.objects a) { state = state_at_call (w.objects a).state }
  stays w s h e =
      let kept : (w.objects a).state ≡ state_at_call (w.objects a).state = rw h e in
      ap (λ t. record (w.objects a) { state = t }) kept

  -- The second part, for a job that is not PENDING.
  enter_running-IsAtCall :
      (state : JobState) (w : World F)
      → (w.objects a).state ≡ state
      → same_state state pending ≡ false
      → IsAtCall w (enter_running a state w)
  unfolding enter_running state_at_call can_start in_states same_state next can_transition
      valid_transitions
  enter_running-IsAtCall pending w h n = absurd (ground (arith, n))
  enter_running-IsAtCall scheduled w h n =
      rw (legal_at w scheduled running h refl) (refl, rw (==_refl a) (rw h refl))
  enter_running-IsAtCall running w h n = (refl, stays w running h refl)
  enter_running-IsAtCall retrying w h n =
      let v = after_move a scheduled w in
      let moved : (v.objects a).state ≡ scheduled = rw (==_refl a) refl in
      rw (legal_at w retrying scheduled h refl)
        (rw (legal_at v scheduled running moved refl) (refl, rw (==_refl a) (rw h refl)))
  enter_running-IsAtCall completed w h n = (refl, stays w completed h refl)
  enter_running-IsAtCall failed w h n = (refl, stays w failed h refl)
  enter_running-IsAtCall cancelled w h n = (refl, stays w cancelled h refl)
  enter_running-IsAtCall timeout w h n = (refl, stays w timeout h refl)

  prepare-IsAtCall : (w : World F) → IsAtCall w (prepare a w)
  unfolding prepare next
  prepare-IsAtCall w = elim (Bool-cases (same_state (w.objects a).state pending)) [
    | inr other ↦ rw other (enter_running-IsAtCall (w.objects a).state w refl other)
    | inl waits ↦
        let h = (same_state_iff (w.objects a).state pending).0 waits in
        let v = after_move a scheduled w in
        let moved : (v.objects a).state ≡ scheduled = rw (==_refl a) refl in
        let rest = enter_running-IsAtCall scheduled v moved (unfold same_state in refl) in
        let legal : can_transition pending scheduled ≡ true =
          unfold can_transition valid_transitions in_states same_state in refl in
        rw waits (
          rw (legal_at w pending scheduled h legal) (
            rw moved (
              rest.0,
              rest.1
                  ∙ (unfold state_at_call can_start in_states same_state in
                      rw (==_refl a) (rw h refl)),
            )))
  ]

  run_prepared_lem :
      {E : Type 0} (func : Job F → E → Ran × E) (describe : Error → ℕ × ℕ) (started ended : ℕ)
      (o : Outcome F) (env : E)
      → o.raised ≡ none
      → let w = set_job a (λ job. record job { started_at = some started }) o.state in
        run_prepared func describe started ended a o env ≡ (
          report (w.objects a).id started ended (func (w.objects a) env).0,
          w,
          (func (w.objects a) env).1,
        )
  unfolding run_prepared
  run_prepared_lem func describe started ended o env fine = rw fine refl

  -- `run` calls the function of the job once, in whatever state the job is, with the job as RUNNING
  -- when it was PENDING, SCHEDULED, RETRYING or RUNNING, and in its old state when it was TIMEOUT or
  -- had ended already: what it changes outside is what one such call changes. The job has then its
  -- time of start, and the result tells how the function ended; no transition raises.
  pub run_lem :
      {E : Type 0} (func : Job F → E → Ran × E) (describe : Error → ℕ × ℕ) (started ended : ℕ)
      (w : World F) (env : E)
      → let r = run func describe started ended a w env in
        let job = w.objects a in
        let called = record job { state = state_at_call job.state; started_at = some started } in
        (r.0 ≡ report job.id started ended (func called env).0)
        × (r.1.objects a ≡ called)
        × (r.2 ≡ (func called env).1)
  unfolding run
  run_lem func describe started ended w env =
      let (fine, here) = prepare-IsAtCall w in
      let o = prepare a w in
      let called : Job F = record (w.objects a) {
        state = state_at_call (w.objects a).state;
        started_at = some started;
      } in
      let there : (set_job a (λ job. record job { started_at = some started }) o.state).objects a
          ≡ called =
        unfold set_job in rw (==_refl a) (rw here refl) in
      rw (run_prepared_lem func describe started ended o env fine) (
        ap (λ (j : Job F). report j.id started ended (func j env).0) there,
        there,
        ap (λ (j : Job F). (func j env).1) there,
      )
