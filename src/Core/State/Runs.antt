-- ===== src/Core/State/Runs.antt =====
-- A series of transitions requested of one job.
use job_orchestrator.Prelude.{
  ◌≡◌, ◌≢◌, refl, Bool, true, false, none, List, [], ◌∷◌, arith, In, is_some, if◌then◌else◌, inl,
  inr, Option-cases, ◌⊎◌, ap, ◌∙◌, subst,
}
use job_orchestrator.Core.Job.{JobState, running, completed, Job}
use job_orchestrator.Core.State.{
  StateMachine, Outside, can_transition, is_terminal_state, transition,
}
use job_orchestrator.Core.State.Lifecycle.{terminal_iff_stuck}
use job_orchestrator.Core.State.Transitions.{transition_atomic}
use job_orchestrator.Core.State.Hooks.{KeepsState, execute_hooks-state}

pub record Request : Type 0 where
  pub target : JobState
  pub persist : Bool
  pub with_hooks : Bool

pub record Run (F S : Type 0) : Type 0 where
  pub job : Job F
  pub store : S
  pub visited : List JobState

module _ {F S : Type 0} (out : Outside F S) (m : StateMachine) where
  -- The states entered by a series of calls; the caller ignores those that raise.
  unfoldable pub drive : List Request → Job F → S → Run F S
  drive [] job store = record { job = job; store = store; visited = [] }
  drive (r ∷ rs) job store =
      let o = transition out m r.persist r.with_hooks job r.target store in
      let rest = drive rs o.job o.store in
      if is_some o.raised then rest else record rest { visited = r.target ∷ rest.visited }

  -- A job in a terminal state is never changed again, whatever is requested, whatever the hooks
  -- and the store do.
  pub drive_terminal :
      (rs : List Request) (job : Job F) (store : S)
      → is_terminal_state job.state ≡ true
      → ((drive rs job store).job ≡ job)
        × ((drive rs job store).visited ≡ [])
        × ((drive rs job store).store ≡ store)
  unfolding drive
  drive_terminal [] job store h = (refl, refl, refl)
  drive_terminal (r ∷ rs) job store h =
      let refused = (terminal_iff_stuck job).0.0 h r.target in
      let step = transition_atomic out m r.persist r.with_hooks job r.target store in
      let o = transition out m r.persist r.with_hooks job r.target store in
      ground (arith, refused, step.3, step.4, drive_terminal rs o.job o.store)

  transition-state :
      KeepsState out
      → (persist with_hooks : Bool) (job : Job F) (target : JobState) (store : S)
      → let o = transition out m persist with_hooks job target store in
        o.raised ≡ none → (o.job.state ≡ target) × (can_transition job.state target ≡ true)
  transition-state keep persist true job target store e =
      let step = transition_atomic out m persist true job target store in
      let moved = record job { state = target } in
      (
        ap (λ (j : Job F). j.state) (step.1 e refl).0
            ∙ execute_hooks-state out keep m moved job.state target,
        (step.0.0 e).0,
      )
  transition-state keep persist false job target store e =
      let step = transition_atomic out m persist false job target store in
      (ap (λ (j : Job F). j.state) (step.2 e refl).0, (step.0.0 e).0)

-- From `s`, through the listed states in turn, by legal transitions, to `t`.
abbrev pub IsPath : JobState → List JobState → JobState → Type 0
IsPath s [] t = s ≡ t
IsPath s (u ∷ us) t = (can_transition s u ≡ true) × IsPath u us t

module _ {F S : Type 0} (out : Outside F S) (m : StateMachine) where
  -- If no callback assigns the state of a job, then the states that a series of requests makes a
  -- job enter form a legal path of the diagram, from its first state to its last.
  pub drive-IsPath :
      KeepsState out
      → (rs : List Request) (job : Job F) (store : S)
      → let r = drive out m rs job store in IsPath job.state r.visited r.job.state
  unfolding drive
  drive-IsPath keep [] job store = refl
  drive-IsPath keep (r ∷ rs) job store =
      let o = transition out m r.persist r.with_hooks job r.target store in
      let step = transition_atomic out m r.persist r.with_hooks job r.target store in
      let rest = drive-IsPath keep rs o.job o.store in
      let ran = drive out m rs o.job o.store in
      elim (Option-cases o.raised) [
        | inl e ↦
            let (moved, legal) =
              transition-state out m keep r.persist r.with_hooks job r.target store e in
            rw e (legal, subst (λ s. IsPath s ran.visited ran.job.state) moved rest)
        | inr (x, e) ↦
            let same = (step.3 (λ n. cc)).0 in
            rw e (subst (λ (j : Job F). IsPath j.state ran.visited ran.job.state) same rest)
      ]

-- A legal path to `completed` that does not start there enters `running`.
path_needs_running :
    (us : List JobState) (s : JobState)
    → IsPath s us completed
    → (s ≡ completed) ⊎ (s ≡ running) ⊎ In running us
unfolding can_transition
path_needs_running [] s p = inl p
path_needs_running (u ∷ us) s p = ground (arith, path_needs_running us u p.1)

-- If no callback assigns the state of a job, a job that starts neither completed nor running ends
-- up completed only if some request made it enter `running`.
pub completed_needs_running :
    {F S : Type 0} (out : Outside F S) (m : StateMachine)
    → KeepsState out
    → (rs : List Request) (job : Job F) (store : S) → job.state ≢ completed
    → job.state ≢ running
    → (drive out m rs job store).job.state ≡ completed
    → In running (drive out m rs job store).visited
completed_needs_running out m keep rs job store h k e =
    let ran = drive out m rs job store in
    let path = subst (IsPath job.state ran.visited) e (drive-IsPath out m keep rs job store) in
    elim (path_needs_running ran.visited job.state path) [
      | inl c ↦ absurd (h c)
      | inr (inl r) ↦ absurd (k r)
      | inr (inr v) ↦ v
    ]
