-- ===== src/Core/State.antt =====
-- src/job_orchestrator/core/state.py, class StateMachine. The lock makes each method atomic, so a
-- method is one step. A hook is a number, which names a callback. What a callback does to the job
-- and whether it raises is a parameter, and so is the `update` of the job store. Callbacks do not
-- register or unregister hooks while they run.
pub mod Lifecycle
pub mod Transitions
pub mod Hooks
pub mod Runs
mod Examples
use job_orchestrator.Prelude.{
  ℕ, ◌+◌, ◌≡◌, Bool, true, false, ◌&&◌, not, map, Option, none, some, List, [], ◌∷◌, ◌++◌, ◌==◌,
  if◌then◌else◌,
}
use job_orchestrator.Core.Job.{
  JobState, pending, scheduled, running, completed, failed, retrying, cancelled, timeout, Job,
  same_state, in_states,
}

unfoldable pub valid_transitions : JobState → List JobState
valid_transitions pending = scheduled ∷ cancelled ∷ []
valid_transitions scheduled = running ∷ cancelled ∷ []
valid_transitions running = completed ∷ failed ∷ retrying ∷ timeout ∷ []
valid_transitions retrying = scheduled ∷ cancelled ∷ failed ∷ []
valid_transitions timeout = retrying ∷ failed ∷ []
valid_transitions completed = []
valid_transitions failed = []
valid_transitions cancelled = []

unfoldable pub terminal_states : List JobState
terminal_states = completed ∷ failed ∷ cancelled ∷ []

unfoldable pub active_states : List JobState
active_states = pending ∷ scheduled ∷ running ∷ retrying ∷ timeout ∷ []

unfoldable pub can_transition : JobState → JobState → Bool
unfolding valid_transitions in_states
can_transition current target = in_states target (valid_transitions current)

unfoldable pub is_terminal_state : JobState → Bool
unfolding terminal_states in_states
is_terminal_state s = in_states s terminal_states

unfoldable pub is_active_state : JobState → Bool
unfolding active_states in_states
is_active_state s = in_states s active_states

-- `has_store` is the truth of the job store at the time of a call; `set_job_store` is given a store
-- that is true.
pub record StateMachine : Type 0 where
  pub state_hooks : JobState → List ℕ
  pub transition_hooks : JobState → JobState → List ℕ
  pub global_hooks : List ℕ
  pub has_store : Bool

unfoldable pub new : StateMachine
new = record {
  state_hooks = λ _. [];
  transition_hooks = λ _ _. [];
  global_hooks = [];
  has_store = false;
}

unfoldable pub set_job_store : StateMachine → StateMachine
set_job_store m = record m { has_store = true }

-- `list.remove`: the list without the first occurrence, or `none` for its ValueError.
unfoldable pub remove_first : ℕ → List ℕ → Option (List ℕ)
remove_first a [] = none
remove_first a (x ∷ xs) =
    if x == a then some xs else elim (remove_first a xs) [ none ↦ none | some r ↦ some (x ∷ r) ]

unfoldable pub register_state_hook : StateMachine → JobState → ℕ → StateMachine
register_state_hook m s c = record m {
  state_hooks = λ t. if same_state s t then m.state_hooks t ++ c ∷ [] else m.state_hooks t;
}

unfoldable pub unregister_state_hook : StateMachine → JobState → ℕ → StateMachine × Bool
unregister_state_hook m s c = elim (remove_first c (m.state_hooks s)) [
  | none ↦ (m, false)
  | some r ↦ (record m { state_hooks = λ t. if same_state s t then r else m.state_hooks t }, true)
]

unfoldable pub register_transition_hook : StateMachine → JobState → JobState → ℕ → StateMachine
register_transition_hook m s t c = record m {
  transition_hooks = λ u v.
      if same_state s u && same_state t v
      then m.transition_hooks u v ++ c ∷ []
      else m.transition_hooks u v;
}

unfoldable pub unregister_transition_hook :
    StateMachine → JobState → JobState → ℕ → StateMachine × Bool
unregister_transition_hook m s t c = elim (remove_first c (m.transition_hooks s t)) [
  | none ↦ (m, false)
  | some r ↦ (
    record m {
      transition_hooks =
          λ u v. if same_state s u && same_state t v then r else m.transition_hooks u v;
    },
    true,
  )
]

unfoldable pub register_global_hook : StateMachine → ℕ → StateMachine
register_global_hook m c = record m { global_hooks = m.global_hooks ++ c ∷ [] }

unfoldable pub unregister_global_hook : StateMachine → ℕ → StateMachine × Bool
unregister_global_hook m c = elim (remove_first c m.global_hooks) [
  | none ↦ (m, false)
  | some r ↦ (record m { global_hooks = r }, true)
]

unfoldable pub clear_hooks : StateMachine → StateMachine
clear_hooks m = record m { state_hooks = λ _. []; transition_hooks = λ _ _. []; global_hooks = [] }

-- One call of a callback, as it was made.
pub data HookCall : Type 0 where
  transition_call : (hook : ℕ) (old target : JobState) → HookCall
  state_call : (hook : ℕ) → HookCall

pub data Error : Type 0 where
  invalid_transition : (job_id : ℕ) (current target : JobState) → Error
  persist_failed : Error

-- What the hooks did: the job after them, the calls made in order, and the errors logged.
pub record Hooked (F : Type 0) : Type 0 where
  pub job : Job F
  pub calls : List HookCall
  pub logged : ℕ

-- The program around the machine: a callback returns the job as it leaves it, and whether it
-- raised; `update` of the job store returns the store, and whether it raised.
pub record Outside (F S : Type 0) : Type 0 where
  pub run_hook : HookCall → Job F → Job F × Bool
  pub update : Job F → S → S × Bool

pub record Outcome (F S : Type 0) : Type 0 where
  pub raised : Option Error
  pub job : Job F
  pub store : S
  pub calls : List HookCall

module _ {F S : Type 0} (out : Outside F S) where
  -- A `for` loop over callbacks, each in its own `try`.
  unfoldable pub run_hooks : List HookCall → Hooked F → Hooked F
  run_hooks [] h = h
  run_hooks (c ∷ cs) h =
      let (job', raised) = out.run_hook c h.job in
      run_hooks cs (record {
        job = job';
        calls = h.calls ++ c ∷ [];
        logged = if raised then h.logged + 1 else h.logged;
      })

  -- Global hooks, then those of the transition, then those of the new state.
  unfoldable pub execute_hooks : StateMachine → Job F → JobState → JobState → Hooked F
  execute_hooks m job old target =
      let start : Hooked F = record { job = job; calls = []; logged = 0 } in
      let globals = map (λ c. transition_call c old target) m.global_hooks in
      let specific = map (λ c. transition_call c old target) (m.transition_hooks old target) in
      run_hooks (map state_call (m.state_hooks target))
        (run_hooks specific (run_hooks globals start))

  unfoldable pub finish : StateMachine → Bool → Job F → JobState → JobState → S → Outcome F S
  unfolding execute_hooks
  finish m with_hooks job old target store =
      if with_hooks
      then (let h = execute_hooks m job old target in
          record { raised = none; job = h.job; store = store; calls = h.calls })
      else record { raised = none; job = job; store = store; calls = [] }

  -- A failed `update` restores the state of the job and raises again.
  unfoldable pub transition :
      StateMachine → (persist with_hooks : Bool) → Job F → JobState → S → Outcome F S
  unfolding can_transition finish
  transition m persist with_hooks job target store =
      let old = job.state in
      let job' = record job { state = target } in
      let saved = out.update job' store in
      if not (can_transition old target)
      then record {
        raised = some (invalid_transition job.id old target);
        job = job;
        store = store;
        calls = [];
      }
      else if persist && m.has_store
      then (if saved.1
          then record {
            raised = some persist_failed;
            job = record job' { state = old };
            store = saved.0;
            calls = [];
          }
          else finish m with_hooks job' old target saved.0)
      else finish m with_hooks job' old target store
