-- ===== src/Core/State/Hooks.antt =====
-- The hooks of core/state.py: in which order they are called, and what registering does.
use job_orchestrator.Prelude.{
  ◌≡◌, ◌≤◌, refl, sym, ◌∙◌, List, [], ◌∷◌, ◌++◌, arith, map, length, length-append,
}
use native.Mathlib.Nat.{le_refl}
use mathlib.Core.List.{append_assoc, append-nil}
use job_orchestrator.Core.Job.{JobState, Job}
use job_orchestrator.Core.State.{
  StateMachine, HookCall, transition_call, state_call, Hooked, Outside, run_hooks, execute_hooks,
}

module _ {F S : Type 0} (out : Outside F S) where
  pub run_hooks-calls :
      (cs : List HookCall) (h : Hooked F) → (run_hooks out cs h).calls ≡ h.calls ++ cs
  unfolding run_hooks
  run_hooks-calls [] h = sym (append-nil h.calls)
  run_hooks-calls (c ∷ cs) h = run_hooks-calls cs _ ∙ append_assoc h.calls (c ∷ []) cs

  run_hooks-logged :
      (cs : List HookCall) (h : Hooked F)
      → h.logged ≤ length h.calls
      → (run_hooks out cs h).logged ≤ length (run_hooks out cs h).calls
  unfolding run_hooks
  run_hooks-logged [] h k = k
  run_hooks-logged (c ∷ cs) h k =
      run_hooks-logged cs _ (ground (arith, length-append h.calls (c ∷ [])))

  -- Every registered hook that applies is called, once for each registration, whether or not the
  -- callbacks before it raise: first the global hooks, then those of this transition, then those
  -- of the state entered. At most one error is logged for each call.
  pub execute_hooks-calls :
      (m : StateMachine) (job : Job F) (old target : JobState)
      → ((execute_hooks out m job old target).calls
          ≡ map (λ c. transition_call c old target) m.global_hooks
            ++ (map (λ c. transition_call c old target) (m.transition_hooks old target)
                ++ map state_call (m.state_hooks target)))
        × ((execute_hooks out m job old target).logged
            ≤ length (execute_hooks out m job old target).calls)
  unfolding execute_hooks
  execute_hooks-calls m job old target = (
    simp (run_hooks-calls, append_assoc),
    run_hooks-logged _ _ (run_hooks-logged _ _ (run_hooks-logged _ _ (le_refl 0))),
  )

  -- A callback that leaves the state of the job alone.
  abbrev pub KeepsState : Type 0
  KeepsState = (c : HookCall) (job : Job F) → (out.run_hook c job).0.state ≡ job.state

  run_hooks-state :
      KeepsState
      → (cs : List HookCall) (h : Hooked F) → (run_hooks out cs h).job.state ≡ h.job.state
  unfolding run_hooks
  run_hooks-state keep [] h = refl
  run_hooks-state keep (c ∷ cs) h = run_hooks-state keep cs _ ∙ keep c h.job

  pub execute_hooks-state :
      KeepsState
      → (m : StateMachine) (job : Job F) (old target : JobState)
      → (execute_hooks out m job old target).job.state ≡ job.state
  unfolding execute_hooks
  execute_hooks-state keep m job old target =
      run_hooks-state keep _ _ ∙ (run_hooks-state keep _ _ ∙ run_hooks-state keep _ _)
