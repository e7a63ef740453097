-- ===== src/Core/State/Lifecycle.antt =====
-- The transition diagram of core/state.py.
use job_orchestrator.Prelude.{◌≡◌, refl, true, false, not, ◌↔◌, arith}
use job_orchestrator.Core.Job.{
  JobState, pending, scheduled, running, completed, failed, retrying, cancelled, timeout, Job,
  is_terminal, is_active,
}
use job_orchestrator.Core.State.{can_transition, is_terminal_state, is_active_state}

infix 40 ◌⟶*◌
pub data ◌⟶*◌ : JobState → JobState → Type 0 where
  here : {s : JobState} → s ⟶* s
  next : (s t : JobState) {u : JobState} → can_transition s t ≡ true → t ⟶* u → s ⟶* u

abbrev IsStuck : JobState → Type 0
IsStuck s = (t : JobState) → can_transition s t ≡ false

terminal-IsStuck : (s : JobState) → is_terminal_state s ≡ true → IsStuck s
unfolding is_terminal_state can_transition
terminal-IsStuck completed h t = refl
terminal-IsStuck failed h t = refl
terminal-IsStuck cancelled h t = refl
terminal-IsStuck _ h t = cc

IsStuck-terminal : (s : JobState) → IsStuck s → is_terminal_state s ≡ true
unfolding is_terminal_state can_transition
IsStuck-terminal pending h = cc (h scheduled)
IsStuck-terminal scheduled h = cc (h running)
IsStuck-terminal running h = cc (h completed)
IsStuck-terminal retrying h = cc (h scheduled)
IsStuck-terminal timeout h = cc (h retrying)
IsStuck-terminal _ h = refl

active_not_terminal : (s : JobState) → is_active_state s ≡ not (is_terminal_state s)
unfolding is_active_state is_terminal_state
active_not_terminal s = ground arith

-- The terminal states are exactly those that no transition leaves, every state is either terminal
-- or active and never both, and the two properties of a job agree with the two static methods of
-- the machine.
pub terminal_iff_stuck :
    {F : Type 0} (job : Job F)
    → ((is_terminal_state job.state ≡ true) ↔ ((t : JobState) → can_transition job.state t ≡ false))
      × (is_active_state job.state ≡ not (is_terminal_state job.state))
      × (is_terminal job ≡ is_terminal_state job.state)
      × (is_active job ≡ is_active_state job.state)
unfolding is_terminal is_active is_terminal_state is_active_state
terminal_iff_stuck job = (
  (terminal-IsStuck job.state, IsStuck-terminal job.state),
  active_not_terminal job.state,
  refl,
  refl,
)

reach_running : (s : JobState) → is_active_state s ≡ true → s ⟶* running
unfolding is_active_state can_transition
reach_running pending h = next pending scheduled refl (next scheduled running refl here)
reach_running scheduled h = next scheduled running refl here
reach_running running h = here
reach_running retrying h = next retrying scheduled refl (next scheduled running refl here)
reach_running timeout h =
    next timeout retrying refl (next retrying scheduled refl (next scheduled running refl here))
reach_running _ h = cc

trans : {s t u : JobState} → s ⟶* t → t ⟶* u → s ⟶* u
trans here q = q
trans (next s t h p) q = next s t h (trans p q)

-- From every active state each of the three terminal states can still be reached.
pub active_reaches_terminal :
    (s t : JobState) → is_active_state s ≡ true → is_terminal_state t ≡ true → s ⟶* t
unfolding can_transition is_terminal_state
active_reaches_terminal s completed h k =
    trans (reach_running s h) (next running completed refl here)
active_reaches_terminal s failed h k = trans (reach_running s h) (next running failed refl here)
active_reaches_terminal s cancelled h k =
    trans (reach_running s h) (next running retrying refl (next retrying cancelled refl here))
active_reaches_terminal s _ h k = cc
