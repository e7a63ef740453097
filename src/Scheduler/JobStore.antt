-- ===== src/Scheduler/JobStore.antt =====
-- src/job_orchestrator/scheduler/job_store.py, class JobStore. Its lock makes each method one step.
-- A store keeps the addresses of job objects under identifiers, and the objects are shared with the
-- rest of the program. The alias of a method is not repeated: `remove` is `delete`, `get_ready_scheduled`
-- is `get_ready_scheduled_jobs`, `get_scheduled_jobs` is `get_scheduled`, `__contains__` is `contains`.
pub mod Cleanup
mod Examples
use job_orchestrator.Prelude.{
  ℕ, ◌+◌, Bool, true, false, ◌&&◌, not, Option, none, some, List, [], ◌∷◌, ◌==◌, ltb, leb, is_some,
  if◌then◌else◌, length, filter, map,
}
use job_orchestrator.Prelude.Dict
use job_orchestrator.Prelude.Dict.{Dict}
use job_orchestrator.Core.Job.{
  Job, JobState, JobPriority, pending, scheduled, running, completed, failed, retrying, cancelled,
  timeout, priority_value, same_state,
}
use job_orchestrator.Queue.{Objects, assign}

abbrev pub JobStore : Type 0
JobStore = Dict ℕ

unfoldable pub new : JobStore
new = []

unfoldable pub is_empty : JobStore → Bool
is_empty st = length st == 0

unfoldable pub get : ℕ → JobStore → Option ℕ
get id st = Dict.lookup id st

unfoldable pub contains : ℕ → JobStore → Bool
contains id st = Dict.has_key id st

unfoldable pub delete : ℕ → JobStore → Bool × JobStore
delete id st = if Dict.has_key id st then (true, Dict.remove id st) else (false, st)

-- `get_all` and `__iter__`
unfoldable pub get_all : JobStore → List ℕ
get_all st = Dict.values st

unfoldable pub clear : JobStore → ℕ × JobStore
clear st = (length st, [])

unfoldable pub size : JobStore → ℕ
size st = length st

-- `del self._jobs[id]` for each identifier of a list.
unfoldable pub delete_all : List ℕ → JobStore → JobStore
delete_all [] st = st
delete_all (id ∷ ids) st = delete_all ids (Dict.remove id st)

unfoldable pub earlier : Option ℕ → Option ℕ → Option ℕ
earlier none t = t
earlier (some s) none = some s
earlier (some s) (some t) = some (if ltb t s then t else s)

unfoldable pub all_states : List JobState
all_states =
    pending ∷ scheduled ∷ running ∷ completed ∷ failed ∷ retrying ∷ cancelled ∷ timeout ∷ []

module _ {F : Type 0} where
  unfoldable pub add : Objects F → ℕ → JobStore → JobStore
  add objs a st = Dict.insert (objs a).id a st

  -- A second name for the same assignment.
  unfoldable pub update : Objects F → ℕ → JobStore → JobStore
  update objs a st = Dict.insert (objs a).id a st

  unfoldable pub select : (Job F → Bool) → Objects F → JobStore → List ℕ
  select test objs st = filter (λ a. test (objs a)) (Dict.values st)

  -- `get_pending`, `get_running`, `get_completed` and `get_failed` are this at their states.
  unfoldable pub get_by_state : JobState → Objects F → JobStore → List ℕ
  unfolding select
  get_by_state state objs st = select (λ job. same_state job.state state) objs st

  unfoldable pub get_by_priority : JobPriority → Objects F → JobStore → List ℕ
  unfolding select
  get_by_priority p objs st =
      select (λ job. priority_value job.priority == priority_value p) objs st

  unfoldable pub get_scheduled : Objects F → JobStore → List ℕ
  unfolding select
  get_scheduled objs st = select (λ job. is_some job.scheduled_at) objs st

  unfoldable pub is_due : ℕ → Job F → Bool
  is_due now job = elim job.scheduled_at [ none ↦ false | some t ↦ leb t now ]

  unfoldable pub get_ready_scheduled_jobs : (now : ℕ) → Objects F → JobStore → List ℕ
  unfolding select
  get_ready_scheduled_jobs now objs st = select (is_due now) objs st

  unfoldable pub earliest : Objects F → List ℕ → Option ℕ
  unfolding earlier
  earliest objs [] = none
  earliest objs (a ∷ rest) = earlier (objs a).scheduled_at (earliest objs rest)

  unfoldable pub get_next_scheduled_time : Objects F → JobStore → Option ℕ
  unfolding earliest
  get_next_scheduled_time objs st = earliest objs (Dict.values st)

  -- The identifiers whose job passes a test.
  unfoldable pub keys_where : (Job F → Bool) → Objects F → JobStore → List ℕ
  keys_where test objs [] = []
  keys_where test objs ((id, a) ∷ st) =
      let rest = keys_where test objs st in if test (objs a) then id ∷ rest else rest

  unfoldable pub cleanup : (Job F → Bool) → Objects F → JobStore → ℕ × JobStore
  unfolding keys_where delete_all
  cleanup test objs st =
      let to_remove = keys_where test objs st in (length to_remove, delete_all to_remove st)

  unfoldable pub is_old_completed : (older_than : Option ℕ) → Job F → Bool
  is_old_completed older_than job = same_state job.state completed && elim older_than [
    | none ↦ true
    | some limit ↦ elim job.completed_at [ none ↦ false | some t ↦ ltb t limit ]
  ]

  unfoldable pub cleanup_completed : (older_than : Option ℕ) → Objects F → JobStore → ℕ × JobStore
  unfolding cleanup is_old_completed
  cleanup_completed older_than objs st = cleanup (is_old_completed older_than) objs st

  unfoldable pub cleanup_old_jobs : (older_than : ℕ) → Objects F → JobStore → ℕ × JobStore
  unfolding cleanup
  cleanup_old_jobs older_than objs st = cleanup (λ job. ltb job.created_at older_than) objs st

  -- The threshold is the clock less the greatest age.
  unfoldable pub is_older : (threshold : ℕ) → Job F → Bool
  is_older threshold job =
      ltb (elim job.completed_at [ none ↦ job.created_at | some t ↦ t ]) threshold

  unfoldable pub cleanup_older_than : (threshold : ℕ) → Objects F → JobStore → ℕ × JobStore
  unfolding cleanup is_older
  cleanup_older_than threshold objs st = cleanup (is_older threshold) objs st

  unfoldable pub count_by_state : JobState → Objects F → JobStore → ℕ
  count_by_state state objs st = length (get_by_state state objs st)

  unfoldable pub tally : List JobState → Objects F → JobStore → List (JobState × ℕ)
  tally [] objs st = []
  tally (state ∷ states) objs st =
      let rest = tally states objs st in
      let count = count_by_state state objs st in
      if ltb 0 count then (state, count) ∷ rest else rest

  -- `total` and `by_state`; the flat counts repeat `by_state` under two spellings.
  unfoldable pub get_stats : Objects F → JobStore → ℕ × List (JobState × ℕ)
  unfolding tally all_states
  get_stats objs st = (length st, tally all_states objs st)

  -- What the methods that mark a job share: they assign to the job object without the state
  -- machine.
  unfoldable pub mark : (Job F → Job F) → ℕ → Objects F → JobStore → Bool × Objects F
  mark change id objs st = elim (Dict.lookup id st) [
    | none ↦ (false, objs)
    | some a ↦ (true, assign objs a (change (objs a)))
  ]

  unfoldable pub mark_running : (now : ℕ) → ℕ → Objects F → JobStore → Bool × Objects F
  unfolding mark
  mark_running now id objs st =
      mark (λ job. record job { state = running; started_at = some now }) id objs st

  unfoldable pub mark_completed :
      (result : Option ℕ) (now : ℕ) → ℕ → Objects F → JobStore → Bool × Objects F
  unfolding mark
  mark_completed result now id objs st =
      mark
        (λ job. record job {
          state = completed;
          result = result;
          completed_at = some now;
          error = none;
        })
        id objs st

  unfoldable pub mark_failed :
      (error : Option ℕ) (now : ℕ) → ℕ → Objects F → JobStore → Bool × Objects F
  unfolding mark
  mark_failed error now id objs st =
      mark (λ job. record job { state = failed; error = error; completed_at = some now }) id objs st

  unfoldable pub mark_cancelled : (now : ℕ) → ℕ → Objects F → JobStore → Bool × Objects F
  unfolding mark
  mark_cancelled now id objs st =
      mark (λ job. record job { state = cancelled; completed_at = some now }) id objs st
