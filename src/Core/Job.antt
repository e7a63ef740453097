-- ===== src/Core/Job.antt =====
-- src/job_orchestrator/core/job.py. A UUID is a number, and so is a point in time (microseconds).
-- Delays are floats, so `F` is the type of floats. A text or a result that the modelled code only
-- carries is a number that names it. The name, the function with its arguments, the tags and the
-- metadata of a job are left out: the modelled code never reads them.
use job_orchestrator.Prelude.{
  ℕ, ◌≡◌, Bool, true, false, Option, none, some, List, [], ◌∷◌, ◌↔◌, ◌==◌, ltb, if◌then◌else◌,
  arith, ◌||◌,
}

pub data JobState : Type 0 where
  pending scheduled running completed failed retrying cancelled timeout : JobState

pub data JobPriority : Type 0 where
  critical high normal low background : JobPriority

-- The `value` of the enumeration member.
unfoldable pub priority_value : JobPriority → ℕ
priority_value critical = 0
priority_value high = 1
priority_value normal = 2
priority_value low = 3
priority_value background = 4

abbrev index : JobState → ℕ
index pending = 0
index scheduled = 1
index running = 2
index completed = 3
index failed = 4
index retrying = 5
index cancelled = 6
index timeout = 7

-- Members of an enumeration are compared by identity.
unfoldable pub same_state : JobState → JobState → Bool
same_state s t = index s == index t

unfoldable pub in_states : JobState → List JobState → Bool
unfolding same_state
in_states s [] = false
in_states s (t ∷ ts) = same_state t s || in_states s ts

pub record RetryPolicy (F : Type 0) : Type 0 where
  pub max_retries : ℕ
  pub base_delay : F
  pub max_delay : F
  pub exponential_base : F
  pub jitter : Bool
  pub retry_on : List ℕ

pub record Job (F : Type 0) : Type 0 where
  pub id : ℕ
  pub priority : JobPriority
  pub scheduled_at : Option ℕ
  pub state : JobState
  pub attempt : ℕ
  pub depends_on : List ℕ
  pub retry_policy : RetryPolicy F
  pub retry_count : ℕ
  pub created_at : ℕ
  pub started_at : Option ℕ
  pub completed_at : Option ℕ
  pub result : Option ℕ
  pub error : Option ℕ
  pub traceback : Option ℕ

-- `self.scheduled_at or self.created_at`
unfoldable pub due_time : {F : Type 0} → Job F → ℕ
due_time job = elim job.scheduled_at [ none ↦ job.created_at | some t ↦ t ]

-- `__lt__`
unfoldable pub job_lt : {F : Type 0} → Job F → Job F → Bool
unfolding due_time priority_value
job_lt a b =
    if priority_value a.priority == priority_value b.priority
    then ltb (due_time a) (due_time b)
    else ltb (priority_value a.priority) (priority_value b.priority)

-- `__eq__`
unfoldable pub job_eq : {F : Type 0} → Job F → Job F → Bool
job_eq a b = a.id == b.id

unfoldable pub is_terminal : {F : Type 0} → Job F → Bool
unfolding in_states
is_terminal job = in_states job.state (completed ∷ failed ∷ cancelled ∷ [])

unfoldable pub is_active : {F : Type 0} → Job F → Bool
unfolding in_states
is_active job = in_states job.state (pending ∷ scheduled ∷ running ∷ retrying ∷ timeout ∷ [])

unfoldable pub can_retry : {F : Type 0} → Job F → Bool
can_retry job = ltb job.attempt job.retry_policy.max_retries

pub same_state_iff : (s t : JobState) → (same_state s t ≡ true) ↔ (s ≡ t)
unfolding same_state
same_state_iff s t = ground arith
