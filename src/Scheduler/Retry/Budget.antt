-- ===== src/Scheduler/Retry/Budget.antt =====
-- How often RetryHandler lets a job be retried.
use job_orchestrator.Prelude.{
  ℕ, suc, ◌+◌, ◌≤◌, ◌≡◌, refl, Bool, true, false, Option, none, List, [], ◌∷◌, if◌then◌else◌, arith,
  ◌⊎◌, inl, inr, Bool-cases, Option-cases,
}
use job_orchestrator.Core.Job.{Job, can_retry}
use job_orchestrator.Scheduler.Retry.{
  Floats, policy_allows, get_policy_for_job, should_retry, schedule_retry, calculate_delay,
  get_remaining_retries, Answer, refused, granted, power_overflow, time_overflow,
}

-- A failure of the job, as schedule_retry sees it.
pub record Failure (F : Type 0) : Type 0 where
  pub raised : Option ℕ
  pub random : F
  pub now : ℕ

-- Whether the call used up an attempt.
unfoldable pub uses_attempt : Answer → Bool
uses_attempt refused = false
uses_attempt granted = true
uses_attempt power_overflow = false
uses_attempt time_overflow = true

-- What a series of failures leads to: the retries that are granted, those that are lost because the
-- call raised after the attempt was counted, and the job.
pub record Outcome (F : Type 0) : Type 0 where
  pub granted : ℕ
  pub lost : ℕ
  pub job : Job F

unfoldable pub note_answer : {F : Type 0} → Answer → Outcome F → Outcome F
note_answer refused o = o
note_answer granted o = record o { granted = suc o.granted }
note_answer power_overflow o = o
note_answer time_overflow o = record o { lost = suc o.lost }

module _ {F : Type 0} (fl : Floats F) (isinstance : ℕ → List ℕ → Bool) where
  -- A call that uses up an attempt had one left, and counts it; else the job is left as it is.
  schedule_retry_lem :
      (job : Job F) (error : Option ℕ) (random : F) (now : ℕ)
      → let s = schedule_retry fl isinstance job error random now in
        ((uses_attempt s.0 ≡ false) × (s.1 ≡ job))
        ⊎ ((uses_attempt s.0 ≡ true)
            × (suc job.attempt ≤ job.retry_policy.max_retries)
            × (s.1.attempt ≡ suc job.attempt)
            × (s.1.retry_policy.max_retries ≡ job.retry_policy.max_retries))
  unfolding schedule_retry uses_attempt
  schedule_retry_lem job error random now =
      let policy = get_policy_for_job fl isinstance job in
      elim (Bool-cases (policy_allows fl isinstance policy job.attempt error)) [
        | inr no_more ↦ inl (rw no_more (refl, refl))
        | inl allowed ↦
            let room : suc job.attempt ≤ job.retry_policy.max_retries =
              unfold policy_allows get_policy_for_job in ground (arith, allowed) in
            elim (Option-cases (calculate_delay fl isinstance policy job.attempt random)) [
              | inl over ↦ inl (rw allowed (rw over (refl, refl)))
              | inr (delay, fine) ↦ elim (Option-cases (fl.later now delay)) [
                | inl late ↦ inr (rw allowed (rw fine (rw late (refl, room, omega arith, refl))))
                | inr (at, timely) ↦
                    inr (rw allowed (rw fine (rw timely (refl, room, omega arith, refl))))
              ]
            ]
      ]

  -- Without an error to look at, the handler agrees with `Job.can_retry`.
  can_retry_agrees : (job : Job F) → should_retry fl isinstance job none ≡ can_retry job
  unfolding should_retry policy_allows get_policy_for_job can_retry
  can_retry_agrees job = ground arith

  unfoldable pub fail_all : List (Failure F) → Job F → Outcome F
  unfolding note_answer
  fail_all [] job = record { granted = 0; lost = 0; job = job }
  fail_all (f ∷ fs) job =
      let step = schedule_retry fl isinstance job f.raised f.random f.now in
      note_answer step.0 (fail_all fs step.1)

  -- One call, with what follows it.
  note_answer_lem :
      (answer : Answer) (o : Outcome F)
      → ((note_answer answer o).job ≡ o.job)
        × ((note_answer answer o).granted + (note_answer answer o).lost
            ≡ (if uses_attempt answer then 1 else 0) + (o.granted + o.lost))
  unfolding note_answer uses_attempt
  note_answer_lem refused o = (refl, omega arith)
  note_answer_lem granted o = (refl, omega arith)
  note_answer_lem power_overflow o = (refl, omega arith)
  note_answer_lem time_overflow o = (refl, omega arith)

  remaining_counted :
      (job next : Job F)
      → suc job.attempt ≤ job.retry_policy.max_retries
      → next.attempt ≡ suc job.attempt
      → next.retry_policy.max_retries ≡ job.retry_policy.max_retries
      → get_remaining_retries fl isinstance job ≡ suc (get_remaining_retries fl isinstance next)
  unfolding get_remaining_retries get_policy_for_job
  remaining_counted job next room more policy = omega (arith, room, more, policy)

  -- Each attempt that is counted uses up one of the remaining retries: over any series of failures,
  -- the retries that are granted, those that are lost because a call raises after it counted the
  -- attempt, and those that then remain make up those that remained before.
  pub retries_budget :
      (fs : List (Failure F)) (job : Job F)
      → let o = fail_all fs job in
        o.granted + o.lost + get_remaining_retries fl isinstance o.job
        ≡ get_remaining_retries fl isinstance job
  unfolding fail_all
  retries_budget [] job = omega arith
  retries_budget (f ∷ fs) job =
      let s = schedule_retry fl isinstance job f.raised f.random f.now in
      let (same, counts) = note_answer_lem s.0 (fail_all fs s.1) in
      let rest = retries_budget fs s.1 in
      elim (schedule_retry_lem job f.raised f.random f.now) [
        | inl (unused, kept) ↦ rw same (ground (arith, counts, unused, rest, kept))
        | inr (used, room, more, policy) ↦
            rw same (ground (arith, counts, used, rest, remaining_counted job s.1 room more policy))
      ]
