-- ===== src/Scheduler/Service/Invariant.antt =====
-- class Scheduler, scheduler/scheduler.py: what holds after every series of its calls, also of those
-- that raise, and of the calls that its DAG executor makes.
use job_orchestrator.Prelude.{
  ℕ, ◌+◌, ◌≡◌, ◌∙◌, Bool, true, false, Option, none, some, [], ◌∷◌, arith, either, Bool-cases,
  Option-cases, inl, inr,
}
use job_orchestrator.Core.Job.{Job, JobState, pending, scheduled, retrying, in_states, cancelled}
use job_orchestrator.Core.State.{can_transition}
use job_orchestrator.Queue
use job_orchestrator.Queue.{
  Objects, Queue, push, size, enqueue, mark_removed, cleanup_removed, get_ready_job,
}
use job_orchestrator.Queue.Methods
use job_orchestrator.Queue.Book.{IsBooked, push-IsBooked, mark_removed-IsBooked}
use job_orchestrator.Scheduler.JobStore
use job_orchestrator.Scheduler.DagExecutor.{Executor}
use job_orchestrator.Scheduler.DagExecutor.Outer.{IsObserved}
use job_orchestrator.Scheduler.Retry.{prepare_for_retry}
use job_orchestrator.Scheduler.Service.{
  World, Env, Outcome, done, next, move, set_job, count, enqueue_job, submit, at_capacity,
  cancel_found, cancel_job, scheduling, retry_job, requeue,
}
use job_orchestrator.Scheduler.Service.Moves.{move_legal, move_illegal}

-- The queue is in order, and has the limit that it was made with.
abbrev pub IsHeld : Option ℕ → Queue → Type 0
IsHeld limit q = IsBooked q × (q.max_size ≡ limit)

pub push-IsHeld :
    {F : Type 0} (limit : Option ℕ) (objs : Objects F) (a : ℕ) (q : Queue)
    → IsHeld limit q
    → IsHeld limit (push objs a q).1
push-IsHeld limit objs a q h =
    let same : (push objs a q).1.max_size ≡ q.max_size =
      unfold push enqueue mark_removed in ground arith in
    (push-IsBooked objs a q h.0, same ∙ h.1)

remove-IsHeld :
    (limit : Option ℕ) (id : ℕ) (q : Queue)
    → IsHeld limit q
    → IsHeld limit (Queue.Methods.remove id q).1
unfolding Queue.Methods.remove
remove-IsHeld limit id q h = elim (Bool-cases (Queue.is_queued id q)) [
  | inl queued ↦ rw queued ((mark_removed-IsBooked id q queued h.0).0, unfold mark_removed in h.1)
  | inr absent ↦ rw absent h
]

module _ {F : Type 0} (limit : Option ℕ) (Q : Executor → Type 0) where
  -- The queue is held, and something holds of the executor.
  abbrev pub IsSafe : World F → Type 0
  IsSafe w = IsHeld limit w.queue × Q w.executor

  pub next-IsSafe :
      (o : Outcome F) (f : World F → Outcome F)
      → IsSafe o.state
      → ((v : World F) → IsSafe v → IsSafe (f v).state)
      → IsSafe (next o f).state
  unfolding next
  next-IsSafe o f s h = elim (Option-cases o.raised) [
    | inl fine ↦ rw fine (h o.state s)
    | inr (e, error) ↦ rw error s
  ]

  pub move-IsSafe :
      (a : ℕ) (target : JobState) (w : World F) → IsSafe w → IsSafe (move a target w).state
  move-IsSafe a target w s = elim (Bool-cases (can_transition (w.objects a).state target)) [
    | inl legal ↦ rw (move_legal a target w legal) s
    | inr banned ↦ rw (move_illegal a target w banned) s
  ]

  pub cancel_job-IsSafe :
      (id now : ℕ) (w : World F) → IsSafe w → IsSafe (cancel_job id now w).1.state
  unfolding cancel_job cancel_found
  cancel_job-IsSafe id now w s = elim (Option-cases (JobStore.get id w.job_store)) [
    | inl absent ↦ rw absent s
    | inr (a, found) ↦
        let removed = record w { queue = (Queue.Methods.remove id w.queue).1 } in
        let left : IsSafe removed = (remove-IsHeld limit id w.queue s.0, s.1) in
        let dated : World F → Outcome F =
          λ v. done (set_job a (λ job. record job { completed_at = some now }) v) in
        let gone =
          next-IsSafe (move a cancelled removed) dated (move-IsSafe a cancelled removed left)
            (unfold set_job in λ v t. t) in
        rw found (
          either (λ (r : Bool × Outcome F). IsSafe r.1.state)
            (in_states (w.objects a).state (pending ∷ scheduled ∷ retrying ∷ []))
            (true, next (move a cancelled removed) dated) (false, done w) gone s)
  ]

  module _ (env : Env F) where
    enqueue_job-IsSafe : (a : ℕ) (w : World F) → IsSafe w → IsSafe (enqueue_job env a w).state
    unfolding enqueue_job count set_job
    enqueue_job-IsSafe a w s =
        let pushed : IsHeld limit (push w.objects a w.queue).1 × Q w.executor =
          (push-IsHeld limit w.objects a w.queue s.0, s.1) in
        either (λ (o : Outcome F). IsSafe o.state) (push w.objects a w.queue).0 _ _ pushed pushed

    pub submit-IsSafe : (a : ℕ) (w : World F) → IsSafe w → IsSafe (submit env a w).state
    unfolding submit
    submit-IsSafe a w s =
        let added = record w { job_store = JobStore.add w.objects a w.job_store } in
        let stored =
          next-IsSafe (move a scheduled added) (enqueue_job env a) (move-IsSafe a scheduled added s)
            (enqueue_job-IsSafe a) in
        either (λ (o : Outcome F). IsSafe o.state) (JobStore.contains (w.objects a).id w.job_store)
          _ _ s
          (either (λ (o : Outcome F). IsSafe o.state) (at_capacity env.max_size (size w.queue)) _ _
            s stored)

    requeue-IsSafe :
        (a : ℕ) (job : Job F) (w : World F) → IsSafe w → IsSafe (requeue env a job w).state
    unfolding requeue
    requeue-IsSafe a job w s =
        let prepared = set_job a (λ old. job) w in
        let queue_up : World F → Outcome F = λ v.
          let cleared = set_job a (λ job. record job { error = none; traceback = none }) v in
          let queued = record cleared { queue = (push cleared.objects a cleared.queue).1 } in
          done (count (λ t. record t { jobs_retried = t.jobs_retried + 1 }) queued) in
        next-IsSafe (move a retrying prepared) (λ u. next (move a scheduled u) queue_up)
          (move-IsSafe a retrying prepared (unfold set_job in s))
          (λ u t.
            next-IsSafe (move a scheduled u) queue_up (move-IsSafe a scheduled u t)
              (λ v r. unfold count set_job in (push-IsHeld limit _ a v.queue r.0, r.1)))

    pub retry_job-IsSafe :
        (a : ℕ) (random : F) (now : ℕ) (w : World F)
        → IsSafe w
        → IsSafe (retry_job env a random now w).state
    unfolding retry_job
    retry_job-IsSafe a random now w s =
        elim (Option-cases (prepare_for_retry env.floats env.isinstance (w.objects a) random now)) [
          | inl over ↦ rw (over, retry_job) s
          | inr (p, fine) ↦ rw (fine, retry_job) (requeue-IsSafe a p.2 w s)
        ]

-- The calls of the DAG executor keep the queue.
pub observed :
    {F : Type 0} (limit : Option ℕ) (env : Env F) (now : ℕ)
    → IsObserved (scheduling env now) (λ w. IsHeld limit w.queue)
unfolding scheduling
observed limit env now =
    let Any : Executor → Type 0 = λ _. Unit in
    record {
      submits = λ a w h. (submit-IsSafe limit Any env a w (h, tt)).0;
      cancels = λ id w h. (cancel_job-IsSafe limit Any id now w (h, tt)).0;
      completes = λ id w h. unfold count in h;
      fails = λ id w h. unfold count in h;
    }
