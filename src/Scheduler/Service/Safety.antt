-- ===== src/Scheduler/Service/Safety.antt =====
-- class Scheduler, scheduler/scheduler.py: the methods on DAGs, the next job and the steps of `run_job` keep the
-- queue and the order of the jobs.
use job_orchestrator.Prelude.{
  ℕ, ◌+◌, ◌∙◌, Option, List, [], ◌∷◌, arith, either, All, Option-cases, List-cases, inl, inr,
}
use job_orchestrator.Core.Dag.Cycles.{validate}
use job_orchestrator.Queue.{Queue, cleanup_removed, get_ready_job}
use job_orchestrator.Queue.Wait.{Round, Popped, pop, pop_rounds}
use job_orchestrator.Queue.Calls.{sweep-max_size, scan-max_size, take_ready-max_size}
use job_orchestrator.Queue.Book.{sweep-IsBooked, get_ready_job-IsBooked}
use job_orchestrator.Scheduler.DagExecutor.{Workflow}
use job_orchestrator.Scheduler.DagExecutor
use job_orchestrator.Scheduler.DagExecutor.Calls.{Every, call-Every}
use job_orchestrator.Scheduler.DagExecutor.Order.{IsOrdered, IsNamed, IsOrdered-IsInvariant}
use job_orchestrator.Scheduler.DagExecutor.Outer.{start_dag-outer, cancel_dag-outer}
use job_orchestrator.Scheduler.DagExecutor.Methods.{start_dag}
use job_orchestrator.Scheduler.Service.{
  World, Env, Outcome, done, set_job, count, scheduling, while_others, called,
}
use job_orchestrator.Scheduler.Service.Run.{
  RunStep, writing, moving, pushing, tallying, telling_complete, telling_failed, run_step,
}
use job_orchestrator.Scheduler.Service.Queries.{submit_dag, cancel_dag, get_next_job, dag_view}
use job_orchestrator.Scheduler.Service.Invariant.{
  IsHeld, push-IsHeld, next-IsSafe, move-IsSafe, observed,
}
use job_orchestrator.Scheduler.Service.Told.{
  IsSound, IsKeeping, tell_complete-IsSound, tell_failed-IsSound,
}

cleanup-IsHeld : (limit : Option ℕ) (q : Queue) → IsHeld limit q → IsHeld limit (cleanup_removed q)
unfolding cleanup_removed
cleanup-IsHeld limit q h = (sweep-IsBooked q.heap q h.0, sweep-max_size q.heap q ∙ h.1)

get_ready_job-IsHeld :
    (limit : Option ℕ) (now : ℕ) (q : Queue) → IsHeld limit q → IsHeld limit (get_ready_job now q).1
get_ready_job-IsHeld limit now q h = (
  get_ready_job-IsBooked now q h.0,
  unfold get_ready_job in take_ready-max_size _ _ ∙ (scan-max_size now q.heap [] q ∙ h.1),
)

-- What other threads do to the queue in a round keeps it.
abbrev pub IsFair : Option ℕ → List Round → Type 0
IsFair limit rounds =
    All (λ (r : Round). (q : Queue) → IsHeld limit q → IsHeld limit (r.others q)) rounds

pop_rounds-IsHeld :
    (limit deadline : Option ℕ) (rounds : List Round) (q : Queue)
    → IsFair limit rounds
    → IsHeld limit q
    → IsHeld limit (pop_rounds deadline rounds q).1
unfolding pop_rounds
pop_rounds-IsHeld limit deadline [] q f h = h
pop_rounds-IsHeld limit deadline (r ∷ rs) q f h =
    let ready =
      get_ready_job-IsHeld limit r.entered (cleanup_removed q) (cleanup-IsHeld limit q h) in
    let left = (get_ready_job r.entered (cleanup_removed q)).1 in
    let woken = f.0 left ready in
    let later = pop_rounds-IsHeld limit deadline rs (r.others left) f.1 woken in
    let at_once = pop_rounds-IsHeld limit deadline rs left f.1 ready in
    ground (arith, h, ready, woken, later, at_once)

module _ {F : Type 0} (limit : Option ℕ) where
  -- What other threads do keeps the queue.
  abbrev pub IsKind : (World F → World F) → Type 0
  IsKind others = (w : World F) → IsHeld limit w.queue → IsHeld limit (others w).queue

  -- What the steps of `run_job` are given.
  abbrev pub IsKindStep : RunStep F → Type 0
  IsKindStep (telling_complete others id now) = IsKind others
  IsKindStep (telling_failed others id error now) = IsKind others
  IsKindStep _ = Unit

module _ {F : Type 0} (limit : Option ℕ) (env : Env F) where
  abbrev Sound : World F → Type 0
  Sound w = IsSound limit env w

  pub submit_dag-IsSound :
      (now : ℕ) (dag : Workflow) (w : World F)
      → IsNamed dag
      → Sound w
      → Sound (submit_dag env now dag w).state
  unfolding submit_dag
  submit_dag-IsSound now dag w named s =
      let sched = scheduling env now in
      let r = start_dag sched now dag w.executor w in
      let told : IsHeld limit r.outer.queue × Every IsOrdered r.executor = (
        start_dag-outer sched (λ v. IsHeld limit v.queue) (observed limit env now) now dag
            w.executor w s.0,
        unfold DagExecutor.Calls.call in
            call-Every sched IsOrdered IsNamed (IsOrdered-IsInvariant sched)
              (DagExecutor.Calls.start now dag) w.executor w named s.1,
      ) in
      let begun : Sound (called r).state =
        unfold called in either (λ (o : Outcome F). Sound o.state) r.ok _ _ told told in
      let counted : World F → Outcome F =
        λ v. done (count (λ t. record t { dags_submitted = t.dags_submitted + 1 }) v) in
      let fine =
        next-IsSafe limit (Every IsOrdered) (called r) counted begun (unfold count in λ v t. t) in
      elim (Option-cases (validate (dag_view w.objects dag))) [
        | inl key_error ↦ rw (key_error, submit_dag) s
        | inr (problems, e) ↦ elim (List-cases problems) [
          | inl none_left ↦ rw (e, submit_dag) (rw none_left fine)
          | inr (p, ps, some_left) ↦ rw (e, submit_dag) (rw some_left s)
        ]
      ]

  others-IsKeeping :
      (others : World F → World F) (now : ℕ)
      → IsKind limit others
      → IsKeeping limit env (while_others others (scheduling env now))
  unfolding while_others
  others-IsKeeping others now kind =
      let o = observed limit env now in
      record {
        submits = λ a w h. o.submits a (others w) (kind w h);
        cancels = λ id w h. o.cancels id (others w) (kind w h);
        completes = λ id w h. o.completes id (others w) (kind w h);
        fails = λ id w h. o.fails id (others w) (kind w h);
      }

  pub cancel_dag-IsSound :
      (others : World F → World F) (id now : ℕ) (w : World F)
      → IsKind limit others
      → Sound w
      → Sound (cancel_dag env others id now w).1
  unfolding cancel_dag
  cancel_dag-IsSound others id now w kind s =
      let sched = while_others others (scheduling env now) in
      (
        cancel_dag-outer sched (λ v. IsHeld limit v.queue) (others-IsKeeping others now kind) id now
            w.executor w s.0,
        unfold DagExecutor.Calls.call in
            call-Every sched IsOrdered IsNamed (IsOrdered-IsInvariant sched)
              (DagExecutor.Calls.cancel id now) w.executor w tt s.1,
      )

  pub get_next_job-IsSound :
      (timeout : Option ℕ) (started : ℕ) (rounds : List Round) (w : World F)
      → IsFair limit rounds
      → Sound w
      → Sound (get_next_job timeout started rounds w).1
  unfolding get_next_job pop
  get_next_job-IsSound timeout started rounds w f s =
      let popped = pop_rounds-IsHeld limit _ rounds w.queue f s.0 in
      either (λ (r : Popped × World F). Sound r.1) w.running _ _ (popped, s.1) s

  -- A step of `run_job`.
  pub run_step-IsSound :
      (a : ℕ) (r : RunStep F) (w : World F)
      → IsKindStep limit r
      → Sound w
      → Sound (run_step env a r w).state
  unfolding run_step
  run_step-IsSound a (writing change) w k s = unfold set_job in s
  run_step-IsSound a (moving target) w k s = move-IsSafe limit (Every IsOrdered) a target w s
  run_step-IsSound a pushing w k s = (push-IsHeld limit w.objects a w.queue s.0, s.1)
  run_step-IsSound a (tallying change) w k s = unfold count in s
  run_step-IsSound a (telling_complete others id now) w k s =
      tell_complete-IsSound limit env (while_others others (scheduling env now)) id now w
        (others-IsKeeping others now k) s
  run_step-IsSound a (telling_failed others id error now) w k s =
      tell_failed-IsSound limit env (while_others others (scheduling env now)) id error now w
        (others-IsKeeping others now k) s
