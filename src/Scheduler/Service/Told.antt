-- ===== src/Scheduler/Service/Told.antt =====
-- class Scheduler, scheduler/scheduler.py: the calls that tell the DAG executor of the end of a job
-- keep the queue and the order of the jobs.
use job_orchestrator.Prelude.{ℕ, ◌+◌, Option, none, some, either, Option-cases, inl, inr, is_some}
use job_orchestrator.Core.Job.{completed, failed}
use job_orchestrator.Scheduler.JobStore
use job_orchestrator.Scheduler.Dlq
use job_orchestrator.Scheduler.DagExecutor.{Scheduling}
use job_orchestrator.Scheduler.DagExecutor.Calls.{Every, call, call-Every, complete, fail}
use job_orchestrator.Scheduler.DagExecutor.Order.{IsOrdered, IsNamed, IsOrdered-IsInvariant}
use job_orchestrator.Scheduler.DagExecutor.Outer.{
  IsObserved, on_job_complete-outer, on_job_failed-outer,
}
use job_orchestrator.Scheduler.DagExecutor.Methods.{on_job_complete, on_job_failed, get_dag_for_job}
use job_orchestrator.Scheduler.Retry.{should_retry}
use job_orchestrator.Scheduler.Service.{
  World, Env, Draw, Outcome, move, set_job, count, scheduling, called, tell_complete, tell_failed,
  notify_complete, notify_failed, complete_found, complete_job, bury, fail_found, fail_job,
}
use job_orchestrator.Scheduler.Service.Invariant.{
  IsHeld, IsSafe, next-IsSafe, move-IsSafe, retry_job-IsSafe, observed,
}

module _ {F : Type 0} (limit : Option ℕ) (env : Env F) where
  -- The queue is held, and no DAG has a running job before its dependencies are completed.
  abbrev pub IsSound : World F → Type 0
  IsSound w = IsSafe limit (Every IsOrdered) w

  -- What a scheduling keeps of the queue.
  abbrev pub IsKeeping : Scheduling (World F) → Type 0
  IsKeeping sched = IsObserved sched (λ w. IsHeld limit w.queue)

  pub tell_complete-IsSound :
      (sched : Scheduling (World F)) (id now : ℕ) (w : World F)
      → IsKeeping sched
      → IsSound w
      → IsSound (tell_complete sched id now w).state
  unfolding tell_complete called
  tell_complete-IsSound sched id now w k s =
      let r = on_job_complete sched id now w.executor w in
      let told : IsHeld limit r.outer.queue × Every IsOrdered r.executor = (
        on_job_complete-outer sched (λ v. IsHeld limit v.queue) k id now w.executor w s.0,
        unfold call in
            call-Every sched IsOrdered IsNamed (IsOrdered-IsInvariant sched) (complete id now)
              w.executor w tt s.1,
      ) in
      either (λ (o : Outcome F). IsSound o.state) (is_some (get_dag_for_job id w.executor)) _ _
        (either (λ (o : Outcome F). IsSound o.state) r.ok _ _ told told) s

  pub tell_failed-IsSound :
      (sched : Scheduling (World F)) (id error now : ℕ) (w : World F)
      → IsKeeping sched
      → IsSound w
      → IsSound (tell_failed sched id error now w).state
  unfolding tell_failed called
  tell_failed-IsSound sched id error now w k s =
      let r = on_job_failed sched id error now w.executor w in
      let told : IsHeld limit r.outer.queue × Every IsOrdered r.executor = (
        on_job_failed-outer sched (λ v. IsHeld limit v.queue) k id error now w.executor w s.0,
        unfold call in
            call-Every sched IsOrdered IsNamed (IsOrdered-IsInvariant sched) (fail id error now)
              w.executor w tt s.1,
      ) in
      either (λ (o : Outcome F). IsSound o.state) (is_some (get_dag_for_job id w.executor)) _ _
        (either (λ (o : Outcome F). IsSound o.state) r.ok _ _ told told) s

  notify_complete-IsSound :
      (id now : ℕ) (w : World F) → IsSound w → IsSound (notify_complete env id now w).state
  unfolding notify_complete
  notify_complete-IsSound id now w s =
      tell_complete-IsSound (scheduling env now) id now w (observed limit env now) s

  notify_failed-IsSound :
      (id error now : ℕ) (w : World F)
      → IsSound w
      → IsSound (notify_failed env id error now w).state
  unfolding notify_failed
  notify_failed-IsSound id error now w s =
      tell_failed-IsSound (scheduling env now) id error now w (observed limit env now) s

  pub complete_job-IsSound :
      (id : ℕ) (result : Option ℕ) (now : ℕ) (w : World F)
      → IsSound w
      → IsSound (complete_job env id result now w).state
  unfolding complete_job complete_found
  complete_job-IsSound id result now w s = elim (Option-cases (JobStore.get id w.job_store)) [
    | inl absent ↦ rw absent s
    | inr (a, found) ↦ rw found (
        next-IsSafe limit (Every IsOrdered)
          (move a completed
            (set_job a (λ job. record job { result = result; completed_at = some now }) w))
          (λ v.
            notify_complete env id now
              (count (λ t. record t { jobs_completed = t.jobs_completed + 1 }) v))
          (move-IsSafe limit (Every IsOrdered) a completed
            (set_job a (λ job. record job { result = result; completed_at = some now }) w)
            (unfold set_job in s))
          (λ v t.
            notify_complete-IsSound id now
              (count (λ t. record t { jobs_completed = t.jobs_completed + 1 }) v)
              (unfold count in t)))
  ]

  bury-IsSound :
      (a id error : ℕ) (d : Draw F) (w : World F)
      → IsSound w
      → IsSound (bury env a id error d w).state
  unfolding bury
  bury-IsSound a id error d w s =
      let buried : World F → World F = λ v.
        let ended = set_job a (λ job. record job { completed_at = some d.now }) v in
        count
          (λ t. record t {
            jobs_failed = t.jobs_failed + 1;
            jobs_sent_to_dlq = t.jobs_sent_to_dlq + 1;
          })
          (record ended {
            dlq =
                Dlq.add env.kind_of d.fresh (ended.objects a) (some error) none d.now d.later
                  ended.dlq;
          }) in
      next-IsSafe limit (Every IsOrdered) (move a failed w)
        (λ v. notify_failed env id (env.text_of error) d.now (buried v))
        (move-IsSafe limit (Every IsOrdered) a failed w s)
        (λ v t.
          notify_failed-IsSound id (env.text_of error) d.now (buried v) (unfold count set_job in t))

  pub fail_job-IsSound :
      (id error traceback : ℕ) (d : Draw F) (w : World F)
      → IsSound w
      → IsSound (fail_job env id error traceback d w).state
  unfolding fail_job fail_found
  fail_job-IsSound id error traceback d w s = elim (Option-cases (JobStore.get id w.job_store)) [
    | inl absent ↦ rw absent s
    | inr (a, found) ↦
        let noted =
          set_job a
            (λ job. record job { error = some (env.text_of error); traceback = some traceback })
            w in
        let t : IsSound noted = unfold set_job in s in
        rw found (
          either (λ (o : Outcome F). IsSound o.state)
            (should_retry env.floats env.isinstance (noted.objects a) (some error)) _ _
            (retry_job-IsSafe limit (Every IsOrdered) env a d.random d.now noted t)
            (bury-IsSound a id error d noted t))
  ]
