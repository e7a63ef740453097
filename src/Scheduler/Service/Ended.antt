-- ===== src/Scheduler/Service/Ended.antt =====
-- Scheduler.complete_job and Scheduler.fail_job, scheduler/scheduler.py, by how they end.
use job_orchestrator.Prelude.{
  ℕ, ◌+◌, ◌≡◌, refl, ap, subst, ◌∙◌, true, false, Option, none, some, ==_refl,
}
use job_orchestrator.Core.Job.{Job, running, completed}
use job_orchestrator.Core.State.{can_transition, invalid_transition}
use job_orchestrator.Queue.{is_queued, is_full, push, assign}
use job_orchestrator.Scheduler.Retry.{should_retry}
use job_orchestrator.Scheduler.Dlq
use job_orchestrator.Scheduler.JobStore
use job_orchestrator.Scheduler.DagExecutor.Methods.{get_dag_for_job}
use job_orchestrator.Scheduler.Service.{
  World, Env, Draw, complete_job, complete_found, fail_job, fail_found, bury, set_job, illegal,
  job_not_found, retry_job, overflow_error,
}
use job_orchestrator.Scheduler.Service.Submit.{push-is_queued}
use job_orchestrator.Scheduler.Service.Steps.{
  retried, dead, noted, retry_time, rescheduled, retry_job_raises, retry_job_lem, retried_job,
  noted-retry_time, complete_running, complete_other, bury_lem, noted-should_retry,
}

module _ {F : Type 0} (env : Env F) (id : ℕ) (w : World F) where
  -- `complete_job` raises for an identifier that is not stored, and changes nothing. A running job
  -- of no DAG is completed with its result and the time, and counted. For a job that is not
  -- running the call raises, but has then written the result and the time to the job, and else
  -- nothing has changed.
  pub complete_job_lem :
      (result : Option ℕ) (now : ℕ)
      → let o = complete_job env id result now w in
        (JobStore.get id w.job_store ≡ none → (o.raised ≡ some (job_not_found id)) × (o.state ≡ w))
        × ((a : ℕ)
            → JobStore.get id w.job_store ≡ some a
            → (w.objects a).state ≡ running
            → get_dag_for_job id w.executor ≡ none
            → (o.raised ≡ none)
              × (o.state.objects a ≡ record (w.objects a) {
                state = completed;
                result = result;
                completed_at = some now;
              })
              × (o.state.stats.jobs_completed ≡ w.stats.jobs_completed + 1))
        × ((a : ℕ)
            → JobStore.get id w.job_store ≡ some a
            → can_transition (w.objects a).state completed ≡ false
            → (o.raised
                ≡ some
                    (illegal (invalid_transition (w.objects a).id (w.objects a).state completed)))
              × (o.state ≡ record w {
                objects =
                    assign w.objects a
                      (record (w.objects a) { result = result; completed_at = some now });
              }))
  unfolding complete_job
  complete_job_lem result now = (
    λ absent. rw absent (unfold complete_found in (refl, refl)),
    λ a found runs alone. rw found (
        rw (complete_running env a id now result w runs alone)
          (unfold set_job in (refl, rw (==_refl a) refl, refl))),
    λ a found banned.
        rw found
          (rw (complete_other env a id now result w banned) (unfold set_job in (refl, refl))),
  )

  -- The world once the error is noted.
  abbrev failing : (a error traceback : ℕ) → World F
  failing a error traceback = set_job a (noted env error traceback) w

  failing_running :
      (a error traceback : ℕ)
      → (w.objects a).state ≡ running
      → ((failing a error traceback).objects a).state ≡ running
  unfolding set_job
  failing_running a error traceback runs = rw (==_refl a) runs

  -- While the retry handler allows it, the call is a retry of the job.
  fail_job_retries :
      (a error traceback : ℕ) (d : Draw F)
      → JobStore.get id w.job_store ≡ some a
      → should_retry env.floats env.isinstance (w.objects a) (some error) ≡ true
      → fail_job env id error traceback d w
        ≡ retry_job env a d.random d.now (failing a error traceback)
  unfolding fail_job fail_found
  fail_job_retries a error traceback d found e =
      rw found (rw (noted-should_retry env a error traceback w ∙ e) refl)

  fail_job_buries :
      (a error traceback : ℕ) (d : Draw F)
      → JobStore.get id w.job_store ≡ some a
      → should_retry env.floats env.isinstance (w.objects a) (some error) ≡ false
      → fail_job env id error traceback d w ≡ bury env a id error d (failing a error traceback)
  unfolding fail_job fail_found
  fail_job_buries a error traceback d found e =
      rw found (rw (noted-should_retry env a error traceback w ∙ e) refl)

  -- The retry that `fail_job` makes of a job that is not too late.
  fail_job_timely :
      (a error traceback : ℕ) (d : Draw F) (due : ℕ)
      → JobStore.get id w.job_store ≡ some a
      → (w.objects a).state ≡ running
      → should_retry env.floats env.isinstance (w.objects a) (some error) ≡ true
      → retry_time env d.random d.now (w.objects a) ≡ some due
      → let o = fail_job env id error traceback d w in
        (o.raised ≡ none)
        × (o.state.objects a ≡ retried env due (w.objects a))
        × (o.state.dlq ≡ w.dlq)
        × (is_full w.queue ≡ false → is_queued (w.objects a).id o.state.queue ≡ true)
        × (is_full w.queue ≡ true → o.state.queue ≡ w.queue)
  fail_job_timely a error traceback d due found runs e timely =
      let v0 = failing a error traceback in
      let v = rescheduled env a due v0 in
      let job = w.objects a in
      let here : v.objects a ≡ retried env due job =
        retried_job env a due v0 ∙ (unfold set_job in rw (==_refl a) refl) in
      let name : (v.objects a).id ≡ job.id = ap (λ (j : Job F). j.id) here in
      rw
        (fail_job_retries a error traceback d found e
          ∙ retry_job_lem env a d.random d.now due v0 (failing_running a error traceback runs)
              (noted-retry_time env a error traceback d.random d.now w ∙ timely))
        (
          refl,
          here,
          unfold set_job in refl,
          λ room.
              subst (λ k. is_queued k (push v.objects a v.queue).1 ≡ true) name
                (push-is_queued v.objects a v.queue (unfold set_job in room)).1,
          λ full. unfold push set_job in rw full refl,
        )

  -- A failure of a running job that belongs to no DAG raises only when a retry is allowed and the
  -- power of its delay or its time overflows; the job is then still RUNNING, with the error noted, and
  -- nothing else has changed. If the time is computed, the job is SCHEDULED for it, one attempt later
  -- and without its error, is not sent to the dead letter queue, and is queued if the queue has room;
  -- on a full queue the retry is lost: the call reports nothing, and the queue is as it was. When no
  -- retry is allowed the call does not raise, the job is FAILED, goes to the dead letter queue with
  -- its error, and the queue is as it was.
  pub fail_job_lem :
      (a error traceback : ℕ) (d : Draw F)
      → JobStore.get id w.job_store ≡ some a
      → (w.objects a).state ≡ running
      → get_dag_for_job id w.executor ≡ none
      → let o = fail_job env id error traceback d w in
        let job = w.objects a in
        let retry = should_retry env.floats env.isinstance job (some error) in
        (retry ≡ true
          → retry_time env d.random d.now job ≡ none
          → (o.raised ≡ some overflow_error)
            × (o.state ≡ record w { objects = assign w.objects a (noted env error traceback job) }))
        × (retry ≡ true
            → (due : ℕ) → retry_time env d.random d.now job ≡ some due
            → (o.raised ≡ none)
              × (o.state.objects a ≡ retried env due job)
              × (o.state.dlq ≡ w.dlq)
              × (is_full w.queue ≡ false → is_queued job.id o.state.queue ≡ true)
              × (is_full w.queue ≡ true → o.state.queue ≡ w.queue))
        × (retry ≡ false
            → (o.raised ≡ none)
              × (o.state.objects a ≡ dead env error traceback d.now job)
              × (o.state.dlq
                  ≡ Dlq.add env.kind_of d.fresh
                      (dead env error traceback d.now job)
                      (some error)
                      none
                      d.now
                      d.later
                      w.dlq)
              × (o.state.queue ≡ w.queue)
              × (o.state.stats.jobs_sent_to_dlq ≡ w.stats.jobs_sent_to_dlq + 1))
  fail_job_lem a error traceback d found runs alone =
      let v0 = failing a error traceback in
      let runs0 = failing_running a error traceback runs in
      let alone0 : get_dag_for_job id v0.executor ≡ none = unfold set_job in alone in
      (
        λ e late.
            rw
              (fail_job_retries a error traceback d found e
                ∙ retry_job_raises env a d.random d.now v0
                    (noted-retry_time env a error traceback d.random d.now w ∙ late))
              (unfold set_job in (refl, refl)),
        λ e due timely. fail_job_timely a error traceback d due found runs e timely,
        λ e.
            rw
              (fail_job_buries a error traceback d found e
                ∙ bury_lem env a id error d v0 runs0 alone0)
              (unfold set_job in (refl, rw (==_refl a) refl, rw (==_refl a) refl, refl, refl)),
      )
