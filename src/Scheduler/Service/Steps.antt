-- ===== src/Scheduler/Service/Steps.antt =====
-- The parts of Scheduler.complete_job and Scheduler.fail_job, scheduler/scheduler.py, for a job that is
-- found in the store.
use job_orchestrator.Prelude.{
  ℕ, ◌+◌, ◌≡◌, refl, sym, ap, ◌∙◌, true, false, Option, none, some, ◌>>=◌, ==_refl, Option-cases,
  inl, inr, arith,
}
use job_orchestrator.Core.Job.{
  Job, scheduled, running, completed, failed, retrying, in_states, same_state,
}
use job_orchestrator.Core.State.{can_transition, valid_transitions, invalid_transition}
use job_orchestrator.Queue.{push}
use job_orchestrator.Scheduler.Retry.{
  should_retry, prepare_for_retry, get_policy_for_job, get_retry_delay, calculate_delay,
}
use job_orchestrator.Scheduler.Dlq
use job_orchestrator.Scheduler.DagExecutor.Methods.{get_dag_for_job}
use job_orchestrator.Scheduler.Service.{
  World, Env, Draw, complete_found, retry_job, requeue, overflow_error, bury, next, set_job, count,
  notify_complete, tell_complete, tell_failed, notify_failed, illegal, done, raise,
}
use job_orchestrator.Scheduler.Service.Moves.{after_move, move_legal, move_illegal}

module _ {F : Type 0} (env : Env F) where
  -- When the retry of the job is due, unless the computation raises.
  abbrev pub retry_time : F → ℕ → Job F → Option ℕ
  retry_time random now job =
      get_retry_delay env.floats env.isinstance job random >>= λ delay. env.floats.later now delay

  -- The job after the retry of `fail_job` and `run_job`.
  abbrev pub retried : ℕ → Job F → Job F
  retried due job = record job {
    attempt = job.attempt + 1;
    scheduled_at = some due;
    state = scheduled;
    error = none;
    traceback = none;
  }

  -- The job that `fail_job` takes to the dead letter queue.
  abbrev pub dead : (error traceback now : ℕ) → Job F → Job F
  dead error traceback now job = record job {
    state = failed;
    error = some (env.text_of error);
    traceback = some traceback;
    completed_at = some now;
  }

  abbrev pub noted : (error traceback : ℕ) → Job F → Job F
  noted error traceback job = record job {
    error = some (env.text_of error);
    traceback = some traceback;
  }

module _ {F : Type 0} (env : Env F) (a : ℕ) where
  -- `prepare_for_retry` by the time of the retry.
  prepare_for_retry_lem :
      (random : F) (now : ℕ) (job : Job F)
      → let r = prepare_for_retry env.floats env.isinstance job random now in
        (retry_time env random now job ≡ none → r ≡ none)
        × ((due : ℕ)
            → retry_time env random now job ≡ some due
            → (delay : F) × (r
                ≡ some (
                  delay,
                  due,
                  record job { attempt = job.attempt + 1; scheduled_at = some due },
                )))
  unfolding get_retry_delay prepare_for_retry
  prepare_for_retry_lem random now job =
      let policy = get_policy_for_job env.floats env.isinstance job in
      let answer = calculate_delay env.floats env.isinstance policy job.attempt random in
      let then_ : Option F → Option ℕ = λ o. o >>= λ delay. env.floats.later now delay in
      elim (Option-cases answer) [
        | inl over ↦ (
          λ h. rw (over, prepare_for_retry) refl,
          λ due h. let n : none ≡ some due = sym (ap then_ over) ∙ h in absurd (ground (arith, n)),
        )
        | inr (delay, fine) ↦ (
          λ h. rw (fine, prepare_for_retry) (rw (sym (ap then_ fine) ∙ h, prepare_for_retry) refl),
          λ due h. (
            delay,
            rw (fine, prepare_for_retry) (rw (sym (ap then_ fine) ∙ h, prepare_for_retry) refl),
          ),
        )
      ]

  pub retry_job_raises :
      (random : F) (now : ℕ) (w : World F)
      → retry_time env random now (w.objects a) ≡ none
      → retry_job env a random now w ≡ raise overflow_error w
  unfolding retry_job
  retry_job_raises random now w late =
      rw ((prepare_for_retry_lem random now (w.objects a)).0 late, retry_job) refl

  -- The world before the push of a retry.
  abbrev pub rescheduled : (due : ℕ) → World F → World F
  rescheduled due w =
      let prepared =
        set_job a
          (λ job. record (w.objects a) {
            attempt = (w.objects a).attempt + 1;
            scheduled_at = some due;
          })
          w in
      set_job a (λ job. record job { error = none; traceback = none })
        (after_move a scheduled (after_move a retrying prepared))

  pub retry_job_lem :
      (random : F) (now due : ℕ) (w : World F)
      → (w.objects a).state ≡ running
      → retry_time env random now (w.objects a) ≡ some due
      → let v = rescheduled due w in
        retry_job env a random now w
        ≡ done (record v {
          queue = (push v.objects a v.queue).1;
          stats = record v.stats { jobs_retried = v.stats.jobs_retried + 1 };
        })
  unfolding retry_job
  retry_job_lem random now due w h timely =
      let job = w.objects a in
      let prepared : World F =
        set_job a (λ j. record job { attempt = job.attempt + 1; scheduled_at = some due }) w in
      let first : can_transition (prepared.objects a).state retrying ≡ true =
        unfold set_job in
        rw (==_refl a)
          (rw h (unfold can_transition valid_transitions in_states same_state in refl)) in
      let second : can_transition ((after_move a retrying prepared).objects a).state scheduled
          ≡ true =
        rw (==_refl a) (unfold can_transition valid_transitions in_states same_state in refl) in
      let (delay, e) = (prepare_for_retry_lem random now job).1 due timely in
      rw (e, retry_job)
        (unfold requeue count in
          rw (move_legal a retrying prepared first) (
            unfold next in
            rw (move_legal a scheduled (after_move a retrying prepared) second)
              (unfold next in refl)))

  pub retried_job :
      (due : ℕ) (w : World F) → (rescheduled due w).objects a ≡ retried env due (w.objects a)
  unfolding set_job
  retried_job due w = rw (==_refl a) refl

  -- `complete_found` on a running job of no DAG, and on a job that is not running.
  pub complete_running :
      (id now : ℕ) (result : Option ℕ) (w : World F)
      → (w.objects a).state ≡ running
      → get_dag_for_job id w.executor ≡ none
      → let noted = set_job a (λ job. record job { result = result; completed_at = some now }) w in
        let v = after_move a completed noted in
        complete_found env (some a) id result now w
        ≡ done (record v { stats = record v.stats { jobs_completed = v.stats.jobs_completed + 1 } })
  unfolding complete_found
  complete_running id now result w h alone =
      let noted = set_job a (λ job. record job { result = result; completed_at = some now }) w in
      let legal : can_transition (noted.objects a).state completed ≡ true =
        unfold set_job in
        rw (==_refl a)
          (rw h (unfold can_transition valid_transitions in_states same_state in refl)) in
      rw (move_legal a completed noted legal)
        (unfold next notify_complete tell_complete count set_job in rw (alone, tell_complete) refl)

  pub complete_other :
      (id now : ℕ) (result : Option ℕ) (w : World F)
      → can_transition (w.objects a).state completed ≡ false
      → let noted = set_job a (λ job. record job { result = result; completed_at = some now }) w in
        complete_found env (some a) id result now w
        ≡ raise (illegal (invalid_transition (w.objects a).id (w.objects a).state completed)) noted
  unfolding complete_found
  complete_other id now result w banned =
      let noted = set_job a (λ job. record job { result = result; completed_at = some now }) w in
      let same : (noted.objects a).state ≡ (w.objects a).state =
        unfold set_job in rw (==_refl a) refl in
      let name : (noted.objects a).id ≡ (w.objects a).id = unfold set_job in rw (==_refl a) refl in
      rw (move_illegal a completed noted (rw same banned)) (unfold next in rw same (rw name refl))

  pub bury_lem :
      (id error : ℕ) (d : Draw F) (w : World F)
      → (w.objects a).state ≡ running
      → get_dag_for_job id w.executor ≡ none
      → let v =
          set_job a (λ job. record job { completed_at = some d.now }) (after_move a failed w) in
        bury env a id error d w
        ≡ done (record v {
          dlq = Dlq.add env.kind_of d.fresh (v.objects a) (some error) none d.now d.later w.dlq;
          stats = record v.stats {
            jobs_failed = v.stats.jobs_failed + 1;
            jobs_sent_to_dlq = v.stats.jobs_sent_to_dlq + 1;
          };
        })
  unfolding bury
  bury_lem id error d w h alone =
      let legal : can_transition (w.objects a).state failed ≡ true =
        rw h (unfold can_transition valid_transitions in_states same_state in refl) in
      rw (move_legal a failed w legal)
        (unfold next count set_job notify_failed tell_failed in rw (alone, tell_failed) refl)

  -- The retry handler does not look at the error fields of the job.
  pub noted-should_retry :
      (error traceback : ℕ) (w : World F)
      → let v = set_job a (noted env error traceback) w in
        should_retry env.floats env.isinstance (v.objects a) (some error)
        ≡ should_retry env.floats env.isinstance (w.objects a) (some error)
  unfolding set_job should_retry get_policy_for_job
  noted-should_retry error traceback w = rw (==_refl a) refl

  -- Nor does the time of the retry depend on them.
  pub noted-retry_time :
      (error traceback : ℕ) (random : F) (now : ℕ) (w : World F)
      → let v = set_job a (noted env error traceback) w in
        retry_time env random now (v.objects a) ≡ retry_time env random now (w.objects a)
  unfolding set_job get_retry_delay get_policy_for_job
  noted-retry_time error traceback random now w = rw (==_refl a) refl
