-- ===== src/Scheduler/Service/Submit.antt =====
-- Scheduler.submit, scheduler/scheduler.py, by how it ends.
use job_orchestrator.Prelude.{
  ℕ, ◌+◌, ◌≡◌, ◌≢◌, ◌↔◌, inl, inr, refl, subst, ◌∙◌, Bool, true, false, ◌&&◌, not, none, some,
  arith, if◌then◌else◌, Bool-cases, ==_refl, either, ltb, length,
}
use job_orchestrator.Prelude.Ids
use job_orchestrator.Prelude.Dict
use job_orchestrator.Core.Job.{Job, scheduled, due_time}
use job_orchestrator.Core.State.{can_transition, invalid_transition}
use job_orchestrator.Queue
use job_orchestrator.Queue.{
  Objects, Queue, assign, push, size, is_full, is_queued, enqueue, mark_removed,
}
use job_orchestrator.Scheduler.JobStore
use job_orchestrator.Scheduler.Service.{
  World, Env, submit, enqueue_job, at_capacity, next, move, count, done, raise, illegal,
}
use job_orchestrator.Scheduler.Service.Moves.{after_move, move_legal, move_illegal}

-- A push on a queue with room succeeds, and the job is queued afterwards.
pub push-is_queued :
    {F : Type 0} (objs : Objects F) (a : ℕ) (q : Queue)
    → is_full q ≡ false
    → ((push objs a q).0 ≡ true) × (is_queued (objs a).id (push objs a q).1 ≡ true)
unfolding push enqueue is_queued
push-is_queued objs a q room =
    let id = (objs a).id in
    let marked = (if is_queued id q then mark_removed id q else q) in
    let entry = Queue.entry_for (objs a) a (due_time (objs a)) marked.counter in
    rw room (
      refl,
      ground (
        arith,
        Dict.lookup-insert id id entry marked.entry_map,
        Ids.contains-discard id id marked.removed,
      ),
    )

-- The queue has the limit of the configuration.
abbrev pub IsConfigured : {F : Type 0} → Env F → World F → Type 0
IsConfigured env w = w.queue.max_size ≡ (Queue.new env.max_size none).max_size

room_left :
    {F : Type 0} (env : Env F) (w : World F)
    → IsConfigured env w
    → at_capacity env.max_size (size w.queue) ≡ false
    → is_full w.queue ≡ false
unfolding at_capacity is_full Queue.new
room_left env w c room = ground (arith, c, room)

module _ {F : Type 0} (env : Env F) (a : ℕ) (w : World F) where
  -- The identifier is not in the store, and the queue has room.
  abbrev pub is_admitted : Bool
  is_admitted =
      not (JobStore.contains (w.objects a).id w.job_store)
      && not (at_capacity env.max_size (size w.queue))

  -- The world after the job is stored.
  abbrev added : World F
  added = record w { job_store = JobStore.add w.objects a w.job_store }

  submit_admitted :
      is_admitted ≡ true → submit env a w ≡ next (move a scheduled added) (enqueue_job env a)
  unfolding submit
  submit_admitted h = ground (arith, h)

  submit_refused :
      is_admitted ≡ false → ((submit env a w).raised ≢ none) × ((submit env a w).state ≡ w)
  unfolding submit
  submit_refused h = ground (arith, h)

  -- What the end of `submit` does on a queue with room.
  enqueue_job_lem :
      (v : World F)
      → is_full v.queue ≡ false
      → let r = push v.objects a v.queue in
        enqueue_job env a v
        ≡ done (record v {
          queue = r.1;
          stats = record v.stats { jobs_submitted = v.stats.jobs_submitted + 1 };
        })
  unfolding enqueue_job count
  enqueue_job_lem v room = rw (push-is_queued v.objects a v.queue room).0 refl

  submit_moves :
      IsConfigured env w
      → is_admitted ≡ true
      → can_transition (w.objects a).state scheduled ≡ true
      → let v = after_move a scheduled added in
        submit env a w
        ≡ done (record v {
          queue = (push v.objects a v.queue).1;
          stats = record v.stats { jobs_submitted = v.stats.jobs_submitted + 1 };
        })
  submit_moves c h legal =
      submit_admitted h
      ∙ rw (move_legal a scheduled added legal) (
          unfold next in
          enqueue_job_lem (after_move a scheduled added) (room_left env w c (ground (arith, h))))

  after_submit :
      is_full w.queue ≡ false
      → let v = after_move a scheduled added in
        let job = w.objects a in
        (v.objects a ≡ record job { state = scheduled })
        × (JobStore.get job.id v.job_store ≡ some a)
        × (is_queued job.id (push v.objects a v.queue).1 ≡ true)
        × (v.stats.jobs_submitted + 1 ≡ w.stats.jobs_submitted + 1)
  unfolding JobStore.get
  after_submit room =
      let v = after_move a scheduled added in
      let job = w.objects a in
      let here : v.objects a ≡ record job { state = scheduled } = rw (==_refl a) refl in
      (
        here,
        either (λ st. Dict.lookup job.id st ≡ some a) (ltb 0 (length added.job_store)) _ _
            (ground (arith, Dict.lookup-insert job.id job.id a added.job_store))
            (unfold JobStore.add in ground (arith, Dict.lookup-insert job.id job.id a w.job_store)),
        subst (λ (j : Job F). is_queued j.id (push v.objects a v.queue).1 ≡ true) here
            (push-is_queued v.objects a v.queue room).1,
        refl,
      )

  submit_stuck :
      is_admitted ≡ true
      → can_transition (w.objects a).state scheduled ≡ false
      → submit env a w
        ≡ raise (illegal (invalid_transition (w.objects a).id (w.objects a).state scheduled)) added
  submit_stuck h banned =
      submit_admitted h ∙ rw (move_illegal a scheduled added banned) (unfold next in refl)

  -- `submit` ends well exactly for a job with a new identifier, on a queue with room, that may enter
  -- SCHEDULED. The job is then SCHEDULED, stored and queued, and counted. For an identifier that is
  -- stored already or a full queue it raises and changes nothing. For a job that may not enter
  -- SCHEDULED it raises too, and leaves the job behind in the store, though not in the queue. The
  -- queue has the limit of the configuration, so that the push after the checks never fails.
  pub submit_lem :
      IsConfigured env w
      → let o = submit env a w in
        let job = w.objects a in
        ((o.raised ≡ none) ↔ ((is_admitted ≡ true) × (can_transition job.state scheduled ≡ true)))
        × (o.raised ≡ none
            → (o.state.objects a ≡ record job { state = scheduled })
              × (JobStore.get job.id o.state.job_store ≡ some a)
              × (is_queued job.id o.state.queue ≡ true)
              × (o.state.stats.jobs_submitted ≡ w.stats.jobs_submitted + 1))
        × (is_admitted ≡ false → o.state ≡ w)
        × (is_admitted ≡ true
            → can_transition job.state scheduled ≡ false
            → (o.raised ≡ some (illegal (invalid_transition job.id job.state scheduled)))
              × (JobStore.get job.id o.state.job_store ≡ some a)
              × (o.state.queue ≡ w.queue))
  submit_lem c = elim (Bool-cases is_admitted) [
    | inr refused ↦
        let (raised, same) = submit_refused refused in
        (
          (λ e. absurd (raised e), λ h. absurd (ground (arith, h.0, refused))),
          λ e. absurd (raised e),
          λ _. same,
          λ h. absurd (ground (arith, h, refused)),
        )
    | inl admitted ↦ elim (Bool-cases (can_transition (w.objects a).state scheduled)) [
      | inl legal ↦ rw (submit_moves c admitted legal) (
        (λ _. (admitted, legal), λ _. refl),
        λ _. after_submit (room_left env w c (ground (arith, admitted))),
        λ h. absurd (ground (arith, h, admitted)),
        λ _ h. absurd (ground (arith, h, legal)),
      )
      | inr banned ↦ rw (submit_stuck admitted banned) (
        (λ e. absurd (ground (arith, e)), λ h. absurd (ground (arith, h.1, banned))),
        λ e. absurd (ground (arith, e)),
        λ h. absurd (ground (arith, h, admitted)),
        λ _ _. (
          refl,
          unfold JobStore.get JobStore.add in
              ground (arith, Dict.lookup-insert (w.objects a).id (w.objects a).id a w.job_store),
          refl,
        ),
      )
    ]
  ]
