-- ===== src/Queue/Duplicates.antt =====
-- `update_priority` and `reschedule` of queue/priority_queue.py: the entry that they mean to
-- replace stays in the heap, and dropping the mark brings it back.
use job_orchestrator.Prelude.{
  ℕ, ◌+◌, ◌≡◌, refl, sym, ◌∙◌, Bool, true, false, some, List, [], ◌∷◌, ◌⊎◌, inl, inr, arith, In,
  filter, Bool-cases, length, length-append,
}
use job_orchestrator.Prelude.Ids.{
  contains, add, discard, contains-add, contains-discard, length-discard, add-IsNodup,
}
use job_orchestrator.Prelude.Dict
use job_orchestrator.Prelude.Dict.{Dict, length-insert}
use job_orchestrator.Core.Job.{Job, JobPriority, due_time}
use job_orchestrator.Queue.{
  Entry, Queue, Objects, entry_lt, entry_for, heappush, size, enqueue, mark_removed,
}
use job_orchestrator.Queue.Methods.{revise, update_priority, reschedule}
use job_orchestrator.Queue.Live.{live}
use job_orchestrator.Queue.Book.{IsBooked}

In-heappush : (x e : Entry) (h : List Entry) → (x ≡ e) ⊎ In x h → In x (heappush e h)
unfolding heappush
In-heappush x e [] i = i
In-heappush x e (y ∷ ys) i = elim (Bool-cases (entry_lt e y)) [
  | inl lt ↦ rw lt i
  | inr ge ↦ rw ge (elim i [
    | inl same ↦ inr (In-heappush x e ys (inl same))
    | inr (inl here) ↦ inl here
    | inr (inr later) ↦ inr (In-heappush x e ys (inr later))
  ])
]

In-filter :
    (p : Entry → Bool) (x : Entry) (h : List Entry) → In x h → p x ≡ true → In x (filter p h)
In-filter p x (y ∷ ys) (inl same) k = rw (← same) (rw k (inl refl))
In-filter p x (y ∷ ys) (inr later) k = elim (Bool-cases (p y)) [
  | inl keep ↦ rw keep (inr (In-filter p x ys later k))
  | inr skip ↦ rw skip (In-filter p x ys later k)
]
In-filter p x [] i k = absurd i

In-filter-In : (p : Entry → Bool) (x : Entry) (h : List Entry) → In x (filter p h) → In x h
In-filter-In p x [] i = i
In-filter-In p x (y ∷ ys) i = elim (Bool-cases (p y)) [
  | inl keep ↦ elim (rw keep at i) [
    | inl here ↦ inl here
    | inr later ↦ inr (In-filter-In p x ys later)
  ]
  | inr skip ↦ inr (In-filter-In p x ys (rw skip at i))
]

-- Two entries of one job, one of them the old one, under an unchanged length.
pub record IsDoubled (old new : Entry) (q q' : Queue) : Type 0 where
  pub still : In old (live q')
  pub again : In new (live q')
  pub same_job : (old.job ≡ new.job) × (old.job_id ≡ new.job_id)
  pub length_kept : size q' ≡ size q

module _ {F : Type 0} (id : ℕ) (old : Entry) (objs : Objects F) (q : Queue) (booked : IsBooked q)
    (found : Dict.lookup id q.entry_map ≡ some old) (clear : contains id q.removed ≡ false)
    (named : old.job_id ≡ id) (queued : In old (live q)) where
  revise_doubles :
      (change : Job F → Job F) (time : Job F → ℕ)
      → (change (objs old.job)).id ≡ id
      → let job = change (objs old.job) in
        let r = revise change time id (some old) objs q in
        (r.0 ≡ true) × IsDoubled old (entry_for job old.job (time job) q.counter) q r.2
  unfolding revise enqueue mark_removed live size
  revise_doubles change time keeps =
      let job = change (objs old.job) in
      let new = entry_for job old.job (time job) q.counter in
      let unmarked : contains id (discard id (add id q.removed)) ≡ false =
        ground (arith, contains-discard id id (add id q.removed)) in
      let added : length (add id q.removed) ≡ length q.removed + 1 =
        unfold add in rw clear (length-append q.removed (id ∷ [])) in
      rw clear (
        refl,
        record {
          still =
              In-filter _ old _
                (In-heappush old new q.heap (inr (In-filter-In _ old q.heap queued)))
                (rw named (rw unmarked));
          again =
              In-filter _ new _ (In-heappush new new q.heap (inl refl)) (rw keeps (rw unmarked));
          same_job = (refl, named ∙ sym keeps);
          length_kept = ground (
            arith,
            length-insert id new q.entry_map,
            length-discard id (add id q.removed) (add-IsNodup id q.removed booked.nodup),
            contains-add id id q.removed,
            added,
          );
        },
      )

  -- On a queued job, both methods report success and leave the old entry in the queue beside the
  -- new one, with the length unchanged, so that the job is there to be taken twice, the first time
  -- at its old priority and its old time if these come first.
  pub update_doubles :
      (priority : JobPriority) (at : ℕ)
      → (objs old.job).id ≡ id
      → let job = record (objs old.job) { priority = priority } in
        let moved = record (objs old.job) { scheduled_at = some at } in
        let u = update_priority id priority objs q in
        let r = reschedule id at objs q in
        (u.0 ≡ true)
        × IsDoubled old (entry_for job old.job (due_time job) q.counter) q u.2
        × (r.0 ≡ true)
        × IsDoubled old (entry_for moved old.job at q.counter) q r.2
  unfolding update_priority reschedule
  update_doubles priority at same =
      let u = revise_doubles (λ job. record job { priority = priority }) due_time same in
      let r = revise_doubles (λ job. record job { scheduled_at = some at }) (λ _. at) same in
      rw found (u.0, u.1, r.0, r.1)
