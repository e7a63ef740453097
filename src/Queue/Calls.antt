-- ===== src/Queue/Calls.antt =====
-- Every method of the queue as a call, and what holds after any calls in any order.
use job_orchestrator.Prelude.{
  ℕ, ◌+◌, ◌≤◌, ◌≡◌, refl, true, Option, none, some, List, [], ◌∷◌, ◌++◌, ◌∙◌, arith, Bool-cases,
  length, inl, inr,
}
use job_orchestrator.Prelude.Ids.{contains}
use job_orchestrator.Prelude.Dict
use job_orchestrator.Prelude.Dict.{Dict, IsDict, lookup-remove, remove-IsDict, length-remove}
use job_orchestrator.Core.Job.{Job, JobPriority}
use job_orchestrator.Queue.{
  Entry, Queue, Objects, new, size, is_queued, enqueue, mark_removed, push, cleanup_removed,
  drop_entry, sweep, scan, take_ready, get_ready_job,
}
use job_orchestrator.Queue.Methods.{
  peek, peek_ready, remove, revise, update_priority, reschedule, clear, shutdown,
  get_next_scheduled_time,
}
use job_orchestrator.Queue.Book.{
  IsBooked, sweep-IsBooked, get_ready_job-IsBooked, enqueue-IsBooked, mark_removed-IsBooked,
  push-IsBooked, size-IsBooked, new-IsBooked,
}

-- One call of a method. `try_pop` is the body of the loop of `pop` up to its return: clean up, and
-- take a job that is ready at the time given.
pub data Call : Type 0 where
  push_job : (address : ℕ) → Call
  try_pop : (now : ℕ) → Call
  peek_job : Call
  peek_ready_job : (now : ℕ) → Call
  remove_job : (id : ℕ) → Call
  set_priority : (id : ℕ) → JobPriority → Call
  set_time : (id at : ℕ) → Call
  clear_all : Call
  shut_down : Call
  next_time : Call

remove-IsBooked : (id : ℕ) (q : Queue) → IsBooked q → IsBooked (remove id q).1
unfolding remove
remove-IsBooked id q b = elim (Bool-cases (is_queued id q)) [
  | inl queued ↦ rw queued (mark_removed-IsBooked id q queued b).0
  | inr absent ↦ rw absent b
]

module _ {F : Type 0} where
  unfoldable pub call : Call → Objects F → Queue → Objects F × Queue
  call (push_job address) objs q = (objs, (push objs address q).1)
  call (try_pop now) objs q = (objs, (get_ready_job now (cleanup_removed q)).1)
  call peek_job objs q = (objs, (peek q).1)
  call (peek_ready_job now) objs q = (objs, (peek_ready now q).1)
  call (remove_job id) objs q = (objs, (remove id q).1)
  call (set_priority id p) objs q = let r = update_priority id p objs q in (r.1, r.2)
  call (set_time id at) objs q = let r = reschedule id at objs q in (r.1, r.2)
  call clear_all objs q = (objs, (clear q).1)
  call shut_down objs q = (objs, shutdown q)
  call next_time objs q = (objs, (get_next_scheduled_time q).1)

  unfoldable pub run : List Call → Objects F → Queue → Objects F × Queue
  run [] objs q = (objs, q)
  run (c ∷ cs) objs q = let (objs', q') = call c objs q in run cs objs' q'

  revise-IsBooked :
      (change : Job F → Job F) (time : Job F → ℕ) (id : ℕ) (found : Option Entry) (objs : Objects F)
      (q : Queue)
      → Dict.lookup id q.entry_map ≡ found
      → IsBooked q
      → IsBooked (revise change time id found objs q).2
  unfolding revise mark_removed
  revise-IsBooked change time id none objs q e b = b
  revise-IsBooked change time id (some x) objs q e b = elim (Bool-cases (contains id q.removed)) [
    | inl marked ↦ rw marked b
    | inr unmarked ↦
        let queued : is_queued id q ≡ true = unfold is_queued in rw e (rw unmarked) in
        let (kept, room) = mark_removed-IsBooked id q queued b in
        rw unmarked (enqueue-IsBooked id _ x.job _ (mark_removed id q) kept room)
  ]

  call-IsBooked :
      (c : Call) (objs : Objects F) (q : Queue) → IsBooked q → IsBooked (call c objs q).1
  unfolding call update_priority reschedule peek peek_ready get_next_scheduled_time cleanup_removed
      clear shutdown
  call-IsBooked (push_job address) objs q b = push-IsBooked objs address q b
  call-IsBooked (try_pop now) objs q b = get_ready_job-IsBooked now _ (sweep-IsBooked q.heap q b)
  call-IsBooked peek_job objs q b = sweep-IsBooked q.heap q b
  call-IsBooked (peek_ready_job now) objs q b = sweep-IsBooked q.heap q b
  call-IsBooked (remove_job id) objs q b = remove-IsBooked id q b
  call-IsBooked (set_priority id p) objs q b = revise-IsBooked _ _ id _ objs q refl b
  call-IsBooked (set_time id at) objs q b = revise-IsBooked _ _ id _ objs q refl b
  call-IsBooked clear_all objs q b = record {
    keyed = tt;
    nodup = tt;
    known = λ id m. unfold contains in cc;
    fits = λ n e. omega arith;
  }
  call-IsBooked shut_down objs q b = record {
    keyed = b.keyed;
    nodup = b.nodup;
    known = b.known;
    fits = b.fits;
  }
  call-IsBooked next_time objs q b = sweep-IsBooked q.heap q b

  pub run-IsBooked :
      (cs : List Call) (objs : Objects F) (q : Queue) → IsBooked q → IsBooked (run cs objs q).1
  unfolding run
  run-IsBooked [] objs q b = b
  run-IsBooked (c ∷ cs) objs q b =
      let (objs', q') = call c objs q in run-IsBooked cs objs' q' (call-IsBooked c objs q b)

pub sweep-max_size : (h : List Entry) (q : Queue) → (sweep h q).max_size ≡ q.max_size
unfolding sweep drop_entry
sweep-max_size [] q = refl
sweep-max_size (e ∷ h) q = ground (arith, sweep-max_size h (drop_entry e q))

pub scan-max_size :
    (now : ℕ) (h buffer : List Entry) (q : Queue)
    → (scan now h buffer q).queue.max_size ≡ q.max_size
unfolding scan drop_entry
scan-max_size now [] buffer q = refl
scan-max_size now (e ∷ h) buffer q =
    ground
      (arith, scan-max_size now h buffer (drop_entry e q), scan-max_size now h (buffer ++ e ∷ []) q)

pub take_ready-max_size : (o : Option Entry) (q : Queue) → (take_ready o q).1.max_size ≡ q.max_size
unfolding take_ready
take_ready-max_size none q = refl
take_ready-max_size (some e) q = refl

revise-max_size :
    {F : Type 0} (change : Job F → Job F) (time : Job F → ℕ) (id : ℕ) (found : Option Entry)
    (objs : Objects F) (q : Queue)
    → (revise change time id found objs q).2.max_size ≡ q.max_size
unfolding revise enqueue mark_removed
revise-max_size change time id none objs q = refl
revise-max_size change time id (some x) objs q = elim (Bool-cases (contains id q.removed)) [
  | inl m ↦ rw m
  | inr m ↦ rw m
]

module _ {F : Type 0} where
  call-max_size :
      (c : Call) (objs : Objects F) (q : Queue) → (call c objs q).1.max_size ≡ q.max_size
  unfolding call update_priority reschedule peek peek_ready get_next_scheduled_time cleanup_removed
      clear shutdown push remove get_ready_job enqueue mark_removed
  call-max_size (push_job address) objs q = ground arith
  call-max_size (try_pop now) objs q =
      take_ready-max_size _ _ ∙ (scan-max_size now _ [] _ ∙ sweep-max_size q.heap q)
  call-max_size (remove_job id) objs q = ground arith
  call-max_size (set_priority id p) objs q = revise-max_size _ _ id _ objs q
  call-max_size (set_time id at) objs q = revise-max_size _ _ id _ objs q
  call-max_size clear_all objs q = refl
  call-max_size shut_down objs q = refl
  call-max_size _ objs q = sweep-max_size q.heap q

  run-max_size :
      (cs : List Call) (objs : Objects F) (q : Queue) → (run cs objs q).1.max_size ≡ q.max_size
  unfolding run
  run-max_size [] objs q = refl
  run-max_size (c ∷ cs) objs q =
      let (objs', q') = call c objs q in run-max_size cs objs' q' ∙ call-max_size c objs q

-- A new queue, after any calls in any order: as many identifiers are marked as removed as `__len__`
-- subtracts, so that the length is never negative, only queued identifiers are marked, and a
-- queue made with a limit never holds more jobs than the limit.
pub run-size :
    {F : Type 0} (max_size maxsize : Option ℕ) (cs : List Call) (objs : Objects F)
    → let q = (run cs objs (new max_size maxsize)).1 in
      (size q + length q.removed ≡ length q.entry_map)
      × ((id : ℕ) → contains id q.removed ≡ true → Dict.has_key id q.entry_map ≡ true)
      × ((n : ℕ) → (new max_size maxsize).max_size ≡ some n → size q ≤ n)
run-size max_size maxsize cs objs =
    let q = new max_size maxsize in
    let b = run-IsBooked cs objs q (new-IsBooked max_size maxsize) in
    let exact = size-IsBooked (run cs objs q).1 b in
    (exact, b.known, λ n e. omega (arith, exact, b.fits n (run-max_size cs objs q ∙ e)))
