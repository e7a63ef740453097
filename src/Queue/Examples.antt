-- ===== src/Queue/Examples.antt =====
-- Runs of queue/priority_queue.py on small inputs, and its theorems at them.
use job_orchestrator.Prelude.{
  ℕ, ◌+◌, ◌≤◌, ◌≡◌, refl, true, false, not, none, some, List, [], ◌∷◌, ◌==◌, leb, ◌⊎◌, inl, inr,
  arith, All, In, filter, if◌then◌else◌, length,
}
use job_orchestrator.Prelude.Ids.{contains, add, discard}
use job_orchestrator.Prelude.Dict
use job_orchestrator.Core.Job.{high, low, due_time, priority_value}
use job_orchestrator.Samples.{sample}
use job_orchestrator.Queue.{
  Entry, Queue, Objects, entry_lt, entry_for, heappush, new, size, is_full, is_queued, push,
  cleanup_removed, sweep, drop_entry, scan, push_all, take_ready, get_ready_job, mark_removed,
  enqueue,
}
use job_orchestrator.Queue.Methods.{remove, revise, update_priority, reschedule, iterate}
use job_orchestrator.Queue.Live.{live, without_ready}
use job_orchestrator.Queue.Calls.{Call, push_job, try_pop, remove_job, set_time, run, run-size}
use job_orchestrator.Queue.Exact.{IsExact, new-IsExact, push_refines, remove_refines}
use job_orchestrator.Queue.Pop.{try_pop_least}
use job_orchestrator.Queue.Duplicates.{IsDoubled, update_doubles}
use job_orchestrator.Queue.Wait.{
  Round, returned, looping, choose, expired, pop_rounds, pop, pop_nowait,
}
use job_orchestrator.Queue.Timeout.{IsLate, pop_nowait_spins, pop-none-IsLate}

-- The objects at addresses 1 to 3; the third is due at 50.
abbrev objs : Objects ℕ
objs a =
    if a == 1
    then sample 11 low none 5
    else if a == 2
    then sample 12 high none 7
    else sample 13 high (some 50) 1

-- All that the methods compute with.
program : Unit {0}
unfolding entry_lt heappush new size is_full is_queued push cleanup_removed sweep drop_entry scan
    push_all take_ready get_ready_job mark_removed enqueue remove revise update_priority reschedule
    live iterate run due_time priority_value contains add discard Dict.lookup Dict.insert
    Dict.remove
program = tt

empty : Queue
unfolding new
empty = new none (some 0)

one : Queue
one = (push objs 3 empty).1

two : Queue
two = (push objs 1 one).1

empty-IsExact : IsExact empty
unfolding empty
empty-IsExact = new-IsExact none (some 0)

push_refines_example :
    let r = push objs 3 empty in
    (r.0 ≡ true)
    × (live r.1 ≡ heappush (entry_for (objs 3) 3 (due_time (objs 3)) empty.counter) (live empty))
    × IsExact r.1
unfolding program empty
push_refines_example = push_refines objs 3 empty empty-IsExact refl refl

one-IsExact : IsExact one
unfolding one
one-IsExact = push_refines_example.2

two-IsExact : IsExact two
unfolding program empty one two
two-IsExact = (push_refines objs 1 one one-IsExact refl refl).2

remove_refines_example :
    let r = remove 11 two in
    (r.0 ≡ is_queued 11 two)
    × (r.0 ≡ true → live r.1 ≡ filter (λ e. not (e.job_id == 11)) (live two))
    × (r.0 ≡ false → r.1 ≡ two)
    × IsExact r.1
remove_refines_example = remove_refines 11 two two-IsExact

-- At time 20 the job of high priority is not due, so the other one is taken.
try_pop_least_example :
    let r = get_ready_job 20 (cleanup_removed two) in
    (live r.1 ≡ without_ready 20 (live two))
    × IsExact r.1
    × ((r.0 ≡ none) × All (λ e. leb e.scheduled_time 20 ≡ false) (live two)
        ⊎ (e : Entry) × (r.0 ≡ some e.job)
          × In e (live two)
          × (leb e.scheduled_time 20 ≡ true)
          × ((x : Entry)
              → In x (live two)
              → leb x.scheduled_time 20 ≡ true
              → (x ≡ e) ⊎ (entry_lt e x ≡ true)))
try_pop_least_example = try_pop_least 20 two two-IsExact

pops_in_order :
    ((get_ready_job 20 (cleanup_removed two)).0 ≡ some 1)
    × ((get_ready_job 60 (cleanup_removed two)).0 ≡ some 3)
unfolding program empty one two
pops_in_order = (refl, refl)

calls : List Call
calls = push_job 1 ∷ push_job 2 ∷ push_job 3 ∷ remove_job 11 ∷ try_pop 9 ∷ set_time 13 80 ∷ []

run-size_example :
    let q = (run calls objs (new none (some 2))).1 in
    (size q + length q.removed ≡ length q.entry_map)
    × ((id : ℕ) → contains id q.removed ≡ true → Dict.has_key id q.entry_map ≡ true)
    × ((n : ℕ) → (new none (some 2)).max_size ≡ some n → size q ≤ n)
run-size_example = run-size none (some 2) calls objs

abbrev old : Entry
old = entry_for (objs 1) 1 5 1

update_doubles_example :
    let job = record (objs 1) { priority = high } in
    let moved = record (objs 1) { scheduled_at = some 90 } in
    let u = update_priority 11 high objs two in
    let r = reschedule 11 90 objs two in
    (u.0 ≡ true)
    × IsDoubled old (entry_for job 1 (due_time job) two.counter) two u.2
    × (r.0 ≡ true)
    × IsDoubled old (entry_for moved 1 90 two.counter) two r.2
unfolding program empty one two
update_doubles_example =
    update_doubles 11 old objs two two-IsExact.booked refl refl refl (inr (inl refl)) high 90 refl

-- A job that is moved from 5 to 90 is taken at 10, and at 90 once more.
rescheduled_twice :
    let q = (reschedule 11 90 objs two).2 in
    let first = get_ready_job 10 (cleanup_removed q) in
    let second = get_ready_job 70 (cleanup_removed first.1) in
    let third = get_ready_job 90 (cleanup_removed second.1) in
    (first.0 ≡ some 1) × (second.0 ≡ some 3) × (third.0 ≡ some 1)
unfolding program empty one two
rescheduled_twice = (refl, refl, refl)

abbrev tick : ℕ → Round
tick t = record { entered = t; waited = t; bounded = t; checked = t; others = λ q. q }

pop_nowait_spins_example : (pop_nowait 20 (tick 20 ∷ tick 21 ∷ tick 22 ∷ []) one).0 ≡ looping
unfolding program empty one
pop_nowait_spins_example =
    pop_nowait_spins 20 (tick 20 ∷ tick 21 ∷ tick 22 ∷ []) one one-IsExact.orderly refl (λ e. cc)
      ((omega arith, (refl, tt)), ((omega arith, (refl, tt)), ((omega arith, (refl, tt)), tt)))

gives_up : (pop (some 5) 20 (tick 20 ∷ tick 25 ∷ []) empty).0 ≡ returned none
unfolding program empty pop pop_rounds choose expired
gives_up = refl

pop-none-IsLate_example :
    (t : ℕ) × (some 5 ≡ some t) × IsLate (some (20 + t)) (tick 20 ∷ tick 25 ∷ [])
unfolding empty
pop-none-IsLate_example =
    pop-none-IsLate (some 5) 20 (tick 20 ∷ tick 25 ∷ []) empty ((λ q. refl), ((λ q. refl), tt))
      (unfold program in refl) gives_up
