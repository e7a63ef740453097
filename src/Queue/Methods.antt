-- ===== src/Queue/Methods.antt =====
-- The other methods of queue/priority_queue.py.
use job_orchestrator.Prelude.{
  ℕ, ◌+◌, Bool, true, false, ◌&&◌, not, Option, none, some, List, [], ◌∷◌, ltb, leb, if◌then◌else◌,
  length, filter, map,
}
use job_orchestrator.Prelude.Ids.{contains}
use job_orchestrator.Prelude.Dict
use job_orchestrator.Prelude.Dict.{Dict}
use job_orchestrator.Core.Job.{Job, JobPriority, due_time}
use job_orchestrator.Queue.{
  Entry, Queue, Objects, assign, size, is_queued, enqueue, mark_removed, cleanup_removed, push_all,
}

head_job : List Entry → Option ℕ
head_job [] = none
head_job (e ∷ h) = some e.job

unfoldable pub peek : Queue → Option ℕ × Queue
unfolding head_job
peek q = let q' = cleanup_removed q in (head_job q'.heap, q')

head_ready : ℕ → Queue → List Entry → Option ℕ
head_ready now q [] = none
head_ready now q (e ∷ h) =
    if leb e.scheduled_time now && not (contains e.job_id q.removed) then some e.job else none

unfoldable pub peek_ready : ℕ → Queue → Option ℕ × Queue
unfolding head_ready
peek_ready now q = let q' = cleanup_removed q in (head_ready now q' q'.heap, q')

-- `remove`, and its alias `delete`: lazy deletion.
unfoldable pub remove : ℕ → Queue → Bool × Queue
unfolding mark_removed
remove id q = if is_queued id q then (true, mark_removed id q) else (false, q)

unfoldable pub get : ℕ → Queue → Option ℕ
get id q =
    if is_queued id q
    then elim (Dict.lookup id q.entry_map) [ none ↦ none | some e ↦ some e.job ]
    else none

-- What `update_priority` and `reschedule` do with the entry found: `change` assigns to the job
-- object, which the rest of the program shares, and `time` reads the time of the new entry.
unfoldable pub revise :
    {F : Type 0}
    → (change : Job F → Job F) (time : Job F → ℕ) → ℕ
    → Option Entry
    → Objects F
    → Queue
    → Bool × Objects F × Queue
revise change time id none objs q = (false, objs, q)
revise change time id (some e) objs q =
    let job = change (objs e.job) in
    if contains id q.removed
    then (false, objs, q)
    else (true, assign objs e.job job, enqueue id job e.job (time job) (mark_removed id q))

unfoldable pub update_priority :
    {F : Type 0} → ℕ → JobPriority → Objects F → Queue → Bool × Objects F × Queue
update_priority id priority objs q =
    revise (λ job. record job { priority = priority }) due_time id (Dict.lookup id q.entry_map) objs
      q

unfoldable pub reschedule : {F : Type 0} → ℕ → ℕ → Objects F → Queue → Bool × Objects F × Queue
reschedule id at objs q =
    revise (λ job. record job { scheduled_at = some at }) (λ _. at) id (Dict.lookup id q.entry_map)
      objs q

unfoldable pub clear : Queue → ℕ × Queue
clear q = (size q, record q { heap = []; entry_map = []; removed = []; counter = 0 })

unfoldable pub shutdown : Queue → Queue
shutdown q = record q { is_shutdown = true }

live_values : Queue → List Entry
live_values q = filter (λ e. not (contains e.job_id q.removed)) (Dict.values q.entry_map)

tally : List Entry → Dict ℕ → Dict ℕ
tally [] counts = counts
tally (e ∷ es) counts =
    let seen : ℕ = elim (Dict.lookup e.priority counts) [ none ↦ 0 | some n ↦ n ] in
    tally es (Dict.insert e.priority (seen + 1) counts)

pub record Stats : Type 0 where
  pub total_size : ℕ
  pub ready : ℕ
  pub scheduled : ℕ
  pub by_priority : Dict ℕ
  pub heap_size : ℕ
  pub removed_count : ℕ

unfoldable pub get_stats : ℕ → Queue → Stats
unfolding live_values tally
get_stats now q =
    let live = live_values q in
    record {
      total_size = size q;
      ready = length (filter (λ e. leb e.scheduled_time now) live);
      scheduled = length (filter (λ e. ltb now e.scheduled_time) live);
      by_priority = tally live [];
      heap_size = length q.heap;
      removed_count = length q.removed;
    }

least_time : List Entry → Option ℕ
least_time [] = none
least_time (e ∷ es) = elim (least_time es) [
  | none ↦ some e.scheduled_time
  | some t ↦ some (if ltb t e.scheduled_time then t else e.scheduled_time)
]

unfoldable pub get_next_scheduled_time : Queue → Option ℕ × Queue
unfolding least_time live_values
get_next_scheduled_time q = let q' = cleanup_removed q in (least_time (live_values q'), q')

-- `__iter__`: the live entries, sorted.
unfoldable pub iterate : Queue → List ℕ
unfolding live_values push_all
iterate q = map (λ e. e.job) (push_all (live_values q) [])
