-- ===== src/Queue.antt =====
-- src/job_orchestrator/queue/priority_queue.py, class ThreadSafePriorityQueue. The lock makes each
-- method atomic but for `pop`, which waits (Queue/Wait). `heapq` keeps the least entry first and
-- the program uses no other part of its order, so the heap is an ascending list. Entries share the
-- job objects with the rest of the program: an entry holds an address, and the objects are a store.
pub mod Methods
pub mod Order
pub mod Live
pub mod Ready
pub mod Book
pub mod Calls
pub mod Exact
pub mod Pop
pub mod Duplicates
pub mod Wait
pub mod Timeout
mod Examples
use job_orchestrator.Prelude.{
  ℕ, suc, ◌+◌, ◌-◌, Bool, true, false, ◌&&◌, not, Option, none, some, List, [], ◌∷◌, ◌++◌, ◌==◌,
  ltb, leb, if◌then◌else◌, length, filter, map,
}
use job_orchestrator.Prelude.Ids.{contains, add, discard}
use job_orchestrator.Prelude.Dict
use job_orchestrator.Prelude.Dict.{Dict}
use job_orchestrator.Core.Job.{Job, JobPriority, priority_value, due_time}

pub record Entry : Type 0 where
  pub priority : ℕ
  pub scheduled_time : ℕ
  pub insertion_order : ℕ
  pub job_id : ℕ
  pub job : ℕ

-- `dataclass(order=True)`: the compared fields as a tuple.
unfoldable pub entry_lt : Entry → Entry → Bool
entry_lt a b =
    if a.priority == b.priority
    then (if a.scheduled_time == b.scheduled_time
        then ltb a.insertion_order b.insertion_order
        else ltb a.scheduled_time b.scheduled_time)
    else ltb a.priority b.priority

unfoldable pub heappush : Entry → List Entry → List Entry
heappush e [] = e ∷ []
heappush e (x ∷ xs) = if entry_lt e x then e ∷ x ∷ xs else x ∷ heappush e xs

pub record Queue : Type 0 where
  pub heap : List Entry
  pub entry_map : Dict Entry
  pub removed : List ℕ
  pub counter : ℕ
  pub max_size : Option ℕ
  pub is_shutdown : Bool

-- The job objects by address.
abbrev pub Objects : Type 0 → Type 0
Objects F = ℕ → Job F

abbrev pub assign : {F : Type 0} → Objects F → ℕ → Job F → Objects F
assign objs a job b = if a == b then job else objs b

-- `__init__`: the alias wins, and 0 means no limit.
unfoldable pub new : (max_size maxsize : Option ℕ) → Queue
new max_size maxsize =
    let limit : Option ℕ = elim maxsize [ none ↦ max_size | some n ↦ some n ] in
    let resolved : Option ℕ = elim limit [
      | none ↦ none
      | some n ↦ if n == 0 then none else some n
    ] in
    record {
      heap = [];
      entry_map = [];
      removed = [];
      counter = 0;
      max_size = resolved;
      is_shutdown = false;
    }

-- `__len__`
unfoldable pub size : Queue → ℕ
size q = length q.entry_map - length q.removed

unfoldable pub is_empty : Queue → Bool
is_empty q = size q == 0

unfoldable pub is_full : Queue → Bool
is_full q = elim q.max_size [ none ↦ false | some n ↦ leb n (size q) ]

-- `contains`: in the map, and not marked as removed.
unfoldable pub is_queued : ℕ → Queue → Bool
is_queued id q = Dict.has_key id q.entry_map && not (contains id q.removed)

abbrev pub entry_for : {F : Type 0} → Job F → (address time order : ℕ) → Entry
entry_for job address time order = record {
  priority = priority_value job.priority;
  scheduled_time = time;
  insertion_order = order;
  job_id = job.id;
  job = address;
}

-- The tail that `push`, `update_priority` and `reschedule` share: a new entry takes the place of
-- the old one under the key `id` of the map, and the mark of `id` is dropped.
unfoldable pub enqueue : {F : Type 0} → ℕ → Job F → ℕ → ℕ → Queue → Queue
enqueue id job address time q =
    let entry = entry_for job address time q.counter in
    record q {
      heap = heappush entry q.heap;
      entry_map = Dict.insert id entry q.entry_map;
      removed = discard id q.removed;
      counter = q.counter + 1;
    }

unfoldable pub mark_removed : ℕ → Queue → Queue
mark_removed id q = record q { removed = add id q.removed }

unfoldable pub push : {F : Type 0} → Objects F → ℕ → Queue → Bool × Queue
unfolding enqueue mark_removed
push objs address q =
    let job = objs address in
    if is_full q
    then (false, q)
    else (let marked = (if is_queued job.id q then mark_removed job.id q else q) in
        (true, enqueue job.id job address (due_time job) marked))

-- An entry whose identifier is marked is dropped, with its mark and its place in the map.
unfoldable pub drop_entry : Entry → Queue → Queue
drop_entry e q = record q {
  entry_map = Dict.remove e.job_id q.entry_map;
  removed = discard e.job_id q.removed;
}

-- The loop of `_cleanup_removed`, over the heap that is left.
unfoldable pub sweep : List Entry → Queue → Queue
unfolding drop_entry
sweep [] q = record q { heap = [] }
sweep (e ∷ h) q =
    let rest = sweep h (drop_entry e q) in
    if contains e.job_id q.removed then rest else record q { heap = e ∷ h }

unfoldable pub cleanup_removed : Queue → Queue
cleanup_removed q = sweep q.heap q

pub record Scan : Type 0 where
  pub ready : Option Entry
  pub buffer : List Entry
  pub queue : Queue

-- The first loop of `_get_ready_job`, over the heap that is left.
unfoldable pub scan : ℕ → List Entry → List Entry → Queue → Scan
unfolding drop_entry
scan now [] buffer q = record { ready = none; buffer = buffer; queue = record q { heap = [] } }
scan now (e ∷ h) buffer q =
    let skipped = scan now h buffer (drop_entry e q) in
    let kept = scan now h (buffer ++ e ∷ []) q in
    if contains e.job_id q.removed
    then skipped
    else if leb e.scheduled_time now
    then record { ready = some e; buffer = buffer; queue = record q { heap = h } }
    else kept

unfoldable pub push_all : List Entry → List Entry → List Entry
push_all [] h = h
push_all (e ∷ es) h = push_all es (heappush e h)

-- The end of `_get_ready_job`: the entry found leaves the map.
unfoldable pub take_ready : Option Entry → Queue → Option ℕ × Queue
take_ready none q = (none, q)
take_ready (some e) q = (some e.job, record q { entry_map = Dict.remove e.job_id q.entry_map })

unfoldable pub get_ready_job : ℕ → Queue → Option ℕ × Queue
get_ready_job now q =
    let s = scan now q.heap [] q in
    take_ready s.ready (record s.queue { heap = push_all s.buffer s.queue.heap })
