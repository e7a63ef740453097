-- ===== src/Scheduler/Dlq.antt =====
-- src/job_orchestrator/scheduler/dlq.py, class DeadLetterQueue. The lock makes each method one
-- step. Identifiers of entries and of jobs are numbers of one kind, as they are strings of one kind
-- in the code; an entry gets a fresh one. An error is a number, and `kind_of` gives the name of its
-- type. Callbacks on new entries only observe them, and are left out with the name of the job, the
-- stack trace, the reason and the notes, which are only stored.
pub mod Index
pub mod Bound
pub mod Runs
mod Examples
use job_orchestrator.Prelude.{
  ℕ, ◌+◌, ◌-◌, Bool, true, false, ◌&&◌, Option, none, some, List, [], ◌∷◌, ◌==◌, ltb, leb,
  if◌then◌else◌, length,
}
use job_orchestrator.Prelude.Dict
use job_orchestrator.Prelude.Dict.{Dict}
use job_orchestrator.Core.Job.{Job, pending}

pub data EntryStatus : Type 0 where
  waiting requeued discarded resolved : EntryStatus

pub record Entry (F : Type 0) : Type 0 where
  pub entry_id : ℕ
  pub job : Job F
  pub job_id : ℕ
  pub error_type : Option ℕ
  pub error_message : Option ℕ
  pub added_at : ℕ
  pub status : EntryStatus
  pub resolved_at : Option ℕ
  pub resolved_by : Option ℕ
  pub retry_count : ℕ
  pub is_resolved : Bool

pub record Dlq (F : Type 0) : Type 0 where
  pub max_entries : Option ℕ
  pub ttl : Option ℕ
  pub auto_cleanup : Bool
  pub entries : Dict (Entry F)
  pub job_index : Dict ℕ

-- `a or b`, where 0 counts as missing.
unfoldable pub or_else : Option ℕ → Option ℕ → Option ℕ
or_else none b = b
or_else (some a) b = if a == 0 then b else some a

-- `if self.max_entries and len(self._entries) >= self.max_entries`
unfoldable pub reached : Option ℕ → ℕ → Bool
reached none n = false
reached (some limit) n = if limit == 0 then false else leb limit n

module _ {F : Type 0} where
  unfoldable pub new : (max_entries max_size ttl : Option ℕ) (auto_cleanup : Bool) → Dlq F
  new max_entries max_size ttl auto_cleanup = record {
    max_entries = or_else max_entries max_size;
    ttl = ttl;
    auto_cleanup = auto_cleanup;
    entries = [];
    job_index = [];
  }

  unfoldable pub register_entry : Entry F → Dlq F → Dlq F
  register_entry e q = record q {
    entries = Dict.insert e.entry_id e q.entries;
    job_index = Dict.insert e.job_id e.entry_id q.job_index;
  }

  unfoldable pub drop : Option (Entry F) → ℕ → Dlq F → Dlq F
  drop none id q = q
  drop (some e) id q = record q {
    entries = Dict.remove id q.entries;
    job_index = Dict.remove e.job_id q.job_index;
  }

  unfoldable pub remove_entry : ℕ → Dlq F → Dlq F
  remove_entry id q = drop (Dict.lookup id q.entries) id q

  -- `min` keeps the first of the oldest entries.
  unfoldable pub oldest : ℕ → ℕ → Dict (Entry F) → ℕ
  oldest id age [] = id
  oldest id age ((k, e) ∷ rest) =
      let newer = oldest id age rest in
      let older = oldest k e.added_at rest in if ltb e.added_at age then older else newer

  unfoldable pub evict_among : Dict (Entry F) → Dlq F → Dlq F
  unfolding oldest
  evict_among [] q = q
  evict_among ((k, e) ∷ rest) q = remove_entry (oldest k e.added_at rest) q

  unfoldable pub evict_oldest : Dlq F → Dlq F
  evict_oldest q = evict_among q.entries q

  -- The loop of `cleanup_expired` over a copy of the entries.
  unfoldable pub cleanup_among : (cutoff : ℕ) → Dict (Entry F) → Dlq F → ℕ × Dlq F
  cleanup_among cutoff [] q = (0, q)
  cleanup_among cutoff ((k, e) ∷ rest) q =
      let gone = cleanup_among cutoff rest (remove_entry k q) in
      let kept = cleanup_among cutoff rest q in
      if ltb e.added_at cutoff then (gone.0 + 1, gone.1) else kept

  -- `ttl` is a duration; none or 0 switches the clean-up off.
  unfoldable pub cleanup_expired : (now : ℕ) → Dlq F → ℕ × Dlq F
  unfolding cleanup_among
  cleanup_expired now q = elim q.ttl [
    | none ↦ (0, q)
    | some t ↦ if t == 0 then (0, q) else cleanup_among (now - t) q.entries q
  ]

  unfoldable pub entry_of :
      (kind_of : ℕ → ℕ) → ℕ → Job F → (error retry_count : Option ℕ) → ℕ → Entry F
  entry_of kind_of fresh job error retry_count now =
      let error_obj : Option ℕ = elim error [ none ↦ job.error | some e ↦ some e ] in
      record {
        entry_id = fresh;
        job = job;
        job_id = job.id;
        error_type = elim error_obj [ none ↦ none | some e ↦ some (kind_of e) ];
        error_message = error_obj;
        added_at = now;
        status = waiting;
        resolved_at = none;
        resolved_by = none;
        retry_count = elim retry_count [ none ↦ job.retry_count | some n ↦ n ];
        is_resolved = false;
      }

  -- `now` is the clock when the entry is made, `later` at the clean-up.
  unfoldable pub add :
      (kind_of : ℕ → ℕ)
      → (fresh : ℕ) → Job F
      → (error retry_count : Option ℕ) (now later : ℕ) → Dlq F
      → Dlq F
  add kind_of fresh job error retry_count now later q =
      let room = if reached q.max_entries (length q.entries) then evict_oldest q else q in
      let added = register_entry (entry_of kind_of fresh job error retry_count now) room in
      if q.auto_cleanup then (cleanup_expired later added).1 else added

  -- The identifier of an entry, or else that of a job.
  unfoldable pub get_entry : ℕ → Dlq F → Option (Entry F)
  get_entry id q = elim (Dict.lookup id q.entries) [
    | some e ↦ some e
    | none ↦ elim (Dict.lookup id q.job_index) [
      | none ↦ none
      | some entry_id ↦ Dict.lookup entry_id q.entries
    ]
  ]

  unfoldable pub discard_found : Option (Entry F) → Dlq F → Bool × Dlq F
  discard_found none q = (false, q)
  discard_found (some e) q = (true, remove_entry e.entry_id q)

  -- The fields that `discard` sets are those of an entry that leaves the queue.
  unfoldable pub discard : ℕ → Dlq F → Bool × Dlq F
  discard id q = discard_found (get_entry id q) q

  unfoldable pub settle : EntryStatus → (resolved_by : Option ℕ) (now : ℕ) → Entry F → Entry F
  settle status resolved_by now e = record e {
    status = status;
    resolved_at = some now;
    resolved_by = resolved_by;
    is_resolved = true;
  }

  unfoldable pub resolve_found :
      (resolved_by : Option ℕ) (keep : Bool) (now : ℕ) → Option (Entry F) → Dlq F → Bool × Dlq F
  unfolding settle
  resolve_found resolved_by keep now none q = (false, q)
  resolve_found resolved_by keep now (some e) q =
      if keep
      then (
        true,
        record q { entries = Dict.modify (settle resolved resolved_by now) e.entry_id q.entries },
      )
      else (true, remove_entry e.entry_id q)

  unfoldable pub resolve :
      ℕ → (resolved_by : Option ℕ) (keep_in_history : Bool) (now : ℕ) → Dlq F → Bool × Dlq F
  unfolding resolve_found
  resolve id resolved_by keep now q = resolve_found resolved_by keep now (get_entry id q) q

  unfoldable pub reset_job : Bool → Job F → Job F
  reset_job reset_retry_count job =
      let cleared = record job { state = pending; error = none; traceback = none } in
      if reset_retry_count then record cleared { retry_count = 0 } else cleared

  unfoldable pub requeued_entry :
      Bool → (modifier : Job F → Job F) (resolved_by : Option ℕ) (now : ℕ) → Entry F → Entry F
  unfolding settle reset_job
  requeued_entry reset_retry_count modifier resolved_by now e =
      settle requeued resolved_by now
        (record e { job = modifier (reset_job reset_retry_count e.job) })

  -- `submit` is the `submit` of the scheduler, if one is given, and false when it raises. A missing
  -- modifier is the identity. The result holds the job, and whether the call ends well.
  unfoldable pub requeue_found :
      (submit : Option (Job F → Bool))
      → (Entry F → Entry F)
      → Option (Entry F)
      → Dlq F
      → Option (Job F) × Bool × Dlq F
  requeue_found submit change none q = (none, false, q)
  requeue_found submit change (some e) q =
      let left = remove_entry e.entry_id q in
      let job = (change e).job in
      elim submit [
        | none ↦ (some job, true, left)
        | some accepts ↦
            if accepts job
            then (some job, true, left)
            else (some job, false, register_entry (change e) left)
      ]

  unfoldable pub requeue :
      ℕ
      → (submit : Option (Job F → Bool))
      → (reset_retry_count : Bool) (modifier : Job F → Job F) (resolved_by : Option ℕ) (now : ℕ)
      → Dlq F
      → Option (Job F) × Bool × Dlq F
  unfolding requeue_found requeued_entry
  requeue id submit reset_retry_count modifier resolved_by now q =
      requeue_found submit (requeued_entry reset_retry_count modifier resolved_by now)
        (get_entry id q) q
