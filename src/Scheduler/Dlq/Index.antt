-- ===== src/Scheduler/Dlq/Index.antt =====
-- The index by job of the dead letter queue.
use job_orchestrator.Prelude.{
  ℕ, ◌-◌, ◌≡◌, true, false, Option, none, some, [], ◌∷◌, ◌==◌, if◌then◌else◌, arith, Option-cases,
  Bool-cases, inl, inr, is_some, ltb, length,
}
use job_orchestrator.Prelude.Dict
use job_orchestrator.Prelude.Dict.{Dict, IsDict}
use job_orchestrator.Core.Job.{Job}
use job_orchestrator.Scheduler.Dlq.{
  Dlq, Entry, register_entry, drop, remove_entry, oldest, evict_among, evict_oldest, cleanup_among,
  cleanup_expired, entry_of, add, get_entry, reached,
}

module _ {F : Type 0} where
  abbrev pub id_of : Option (Entry F) → Option ℕ
  id_of none = none
  id_of (some e) = some e.entry_id

  abbrev pub job_of : Option (Entry F) → Option ℕ
  job_of none = none
  job_of (some e) = some e.job_id

  -- Each entry is stored under its identifier, and the index leads from a job to an entry of it.
  pub record IsIndexed (q : Dlq F) : Type 0 where
    pub keyed : IsDict q.entries
    pub named : (k : ℕ) (e : Entry F) → Dict.lookup k q.entries ≡ some e → e.entry_id ≡ k
    pub leads :
        (j i : ℕ) → Dict.lookup j q.job_index ≡ some i → job_of (Dict.lookup i q.entries) ≡ some j

  pub remove_entry-IsIndexed : (id : ℕ) (q : Dlq F) → IsIndexed q → IsIndexed (remove_entry id q)
  unfolding remove_entry drop
  remove_entry-IsIndexed id q w = elim (Option-cases (Dict.lookup id q.entries)) [
    | inl e ↦ rw (e, remove_entry) w
    | inr (entry, e) ↦
        rw (e, remove_entry)
          (record {
            keyed = Dict.remove-IsDict id q.entries w.keyed;
            named = λ k e2 h. ground (arith, h, w.named k e2, Dict.lookup-remove k id q.entries);
            leads = λ j i h. ground (
              arith,
              h,
              e,
              w.leads j i,
              Dict.lookup-remove j entry.job_id q.job_index,
              Dict.lookup-remove i id q.entries,
            );
          })
  ]

  pub register_entry-IsIndexed :
      (entry : Entry F) (q : Dlq F)
      → Dict.has_key entry.entry_id q.entries ≡ false
      → IsIndexed q
      → IsIndexed (register_entry entry q)
  unfolding register_entry
  register_entry-IsIndexed entry q fresh w = record {
    keyed = Dict.insert-IsDict entry.entry_id entry q.entries w.keyed;
    named = λ k e h.
        ground (arith, h, w.named k e, Dict.lookup-insert k entry.entry_id entry q.entries);
    leads = λ j i h. ground (
      arith,
      h,
      fresh,
      w.leads j i,
      Dict.lookup-insert j entry.job_id entry.entry_id q.job_index,
      Dict.lookup-insert i entry.entry_id entry q.entries,
    );
  }

  cleanup_among-IsIndexed :
      (cutoff : ℕ) (todo : Dict (Entry F)) (q : Dlq F)
      → IsIndexed q
      → IsIndexed (cleanup_among cutoff todo q).1
  unfolding cleanup_among
  cleanup_among-IsIndexed cutoff [] q w = w
  cleanup_among-IsIndexed cutoff ((k, e) ∷ rest) q w = elim (Bool-cases (ltb e.added_at cutoff)) [
    | inl old ↦
        rw old
          (cleanup_among-IsIndexed cutoff rest (remove_entry k q) (remove_entry-IsIndexed k q w))
    | inr young ↦ rw young (cleanup_among-IsIndexed cutoff rest q w)
  ]

  pub cleanup_expired-IsIndexed :
      (now : ℕ) (q : Dlq F) → IsIndexed q → IsIndexed (cleanup_expired now q).1
  unfolding cleanup_expired
  cleanup_expired-IsIndexed now q w = elim (Option-cases q.ttl) [
    | inl e ↦ rw (e, cleanup_expired) w
    | inr (t, e) ↦
        rw (e, cleanup_expired)
          (elim (Bool-cases (t == 0)) [
            | inl off ↦ rw off w
            | inr on ↦ rw on (cleanup_among-IsIndexed (now - t) q.entries q w)
          ])
  ]

  evict_among-IsIndexed :
      (es : Dict (Entry F)) (q : Dlq F) → IsIndexed q → IsIndexed (evict_among es q)
  unfolding evict_among
  evict_among-IsIndexed [] q w = w
  evict_among-IsIndexed ((k, e) ∷ rest) q w = remove_entry-IsIndexed (oldest k e.added_at rest) q w

  pub lookup-remove_entry :
      (k id : ℕ) (q : Dlq F)
      → Dict.lookup k (remove_entry id q).entries
        ≡ (if id == k then none else Dict.lookup k q.entries)
  unfolding remove_entry drop
  lookup-remove_entry k id q = elim (Option-cases (Dict.lookup id q.entries)) [
    | inl e ↦ rw (e, remove_entry) (ground (arith, e))
    | inr (entry, e) ↦ rw (e, remove_entry) (Dict.lookup-remove k id q.entries)
  ]

  evict_absent :
      (k : ℕ) (es : Dict (Entry F)) (q : Dlq F)
      → Dict.has_key k q.entries ≡ false
      → Dict.has_key k (evict_among es q).entries ≡ false
  unfolding evict_among
  evict_absent k [] q h = h
  evict_absent k ((j, e) ∷ rest) q h =
      ground (arith, h, lookup-remove_entry k (oldest j e.added_at rest) q)

  -- The queue after the eviction that an `add` makes, if any.
  unfoldable pub room_for : Dlq F → Dlq F
  room_for q = if reached q.max_entries (length q.entries) then evict_oldest q else q

  pub room_lem :
      (fresh : ℕ) (q : Dlq F)
      → Dict.has_key fresh q.entries ≡ false
      → IsIndexed q
      → IsIndexed (room_for q) × (Dict.has_key fresh (room_for q).entries ≡ false)
  unfolding room_for evict_oldest
  room_lem fresh q h w = elim (Bool-cases (reached q.max_entries (length q.entries))) [
    | inl full ↦ rw full (evict_among-IsIndexed q.entries q w, evict_absent fresh q.entries q h)
    | inr room ↦ rw room (w, h)
  ]

  pub add-IsIndexed :
      (kind_of : ℕ → ℕ) (fresh : ℕ) (job : Job F) (error retry_count : Option ℕ) (now later : ℕ)
      (q : Dlq F)
      → Dict.has_key fresh q.entries ≡ false
      → IsIndexed q
      → IsIndexed (add kind_of fresh job error retry_count now later q)
  unfolding add
  add-IsIndexed kind_of fresh job error retry_count now later q h w =
      let entry = entry_of kind_of fresh job error retry_count now in
      let (w2, h2) = room_lem fresh q h w in
      let added = register_entry-IsIndexed entry (room_for q) (unfold entry_of in h2) w2 in
      let cleaned = cleanup_expired-IsIndexed later (register_entry entry (room_for q)) added in
      unfold room_for in ground (arith, added, cleaned)

  -- An identifier of the index always finds an entry.
  get_entry_found :
      (j i : ℕ) (q : Dlq F)
      → IsIndexed q
      → Dict.lookup j q.job_index ≡ some i
      → is_some (get_entry j q) ≡ true
  unfolding get_entry
  get_entry_found j i q w h = ground (arith, h, w.leads j i h)
