-- ===== src/Scheduler/Dlq/Bound.antt =====
-- The limit on the number of entries of the dead letter queue.
use job_orchestrator.Prelude.{
  ℕ, suc, ◌-◌, ◌≤◌, ◌≡◌, refl, true, false, ◌⊎◌, Option, some, [], ◌∷◌, ◌==◌, if◌then◌else◌, arith,
  Option-cases, Bool-cases, List-cases, inl, inr, leb, length,
}
use job_orchestrator.Prelude.Dict
use job_orchestrator.Prelude.Dict.{Dict, IsDict}
use job_orchestrator.Core.Job.{Job}
use job_orchestrator.Scheduler.Dlq.{
  Dlq, Entry, register_entry, drop, remove_entry, oldest, evict_among, evict_oldest, cleanup_among,
  cleanup_expired, entry_of, add, reached,
}
use job_orchestrator.Scheduler.Dlq.Index.{
  IsIndexed, remove_entry-IsIndexed, register_entry-IsIndexed, room_for, room_lem,
}

module _ {F : Type 0} where
  -- The oldest entry is one of the entries.
  oldest_present :
      (id age : ℕ) (rest : Dict (Entry F))
      → (oldest id age rest ≡ id) ⊎ (Dict.has_key (oldest id age rest) rest ≡ true)
  unfolding oldest Dict.lookup
  oldest_present id age [] = inl refl
  oldest_present id age ((k, e) ∷ rest) =
      ground (arith, oldest_present id age rest, oldest_present k e.added_at rest)

  length-remove_entry :
      (id : ℕ) (q : Dlq F)
      → IsDict q.entries
      → length q.entries ≡ (
          if Dict.has_key id q.entries
          then suc (length (remove_entry id q).entries)
          else length (remove_entry id q).entries)
  unfolding remove_entry drop
  length-remove_entry id q d = elim (Option-cases (Dict.lookup id q.entries)) [
    | inl e ↦ rw (e, remove_entry) (ground (arith, e))
    | inr (entry, e) ↦ rw (e, remove_entry) (ground (arith, e, Dict.length-remove id q.entries d))
  ]

  length-evict_oldest_cons :
      (k : ℕ) (e : Entry F) (rest : Dict (Entry F)) (q : Dlq F)
      → q.entries ≡ (k, e) ∷ rest
      → IsDict q.entries
      → length q.entries ≡ suc (length (evict_oldest q).entries)
  unfolding evict_oldest evict_among Dict.lookup
  length-evict_oldest_cons k e rest q same d = ground (
    arith,
    same,
    oldest_present k e.added_at rest,
    length-remove_entry (oldest k e.added_at rest) q d,
  )

  length-evict_oldest :
      (n : ℕ) (q : Dlq F)
      → IsDict q.entries
      → suc n ≤ length q.entries
      → length q.entries ≡ suc (length (evict_oldest q).entries)
  length-evict_oldest n q d more = elim (List-cases q.entries) [
    | inl e ↦ absurd (ground (arith, e, more))
    | inr ((k, entry), rest, e) ↦ length-evict_oldest_cons k entry rest q e d
  ]

  length-cleanup_among-le :
      (cutoff : ℕ) (todo : Dict (Entry F)) (q : Dlq F)
      → IsIndexed q
      → length (cleanup_among cutoff todo q).1.entries ≤ length q.entries
  unfolding cleanup_among
  length-cleanup_among-le cutoff [] q w = omega arith
  length-cleanup_among-le cutoff ((k, e) ∷ rest) q w = ground (
    arith,
    length-remove_entry k q w.keyed,
    length-cleanup_among-le cutoff rest (remove_entry k q) (remove_entry-IsIndexed k q w),
    length-cleanup_among-le cutoff rest q w,
  )

  length-cleanup_expired-le :
      (now : ℕ) (q : Dlq F)
      → IsIndexed q
      → length (cleanup_expired now q).1.entries ≤ length q.entries
  unfolding cleanup_expired
  length-cleanup_expired-le now q w = elim (Option-cases q.ttl) [
    | inl e ↦ rw (e, cleanup_expired) (omega arith)
    | inr (t, e) ↦
        rw (e, cleanup_expired)
          (elim (Bool-cases (t == 0)) [
            | inl off ↦ rw off (omega arith)
            | inr on ↦ rw on (length-cleanup_among-le (now - t) q.entries q w)
          ])
  ]

  length-room_for-le :
      (limit : ℕ) (q : Dlq F)
      → IsDict q.entries
      → q.max_entries ≡ some (suc limit)
      → length q.entries ≤ suc limit
      → length (room_for q).entries ≤ limit
  unfolding room_for reached
  length-room_for-le limit q d full few = elim (Bool-cases (leb (suc limit) (length q.entries))) [
    | inl at_limit ↦
        ground
          (arith, full, few, at_limit, length-evict_oldest limit q d (ground (arith, at_limit)))
    | inr below ↦ ground (arith, full, few, below)
  ]

  length-register_entry :
      (entry : Entry F) (q : Dlq F)
      → length (register_entry entry q).entries ≤ suc (length q.entries)
  unfolding register_entry
  length-register_entry entry q = ground (arith, Dict.length-insert entry.entry_id entry q.entries)

  -- In a well-indexed queue with a positive limit that is not exceeded, an `add` that draws an
  -- identifier that is not in use leaves no more entries than the limit.
  pub add-bound :
      (kind_of : ℕ → ℕ) (fresh : ℕ) (job : Job F) (error retry_count : Option ℕ)
      (now later limit : ℕ) (q : Dlq F)
      → IsIndexed q
      → Dict.has_key fresh q.entries ≡ false
      → q.max_entries ≡ some (suc limit)
      → length q.entries ≤ suc limit
      → length (add kind_of fresh job error retry_count now later q).entries ≤ suc limit
  unfolding add
  add-bound kind_of fresh job error retry_count now later limit q w h full few =
      let entry = entry_of kind_of fresh job error retry_count now in
      let (w2, h2) = room_lem fresh q h w in
      let added = register_entry-IsIndexed entry (room_for q) (unfold entry_of in h2) w2 in
      let tidy = length-cleanup_expired-le later (register_entry entry (room_for q)) added in
      let one_more = length-register_entry entry (room_for q) in
      unfold room_for in ground (arith, tidy, one_more, length-room_for-le limit q w.keyed full few)
