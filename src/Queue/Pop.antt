-- ===== src/Queue/Pop.antt =====
-- Taking a job from the queue: which job it is, and what is left.
use job_orchestrator.Prelude.{
  ℕ, ◌<◌, ◌≡◌, refl, sym, ◌∙◌, ap, true, false, Option, none, some, List, [], ◌∷◌, ◌++◌, leb, ◌⊎◌,
  inl, inr, arith, All, All-append, In, Bool-cases, Option-cases, subst,
}
use job_orchestrator.Prelude.Ids.{contains}
use job_orchestrator.Prelude.Dict
use job_orchestrator.Prelude.Dict.{Dict}
use job_orchestrator.Queue.{
  Entry, Queue, entry_lt, drop_entry, sweep, cleanup_removed, Scan, scan, push_all, take_ready,
  get_ready_job,
}
use job_orchestrator.Queue.Order.{IsSorted, filter-IsSorted, push_all_back}
use job_orchestrator.Queue.Live.{
  live, first_ready, without_ready, IsOther, IsUnique, IsUnique-drop, left_over, scan_lem,
}
use job_orchestrator.Queue.Ready.{
  IsOrderly, job_of, get_ready_job_refines, cleanup_removed-live, first_ready_least,
}
use job_orchestrator.Queue.Book.{IsBooked, sweep-IsBooked, get_ready_job-IsBooked}
use job_orchestrator.Queue.Exact.{IsMapped, IsFresh, IsExact, remove-IsMapped}
use mathlib.Core.List.{append_assoc}

All-drop :
    (P : Entry → Type 0) (xs : List Entry) (e : Entry) (ys : List Entry)
    → All P (xs ++ e ∷ ys)
    → All P (xs ++ ys)
All-drop P xs e ys a =
    let (before, after) = (All-append P xs (e ∷ ys)).0 a in (All-append P xs ys).1 (before, after.1)

abbrev ReadyOther : Option Entry → List Entry → Type 0
ReadyOther none l = Unit
ReadyOther (some e) l = IsOther e.job_id l

-- What a scan leaves is still in the map, and not under the identifier that was found.
record Tracked (q : Queue) (s : Scan) : Type 0 where
  mapped : IsMapped s.queue.entry_map (left_over s)
  fresh : IsFresh q.counter (left_over s)
  counter : s.queue.counter ≡ q.counter
  apart : ReadyOther s.ready (left_over s)

scan-Tracked :
    (now : ℕ) (h buffer : List Entry) (q : Queue)
    → IsUnique (buffer ++ h)
    → IsMapped q.entry_map (buffer ++ h)
    → IsFresh q.counter (buffer ++ h)
    → Tracked q (scan now h buffer q)
unfolding scan drop_entry
scan-Tracked now [] buffer q u m f = record { mapped = m; fresh = f; counter = refl; apart = tt }
scan-Tracked now (e ∷ h) buffer q u m f =
    let (u', other) = IsUnique-drop buffer e h u in
    let m' = All-drop (λ x. Dict.lookup x.job_id q.entry_map ≡ some x) buffer e h m in
    let f' = All-drop (λ x. x.insertion_order < q.counter) buffer e h f in
    elim (Bool-cases (contains e.job_id q.removed)) [
      | inl marked ↦
          let t =
            scan-Tracked now h buffer (drop_entry e q) u'
              (remove-IsMapped e.job_id q.entry_map (buffer ++ h) other m') f' in
          rw marked
            (record { mapped = t.mapped; fresh = t.fresh; counter = t.counter; apart = t.apart })
      | inr clear ↦ elim (Bool-cases (leb e.scheduled_time now)) [
        | inl due ↦
            rw clear (rw due (record { mapped = m'; fresh = f'; counter = refl; apart = other }))
        | inr early ↦
            let assoc = sym (append_assoc buffer (e ∷ []) h) in
            rw clear (
              rw early (
                scan-Tracked now h (buffer ++ e ∷ []) q (subst IsUnique assoc u)
                  (subst (IsMapped q.entry_map) assoc m) (subst (IsFresh q.counter) assoc f)))
      ]
    ]

take_ready-IsExact :
    (o : Option Entry) (q : Queue)
    → IsMapped q.entry_map q.heap
    → IsFresh q.counter q.heap
    → ReadyOther o q.heap
    → IsBooked (take_ready o q).1
    → IsOrderly (take_ready o q).1
    → IsExact (take_ready o q).1
unfolding take_ready
take_ready-IsExact none q m f a b o = record { booked = b; orderly = o; mapped = m; fresh = f }
take_ready-IsExact (some e) q m f a b o = record {
  booked = b;
  orderly = o;
  mapped = remove-IsMapped e.job_id q.entry_map q.heap a m;
  fresh = f;
}

pub get_ready_job-IsExact : (now : ℕ) (q : Queue) → IsExact q → IsExact (get_ready_job now q).1
unfolding get_ready_job
get_ready_job-IsExact now q x =
    let s = scan now q.heap [] q in
    let z = scan_lem now q.heap [] q x.orderly.sorted x.orderly.unique in
    let t = scan-Tracked now q.heap [] q x.orderly.unique x.mapped x.fresh in
    let back = sym (push_all_back s.buffer s.queue.heap z.sorted) in
    take_ready-IsExact s.ready (record s.queue { heap = push_all s.buffer s.queue.heap })
      (subst (IsMapped s.queue.entry_map) back t.mapped)
      (rw t.counter (subst (IsFresh q.counter) back t.fresh))
      (subst (ReadyOther s.ready) back t.apart) (get_ready_job-IsBooked now q x.booked)
      (get_ready_job_refines now q x.orderly).2

sweep-IsExact :
    (h : List Entry) (q : Queue)
    → IsUnique h
    → IsMapped q.entry_map h
    → IsFresh q.counter h
    → IsMapped (sweep h q).entry_map (sweep h q).heap × IsFresh (sweep h q).counter (sweep h q).heap
unfolding sweep drop_entry
sweep-IsExact [] q u m f = (tt, tt)
sweep-IsExact (e ∷ h) q u m f = elim (Bool-cases (contains e.job_id q.removed)) [
  | inl marked ↦
      rw marked
        (sweep-IsExact h (drop_entry e q) u.1 (remove-IsMapped e.job_id q.entry_map h u.0 m.1) f.1)
  | inr clear ↦ rw clear (m, f)
]

pub cleanup_removed-IsExact : (q : Queue) → IsExact q → IsExact (cleanup_removed q)
cleanup_removed-IsExact q x =
    let (m, f) = sweep-IsExact q.heap q x.orderly.unique x.mapped x.fresh in
    record {
      booked = unfold cleanup_removed in sweep-IsBooked q.heap q x.booked;
      orderly = (cleanup_removed-live q x.orderly).1;
      mapped = unfold cleanup_removed in m;
      fresh = unfold cleanup_removed in f;
    }

live-IsSorted : (q : Queue) → IsOrderly q → IsSorted (live q)
unfolding live
live-IsSorted q o = filter-IsSorted _ q.heap o.sorted

no_ready :
    (now : ℕ) (l : List Entry)
    → first_ready now l ≡ none
    → All (λ e. leb e.scheduled_time now ≡ false) l
unfolding first_ready
no_ready now [] f = tt
no_ready now (e ∷ l) f = elim (Bool-cases (leb e.scheduled_time now)) [
  | inl due ↦ ground arith
  | inr early ↦ (early, no_ready now l (rw early at f))
]

-- One round of `pop` at the time `now`, on an exact queue. It returns no job exactly when no
-- queued entry is due. Else the job is that of a queued entry which is due and which stands, by
-- priority, then time, then order of insertion, before every other queued entry that is due. The
-- view loses this first due entry and no other, and the queue stays exact.
pub try_pop_least :
    (now : ℕ) (q : Queue)
    → IsExact q
    → let r = get_ready_job now (cleanup_removed q) in
      (live r.1 ≡ without_ready now (live q))
      × IsExact r.1
      × ((r.0 ≡ none) × All (λ e. leb e.scheduled_time now ≡ false) (live q)
          ⊎ (e : Entry) × (r.0 ≡ some e.job)
            × In e (live q)
            × (leb e.scheduled_time now ≡ true)
            × ((x : Entry)
                → In x (live q)
                → leb x.scheduled_time now ≡ true
                → (x ≡ e) ⊎ (entry_lt e x ≡ true)))
try_pop_least now q x =
    let swept = cleanup_removed q in
    let (same, orderly) = cleanup_removed-live q x.orderly in
    let (job, view, _) = get_ready_job_refines now swept orderly in
    let exact = get_ready_job-IsExact now swept (cleanup_removed-IsExact q x) in
    let sorted = live-IsSorted q x.orderly in
    (
      rw same at view,
      exact,
      elim (Option-cases (first_ready now (live q))) [
        | inl e ↦ inl (
          job ∙ (ap (λ l. job_of (first_ready now l)) same ∙ ap job_of e),
          no_ready now (live q) e,
        )
        | inr (y, e) ↦
            let (due, place, _) = first_ready_least now (live q) y y sorted e in
            inr (
              y,
              job ∙ (ap (λ l. job_of (first_ready now l)) same ∙ ap job_of e),
              place,
              due,
              λ z i d. (first_ready_least now (live q) y z sorted e).2 i d,
            )
      ],
    )
