-- ===== src/Queue/Ready.antt =====
-- `_get_ready_job` and `_cleanup_removed` of queue/priority_queue.py against the abstract view.
use job_orchestrator.Prelude.{
  ℕ, ◌≡◌, refl, sym, ◌∙◌, ap, true, Option, none, some, List, [], ◌∷◌, leb, ◌⊎◌, inl, inr, arith,
  All-In, Bool-cases, In, Option-cases, subst,
}
use job_orchestrator.Prelude.Ids.{contains}
use job_orchestrator.Queue.{
  Entry, Queue, entry_lt, drop_entry, sweep, cleanup_removed, scan, take_ready, get_ready_job,
}
use job_orchestrator.Queue.Order.{IsSorted, push_all_back}
use job_orchestrator.Queue.Live.{
  unmarked, live, first_ready, without_ready, IsUnique, unmarked-discard, scan_lem,
}

pub record IsOrderly (q : Queue) : Type 0 where
  pub sorted : IsSorted q.heap
  pub unique : IsUnique q.heap

abbrev pub job_of : Option Entry → Option ℕ
job_of none = none
job_of (some e) = some e.job

-- On a queue whose heap holds each identifier at most once, `_get_ready_job` returns the job of
-- the first due entry of the abstract view, takes that entry and no other out of the view, and
-- keeps the heap in order. It returns none only if no unmarked entry is due.
pub get_ready_job_refines :
    (now : ℕ) (q : Queue)
    → IsOrderly q
    → let r = get_ready_job now q in
      (r.0 ≡ job_of (first_ready now (live q)))
      × (live r.1 ≡ without_ready now (live q))
      × IsOrderly r.1
unfolding get_ready_job take_ready live
get_ready_job_refines now q o =
    let s = scan now q.heap [] q in
    let z = scan_lem now q.heap [] q o.sorted o.unique in
    let back = push_all_back s.buffer s.queue.heap z.sorted in
    let view = ap (unmarked s.queue.removed) back ∙ z.kept in
    elim (Option-cases s.ready) [
      | inl e ↦ rw e (
        ap job_of (sym e ∙ z.found),
        view,
        record {
          sorted = subst IsSorted (sym back) z.sorted;
          unique = subst IsUnique (sym back) z.unique;
        },
      )
      | inr (x, e) ↦ rw e (
        ap job_of (sym e ∙ z.found),
        view,
        record {
          sorted = subst IsSorted (sym back) z.sorted;
          unique = subst IsUnique (sym back) z.unique;
        },
      )
    ]

-- Dropping marked entries from the top does not change the abstract view.
sweep-live :
    (h : List Entry) (q : Queue)
    → IsSorted h
    → IsUnique h
    → (unmarked (sweep h q).removed (sweep h q).heap ≡ unmarked q.removed h) × IsOrderly (sweep h q)
unfolding sweep drop_entry
sweep-live [] q s u = (refl, record { sorted = tt; unique = tt })
sweep-live (e ∷ h) q s u = elim (Bool-cases (contains e.job_id q.removed)) [
  | inl marked ↦
      let (same, o) = sweep-live h (drop_entry e q) s.1 u.1 in
      rw marked (same ∙ unmarked-discard e.job_id q.removed h u.0, o)
  | inr clear ↦ rw clear (rw clear, record { sorted = s; unique = u })
]

pub cleanup_removed-live :
    (q : Queue) → IsOrderly q → (live (cleanup_removed q) ≡ live q) × IsOrderly (cleanup_removed q)
unfolding cleanup_removed live
cleanup_removed-live q o = sweep-live q.heap q o.sorted o.unique

-- The first due entry of a sorted list is due, and below every other due entry.
pub first_ready_least :
    (now : ℕ) (l : List Entry) (e x : Entry)
    → IsSorted l
    → first_ready now l ≡ some e
    → (leb e.scheduled_time now ≡ true)
      × In e l
      × (In x l → leb x.scheduled_time now ≡ true → (x ≡ e) ⊎ (entry_lt e x ≡ true))
unfolding first_ready
first_ready_least now [] e x s f = cc
first_ready_least now (y ∷ l) e x s f = elim (Bool-cases (leb y.scheduled_time now)) [
  | inl due ↦
      let same : y ≡ e = ground arith in
      let below : In x (y ∷ l) → (x ≡ y) ⊎ (entry_lt y x ≡ true) = λ i. elim i [
        | inl here ↦ inl here
        | inr later ↦ inr (All-In (λ z. entry_lt y z ≡ true) l x s.0 later)
      ] in
      subst
        (λ z.
          (leb z.scheduled_time now ≡ true)
          × In z (y ∷ l)
          × (In x (y ∷ l) → leb x.scheduled_time now ≡ true → (x ≡ z) ⊎ (entry_lt z x ≡ true)))
        same (due, inl refl, λ i d. below i)
  | inr early ↦
      let (ready, place, least) = first_ready_least now l e x s.1 (rw early at f) in
      (ready, inr place, λ i d. elim i [ inl here ↦ ground arith | inr later ↦ least later d ])
]
