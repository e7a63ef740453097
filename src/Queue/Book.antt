-- ===== src/Queue/Book.antt =====
-- The map, the marks and the size of the queue, under every method and in every order of calls.
use job_orchestrator.Prelude.{
  ℕ, ◌+◌, ◌≤◌, ◌<◌, ◌≡◌, true, false, Option, none, some, List, [], ◌∷◌, ◌++◌, leb, inl, inr, arith,
  Bool-cases, Option-cases, length, length-append,
}
use job_orchestrator.Prelude.Ids.{
  contains, add, IsNodup, contains-add, contains-discard, add-IsNodup, discard-IsNodup,
  length-discard,
}
use job_orchestrator.Prelude.Dict
use job_orchestrator.Prelude.Dict.{
  Dict, IsDict, lookup, lookup-insert, lookup-remove, insert-IsDict, remove-IsDict, length-remove,
  length-insert,
}
use job_orchestrator.Core.Job.{Job, due_time}
use job_orchestrator.Queue.{
  Entry, Queue, Objects, new, new, size, is_full, is_queued, entry_for, enqueue, mark_removed, push,
  drop_entry, sweep, scan, take_ready, get_ready_job,
}

-- Keys occur once, marks occur once, only identifiers in the map are marked, and the identifiers
-- that are not marked are no more than the limit.
pub record IsBooked (q : Queue) : Type 0 where
  pub keyed : IsDict q.entry_map
  pub nodup : IsNodup q.removed
  pub known : (id : ℕ) → contains id q.removed ≡ true → Dict.has_key id q.entry_map ≡ true
  pub fits : (n : ℕ) → q.max_size ≡ some n → length q.entry_map ≤ n + length q.removed

drop_entry-IsBooked :
    (e : Entry) (q : Queue)
    → IsBooked q
    → contains e.job_id q.removed ≡ true
    → IsBooked (drop_entry e q)
unfolding drop_entry
drop_entry-IsBooked e q b marked = record {
  keyed = remove-IsDict e.job_id q.entry_map b.keyed;
  nodup = discard-IsNodup e.job_id q.removed b.nodup;
  known = λ id m. ground (
    arith,
    contains-discard id e.job_id q.removed,
    lookup-remove id e.job_id q.entry_map,
    b.known id,
  );
  fits = λ n limit. ground (
    arith,
    b.fits n limit,
    b.known e.job_id marked,
    length-remove e.job_id q.entry_map b.keyed,
    length-discard e.job_id q.removed b.nodup,
  );
}

pub sweep-IsBooked : (h : List Entry) (q : Queue) → IsBooked q → IsBooked (sweep h q)
unfolding sweep
sweep-IsBooked [] q b = record { keyed = b.keyed; nodup = b.nodup; known = b.known; fits = b.fits }
sweep-IsBooked (e ∷ h) q b = elim (Bool-cases (contains e.job_id q.removed)) [
  | inl marked ↦ rw marked (sweep-IsBooked h (drop_entry e q) (drop_entry-IsBooked e q b marked))
  | inr clear ↦
      rw clear (record { keyed = b.keyed; nodup = b.nodup; known = b.known; fits = b.fits })
]

-- The scan leaves the entry that it found unmarked.
abbrev FoundClear : Option Entry → List ℕ → Type 0
FoundClear none removed = Unit
FoundClear (some e) removed = contains e.job_id removed ≡ false

scan-IsBooked :
    (now : ℕ) (h buffer : List Entry) (q : Queue)
    → IsBooked q
    → let s = scan now h buffer q in IsBooked s.queue × FoundClear s.ready s.queue.removed
unfolding scan
scan-IsBooked now [] buffer q b =
    (record { keyed = b.keyed; nodup = b.nodup; known = b.known; fits = b.fits }, tt)
scan-IsBooked now (e ∷ h) buffer q b = elim (Bool-cases (contains e.job_id q.removed)) [
  | inl marked ↦
      rw marked (scan-IsBooked now h buffer (drop_entry e q) (drop_entry-IsBooked e q b marked))
  | inr clear ↦ elim (Bool-cases (leb e.scheduled_time now)) [
    | inl due ↦ rw clear (
        rw due (record { keyed = b.keyed; nodup = b.nodup; known = b.known; fits = b.fits }, clear))
    | inr early ↦ rw clear (rw early (scan-IsBooked now h (buffer ++ e ∷ []) q b))
  ]
]

pub get_ready_job-IsBooked : (now : ℕ) (q : Queue) → IsBooked q → IsBooked (get_ready_job now q).1
unfolding get_ready_job take_ready
get_ready_job-IsBooked now q b =
    let s = scan now q.heap [] q in
    let (z, clear) = scan-IsBooked now q.heap [] q b in
    elim (Option-cases s.ready) [
      | inl e ↦ rw e (record { keyed = z.keyed; nodup = z.nodup; known = z.known; fits = z.fits })
      | inr (x, e) ↦
          let unmarked : contains x.job_id s.queue.removed ≡ false = rw e at clear in
          rw e (record {
            keyed = remove-IsDict x.job_id s.queue.entry_map z.keyed;
            nodup = z.nodup;
            known = λ id m.
                ground
                  (arith, lookup-remove id x.job_id s.queue.entry_map, z.known id m, unmarked, m);
            fits = λ n limit.
                ground (arith, z.fits n limit, length-remove x.job_id s.queue.entry_map z.keyed);
          })
    ]

-- The part of `push` behind its tests: the new entry is one more if its identifier is marked or
-- not in the map.
pub enqueue-IsBooked :
    {F : Type 0} (id : ℕ) (job : Job F) (address time : ℕ) (q : Queue)
    → IsBooked q
    → ((n : ℕ) → q.max_size ≡ some n → length q.entry_map < n + length q.removed)
    → IsBooked (enqueue id job address time q)
unfolding enqueue
enqueue-IsBooked id job address time q b room =
    let entry = entry_for job address time q.counter in
    record {
      keyed = insert-IsDict id entry q.entry_map b.keyed;
      nodup = discard-IsNodup id q.removed b.nodup;
      known = λ k m.
          ground (
            arith,
            contains-discard k id q.removed,
            lookup-insert k id entry q.entry_map,
            b.known k,
          );
      fits = λ n limit. ground (
        arith,
        room n limit,
        b.known id,
        length-insert id entry q.entry_map,
        length-discard id q.removed b.nodup,
      );
    }

pub mark_removed-IsBooked :
    (id : ℕ) (q : Queue)
    → is_queued id q ≡ true
    → IsBooked q
    → IsBooked (mark_removed id q)
      × ((n : ℕ)
          → q.max_size ≡ some n
          → length (mark_removed id q).entry_map < n + length (mark_removed id q).removed)
unfolding mark_removed is_queued add
mark_removed-IsBooked id q queued b =
    let longer = length-append q.removed (id ∷ []) in
    (
      record {
        keyed = b.keyed;
        nodup = add-IsNodup id q.removed b.nodup;
        known = λ k m. ground (arith, contains-add k id q.removed, b.known k);
        fits = λ n limit. ground (arith, longer, b.fits n limit);
      },
      λ n limit. ground (arith, longer, b.fits n limit),
    )

pub push-IsBooked :
    {F : Type 0} (objs : Objects F) (address : ℕ) (q : Queue)
    → IsBooked q
    → IsBooked (push objs address q).1
unfolding push is_full size
push-IsBooked objs address q b =
    let job = objs address in
    elim (Bool-cases (is_queued job.id q)) [
      | inl queued ↦
          let (marked, room) = mark_removed-IsBooked job.id q queued b in
          elim (Bool-cases (is_full q)) [
            | inl full ↦ rw full b
            | inr space ↦ rw space (
                rw queued (
                  enqueue-IsBooked job.id job address (due_time job) (mark_removed job.id q) marked
                    room))
          ]
      | inr absent ↦ elim (Bool-cases (is_full q)) [
        | inl full ↦ rw full b
        | inr space ↦ rw space (
            rw absent (
              enqueue-IsBooked job.id job address (due_time job) q b
                (λ n limit. ground (arith, space, limit))))
      ]
    ]

marks-le :
    (removed : List ℕ) (m : Dict Entry)
    → IsNodup removed
    → IsDict m
    → ((id : ℕ) → contains id removed ≡ true → Dict.has_key id m ≡ true)
    → length removed ≤ length m
unfolding contains
marks-le [] m n d known = omega arith
marks-le (x ∷ xs) m n d known =
    let rest =
      marks-le xs (Dict.remove x m) n.1 (remove-IsDict x m d)
        (λ id k. ground (arith, known id, lookup-remove id x m, n.0)) in
    ground (arith, known x, length-remove x m d, rest)

-- `__len__` does not go below zero.
pub size-IsBooked : (q : Queue) → IsBooked q → size q + length q.removed ≡ length q.entry_map
unfolding size
size-IsBooked q b = omega (arith, marks-le q.removed q.entry_map b.nodup b.keyed b.known)

pub new-IsBooked : (max_size maxsize : Option ℕ) → IsBooked (new max_size maxsize)
unfolding new contains
new-IsBooked max_size maxsize = record {
  keyed = tt;
  nodup = tt;
  known = λ id m. cc;
  fits = λ n e. omega arith;
}
