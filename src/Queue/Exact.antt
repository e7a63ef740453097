-- ===== src/Queue/Exact.antt =====
-- The queue while no identifier is queued twice: the heap and the map hold the same entries.
use job_orchestrator.Prelude.{
  ℕ, ◌+◌, ◌<◌, ◌≡◌, ◌≢◌, refl, sym, ◌∙◌, ap, Bool, true, false, not, Option, none, some, List, [],
  ◌∷◌, ◌==◌, inl, inr, arith, All, All-map, filter, Bool-cases, subst, ==_iff,
}
use job_orchestrator.Prelude.Ids.{contains, add, contains-add, discard_absent}
use job_orchestrator.Prelude.Dict
use job_orchestrator.Prelude.Dict.{Dict, lookup-insert, lookup-remove}
use job_orchestrator.Core.Job.{Job, due_time}
use job_orchestrator.Queue.{
  Entry, Queue, Objects, new, entry_lt, entry_for, heappush, is_full, is_queued, enqueue,
  mark_removed, push,
}
use job_orchestrator.Queue.Methods.{remove}
use job_orchestrator.Queue.Order.{heappush-All, heappush-IsSorted, filter-heappush}
use job_orchestrator.Queue.Live.{is_live, unmarked, live, IsOther, IsUnique}
use job_orchestrator.Queue.Ready.{IsOrderly}
use job_orchestrator.Queue.Book.{IsBooked, new-IsBooked, push-IsBooked, mark_removed-IsBooked}

abbrev pub IsMapped : Dict Entry → List Entry → Type 0
IsMapped m l = All (λ e. Dict.lookup e.job_id m ≡ some e) l

abbrev pub IsFresh : ℕ → List Entry → Type 0
IsFresh n l = All (λ e. e.insertion_order < n) l

pub record IsExact (q : Queue) : Type 0 where
  pub booked : IsBooked q
  pub orderly : IsOrderly q
  pub mapped : IsMapped q.entry_map q.heap
  pub fresh : IsFresh q.counter q.heap

-- An identifier that is not in the map has no entry in the heap.
IsOther-absent :
    (id : ℕ) (m : Dict Entry) (l : List Entry)
    → Dict.lookup id m ≡ none
    → IsMapped m l
    → IsOther id l
IsOther-absent id m [] absent k = tt
IsOther-absent id m (e ∷ l) absent k = (
  elim (Bool-cases (e.job_id == id)) [
    | inr other ↦ other
    | inl same ↦ ground (arith, ap (λ j. Dict.lookup j m) ((==_iff e.job_id id).0 same), k.0)
  ],
  IsOther-absent id m l absent k.1,
)

heappush-IsUnique :
    (e : Entry) (h : List Entry) → IsOther e.job_id h → IsUnique h → IsUnique (heappush e h)
unfolding heappush
heappush-IsUnique e [] o u = (tt, tt)
heappush-IsUnique e (x ∷ xs) o u = elim (Bool-cases (entry_lt e x)) [
  | inl lt ↦ rw lt (o, u)
  | inr ge ↦ rw ge (
    heappush-All (λ y. (y.job_id == x.job_id) ≡ false) e xs (ground arith) u.0,
    heappush-IsUnique e xs o.1 u.1,
  )
]

insert-IsMapped :
    (id : ℕ) (e : Entry) (m : Dict Entry) (l : List Entry)
    → IsOther id l
    → IsMapped m l
    → IsMapped (Dict.insert id e m) l
insert-IsMapped id e m [] o k = tt
insert-IsMapped id e m (x ∷ xs) o k =
    (ground (arith, lookup-insert x.job_id id e m), insert-IsMapped id e m xs o.1 k.1)

pub remove-IsMapped :
    (id : ℕ) (m : Dict Entry) (l : List Entry)
    → IsOther id l
    → IsMapped m l
    → IsMapped (Dict.remove id m) l
remove-IsMapped id m [] o k = tt
remove-IsMapped id m (x ∷ xs) o k =
    (ground (arith, lookup-remove x.job_id id m), remove-IsMapped id m xs o.1 k.1)

fresh_ne : (n : ℕ) (l : List Entry) → IsFresh n l → All (λ e. e.insertion_order ≢ n) l
fresh_ne n l = All-map (λ e (h : e.insertion_order < n). omega arith) l

-- What `enqueue` does with an identifier that is not in the map.
record Enqueued (entry : Entry) (q r : Queue) : Type 0 where
  view : live r ≡ heappush entry (live q)
  orderly : IsOrderly r
  mapped : IsMapped r.entry_map r.heap
  fresh : IsFresh r.counter r.heap

enqueue_absent :
    {F : Type 0} (job : Job F) (address time : ℕ) (q : Queue)
    → IsExact q
    → Dict.lookup job.id q.entry_map ≡ none
    → Enqueued (entry_for job address time q.counter) q (enqueue job.id job address time q)
unfolding enqueue live
enqueue_absent job address time q x absent =
    let entry = entry_for job address time q.counter in
    let other = IsOther-absent job.id q.entry_map q.heap absent x.mapped in
    let clear : contains job.id q.removed ≡ false = ground (arith, x.booked.known job.id, absent) in
    let same = discard_absent job.id q.removed clear in
    let found : Dict.lookup job.id (Dict.insert job.id entry q.entry_map) ≡ some entry =
      ground (arith, lookup-insert job.id job.id entry q.entry_map) in
    record {
      view =
          ap (λ r. unmarked r (heappush entry q.heap)) same
          ∙ filter-heappush (is_live q.removed) entry q.heap x.orderly.sorted (rw clear);
      orderly = record {
        sorted =
            heappush-IsSorted entry q.heap (fresh_ne q.counter q.heap x.fresh) x.orderly.sorted;
        unique = heappush-IsUnique entry q.heap other x.orderly.unique;
      };
      mapped =
          heappush-All (λ e. Dict.lookup e.job_id (Dict.insert job.id entry q.entry_map) ≡ some e)
            entry q.heap found (insert-IsMapped job.id entry q.entry_map q.heap other x.mapped);
      fresh =
          heappush-All (λ e. e.insertion_order < q.counter + 1) entry q.heap (omega arith)
            (All-map (λ e (h : e.insertion_order < q.counter). omega arith) q.heap x.fresh);
    }

push_absent :
    {F : Type 0} (objs : Objects F) (address : ℕ) (q : Queue)
    → is_full q ≡ false
    → Dict.lookup (objs address).id q.entry_map ≡ none
    → push objs address q
      ≡ (true, enqueue (objs address).id (objs address) address (due_time (objs address)) q)
unfolding push is_queued
push_absent objs address q space absent = rw space (rw absent)

-- Pushing a job whose identifier is not in the map, on a queue with room, inserts its entry at
-- its place in the abstract view and nothing else, and keeps the queue exact.
pub push_refines :
    {F : Type 0} (objs : Objects F) (address : ℕ) (q : Queue)
    → IsExact q
    → is_full q ≡ false
    → Dict.lookup (objs address).id q.entry_map ≡ none
    → let job = objs address in
      let r = push objs address q in
      (r.0 ≡ true)
      × (live r.1 ≡ heappush (entry_for job address (due_time job) q.counter) (live q))
      × IsExact r.1
push_refines objs address q x space absent =
    let job = objs address in
    let step = push_absent objs address q space absent in
    let done = enqueue_absent job address (due_time job) q x absent in
    let booked = push-IsBooked objs address q x.booked in
    (
      ap (λ (r : Bool × Queue). r.0) step,
      ap (λ (r : Bool × Queue). live r.1) step ∙ done.view,
      subst (λ (r : Bool × Queue). IsBooked r.1 → IsExact r.1) (sym step)
          (λ b. record {
            booked = b;
            orderly = done.orderly;
            mapped = done.mapped;
            fresh = done.fresh;
          })
          booked,
    )

-- A removed identifier leaves the abstract view.
unmarked-add :
    (id : ℕ) (removed : List ℕ) (l : List Entry)
    → unmarked (add id removed) l ≡ filter (λ e. not (e.job_id == id)) (unmarked removed l)
unmarked-add id removed [] = refl
unmarked-add id removed (e ∷ l) =
    ground (arith, contains-add e.job_id id removed, unmarked-add id removed l)

-- `remove` succeeds exactly on the queued identifiers. It then takes the entries of the
-- identifier out of the abstract view, and else it changes nothing; the queue stays exact.
pub remove_refines :
    (id : ℕ) (q : Queue)
    → IsExact q
    → let r = remove id q in
      (r.0 ≡ is_queued id q)
      × (r.0 ≡ true → live r.1 ≡ filter (λ e. not (e.job_id == id)) (live q))
      × (r.0 ≡ false → r.1 ≡ q)
      × IsExact r.1
unfolding remove live
remove_refines id q x = elim (Bool-cases (is_queued id q)) [
  | inl queued ↦ rw queued (
    refl,
    λ e. unfold mark_removed in unmarked-add id q.removed q.heap,
    λ e. cc,
    record {
      booked = (mark_removed-IsBooked id q queued x.booked).0;
      orderly =
          unfold mark_removed in record { sorted = x.orderly.sorted; unique = x.orderly.unique };
      mapped = unfold mark_removed in x.mapped;
      fresh = unfold mark_removed in x.fresh;
    },
  )
  | inr absent ↦ rw absent (refl, λ e. cc, λ e. refl, x)
]

-- A new queue is exact, and empty.
pub new-IsExact : (max_size maxsize : Option ℕ) → IsExact (new max_size maxsize)
new-IsExact max_size maxsize = record {
  booked = new-IsBooked max_size maxsize;
  orderly = unfold new in record { sorted = tt; unique = tt };
  mapped = unfold new in tt;
  fresh = unfold new in tt;
}
