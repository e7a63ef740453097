-- ===== src/Queue/Timeout.antt =====
-- When `pop` of queue/priority_queue.py returns, for given clock readings.
use job_orchestrator.Prelude.{
  ℕ, ◌+◌, ◌≤◌, ◌≡◌, ◌≢◌, refl, sym, ◌∙◌, ap, false, Option, none, some, List, [], ◌∷◌, ◌++◌, leb,
  ◌⊎◌, arith, All, inl, inr, List-cases, subst,
}
use native.Mathlib.Nat.{add-zero}
use job_orchestrator.Queue.{
  Entry, Queue, cleanup_removed, drop_entry, sweep, scan, take_ready, get_ready_job,
}
use job_orchestrator.Queue.Live.{live, first_ready, without_ready}
use job_orchestrator.Queue.Ready.{IsOrderly, job_of, get_ready_job_refines, cleanup_removed-live}
use job_orchestrator.Queue.Wait.{
  Round, Popped, returned, looping, skip, expired, choose, pop_rounds, pop, pop_nowait,
}

sweep-is_shutdown : (h : List Entry) (q : Queue) → (sweep h q).is_shutdown ≡ q.is_shutdown
unfolding sweep drop_entry
sweep-is_shutdown [] q = refl
sweep-is_shutdown (e ∷ h) q = ground (arith, sweep-is_shutdown h (drop_entry e q))

scan-is_shutdown :
    (now : ℕ) (h buffer : List Entry) (q : Queue)
    → (scan now h buffer q).queue.is_shutdown ≡ q.is_shutdown
unfolding scan drop_entry
scan-is_shutdown now [] buffer q = refl
scan-is_shutdown now (e ∷ h) buffer q = ground (
  arith,
  scan-is_shutdown now h buffer (drop_entry e q),
  scan-is_shutdown now h (buffer ++ e ∷ []) q,
)

take_ready-is_shutdown :
    (o : Option Entry) (q : Queue) → (take_ready o q).1.is_shutdown ≡ q.is_shutdown
unfolding take_ready
take_ready-is_shutdown none q = refl
take_ready-is_shutdown (some e) q = refl

round-is_shutdown :
    (now : ℕ) (q : Queue) → (get_ready_job now (cleanup_removed q)).1.is_shutdown ≡ q.is_shutdown
unfolding get_ready_job cleanup_removed
round-is_shutdown now q =
    take_ready-is_shutdown _ _ ∙ (scan-is_shutdown now _ [] _ ∙ sweep-is_shutdown q.heap q)

abbrev pub IsEarly : ℕ → List Entry → Type 0
IsEarly now l = All (λ e. leb e.scheduled_time now ≡ false) l

early_none :
    (now : ℕ) (l : List Entry)
    → IsEarly now l
    → (first_ready now l ≡ none) × (without_ready now l ≡ l)
unfolding first_ready without_ready
early_none now [] a = (refl, refl)
early_none now (e ∷ l) a = let (f, w) = early_none now l a.1 in rw a.0 (f, ap (λ t. e ∷ t) w)

-- One round that finds nothing due leaves the view as it is, and the heap not empty.
idle_round :
    (now : ℕ) (q : Queue)
    → IsOrderly q
    → IsEarly now (live q)
    → live q ≢ []
    → let r = get_ready_job now (cleanup_removed q) in
      (r.0 ≡ none)
      × (live r.1 ≡ live q)
      × IsOrderly r.1
      × ((e : Entry) × (h : List Entry) × (r.1.heap ≡ e ∷ h))
idle_round now q o early some_left =
    let (same, swept) = cleanup_removed-live q o in
    let (job, view, orderly) = get_ready_job_refines now (cleanup_removed q) swept in
    let (none_due, all_left) = early_none now (live q) early in
    let kept = view ∙ (ap (without_ready now) same ∙ all_left) in
    (
      job ∙ (ap (λ l. job_of (first_ready now l)) same ∙ ap job_of none_due),
      kept,
      orderly,
      elim (List-cases (get_ready_job now (cleanup_removed q)).1.heap) [
        | inl empty ↦ absurd (some_left (sym kept ∙ unfold live in rw empty))
        | inr more ↦ more
      ],
    )

-- What one round does when it finds no job.
module _ (deadline : Option ℕ) (r : Round) (rs : List Round) (q : Queue)
    (open_ : q.is_shutdown ≡ false)
    (idle : (get_ready_job r.entered (cleanup_removed q)).0 ≡ none) where
  abbrev left_queue : Queue
  left_queue = (get_ready_job r.entered (cleanup_removed q)).1

  round_skips :
      choose deadline r left_queue.heap ≡ skip
      → pop_rounds deadline (r ∷ rs) q ≡ pop_rounds deadline rs left_queue
  unfolding pop_rounds
  round_skips e = ground arith

spin :
    (d : ℕ) (rs : List Round) (q : Queue)
    → IsOrderly q
    → q.is_shutdown ≡ false
    → live q ≢ []
    → All (λ r. (d ≤ r.bounded) × IsEarly r.entered (live q)) rs
    → (pop_rounds (some d) rs q).0 ≡ looping
spin d [] q o open_ left late = unfold pop_rounds in refl
spin d (r ∷ rs) q o open_ left late =
    let (job, view, orderly, (e, h, heap)) = idle_round r.entered q o late.0.1 left in
    let q' = (get_ready_job r.entered (cleanup_removed q)).1 in
    let rest =
      spin d rs q' orderly (round-is_shutdown r.entered q ∙ open_) (λ n. left (sym view ∙ n))
        (subst (λ l. All (λ r. (d ≤ r.bounded) × IsEarly r.entered l) rs) (sym view) late.1) in
    let skips : choose (some d) r q'.heap ≡ skip = unfold choose in rw heap (ground arith) in
    ap (λ (p : Popped × Queue). p.0) (round_skips (some d) r rs q open_ job skips) ∙ rest

-- On a queue whose heap is in order and holds each identifier at most once, and that is not shut
-- down, `pop_nowait` does not return while the queue holds jobs of which none is due: after any
-- number of rounds, with any clock that does not run back behind the call, it is still in its
-- loop. Each round takes the branch that goes on without looking at the deadline.
pub pop_nowait_spins :
    (started : ℕ) (rs : List Round) (q : Queue)
    → IsOrderly q
    → q.is_shutdown ≡ false
    → live q ≢ []
    → All (λ r. (started ≤ r.bounded) × IsEarly r.entered (live q)) rs
    → (pop_nowait started rs q).0 ≡ looping
unfolding pop_nowait pop
pop_nowait_spins started rs q o open_ left late =
    spin (started + 0) rs q o open_ left (rw add-zero late)

-- Some reading of the clock, before or after a wait, is at or past the deadline.
abbrev pub IsLate : Option ℕ → List Round → Type 0
IsLate d [] = ⊥
IsLate none (r ∷ rs) = ⊥
IsLate (some d) (r ∷ rs) = (d ≤ r.waited) ⊎ (d ≤ r.checked) ⊎ IsLate (some d) rs

-- The other threads do not shut the queue down.
abbrev pub KeepOpen : List Round → Type 0
KeepOpen rs = All (λ r. (q : Queue) → (r.others q).is_shutdown ≡ q.is_shutdown) rs

never-IsLate : (rs : List Round) → ¬ IsLate none rs
never-IsLate [] l = l
never-IsLate (r ∷ rs) l = l

none-IsLate :
    (deadline : Option ℕ) (rs : List Round) (q : Queue)
    → KeepOpen rs
    → q.is_shutdown ≡ false
    → (pop_rounds deadline rs q).0 ≡ returned none
    → IsLate deadline rs
unfolding pop_rounds choose expired
none-IsLate deadline [] q k open_ e = cc
none-IsLate none (r ∷ rs) q k open_ e =
    let q' = (get_ready_job r.entered (cleanup_removed q)).1 in
    let still = round-is_shutdown r.entered q ∙ open_ in
    let waits : (pop_rounds none rs (r.others q')).0 ≡ returned none → ⊥ =
      λ w. never-IsLate rs (none-IsLate none rs (r.others q') k.1 (k.0 q' ∙ still) w) in
    let skips : (pop_rounds none rs q').0 ≡ returned none → ⊥ =
      λ w. never-IsLate rs (none-IsLate none rs q' k.1 still w) in
    ground (arith, List-cases q'.heap, waits, skips)
none-IsLate (some d) (r ∷ rs) q k open_ e =
    let q' = (get_ready_job r.entered (cleanup_removed q)).1 in
    let still = round-is_shutdown r.entered q ∙ open_ in
    ground (
      arith,
      k.0 q',
      still,
      List-cases q'.heap,
      none-IsLate (some d) rs q' k.1 still,
      none-IsLate (some d) rs (r.others q') k.1 (k.0 q' ∙ still),
    )

-- On a queue that nobody shuts down, `pop` returns no job only if it was given a timeout and some
-- reading of the clock is at or past the deadline; without a timeout it never returns without one.
pub pop-none-IsLate :
    (timeout : Option ℕ) (started : ℕ) (rs : List Round) (q : Queue)
    → KeepOpen rs
    → q.is_shutdown ≡ false
    → (pop timeout started rs q).0 ≡ returned none
    → (t : ℕ) × (timeout ≡ some t) × IsLate (some (started + t)) rs
unfolding pop
pop-none-IsLate none started rs q k open_ e =
    absurd (never-IsLate rs (none-IsLate none rs q k open_ e))
pop-none-IsLate (some t) started rs q k open_ e =
    (t, refl, none-IsLate (some (started + t)) rs q k open_ e)
