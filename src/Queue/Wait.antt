-- ===== src/Queue/Wait.antt =====
-- The waiting loop of `pop` in queue/priority_queue.py. A round is one pass of the loop: the clock
-- readings that it makes, and what other threads do to the queue while it waits. The number of
-- rounds is not bounded by the code, so the rounds are given, and `looping` means that they are
-- used up with `pop` still in its loop.
use job_orchestrator.Prelude.{
  ℕ, ◌+◌, Bool, false, ◌&&◌, Option, none, some, List, [], ◌∷◌, ltb, leb, if◌then◌else◌,
}
use job_orchestrator.Queue.{Entry, Queue, cleanup_removed, get_ready_job}

pub record Round : Type 0 where
  pub entered : ℕ
  pub waited : ℕ
  pub bounded : ℕ
  pub checked : ℕ
  pub others : Queue → Queue

pub data Popped : Type 0 where
  returned : Option ℕ → Popped
  looping : Popped

-- `deadline is not None and time.time() >= deadline`
unfoldable pub expired : Option ℕ → ℕ → Bool
expired none now = false
expired (some d) now = leb d now

-- Whether the loop waits, with the heap left by `_get_ready_job`: it returns, waits, or goes on.
pub data Choice : Type 0 where
  give_up wait skip : Choice

unfoldable pub choose : Option ℕ → Round → List Entry → Choice
choose none r [] = wait
choose (some d) r [] = if leb d r.waited then give_up else wait
choose none r (e ∷ h) = if ltb r.waited e.scheduled_time then wait else skip
choose (some d) r (e ∷ h) = if ltb r.waited e.scheduled_time && ltb r.bounded d then wait else skip

unfoldable pub pop_rounds : Option ℕ → List Round → Queue → Popped × Queue
pop_rounds deadline [] q = (looping, q)
pop_rounds deadline (r ∷ rs) q =
    let (job, q') = get_ready_job r.entered (cleanup_removed q) in
    let woken = r.others q' in
    let after_wait = pop_rounds deadline rs woken in
    let at_once = pop_rounds deadline rs q' in
    if q.is_shutdown then (returned none, q) else (elim job [
      | some j ↦ (returned (some j), q')
      | none ↦ elim (choose deadline r q'.heap) [
        | give_up ↦ (returned none, q')
        | wait ↦ if expired deadline r.checked then (returned none, woken) else after_wait
        | skip ↦ at_once
      ]
    ])

-- `pop`: `started` is the clock at the call.
unfoldable pub pop : (timeout : Option ℕ) (started : ℕ) → List Round → Queue → Popped × Queue
pop timeout started rs q =
    let deadline : Option ℕ = elim timeout [ none ↦ none | some t ↦ some (started + t) ] in
    pop_rounds deadline rs q

unfoldable pub pop_nowait : (started : ℕ) → List Round → Queue → Popped × Queue
pop_nowait started rs q = pop (some 0) started rs q
