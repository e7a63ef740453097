-- ===== src/Locking/Memory/Calls.antt =====
-- Calls of the methods of InMemoryLockManager as a data type, so that a run is a list of them.
use job_orchestrator.Prelude.{ℕ, Option, List, [], ◌∷◌}
use job_orchestrator.Locking.Memory.{
  Manager, Reading, attempt, release, extend, is_locked, get_lock_info, cleanup_expired,
  get_all_locks, clear,
}

pub data Call : Type 0 where
  try_acquire : (resource owner : ℕ) → Option ℕ → Reading → Call
  give_back : (resource : ℕ) → Option ℕ → Call
  prolong : (resource owner ttl tested leased : ℕ) → Call
  test : (now resource : ℕ) → Call
  inspect : (now resource : ℕ) → Call
  clean : (ℕ → ℕ) → Call
  list_all : (ℕ → ℕ) → Call
  reset : Call

unfoldable pub call : Call → Manager → Manager
call (try_acquire resource owner ttl r) m = (attempt resource owner ttl r m).1
call (give_back resource owner) m = (release resource owner m).1
call (prolong resource owner ttl tested leased) m = (extend resource owner ttl tested leased m).1
call (test now resource) m = (is_locked now resource m).1
call (inspect now resource) m = (get_lock_info now resource m).1
call (clean clock) m = (cleanup_expired clock m).1
call (list_all clock) m = (get_all_locks clock m).1
call reset m = (clear m).1

unfoldable pub run : List Call → Manager → Manager
unfolding call
run [] m = m
run (c ∷ cs) m = run cs (call c m)
