-- ===== src/Locking/Memory/Examples.antt =====
-- Runs of InMemoryLockManager, and its theorems at them.
use job_orchestrator.Prelude.{
  ℕ, ◌+◌, ◌≡◌, refl, true, false, none, some, List, [], ◌∷◌, ◌==◌, if◌then◌else◌, arith, ◌⊎◌, inl,
  inr,
}
use job_orchestrator.Prelude.Dict
use job_orchestrator.Prelude.Dict.{IsDict}
use job_orchestrator.Locking.Memory.{
  LockInfo, Manager, Reading, new, attempt, offer, grant, store, is_expired, expiry, effective_ttl,
}
use job_orchestrator.Locking.Memory.Acquire.{
  Round, refused, looping, acquire_rounds, acquire_patient, acquire_returns,
}
use job_orchestrator.Locking.Memory.Calls.{Call, try_acquire, give_back, prolong, test, clean, run}
use job_orchestrator.Locking.Memory.Lease.{lease_kept}
use job_orchestrator.Locking.Memory.Outcome.{may_take, attempt_lem}

abbrev at : ℕ → ℕ → Reading
at now fresh = record { tested = now; stamped = now; leased = now; fresh = fresh }

-- Owner 7 holds resource 1 from 100 to 130.
abbrev lease : LockInfo
lease = record { lock_id = 5; resource = 1; owner = 7; acquired_at = 100; expires_at = some 130 }

held : Manager
unfolding new
held = record (new 30 0) { locks = (1, lease) ∷ [] }

held-IsDict : IsDict held.locks
unfolding held Dict.lookup
held-IsDict = (refl, tt)

acquired : (attempt 1 7 none (at 100 5) (new 30 0)).1 ≡ held
unfolding attempt offer grant store effective_ttl expiry new held Dict.lookup Dict.insert
acquired = refl

held_by_7 : Dict.lookup 1 held.locks ≡ some lease
unfolding held Dict.lookup
held_by_7 = refl

attempt_lem_example :
    ((may_take 110 8 (Dict.lookup 1 held.locks) ≡ false)
      × (attempt 1 8 none (at 110 6) held ≡ (none, held)))
    ⊎ ((may_take 110 8 (Dict.lookup 1 held.locks) ≡ true)
        × ((info : LockInfo) × ((attempt 1 8 none (at 110 6) held).0 ≡ some info)
            × (info.owner ≡ 8)
            × ((k : ℕ)
                → Dict.lookup k (attempt 1 8 none (at 110 6) held).1.locks
                  ≡ (if 1 == k then some info else Dict.lookup k held.locks))))
attempt_lem_example = attempt_lem 1 8 none (at 110 6) held

abbrev others : List Call
others =
    try_acquire 1 8 none (at 120 6)
    ∷ try_acquire 2 8 none (at 121 9)
    ∷ give_back 1 (some 8)
    ∷ prolong 1 8 500 122 122
    ∷ test 125 1
    ∷ clean (λ _. 130)
    ∷ []

lease_kept_example : Dict.lookup 1 (run others held).locks ≡ some lease
lease_kept_example = lease_kept 1 lease others held held-IsDict held_by_7 (
    unfold is_expired in
    (
      (λ _. (refl, refl)),
      ((λ e. (refl, refl)), ((λ _. refl), ((λ _. refl), ((λ _. refl), (refl, tt))))),
    ))

abbrev round : ℕ → Round
round now = record { reading = at now 6; before_wait = now; after_wait = now + 1; others = λ m. m }

acquire_patient_example :
    ¬ ((acquire_rounds 1 8 none (some 125) (round 110 ∷ round 120 ∷ []) held).0 ≡ refused)
acquire_patient_example =
    acquire_patient 1 8 none 125 (round 110 ∷ round 120 ∷ []) held
      ((refl, refl), ((refl, refl), tt))

acquire_returns_example :
    ¬ ((acquire_rounds 1 8 none (some 125) (round 110 ∷ round 126 ∷ []) held).0 ≡ looping)
acquire_returns_example =
    acquire_returns 1 8 none 125 (round 126) (round 110 ∷ round 126 ∷ []) held (inr (inl refl))
      (omega arith)
