-- ===== src/Locking/Memory/Outcome.antt =====
-- When an attempt to acquire succeeds, and that the queries of InMemoryLockManager agree.
use job_orchestrator.Prelude.{
  ℕ, ◌+◌, ◌≡◌, refl, Bool, true, false, not, Option, none, some, List, [], ◌∷◌, ◌==◌, if◌then◌else◌,
  arith, ◌⊎◌, inl, inr, length, filter, Bool-cases, suc, ap,
}
use job_orchestrator.Prelude.Ids.{contains, IsNodup}
use job_orchestrator.Prelude.Dict
use job_orchestrator.Prelude.Dict.{Dict, IsDict}
use job_orchestrator.Locking.Memory.{
  LockInfo, Manager, Reading, is_expired, effective_ttl, grant, renew, offer, store, attempt,
  delete, expired_resources, delete_all, cleanup_expired, get_all_locks, lock_count,
}
use job_orchestrator.Locking.Memory.Lease.{
  contains-expired_resources, lookup-cleanup_expired, has_expired, lookup-store,
}

-- Who may take the lock at a reading of the clock.
abbrev pub may_take : ℕ → ℕ → Option LockInfo → Bool
may_take now owner none = true
may_take now owner (some held) = if is_expired now held then true else held.owner == owner

offer_lem :
    (resource owner ttl : ℕ) (r : Reading) (o : Option LockInfo)
    → ((may_take r.tested owner o ≡ false) × (offer resource owner ttl r o ≡ none))
      ⊎ ((may_take r.tested owner o ≡ true)
          × ((info : LockInfo) × (offer resource owner ttl r o ≡ some info) × (info.owner ≡ owner)))
unfolding offer grant renew
offer_lem resource owner ttl r none = inr (refl, (grant resource owner ttl r, refl, refl))
offer_lem resource owner ttl r (some held) = elim (Bool-cases (is_expired r.tested held)) [
  | inl late ↦ inr (rw late refl, (grant resource owner ttl r, rw late refl, refl))
  | inr live ↦ elim (Bool-cases (held.owner == owner)) [
    | inl own ↦
        inr (
          ground (arith, live, own),
          (renew ttl r held, rw live (rw own refl), ground (arith, own)),
        )
    | inr other ↦ inl (ground (arith, live, other), rw live (rw other refl))
  ]
]

module _ (resource owner : ℕ) (ttl : Option ℕ) (r : Reading) (m : Manager) where
  -- An attempt succeeds exactly when the resource is free, its lock has expired, or the owner holds
  -- it already. It then returns the lock that is stored, which carries the owner's name, and leaves
  -- every other lock alone; else it changes nothing.
  pub attempt_lem :
      ((may_take r.tested owner (Dict.lookup resource m.locks) ≡ false)
        × (attempt resource owner ttl r m ≡ (none, m)))
      ⊎ ((may_take r.tested owner (Dict.lookup resource m.locks) ≡ true)
          × ((info : LockInfo) × ((attempt resource owner ttl r m).0 ≡ some info)
              × (info.owner ≡ owner)
              × ((k : ℕ)
                  → Dict.lookup k (attempt resource owner ttl r m).1.locks
                    ≡ (if resource == k then some info else Dict.lookup k m.locks))))
  unfolding attempt
  attempt_lem =
      elim (offer_lem resource owner (effective_ttl ttl m) r (Dict.lookup resource m.locks)) [
        | inl (taken, e) ↦ inl (taken, rw e (unfold store in refl))
        | inr (able, (info, e, own)) ↦
            inr (able, (info, e, own, λ k. rw e (lookup-store k resource (some info) m)))
      ]

length-delete_all :
    (gone : List ℕ) (m : Manager)
    → IsDict m.locks
    → IsNodup gone
    → ((k : ℕ) → contains k gone ≡ true → Dict.has_key k m.locks ≡ true)
    → length m.locks ≡ length gone + length (delete_all gone m).locks
unfolding delete_all delete contains
length-delete_all [] m d n f = omega arith
length-delete_all (r ∷ rest) m d n f =
    let after =
      length-delete_all rest (delete r m) (Dict.remove-IsDict r m.locks d) n.1
        (λ k h. ground (arith, h, n.0, f k, Dict.lookup-remove k r m.locks)) in
    ground (arith, after, f r, Dict.length-remove r m.locks d)

expired_resources-IsNodup :
    (clock : ℕ → ℕ) (locks : Dict LockInfo) → IsDict locks → IsNodup (expired_resources clock locks)
unfolding expired_resources contains
expired_resources-IsNodup clock [] d = tt
expired_resources-IsNodup clock ((j, info) ∷ locks) d =
    ground (
      arith,
      expired_resources-IsNodup clock locks d.1,
      contains-expired_resources j clock locks d.1,
    )

live_and_expired :
    (clock : ℕ → ℕ) (locks : Dict LockInfo)
    → length locks
      ≡ length (expired_resources clock locks)
        + length (filter (λ e. not (is_expired (clock e.0) e.1)) locks)
unfolding expired_resources
live_and_expired clock [] = omega arith
live_and_expired clock ((j, info) ∷ locks) = ground (arith, live_and_expired clock locks)

length-values : (locks : Dict LockInfo) → length (Dict.values locks) ≡ length locks
length-values [] = refl
length-values (e ∷ locks) = ap suc (length-values locks)

module _ (clock : ℕ → ℕ) (m : Manager) (d : IsDict m.locks) where
  -- `cleanup_expired` drops exactly the locks that are expired at their reading of the clock, and
  -- returns how many locks are gone; `lock_count` counts what it leaves, which is what
  -- `get_all_locks` lists.
  pub cleanup_expired_lem :
      let cleaned = cleanup_expired clock m in
      ((k : ℕ)
        → Dict.lookup k cleaned.1.locks
          ≡ (if has_expired (clock k) (Dict.lookup k m.locks) then none else Dict.lookup k m.locks))
      × (length m.locks ≡ cleaned.0 + length cleaned.1.locks)
      × (lock_count clock m ≡ length cleaned.1.locks)
      × (length (get_all_locks clock m).0 ≡ length cleaned.1.locks)
  unfolding cleanup_expired lock_count get_all_locks
  cleanup_expired_lem =
      let count =
        length-delete_all (expired_resources clock m.locks) m d
          (expired_resources-IsNodup clock m.locks d)
          (λ k h. ground (arith, h, contains-expired_resources k clock m.locks d)) in
      (
        λ k. lookup-cleanup_expired k clock m d,
        count,
        omega (arith, count, live_and_expired clock m.locks),
        length-values (delete_all (expired_resources clock m.locks) m).locks,
      )
