-- ===== src/Locking/Memory/Lease.antt =====
-- What a lease of InMemoryLockManager is worth: no other owner ends or takes it before it expires.
use job_orchestrator.Prelude.{
  ℕ, ◌≡◌, refl, Bool, true, false, ◌&&◌, Option, none, some, List, [], ◌∷◌, ◌==◌, if◌then◌else◌,
  All, arith, inl, inr, Bool-cases, Option-cases, is_some,
}
use job_orchestrator.Prelude.Ids.{contains}
use job_orchestrator.Prelude.Dict
use job_orchestrator.Prelude.Dict.{Dict, IsDict}
use job_orchestrator.Locking.Memory.{
  LockInfo, Manager, Reading, is_expired, expiry, effective_ttl, offer, store, attempt, delete,
  release, extend, get_lock_info, is_locked, expired_resources, delete_all, cleanup_expired,
  get_all_locks, clear,
}
use job_orchestrator.Locking.Memory.Calls.{
  Call, try_acquire, give_back, prolong, test, inspect, clean, list_all, reset, call, run,
}

pub lookup-delete_all :
    (k : ℕ) (gone : List ℕ) (m : Manager)
    → Dict.lookup k (delete_all gone m).locks
      ≡ (if contains k gone then none else Dict.lookup k m.locks)
unfolding delete_all delete contains
lookup-delete_all k [] m = refl
lookup-delete_all k (r ∷ rest) m =
    ground (arith, lookup-delete_all k rest (delete r m), Dict.lookup-remove k r m.locks)

-- Whether the lock under a resource is expired.
abbrev pub has_expired : ℕ → Option LockInfo → Bool
has_expired now none = false
has_expired now (some info) = is_expired now info

pub contains-expired_resources :
    (k : ℕ) (clock : ℕ → ℕ) (locks : Dict LockInfo)
    → IsDict locks
    → contains k (expired_resources clock locks) ≡ has_expired (clock k) (Dict.lookup k locks)
unfolding expired_resources contains Dict.lookup
contains-expired_resources k clock [] d = refl
contains-expired_resources k clock ((j, info) ∷ locks) d =
    ground (arith, contains-expired_resources k clock locks)

pub lookup-cleanup_expired :
    (k : ℕ) (clock : ℕ → ℕ) (m : Manager)
    → IsDict m.locks
    → Dict.lookup k (cleanup_expired clock m).1.locks
      ≡ (if has_expired (clock k) (Dict.lookup k m.locks) then none else Dict.lookup k m.locks)
unfolding cleanup_expired
lookup-cleanup_expired k clock m d = ground (
  arith,
  lookup-delete_all k (expired_resources clock m.locks) m,
  contains-expired_resources k clock m.locks d,
)

-- A call that does not speak for the owner of the lease `info` of resource `k`, and reads the clock
-- before the lease expires.
abbrev pub IsForeign : ℕ → LockInfo → Call → Type 0
IsForeign k info (try_acquire resource owner ttl r) =
    resource == k ≡ true → (info.owner == owner ≡ false) × (is_expired r.tested info ≡ false)
IsForeign k info (give_back resource none) = resource == k ≡ false
IsForeign k info (give_back resource (some owner)) =
    resource == k ≡ true → info.owner == owner ≡ false
IsForeign k info (prolong resource owner ttl tested leased) =
    resource == k ≡ true → info.owner == owner ≡ false
IsForeign k info (test now resource) = resource == k ≡ true → is_expired now info ≡ false
IsForeign k info (inspect now resource) = resource == k ≡ true → is_expired now info ≡ false
IsForeign k info (clean clock) = is_expired (clock k) info ≡ false
IsForeign k info (list_all clock) = is_expired (clock k) info ≡ false
IsForeign k info reset = ⊥

delete_all-IsDict :
    (gone : List ℕ) (m : Manager) → IsDict m.locks → IsDict (delete_all gone m).locks
unfolding delete_all delete
delete_all-IsDict [] m d = d
delete_all-IsDict (r ∷ rest) m d =
    delete_all-IsDict rest (delete r m) (Dict.remove-IsDict r m.locks d)

extend-IsDict :
    (resource owner ttl tested leased : ℕ) (m : Manager)
    → IsDict m.locks
    → IsDict (extend resource owner ttl tested leased m).1.locks
unfolding extend delete
extend-IsDict resource owner ttl tested leased m d =
    elim (Option-cases (Dict.lookup resource m.locks)) [
      | inl e ↦ rw (e, extend) d
      | inr (held, e) ↦
          let gone = Dict.remove-IsDict resource m.locks d in
          let longer =
            Dict.insert-IsDict resource (record held { expires_at = expiry leased ttl }) m.locks
              d in
          rw (e, extend)
            (elim (Bool-cases (held.owner == owner)) [
              | inr other ↦ rw other d
              | inl own ↦ elim (Bool-cases (is_expired tested held)) [
                | inl late ↦ rw own (rw late gone)
                | inr live ↦ rw own (rw live longer)
              ]
            ])
    ]

pub lookup-store :
    (k resource : ℕ) (o : Option LockInfo) (m : Manager)
    → Dict.lookup k (store resource o m).locks
      ≡ (if is_some o && (resource == k) then o else Dict.lookup k m.locks)
unfolding store
lookup-store k resource none m = refl
lookup-store k resource (some info) m = Dict.lookup-insert k resource info m.locks

-- An attempt on a lock that another owner holds.
offer_held :
    (resource owner ttl : ℕ) (r : Reading) (held : LockInfo)
    → is_expired r.tested held ≡ false
    → held.owner == owner ≡ false
    → offer resource owner ttl r (some held) ≡ none
unfolding offer
offer_held resource owner ttl r held live other = rw live (rw other refl)

pub call-IsDict : (c : Call) (m : Manager) → IsDict m.locks → IsDict (call c m).locks
unfolding call attempt store release extend is_locked get_lock_info get_all_locks cleanup_expired
    clear delete
call-IsDict (try_acquire resource owner ttl r) m d =
    elim (Option-cases
      (offer resource owner (effective_ttl ttl m) r (Dict.lookup resource m.locks))) [
        | inl e ↦ rw e d
        | inr (info, e) ↦ rw e (Dict.insert-IsDict resource info m.locks d)
      ]
call-IsDict (give_back resource none) m d = ground (arith, d, Dict.remove-IsDict resource m.locks d)
call-IsDict (give_back resource (some owner)) m d =
    ground (arith, d, Dict.remove-IsDict resource m.locks d)
call-IsDict (prolong resource owner ttl tested leased) m d =
    extend-IsDict resource owner ttl tested leased m d
call-IsDict (test now resource) m d = ground (arith, d, Dict.remove-IsDict resource m.locks d)
call-IsDict (inspect now resource) m d = ground (arith, d, Dict.remove-IsDict resource m.locks d)
call-IsDict (clean clock) m d = delete_all-IsDict (expired_resources clock m.locks) m d
call-IsDict (list_all clock) m d = delete_all-IsDict (expired_resources clock m.locks) m d
call-IsDict reset m d = tt

extend_keeps :
    (k : ℕ) (info : LockInfo) (resource owner ttl tested leased : ℕ) (m : Manager)
    → Dict.lookup k m.locks ≡ some info
    → (resource == k ≡ true → info.owner == owner ≡ false)
    → Dict.lookup k (extend resource owner ttl tested leased m).1.locks ≡ some info
unfolding extend delete
extend_keeps k info resource owner ttl tested leased m e f =
    elim (Option-cases (Dict.lookup resource m.locks)) [
      | inl e2 ↦ rw (e2, extend) e
      | inr (held, e2) ↦ ground (
        arith,
        e,
        e2,
        f,
        Dict.lookup-remove k resource m.locks,
        Dict.lookup-insert k resource (record held { expires_at = expiry leased ttl }) m.locks,
      )
    ]

-- A foreign call leaves the lease in place.
call_keeps :
    (k : ℕ) (info : LockInfo) (c : Call) (m : Manager)
    → IsDict m.locks
    → Dict.lookup k m.locks ≡ some info
    → IsForeign k info c
    → Dict.lookup k (call c m).locks ≡ some info
unfolding call attempt store offer release extend is_locked get_lock_info get_all_locks clear delete
call_keeps k info (try_acquire resource owner ttl r) m d e f = elim (Bool-cases (resource == k)) [
  | inr elsewhere ↦ ground (
    arith,
    e,
    elsewhere,
    lookup-store k resource
        (offer resource owner (effective_ttl ttl m) r (Dict.lookup resource m.locks)) m,
  )
  | inl here ↦
      let same : resource ≡ k = ground (arith, here) in
      let there : Dict.lookup resource m.locks ≡ some info = rw same e in
      rw there (rw (offer_held resource owner (effective_ttl ttl m) r info (f here).1 (f here).0) e)
]
call_keeps k info (give_back resource none) m d e f =
    ground (arith, e, f, Dict.lookup-remove k resource m.locks)
call_keeps k info (give_back resource (some owner)) m d e f =
    ground (arith, e, f, Dict.lookup-remove k resource m.locks)
call_keeps k info (prolong resource owner ttl tested leased) m d e f =
    extend_keeps k info resource owner ttl tested leased m e f
call_keeps k info (test now resource) m d e f =
    ground (arith, e, f, Dict.lookup-remove k resource m.locks)
call_keeps k info (inspect now resource) m d e f =
    ground (arith, e, f, Dict.lookup-remove k resource m.locks)
call_keeps k info (clean clock) m d e f = ground (arith, e, f, lookup-cleanup_expired k clock m d)
call_keeps k info (list_all clock) m d e f =
    ground (arith, e, f, lookup-cleanup_expired k clock m d)
call_keeps k info reset m d e f = absurd f

-- A lease stays in place, unchanged, through any series of calls of other owners that read the
-- clock before it expires: no one else acquires the lock, prolongs it or gives it back, and
-- neither the queries nor the clean-up drop it. The series holds no call of `clear`, and no
-- release of this lock without an owner.
pub lease_kept :
    (k : ℕ) (info : LockInfo) (cs : List Call) (m : Manager)
    → IsDict m.locks
    → Dict.lookup k m.locks ≡ some info
    → All (IsForeign k info) cs
    → Dict.lookup k (run cs m).locks ≡ some info
unfolding run
lease_kept k info [] m d e f = e
lease_kept k info (c ∷ cs) m d e f =
    lease_kept k info cs (call c m) (call-IsDict c m d) (call_keeps k info c m d e f.0) f.1
