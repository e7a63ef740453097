-- ===== src/Locking/Memory.antt =====
-- src/job_orchestrator/locking/memory.py, class InMemoryLockManager, with the record LockInfo of
-- locking/base.py. The inner lock makes each method atomic but for `acquire`, which waits
-- (Acquire). A duration is a number of microseconds, and one that is not positive is 0: the code
-- only asks whether it is positive. The conditions only wake waiters, and the metadata of a lock
-- is only stored: both are left out.
pub mod Acquire
pub mod Calls
pub mod Lease
pub mod Outcome
mod Examples
use job_orchestrator.Prelude.{
  ℕ, ◌+◌, Bool, true, false, not, Option, none, some, List, [], ◌∷◌, ◌==◌, ltb, leb, if◌then◌else◌,
  length, filter,
}
use job_orchestrator.Prelude.Dict
use job_orchestrator.Prelude.Dict.{Dict}

pub record LockInfo : Type 0 where
  pub lock_id : ℕ
  pub resource : ℕ
  pub owner : ℕ
  pub acquired_at : ℕ
  pub expires_at : Option ℕ

pub record Manager : Type 0 where
  pub locks : Dict LockInfo
  pub default_ttl : ℕ
  pub default_timeout : ℕ

unfoldable pub new : (default_ttl default_timeout : ℕ) → Manager
new default_ttl default_timeout = record {
  locks = [];
  default_ttl = default_ttl;
  default_timeout = default_timeout;
}

-- `_is_expired` at a reading of the clock.
unfoldable pub is_expired : ℕ → LockInfo → Bool
is_expired now info = elim info.expires_at [ none ↦ false | some t ↦ ltb t now ]

-- `datetime.utcnow() + timedelta(seconds=ttl) if ttl > 0 else None`
unfoldable pub expiry : (now ttl : ℕ) → Option ℕ
expiry now ttl = if ttl == 0 then none else some (now + ttl)

-- The readings of the clock in one attempt to acquire: at the test for expiry, for `acquired_at`
-- and for `expires_at`; and the identifier that the attempt draws.
pub record Reading : Type 0 where
  pub tested : ℕ
  pub stamped : ℕ
  pub leased : ℕ
  pub fresh : ℕ

unfoldable pub effective_ttl : Option ℕ → Manager → ℕ
effective_ttl ttl m = elim ttl [ none ↦ m.default_ttl | some t ↦ t ]

unfoldable pub grant : ℕ → ℕ → ℕ → Reading → LockInfo
unfolding expiry
grant resource owner ttl r = record {
  lock_id = r.fresh;
  resource = resource;
  owner = owner;
  acquired_at = r.stamped;
  expires_at = expiry r.leased ttl;
}

-- The owner asks again: a lease that is positive replaces the old one.
unfoldable pub renew : ℕ → Reading → LockInfo → LockInfo
unfolding expiry
renew ttl r info = if ttl == 0 then info else record info { expires_at = expiry r.leased ttl }

-- What an attempt does with what it finds under the resource; none when another owner holds it.
unfoldable pub offer : ℕ → ℕ → ℕ → Reading → Option LockInfo → Option LockInfo
unfolding grant renew
offer resource owner ttl r none = some (grant resource owner ttl r)
offer resource owner ttl r (some held) =
    if is_expired r.tested held
    then some (grant resource owner ttl r)
    else if held.owner == owner
    then some (renew ttl r held)
    else none

unfoldable pub store : ℕ → Option LockInfo → Manager → Manager
store resource none m = m
store resource (some info) m = record m { locks = Dict.insert resource info m.locks }

-- The body of the loop of `acquire` under the inner lock.
unfoldable pub attempt : ℕ → ℕ → Option ℕ → Reading → Manager → Option LockInfo × Manager
unfolding offer store effective_ttl
attempt resource owner ttl r m =
    let info = offer resource owner (effective_ttl ttl m) r (Dict.lookup resource m.locks) in
    (info, store resource info m)

unfoldable pub delete : ℕ → Manager → Manager
delete resource m = record m { locks = Dict.remove resource m.locks }

unfoldable pub release : ℕ → Option ℕ → Manager → Bool × Manager
unfolding delete
release resource owner m = elim (Dict.lookup resource m.locks) [
  | none ↦ (false, m)
  | some held ↦ elim owner [
    | none ↦ (true, delete resource m)
    | some o ↦ if held.owner == o then (true, delete resource m) else (false, m)
  ]
]

-- `tested` and `leased` are the readings at the test for expiry and for the new lease.
unfoldable pub extend : ℕ → ℕ → (ttl tested leased : ℕ) → Manager → Bool × Manager
unfolding delete expiry
extend resource owner ttl tested leased m = elim (Dict.lookup resource m.locks) [
  | none ↦ (false, m)
  | some held ↦
      if not (held.owner == owner)
      then (false, m)
      else if is_expired tested held
      then (false, delete resource m)
      else (
        true,
        record m {
          locks = Dict.insert resource (record held { expires_at = expiry leased ttl }) m.locks;
        },
      )
]

unfoldable pub get_lock_info : ℕ → ℕ → Manager → Option LockInfo × Manager
unfolding delete
get_lock_info now resource m = elim (Dict.lookup resource m.locks) [
  | none ↦ (none, m)
  | some held ↦ if is_expired now held then (none, delete resource m) else (some held, m)
]

unfoldable pub is_locked : ℕ → ℕ → Manager → Bool × Manager
unfolding delete
is_locked now resource m = elim (Dict.lookup resource m.locks) [
  | none ↦ (false, m)
  | some held ↦ if is_expired now held then (false, delete resource m) else (true, m)
]

-- The clock is read anew for each lock: `clock` gives the reading at the test of each resource.
unfoldable pub expired_resources : (ℕ → ℕ) → Dict LockInfo → List ℕ
unfolding is_expired
expired_resources clock [] = []
expired_resources clock ((resource, info) ∷ locks) =
    let rest = expired_resources clock locks in
    if is_expired (clock resource) info then resource ∷ rest else rest

unfoldable pub delete_all : List ℕ → Manager → Manager
unfolding delete
delete_all [] m = m
delete_all (resource ∷ rest) m = delete_all rest (delete resource m)

unfoldable pub cleanup_expired : (ℕ → ℕ) → Manager → ℕ × Manager
unfolding expired_resources delete_all
cleanup_expired clock m =
    let gone = expired_resources clock m.locks in (length gone, delete_all gone m)

unfoldable pub get_all_locks : (ℕ → ℕ) → Manager → List LockInfo × Manager
unfolding cleanup_expired
get_all_locks clock m =
    let cleaned = (cleanup_expired clock m).1 in (Dict.values cleaned.locks, cleaned)

unfoldable pub clear : Manager → ℕ × Manager
clear m = (length m.locks, record m { locks = [] })

unfoldable pub lock_count : (ℕ → ℕ) → Manager → ℕ
unfolding is_expired
lock_count clock m = length (filter (λ e. not (is_expired (clock e.0) e.1)) m.locks)
