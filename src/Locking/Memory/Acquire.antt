-- ===== src/Locking/Memory/Acquire.antt =====
-- The waiting loop of InMemoryLockManager.acquire, and the methods of locking/base.py that call it.
-- A run of the loop is a list of rounds: the readings of the clock and what the other threads do
-- to the manager while the loop waits.
use job_orchestrator.Prelude.{
  ℕ, ◌+◌, ◌≤◌, ◌≡◌, Bool, false, Option, none, some, List, [], ◌∷◌, leb, ltb, if◌then◌else◌, All,
  arith, In, subst, inl, inr,
}
use job_orchestrator.Locking.Memory.{LockInfo, Manager, Reading, attempt, release}

pub record Round : Type 0 where
  pub reading : Reading
  pub before_wait : ℕ
  pub after_wait : ℕ
  pub others : Manager → Manager

pub data Acquired : Type 0 where
  got : LockInfo → Acquired
  refused : Acquired
  looping : Acquired

unfoldable pub effective_timeout : Option ℕ → Manager → Option ℕ
effective_timeout timeout m = elim timeout [
  | some t ↦ some t
  | none ↦ if ltb 0 m.default_timeout then some m.default_timeout else none
]

-- None means that the call does not wait.
unfoldable pub deadline_of : (started : ℕ) → Option ℕ → Option ℕ
deadline_of started timeout = elim timeout [
  | none ↦ none
  | some t ↦ if ltb 0 t then some (started + t) else none
]

module _ (resource owner : ℕ) (ttl : Option ℕ) where
  unfoldable pub acquire_rounds : Option ℕ → List Round → Manager → Acquired × Manager
  acquire_rounds deadline [] m = (looping, m)
  acquire_rounds deadline (r ∷ rs) m =
      let tried = attempt resource owner ttl r.reading m in
      let woken = r.others tried.1 in
      let later = acquire_rounds deadline rs woken in
      elim tried.0 [
        | some info ↦ (got info, tried.1)
        | none ↦ elim deadline [
          | none ↦ (refused, tried.1)
          | some d ↦
              if leb d r.before_wait
              then (refused, tried.1)
              else if leb d r.after_wait
              then (refused, woken)
              else later
        ]
      ]

-- A missing owner is replaced by a fresh identifier.
unfoldable pub acquire :
    ℕ
    → (owner : Option ℕ) (fresh_owner : ℕ) → (timeout ttl : Option ℕ) (started : ℕ) → List Round
    → Manager
    → Acquired × Manager
unfolding acquire_rounds deadline_of effective_timeout
acquire resource owner fresh_owner timeout ttl started rounds m =
    let who : ℕ = elim owner [ none ↦ fresh_owner | some o ↦ o ] in
    acquire_rounds resource who ttl (deadline_of started (effective_timeout timeout m)) rounds m

unfoldable pub try_lock :
    ℕ → (owner : Option ℕ) (fresh_owner ttl started : ℕ) → List Round → Manager → Acquired × Manager
unfolding acquire
try_lock resource owner fresh_owner ttl started rounds m =
    acquire resource owner fresh_owner (some 0) (some ttl) started rounds m

unfoldable pub force_release : ℕ → Manager → Bool × Manager
unfolding release
force_release resource m = release resource none m

-- A round whose clock readings are before the deadline.
abbrev pub IsEarly : ℕ → Round → Type 0
IsEarly d r = (leb d r.before_wait ≡ false) × (leb d r.after_wait ≡ false)

module _ (resource owner : ℕ) (ttl : Option ℕ) (d : ℕ) where
  -- An `acquire` with a deadline gives up only past it: while the clock is before the deadline, it
  -- takes the lock or goes on waiting.
  pub acquire_patient :
      (rounds : List Round) (m : Manager)
      → All (IsEarly d) rounds
      → ¬ ((acquire_rounds resource owner ttl (some d) rounds m).0 ≡ refused)
  unfolding acquire_rounds
  acquire_patient [] m a h = ground (arith, h)
  acquire_patient (r ∷ rs) m a h =
      ground (
        arith,
        h,
        a.0,
        acquire_patient rs (r.others (attempt resource owner ttl r.reading m).1) a.1,
      )

  -- An `acquire` with a deadline has returned once a reading of the clock before a wait is at or
  -- past the deadline, whatever the other threads do.
  pub acquire_returns :
      (late : Round) (rounds : List Round) (m : Manager)
      → In late rounds
      → d ≤ late.before_wait
      → ¬ ((acquire_rounds resource owner ttl (some d) rounds m).0 ≡ looping)
  unfolding acquire_rounds
  acquire_returns late [] m i l h = absurd i
  acquire_returns late (r ∷ rs) m (inl same) l h =
      let passed : d ≤ r.before_wait = subst (λ t. d ≤ t.before_wait) same l in
      ground (arith, h, passed)
  acquire_returns late (r ∷ rs) m (inr later) l h = ground (
    arith,
    h,
    acquire_returns late rs (r.others (attempt resource owner ttl r.reading m).1) later l,
  )
