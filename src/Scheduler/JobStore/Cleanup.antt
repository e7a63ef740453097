-- ===== src/Scheduler/JobStore/Cleanup.antt =====
-- scheduler/job_store.py: the clean-up of a job store, and its counts.
use job_orchestrator.Prelude.{
  ℕ, ◌+◌, ◌≡◌, refl, subst, Bool, true, false, Option, none, some, List, [], ◌∷◌, ◌==◌, arith, inl,
  inr, Bool-cases, length, if◌then◌else◌,
}
use job_orchestrator.Prelude.Ids.{IsNodup}
use job_orchestrator.Prelude.Ids
use job_orchestrator.Prelude.Dict
use job_orchestrator.Prelude.Dict.{Dict, IsDict, lookup-remove, length-remove, remove-IsDict}
use job_orchestrator.Core.Job.{Job}
use job_orchestrator.Queue.{Objects}
use job_orchestrator.Scheduler.JobStore.{JobStore, delete_all, keys_where, cleanup}

lookup-delete_all :
    (k : ℕ) (ids : List ℕ) (st : JobStore)
    → Dict.lookup k (delete_all ids st) ≡ (if Ids.contains k ids then none else Dict.lookup k st)
unfolding delete_all Ids.contains
lookup-delete_all k [] st = refl
lookup-delete_all k (id ∷ ids) st =
    ground (arith, lookup-delete_all k ids (Dict.remove id st), lookup-remove k id st)

length-delete_all :
    (ids : List ℕ) (st : JobStore)
    → IsDict st
    → IsNodup ids
    → ((k : ℕ) → Ids.contains k ids ≡ true → Dict.has_key k st ≡ true)
    → length st ≡ length ids + length (delete_all ids st)
unfolding delete_all Ids.contains
length-delete_all [] st d n f = omega arith
length-delete_all (id ∷ ids) st d n f =
    let rest =
      length-delete_all ids (Dict.remove id st) (remove-IsDict id st d) n.1
        (λ k h. ground (arith, h, n.0, f k, lookup-remove k id st)) in
    ground (arith, rest, length-remove id st d, f id)

delete_all-IsDict : (ids : List ℕ) (st : JobStore) → IsDict st → IsDict (delete_all ids st)
unfolding delete_all
delete_all-IsDict [] st d = d
delete_all-IsDict (id ∷ ids) st d =
    delete_all-IsDict ids (Dict.remove id st) (remove-IsDict id st d)

module _ {F : Type 0} (test : Job F → Bool) (objs : Objects F) where
  -- The job is in the store, and passes the test.
  abbrev pub passes : Option ℕ → Bool
  passes none = false
  passes (some a) = test (objs a)

  contains-keys_where :
      (k : ℕ) (st : JobStore)
      → IsDict st
      → Ids.contains k (keys_where test objs st) ≡ passes (Dict.lookup k st)
  unfolding keys_where Ids.contains Dict.lookup
  contains-keys_where k [] d = refl
  contains-keys_where k ((id, a) ∷ st) d = elim (Bool-cases (id == k)) [
    | inr other ↦ ground (arith, other, contains-keys_where k st d.1)
    | inl same ↦
        let here : Dict.lookup k st ≡ none =
          subst (λ j. Dict.lookup j st ≡ none) (ground (arith, same)) d.0 in
        ground (arith, same, here, contains-keys_where k st d.1)
  ]

  keys_where-IsNodup : (st : JobStore) → IsDict st → IsNodup (keys_where test objs st)
  unfolding keys_where
  keys_where-IsNodup [] d = tt
  keys_where-IsNodup ((id, a) ∷ st) d =
      ground (arith, keys_where-IsNodup st d.1, contains-keys_where id st d.1, d.0)

  -- A clean-up drops exactly the jobs that pass its test, and returns how many are gone.
  pub cleanup_lem :
      (st : JobStore)
      → IsDict st
      → let r = cleanup test objs st in
        ((k : ℕ)
          → Dict.lookup k r.1 ≡ (if passes (Dict.lookup k st) then none else Dict.lookup k st))
        × (length st ≡ r.0 + length r.1)
        × IsDict r.1
  unfolding cleanup
  cleanup_lem st d =
      let ids = keys_where test objs st in
      (
        λ k. ground (arith, lookup-delete_all k ids st, contains-keys_where k st d),
        length-delete_all ids st d (keys_where-IsNodup st d)
            (λ k h. ground (arith, h, contains-keys_where k st d)),
        delete_all-IsDict ids st d,
      )
