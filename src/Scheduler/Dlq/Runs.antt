-- ===== src/Scheduler/Dlq/Runs.antt =====
-- Runs of the dead letter queue, in which the index by job stays right.
use job_orchestrator.Prelude.{
  ℕ, ◌≡◌, Bool, false, Option, List, [], ◌∷◌, arith, Option-cases, Bool-cases, inl, inr,
}
use job_orchestrator.Prelude.Dict
use job_orchestrator.Prelude.Dict.{Dict, IsDict}
use job_orchestrator.Core.Job.{Job}
use job_orchestrator.Scheduler.Dlq.{
  Dlq, Entry, remove_entry, cleanup_expired, add, get_entry, discard_found, discard, settle,
  resolved, resolve_found, resolve, requeued_entry, requeue_found, requeue,
}
use job_orchestrator.Scheduler.Dlq.Index.{
  IsIndexed, remove_entry-IsIndexed, register_entry-IsIndexed, add-IsIndexed,
  cleanup_expired-IsIndexed, lookup-remove_entry,
}

pub data Call (F : Type 0) : Type 0 where
  put : (fresh : ℕ) → Job F → (error retry_count : Option ℕ) (now later : ℕ) → Call F
  take :
      ℕ
      → Option (Job F → Bool)
      → Bool
      → (Job F → Job F)
      → (resolved_by : Option ℕ) (now : ℕ) → Call F
  forget : ℕ → Call F
  close : ℕ → (resolved_by : Option ℕ) → Bool → (now : ℕ) → Call F
  clean : (now : ℕ) → Call F

module _ {F : Type 0} where
  discard-IsIndexed : (id : ℕ) (q : Dlq F) → IsIndexed q → IsIndexed (discard id q).1
  unfolding discard discard_found
  discard-IsIndexed id q w = elim (Option-cases (get_entry id q)) [
    | inl e ↦ rw (e, discard) w
    | inr (entry, e) ↦ rw (e, discard) (remove_entry-IsIndexed entry.entry_id q w)
  ]

  settled-IsIndexed :
      (resolved_by : Option ℕ) (now id : ℕ) (q : Dlq F)
      → IsIndexed q
      → IsIndexed
          (record q { entries = Dict.modify (settle resolved resolved_by now) id q.entries })
  unfolding settle
  settled-IsIndexed resolved_by now id q w =
      let change : Entry F → Entry F = settle resolved resolved_by now in
      record {
        keyed = Dict.modify-IsDict change id q.entries w.keyed;
        named = λ k e h. elim (Option-cases (Dict.lookup k q.entries)) [
          | inl absent ↦
              absurd (ground (arith, h, absent, Dict.lookup-modify change k id q.entries))
          | inr (old, there) ↦
              ground
                (arith, h, there, w.named k old there, Dict.lookup-modify change k id q.entries)
        ];
        leads = λ j i h. ground (arith, h, w.leads j i, Dict.lookup-modify change i id q.entries);
      }

  resolve-IsIndexed :
      (id : ℕ) (resolved_by : Option ℕ) (keep : Bool) (now : ℕ) (q : Dlq F)
      → IsIndexed q
      → IsIndexed (resolve id resolved_by keep now q).1
  unfolding resolve resolve_found
  resolve-IsIndexed id resolved_by keep now q w = elim (Option-cases (get_entry id q)) [
    | inl e ↦ rw (e, resolve) w
    | inr (entry, e) ↦
        rw (e, resolve)
          (elim (Bool-cases keep) [
            | inl kept ↦ rw kept (settled-IsIndexed resolved_by now entry.entry_id q w)
            | inr dropped ↦ rw dropped (remove_entry-IsIndexed entry.entry_id q w)
          ])
  ]

  requeue-IsIndexed :
      (id : ℕ) (submit : Option (Job F → Bool)) (reset : Bool) (modifier : Job F → Job F)
      (resolved_by : Option ℕ) (now : ℕ) (q : Dlq F)
      → IsIndexed q
      → IsIndexed (requeue id submit reset modifier resolved_by now q).2
  unfolding requeue requeue_found
  requeue-IsIndexed id submit reset modifier resolved_by now q w =
      elim (Option-cases (get_entry id q)) [
        | inl e ↦ rw (e, requeue) w
        | inr (entry, e) ↦
            let gone = remove_entry-IsIndexed entry.entry_id q w in
            let changed = requeued_entry reset modifier resolved_by now entry in
            let back =
              register_entry-IsIndexed changed (remove_entry entry.entry_id q)
                (unfold requeued_entry settle in
                  ground (arith, lookup-remove_entry entry.entry_id entry.entry_id q))
                gone in
            rw (e, requeue)
              (elim (Option-cases submit) [
                | inl alone ↦ rw alone gone
                | inr (accepts, given) ↦ rw given (elim (Bool-cases (accepts changed.job)) [
                  | inl fine ↦ rw fine gone
                  | inr raised ↦ rw raised back
                ])
              ])
      ]

  module _ (kind_of : ℕ → ℕ) where
    unfoldable pub call : Call F → Dlq F → Dlq F
    call (put fresh job error retry_count now later) q =
        add kind_of fresh job error retry_count now later q
    call (take id submit reset modifier resolved_by now) q =
        (requeue id submit reset modifier resolved_by now q).2
    call (forget id) q = (discard id q).1
    call (close id resolved_by keep now) q = (resolve id resolved_by keep now q).1
    call (clean now) q = (cleanup_expired now q).1

    unfoldable pub run : List (Call F) → Dlq F → Dlq F
    unfolding call
    run [] q = q
    run (c ∷ cs) q = run cs (call c q)

    -- The identifier that an `add` draws is not in use.
    abbrev pub IsFresh : Call F → Dlq F → Type 0
    IsFresh (put fresh job error retry_count now later) q = Dict.has_key fresh q.entries ≡ false
    IsFresh (take id submit reset modifier resolved_by now) q = Unit
    IsFresh (forget id) q = Unit
    IsFresh (close id resolved_by keep now) q = Unit
    IsFresh (clean now) q = Unit

    abbrev pub AreFresh : List (Call F) → Dlq F → Type 0
    AreFresh [] q = Unit
    AreFresh (c ∷ cs) q = IsFresh c q × AreFresh cs (call c q)

    call-IsIndexed : (c : Call F) (q : Dlq F) → IsFresh c q → IsIndexed q → IsIndexed (call c q)
    unfolding call
    call-IsIndexed (put fresh job error retry_count now later) q f w =
        add-IsIndexed kind_of fresh job error retry_count now later q f w
    call-IsIndexed (take id submit reset modifier resolved_by now) q f w =
        requeue-IsIndexed id submit reset modifier resolved_by now q w
    call-IsIndexed (forget id) q f w = discard-IsIndexed id q w
    call-IsIndexed (close id resolved_by keep now) q f w =
        resolve-IsIndexed id resolved_by keep now q w
    call-IsIndexed (clean now) q f w = cleanup_expired-IsIndexed now q w

    -- Any series of calls of `add`, `requeue`, `discard`, `resolve` and `cleanup_expired`, in which
    -- each `add` draws an identifier that is not in use, also with a `submit` that raises, keeps the
    -- dictionaries right: each entry is stored under its identifier, and the index leads from a job
    -- to an entry of this job, never to one that is gone.
    pub run-IsIndexed :
        (cs : List (Call F)) (q : Dlq F) → AreFresh cs q → IsIndexed q → IsIndexed (run cs q)
    unfolding run
    run-IsIndexed [] q f w = w
    run-IsIndexed (c ∷ cs) q f w = run-IsIndexed cs (call c q) f.1 (call-IsIndexed c q f.0 w)
