-- ===== src/Scheduler/DagExecutor/Calls.antt =====
-- Series of calls of class DAGExecutor, scheduler/dag_executor.py, and what all executions in its
-- table share.
use job_orchestrator.Prelude.{
  ℕ, ◌≡◌, subst, ◌⊎◌, refl, none, some, List, [], ◌∷◌, All, arith, ◌==◌, Bool-cases, Option-cases,
  inl, inr,
}
use job_orchestrator.Prelude.Dict
use job_orchestrator.Scheduler.DagExecutor.{
  Workflow, Execution, Executor, Scheduling, queue_all, mark_complete, mark_failed,
}
use job_orchestrator.Scheduler.DagExecutor.Methods.{
  put, store, begin, root_ids, map_jobs, execution_of, start_dag, on_job_complete, on_job_failed,
  cancel_dag,
}
use job_orchestrator.Scheduler.DagExecutor.Keeps.{
  IsClosed, complete_in-keeps, fail_in-keeps, cancel_in-keeps,
}

pub data Call : Type 0 where
  start : (now : ℕ) → Workflow → Call
  complete : (job_id now : ℕ) → Call
  fail : (job_id error now : ℕ) → Call
  cancel : (dag_id now : ℕ) → Call

module _ {S : Type 0} (sched : Scheduling S) where
  unfoldable pub call : Call → Executor → S → Executor × S
  unfolding start_dag on_job_complete on_job_failed cancel_dag
  call (start now dag) x s = let r = start_dag sched now dag x s in (r.executor, r.outer)
  call (complete id now) x s = let r = on_job_complete sched id now x s in (r.executor, r.outer)
  call (fail id error now) x s =
      let r = on_job_failed sched id error now x s in (r.executor, r.outer)
  call (cancel id now) x s = let r = cancel_dag sched id now x s in (r.1, r.2)

  unfoldable pub run : List Call → Executor → S → Executor × S
  unfolding call
  run [] x s = (x, s)
  run (c ∷ cs) x s = let r = call c x s in run cs r.0 r.1

-- A property of every execution in the table.
abbrev pub Every : (Execution → Type 0) → Executor → Type 0
Every P x = (k : ℕ) (e : Execution) → Dict.lookup k x.active_dags ≡ some e → P e

put-Every :
    (P : Execution → Type 0) (k : ℕ) (e : Execution) (x : Executor)
    → P e
    → Every P x
    → Every P (put k e x)
unfolding put
put-Every P k e x p all j f found = elim (Bool-cases (k == j)) [
  | inl same ↦ subst P (ground (arith, found, same, Dict.lookup-insert j k e x.active_dags)) p
  | inr other ↦ all j f (ground (arith, found, other, Dict.lookup-insert j k e x.active_dags))
]

-- Either no execution is found, or one that is in the table.
execution_of-cases :
    (id : ℕ) (x : Executor)
    → (execution_of id x ≡ none)
      ⊎ ((k : ℕ) × (e : Execution) × (execution_of id x ≡ some (k, e))
          × (Dict.lookup k x.active_dags ≡ some e))
unfolding execution_of
execution_of-cases id x = elim (Option-cases (Dict.lookup id x.job_to_dag)) [
  | inl absent ↦ inl (rw (absent, execution_of) refl)
  | inr (k, found) ↦ elim (Option-cases (Dict.lookup k x.active_dags)) [
    | inl absent ↦ inl (rw (found, execution_of) (rw absent refl))
    | inr (e, here) ↦ inr (k, e, rw (found, execution_of) (rw here refl), here)
  ]
]

-- What every DAG that is started has.
abbrev pub Starts : (Workflow → Type 0) → Call → Type 0
Starts Q (start now dag) = Q dag
Starts Q (complete id now) = Unit
Starts Q (fail id error now) = Unit
Starts Q (cancel id now) = Unit

module _ {S : Type 0} (sched : Scheduling S) (P : Execution → Type 0) where
  -- The elementary changes keep a property, also those that start a call, and the start of a DAG
  -- that `Q` holds of establishes it.
  pub record IsInvariant (Q : Workflow → Type 0) : Type 0 where
    pub closed : IsClosed P
    pub begins :
        (now : ℕ) (dag : Workflow) (s : S)
        → Q dag
        → P (queue_all sched (root_ids dag.nodes) (begin now dag) s).execution
    pub completes : (id : ℕ) (e : Execution) → P e → P (mark_complete id e)
    pub fails : (id : ℕ) (e : Execution) → P e → P (mark_failed id e)

  module _ (Q : Workflow → Type 0) (i : IsInvariant Q) where
    pub call-Every :
        (c : Call) (x : Executor) (s : S) → Starts Q c → Every P x → Every P (call sched c x s).0
    unfolding call start_dag on_job_complete on_job_failed cancel_dag store
    call-Every (start now dag) x s q all =
        let mapped : Executor = record x {
          job_to_dag = map_jobs (Dict.keys dag.jobs) dag.id x.job_to_dag;
        } in
        put-Every P dag.id _ mapped (i.begins now dag s q) all
    call-Every (complete id now) x s q all = elim (execution_of-cases id x) [
      | inl absent ↦ rw (absent, on_job_complete) all
      | inr (k, e, found, here) ↦
          rw (found, on_job_complete)
            (put-Every P k _ x
              (complete_in-keeps sched P i.closed id now e s (i.completes id e (all k e here))) all)
    ]
    call-Every (fail id error now) x s q all = elim (execution_of-cases id x) [
      | inl absent ↦ rw (absent, on_job_failed) all
      | inr (k, e, found, here) ↦
          rw (found, on_job_failed)
            (put-Every P k _ x
              (fail_in-keeps sched P i.closed id error now e s (i.fails id e (all k e here))) all)
    ]
    call-Every (cancel id now) x s q all = elim (Option-cases (Dict.lookup id x.active_dags)) [
      | inl absent ↦ rw (absent, cancel_dag) all
      | inr (e, here) ↦
          rw (here, cancel_dag)
            (put-Every P id _ x (cancel_in-keeps sched P i.closed now e s (all id e here)) all)
    ]

    -- The property holds of every execution after any calls of which each start has `Q`.
    pub run-Every :
        (calls : List Call) (x : Executor) (s : S)
        → All (Starts Q) calls
        → Every P x
        → Every P (run sched calls x s).0
    unfolding run
    run-Every [] x s a all = all
    run-Every (c ∷ calls) x s a all =
        let r = call sched c x s in run-Every calls r.0 r.1 a.1 (call-Every c x s a.0 all)
