-- ===== src/Scheduler/DagExecutor/Order.antt =====
-- class DAGExecutor, scheduler/dag_executor.py: a job of a DAG is submitted after its dependencies.
use job_orchestrator.Prelude.{
  ℕ, ◌≡◌, sym, subst, Bool, true, false, none, some, List, [], ◌∷◌, arith, Bool-cases, List-cases,
  inl, inr, All,
}
use job_orchestrator.Prelude.Ids.{contains, contains-add, contains-discard}
use job_orchestrator.Prelude.Dict
use job_orchestrator.Prelude.Dict.{Dict, IsDict}
use job_orchestrator.Core.Dag.{Node, is_root}
use job_orchestrator.Core.Dag.Graph.{ins, ins_of}
use job_orchestrator.Core.Dag.Shape.{NamesNode}
use job_orchestrator.Scheduler.DagExecutor.{
  Workflow, Execution, Scheduling, note_queued, queue_job, new, queue_all, mark_complete,
  mark_failed,
}
use job_orchestrator.Scheduler.DagExecutor.Methods.{root_ids, begin}
use job_orchestrator.Scheduler.DagExecutor.Calls.{Call, run, Every, IsInvariant, Starts, run-Every}
use job_orchestrator.Scheduler.DagExecutor.Keeps.{IsClosed, queue_job-keeps}
use job_orchestrator.Scheduler.DagExecutor.Sets.{
  IsMet, is_job_ready_iff, cancel_unfinished_frame, dag-queue_job,
}

-- The dependencies of every job that runs are completed.
abbrev pub IsOrdered : Execution → Type 0
IsOrdered e = (id : ℕ) → contains id e.running_jobs ≡ true → IsMet id e

note_queued-IsOrdered :
    (id : ℕ) (ok : Bool) (e : Execution)
    → IsMet id e
    → IsOrdered e
    → IsOrdered (note_queued id ok e)
unfolding note_queued
note_queued-IsOrdered id false e m o = o
note_queued-IsOrdered id true e m o = λ j h d i. elim (Bool-cases (contains j e.running_jobs)) [
  | inl old ↦ o j old d i
  | inr fresh ↦ ground (arith, h, fresh, contains-add j id e.running_jobs, m d)
]

mark_complete-IsOrdered : (id : ℕ) (e : Execution) → IsOrdered e → IsOrdered (mark_complete id e)
unfolding mark_complete
mark_complete-IsOrdered id e o = λ j h d i.
    let before : contains j e.running_jobs ≡ true =
      ground (arith, h, contains-discard j id e.running_jobs) in
    ground (arith, contains-add d id e.completed_jobs, o j before d i)

mark_failed-IsOrdered : (id : ℕ) (e : Execution) → IsOrdered e → IsOrdered (mark_failed id e)
unfolding mark_failed
mark_failed-IsOrdered id e o =
    λ j h d i. o j (ground (arith, h, contains-discard j id e.running_jobs)) d i

IsOrdered-IsClosed : IsClosed IsOrdered
IsOrdered-IsClosed = record {
  queues = λ id ok e ready. note_queued-IsOrdered id ok e ((is_job_ready_iff id e).0 ready).2;
  cancels = λ ids e o. subst IsOrdered (sym (cancel_unfinished_frame ids e)) o;
  ends = λ status at error e o. o;
}

-- The nodes of a DAG are under their identifiers.
pub record IsNamed (dag : Workflow) : Type 0 where
  pub once : IsDict dag.nodes
  pub named : (k : ℕ) → NamesNode k (Dict.lookup k dag.nodes)

-- A node of a dictionary is found under its key.
abbrev Found : Dict Node → Dict Node → Type 0
Found nodes part = All (λ (e : ℕ × Node). Dict.lookup e.0 nodes ≡ some e.1) part

skip-Found :
    (k : ℕ) (n : Node) (nodes part : Dict Node)
    → Dict.lookup k part ≡ none
    → Found nodes part
    → Found ((k, n) ∷ nodes) part
unfolding Dict.lookup
skip-Found k n nodes [] h f = tt
skip-Found k n nodes ((j, m) ∷ part) h f =
    (ground (arith, h, f.0), skip-Found k n nodes part (ground (arith, h)) f.1)

IsDict-Found : (nodes : Dict Node) → IsDict nodes → Found nodes nodes
unfolding Dict.lookup
IsDict-Found [] h = tt
IsDict-Found ((k, n) ∷ nodes) h =
    (ground arith, skip-Found k n nodes nodes h.0 (IsDict-Found nodes h.1))

no_deps : (n : Node) → is_root n ≡ true → n.dependencies ≡ []
unfolding is_root
no_deps n root = elim (List-cases n.dependencies) [
  | inl e ↦ e
  | inr (d, ds, e) ↦ absurd (ground (arith, root, e))
]

-- Roots have no dependencies.
roots-ins :
    (nodes part : Dict Node)
    → ((k : ℕ) → NamesNode k (Dict.lookup k nodes))
    → Found nodes part
    → All (λ id. ins id nodes ≡ []) (root_ids part)
unfolding root_ids ins_of
roots-ins nodes [] named f = tt
roots-ins nodes ((k, n) ∷ part) named f =
    let rest = roots-ins nodes part named f.1 in
    let name : n.job_id ≡ k = ground (arith, named k, f.0) in
    elim (Bool-cases (is_root n)) [
      | inl root ↦ rw root (
        ground (
          arith,
          no_deps n root,
          subst (λ i. ins i nodes ≡ n.dependencies) (sym name) (ground (arith, f.0)),
        ),
        rest,
      )
      | inr other ↦ rw other rest
    ]

module _ {S : Type 0} (sched : Scheduling S) where
  queue_all-IsOrdered :
      (ids : List ℕ) (e : Execution) (s : S)
      → All (λ id. ins id e.dag.nodes ≡ []) ids
      → IsOrdered e
      → IsOrdered (queue_all sched ids e s).execution
  unfolding queue_all
  queue_all-IsOrdered [] e s a o = o
  queue_all-IsOrdered (id ∷ ids) e s a o =
      let first = queue_job sched id e s in
      let met : IsMet id e = unfold contains in λ d i. ground (arith, i, a.0) in
      let step =
        queue_job-keeps sched IsOrdered id e s (λ ok. note_queued-IsOrdered id ok e met o) o in
      let rest =
        queue_all-IsOrdered ids first.execution first.outer
          (subst (λ (g : Workflow). All (λ id. ins id g.nodes ≡ []) ids)
            (sym (dag-queue_job sched id e s)) a.1)
          step in
      elim (Bool-cases first.ok) [ inl ok ↦ rw ok rest | inr error ↦ rw error step ]

  begin-IsOrdered :
      (now : ℕ) (dag : Workflow) (s : S)
      → IsNamed dag
      → IsOrdered (queue_all sched (root_ids dag.nodes) (begin now dag) s).execution
  begin-IsOrdered now dag s n =
      queue_all-IsOrdered (root_ids dag.nodes) (begin now dag) s
        (unfold begin in roots-ins dag.nodes dag.nodes n.named (IsDict-Found dag.nodes n.once))
        (unfold begin contains in λ id h. ground (arith, h))

  pub IsOrdered-IsInvariant : IsInvariant sched IsOrdered IsNamed
  IsOrdered-IsInvariant = record {
    closed = IsOrdered-IsClosed;
    begins = begin-IsOrdered;
    completes = mark_complete-IsOrdered;
    fails = mark_failed-IsOrdered;
  }

  -- After any calls of `start_dag`, `on_job_complete`, `on_job_failed` and `cancel_dag` in any
  -- order, also wrong reports, whatever the scheduler answers, the dependencies of every job in the
  -- running set of an execution are in its completed set, if the nodes of each DAG that is started
  -- are under their identifiers.
  pub run-IsOrdered :
      (calls : List Call) (s : S)
      → All (Starts IsNamed) calls
      → Every IsOrdered (run sched calls new s).0
  run-IsOrdered calls s named =
      run-Every sched IsOrdered IsNamed IsOrdered-IsInvariant calls new s named
        (unfold new Dict.lookup in λ k e found. ground (arith, found))
