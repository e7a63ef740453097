-- ===== src/Scheduler/DagExecutor/Examples.antt =====
-- A small DAG, and the theorems on class DAGExecutor at it.
use job_orchestrator.Prelude.{ℕ, ◌+◌, ◌≡◌, ◌≢◌, refl, Bool, true, false, [], ◌∷◌, none, some, arith}
use job_orchestrator.Prelude.Ids.{contains, add, discard, IsNodup}
use job_orchestrator.Prelude.Dict
use job_orchestrator.Core.Dag.{Node, is_root}
use job_orchestrator.Core.Dag.Graph.{ins_of, outs_of, IsGraph}
use job_orchestrator.Scheduler.DagExecutor.{
  Workflow, Execution, Scheduling, running, completed, cancelled, jobs_failed, complete_in, fail_in,
  cancel_in, fail_dag, check_dag_completion, new, is_over, cancel_each, is_job_ready, node_is_ready,
  queue_all, queue_job, queue_found, note_queued, queue_ready, mark_complete, dependents_of,
  conclude, conclude_unless, accounted, total_jobs, cancel_unfinished, mark_failed,
}
use job_orchestrator.Scheduler.DagExecutor.Methods.{
  begin, start_dag, on_job_complete, execution_of, store, put, map_jobs, root_ids,
}
use job_orchestrator.Scheduler.DagExecutor.Calls.{start, complete, cancel, call, run, Every}
use job_orchestrator.Scheduler.DagExecutor.Order.{IsNamed, IsOrdered, run-IsOrdered}
use job_orchestrator.Scheduler.DagExecutor.Loops.{IsKeyed}
use job_orchestrator.Scheduler.DagExecutor.Progress.{IsLive, IsTracked, reports-progress}
use job_orchestrator.Scheduler.DagExecutor.Complete.{IsSound, IsDone, check_dag_completion-IsDone}
use job_orchestrator.Scheduler.DagExecutor.Settled.{
  completion, failure, reports, stopped-reports, cancelled_revives,
}

abbrev first_node : Node
first_node = record { job_id = 1; dependencies = []; dependents = 2 ∷ [] }

abbrev second_node : Node
second_node = record { job_id = 2; dependencies = 1 ∷ []; dependents = [] }

-- Job 2 waits for job 1.
abbrev chain : Workflow
chain = record {
  id = 7;
  nodes = (1, first_node) ∷ (2, second_node) ∷ [];
  jobs = (1, 10) ∷ (2, 20) ∷ [];
  fail_fast = false;
}

-- A scheduler that accepts all jobs, and counts the calls.
abbrev counting : Scheduling ℕ
counting = record {
  submit = λ a n. (true, n + 1);
  cancel_job = λ id n. n + 100;
  on_dag_complete = λ id n. n + 1000;
  on_dag_failed = λ id n. n + 10000;
}

abbrev started : Execution
started = record {
  dag = chain;
  status = running;
  started_at = some 0;
  completed_at = none;
  completed_jobs = [];
  failed_jobs = [];
  running_jobs = 1 ∷ [];
  cancelled_jobs = [];
  error = none;
}

abbrev finishing : Execution
finishing = record started { completed_jobs = 1 ∷ 2 ∷ []; running_jobs = [] }

program : Unit {0}
unfolding begin start_dag on_job_complete execution_of store put map_jobs root_ids is_root queue_all
    queue_job queue_found note_queued queue_ready mark_complete dependents_of conclude
    conclude_unless accounted total_jobs cancel_unfinished mark_failed complete_in fail_in cancel_in
    fail_dag check_dag_completion new is_over cancel_each is_job_ready node_is_ready call run
    contains add discard Dict.lookup Dict.insert
program = tt

-- The two jobs run one after the other, and the scheduler is told that the DAG is completed.
chain_runs : (run counting (start 0 chain ∷ complete 1 5 ∷ complete 2 6 ∷ []) new 0).1 ≡ 1002
unfolding program
chain_runs = refl

chain-IsKeyed : IsKeyed chain
unfolding Dict.lookup
chain-IsKeyed k = ground arith

chain-IsNamed : IsNamed chain
unfolding Dict.lookup
chain-IsNamed = record { once = (refl, (refl, tt)); named = λ k. ground arith }

chain-IsGraph : IsGraph chain.nodes
unfolding Dict.lookup ins_of outs_of contains
chain-IsGraph = record {
  keyed = (refl, (refl, tt));
  ins_once = λ k. ground arith;
  outs_once = λ k. ground arith;
  closed = λ a b h. ground arith;
  mirror = λ a b. ground arith;
}

chain-IsSound : IsSound chain
unfolding Dict.lookup ins_of contains
chain-IsSound = record {
  graph = chain-IsGraph;
  once = (refl, (refl, tt));
  keyed = chain-IsKeyed;
  acyclic = (λ k. k, λ a b h. ground arith);
}

run-IsOrdered_example :
    Every IsOrdered (run counting (start 0 chain ∷ complete 1 5 ∷ cancel 7 6 ∷ []) new 0).0
run-IsOrdered_example =
    run-IsOrdered counting (start 0 chain ∷ complete 1 5 ∷ cancel 7 6 ∷ []) 0
      (chain-IsNamed, (tt, (tt, tt)))

started-IsTracked : IsTracked started
unfolding contains Dict.lookup
started-IsTracked k h = (ground (arith, h), refl, refl)

reports-progress_example :
    let r = complete_in counting 1 5 started 0 in
    let f = fail_in counting 1 9 5 started 0 in
    ((r.ok ≡ true) × IsTracked r.execution × IsLive r.execution)
    × ((f.ok ≡ true) × IsTracked f.execution × IsLive f.execution)
reports-progress_example =
    reports-progress counting (λ a s. refl) 1 9 5 started 0 chain-IsKeyed started-IsTracked

started_running : running ≢ completed
started_running h = ground (arith, h)

finishing_known :
    (k : ℕ) → contains k finishing.completed_jobs ≡ true → Dict.has_key k chain.jobs ≡ true
unfolding contains Dict.lookup
finishing_known k h = ground (arith, h)

finishing_ends : (check_dag_completion counting 9 finishing 0).execution.status ≡ completed
unfolding program
finishing_ends = refl

finishing-IsNodup : IsNodup finishing.completed_jobs
unfolding contains
finishing-IsNodup = (refl, (refl, tt))

check_dag_completion-IsDone_example : IsDone (check_dag_completion counting 9 finishing 0).execution
check_dag_completion-IsDone_example =
    check_dag_completion-IsDone counting 9 finishing 0 chain-IsSound finishing-IsNodup
      finishing_known refl started_running finishing_ends

running_on : is_over running ≡ false
unfolding is_over
running_on = refl

abbrev refusing : ℕ → ℕ → Bool × ℕ
refusing a n = (false, n)

stopped-reports_example :
    let c = cancel_in counting 5 started 0 in
    let f = fail_dag counting (jobs_failed 1) 5 started 0 in
    let rs = completion 1 6 ∷ failure 2 3 7 ∷ [] in
    (reports counting rs c.0 c.1 ≡ reports (record counting { submit = refusing }) rs c.0 c.1)
    × (reports counting rs f.0 f.1 ≡ reports (record counting { submit = refusing }) rs f.0 f.1)
stopped-reports_example =
    stopped-reports counting refusing (completion 1 6 ∷ failure 2 3 7 ∷ []) (jobs_failed 1) 5
      started started 0 chain-IsKeyed chain-IsKeyed running_on

second_open : contains 2 started.completed_jobs ≡ false
unfolding contains
second_open = refl

second_known : Dict.has_key 2 started.dag.nodes ≡ true
unfolding Dict.lookup
second_known = refl

cancelled_revives_example :
    let c = cancel_in counting 5 started 0 in
    let r = complete_in counting 1 6 c.0 c.1 in
    (c.0.status ≡ cancelled)
    × (r.execution.status ≡ completed)
    × (contains 2 r.execution.cancelled_jobs ≡ true)
cancelled_revives_example =
    cancelled_revives counting 1 5 6 2 started 0 chain-IsKeyed refl refl second_known second_open
