-- ===== src/Scheduler/Service/System.antt =====
-- class Scheduler, scheduler/scheduler.py: the capacity of the queue and the order of the jobs of a
-- DAG under every series of calls.
use job_orchestrator.Prelude.{
  ℕ, ◌≤◌, ◌≡◌, refl, ◌∙◌, Option, none, some, List, [], ◌∷◌, arith, either, All,
}
use job_orchestrator.Prelude.Dict
use job_orchestrator.Queue
use job_orchestrator.Queue.{Entry, Objects, Queue, size, cleanup_removed, get_ready_job}
use job_orchestrator.Queue.Methods
use job_orchestrator.Queue.Book.{size-IsBooked, new-IsBooked}
use job_orchestrator.Scheduler.DagExecutor.{Workflow}
use job_orchestrator.Scheduler.DagExecutor
use job_orchestrator.Scheduler.DagExecutor.Calls.{Every}
use job_orchestrator.Scheduler.DagExecutor.Order.{IsOrdered, IsNamed}
use job_orchestrator.Scheduler.Service.{World, Env, new}
use job_orchestrator.Scheduler.Service.Queries.{start, stop}
use job_orchestrator.Scheduler.Service.Calls.{
  Call, submitting, submitting_dag, taking, completing, failing, cancelling, cancelling_dag,
  stepping, starting, stopping, call, run,
}
use job_orchestrator.Scheduler.Service.Invariant.{cancel_job-IsSafe, submit-IsSafe}
use job_orchestrator.Scheduler.Service.Told.{IsSound, complete_job-IsSound, fail_job-IsSound}
use job_orchestrator.Scheduler.Service.Safety.{
  IsFair, IsKind, IsKindStep, submit_dag-IsSound, cancel_dag-IsSound, get_next_job-IsSound,
  run_step-IsSound,
}

-- What the calls of a series are given: nodes under their identifiers, and fair rounds.
abbrev pub IsGiven : {F : Type 0} → Option ℕ → Call F → Type 0
IsGiven limit (submitting_dag now dag) = IsNamed dag
IsGiven limit (taking timeout started rounds) = IsFair limit rounds
IsGiven limit (cancelling_dag others id now) = IsKind limit others
IsGiven limit (stepping a r) = IsKindStep limit r
IsGiven limit _ = Unit

module _ {F : Type 0} (env : Env F) (limit : Option ℕ) where
  call-IsSound :
      (c : Call F) (w : World F)
      → IsGiven limit c
      → IsSound limit env w
      → IsSound limit env (call env c w)
  unfolding call
  call-IsSound (submitting a) w g s = submit-IsSafe limit (Every IsOrdered) env a w s
  call-IsSound (submitting_dag now dag) w g s = submit_dag-IsSound limit env now dag w g s
  call-IsSound (taking timeout started rounds) w g s =
      get_next_job-IsSound limit env timeout started rounds w g s
  call-IsSound (completing id result now) w g s = complete_job-IsSound limit env id result now w s
  call-IsSound (failing id error traceback d) w g s =
      fail_job-IsSound limit env id error traceback d w s
  call-IsSound (cancelling id now) w g s = cancel_job-IsSafe limit (Every IsOrdered) id now w s
  call-IsSound (cancelling_dag others id now) w g s =
      cancel_dag-IsSound limit env others id now w g s
  call-IsSound (stepping a r) w g s = run_step-IsSound limit env a r w g s
  call-IsSound starting w g s = unfold start in s
  call-IsSound stopping w g s =
      unfold stop Queue.Methods.shutdown in
      either (IsSound limit env) w.running _ _
        (
          (
            record {
              keyed = s.0.0.keyed;
              nodup = s.0.0.nodup;
              known = s.0.0.known;
              fits = s.0.0.fits;
            },
            s.0.1,
          ),
          s.1,
        )
        s

  run-IsSound :
      (cs : List (Call F)) (w : World F)
      → All (IsGiven limit) cs
      → IsSound limit env w
      → IsSound limit env (run env cs w)
  unfolding run
  run-IsSound [] w g s = s
  run-IsSound (c ∷ cs) w g s = run-IsSound cs (call env c w) g.1 (call-IsSound c w g.0 s)

-- The queue has no more jobs than its limit, and in every execution of a DAG the dependencies of the
-- running jobs are completed.
abbrev pub IsWithin : {F : Type 0} → Option ℕ → World F → Type 0
IsWithin limit w = ((n : ℕ) → limit ≡ some n → size w.queue ≤ n) × Every IsOrdered w.executor

-- After any calls of the methods of a new scheduler and any steps of `run_job`, which takes no
-- lock, in any order, also of those that raise, and with all calls that its DAG executor makes,
-- the queue holds no more jobs than the limit of the configuration, and in every execution of a
-- DAG the dependencies of the running jobs are completed. The nodes of each DAG that is submitted
-- are under their identifiers. While `get_next_job` waits, and between the calls that the executor
-- makes for `cancel_dag` and `run_job`, other threads change the queue as its methods do.
pub run-IsWithin :
    {F : Type 0} (env : Env F) (objs : Objects F) (dlq_max ttl : Option ℕ) (cs : List (Call F))
    → let limit = (Queue.new env.max_size none).max_size in
      All (IsGiven limit) cs → IsWithin limit (run env cs (new env objs dlq_max ttl))
run-IsWithin env objs dlq_max ttl cs given =
    let limit = (Queue.new env.max_size none).max_size in
    let start_world = new env objs dlq_max ttl in
    let begun : IsSound limit env start_world =
      unfold new DagExecutor.new Dict.lookup in
      ((new-IsBooked env.max_size none, refl), λ k e found. ground (arith, found)) in
    let s = run-IsSound env limit cs start_world given begun in
    let w = run env cs start_world in
    (λ n e. omega (arith, size-IsBooked w.queue s.0.0, s.0.0.fits n (s.0.1 ∙ e)), s.1)
