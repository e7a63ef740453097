-- ===== src/Scheduler/Service/Calls.antt =====
-- Series of calls of class Scheduler, scheduler/scheduler.py. `run_job` takes no lock, so that a
-- series holds its steps, and what other threads do between them.
use job_orchestrator.Prelude.{ℕ, Option, List, [], ◌∷◌}
use job_orchestrator.Queue.Wait.{Round}
use job_orchestrator.Scheduler.DagExecutor.{Workflow}
use job_orchestrator.Scheduler.Service.{
  World, Env, Draw, submit, cancel_job, complete_job, fail_job,
}
use job_orchestrator.Scheduler.Service.Run.{RunStep, run_step}
use job_orchestrator.Scheduler.Service.Queries.{submit_dag, cancel_dag, get_next_job, start, stop}

pub data Call (F : Type 0) : Type 0 where
  submitting : (address : ℕ) → Call F
  submitting_dag : (now : ℕ) → Workflow → Call F
  taking : (timeout : Option ℕ) (started : ℕ) → List Round → Call F
  completing : (job_id : ℕ) (result : Option ℕ) (now : ℕ) → Call F
  failing : (job_id error traceback : ℕ) → Draw F → Call F
  cancelling : (job_id now : ℕ) → Call F
  cancelling_dag : (others : World F → World F) (dag_id now : ℕ) → Call F
  stepping : (address : ℕ) → RunStep F → Call F
  starting : Call F
  stopping : Call F

module _ {F : Type 0} (env : Env F) where
  unfoldable pub call : Call F → World F → World F
  unfolding submit submit_dag get_next_job complete_job fail_job cancel_job cancel_dag run_step
      start stop
  call (submitting a) w = (submit env a w).state
  call (submitting_dag now dag) w = (submit_dag env now dag w).state
  call (taking timeout started rounds) w = (get_next_job timeout started rounds w).1
  call (completing id result now) w = (complete_job env id result now w).state
  call (failing id error traceback d) w = (fail_job env id error traceback d w).state
  call (cancelling id now) w = (cancel_job id now w).1.state
  call (cancelling_dag others id now) w = (cancel_dag env others id now w).1
  call (stepping a s) w = (run_step env a s w).state
  call starting w = start w
  call stopping w = stop w

  unfoldable pub run : List (Call F) → World F → World F
  unfolding call
  run [] w = w
  run (c ∷ cs) w = run cs (call c w)
