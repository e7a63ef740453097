-- ===== src/Lib.antt =====
-- Verification library of the job orchestrator (the Python package src/job_orchestrator).
--
-- The program. Jobs (core/job.py) move through a life cycle that a state machine guards
-- (core/state.py). The scheduler (scheduler/scheduler.py) keeps them in a job store
-- (scheduler/job_store.py); those that wait stand in a priority queue (queue/priority_queue.py). A
-- job that failed is tried again after a delay that grows (scheduler/retry.py), and kept in a dead
-- letter queue when it has failed for good (scheduler/dlq.py). Jobs that depend on one another form
-- a graph (core/dag.py), which is checked and sorted before a DAG executor
-- (scheduler/dag_executor.py) runs it: it submits the jobs whose dependencies are completed, and the
-- scheduler tells it how each ended. Workers (workers) take jobs from the queue and report to the
-- scheduler; a pool of them grows and shrinks with the load. A job may also be run on the spot
-- (scheduler/runner.py). Workers share resources by locks that expire (locking/memory.py).
--
-- The files. Paths are below src/job_orchestrator.
--   Core/Job         core/job.py: states, priorities, the job record, its order and equality.
--   Core/State       core/state.py: class StateMachine, one function for each method. Lifecycle,
--                    Transitions, Hooks and Runs prove things about it; Examples runs it.
--   Core/Dag         core/dag.py: class DAG. Sort holds topological_sort, Cycles has_cycle,
--                    find_cycle and validate, Plan get_execution_plan, Builder class DAGBuilder.
--                    Graph, Shape, Edits, Ready and the children of Sort, Cycles and Builder
--                    prove things about them.
--   Core/Config      core/config.py: the configuration classes. Checks holds their validate, and
--                    Valid proves things about it.
--   Locking/Memory   locking/memory.py: class InMemoryLockManager, with what it inherits from
--                    locking/base.py. Acquire is the waiting loop, Calls a run as a list of calls;
--                    Lease and Outcome prove things about them.
--   Queue            queue/priority_queue.py: class ThreadSafePriorityQueue. Queue holds push, the
--                    clean-up and _get_ready_job; Queue/Methods the other methods; Queue/Wait the
--                    waiting loop of pop. Order, Live, Ready, Book, Calls, Exact, Pop, Duplicates
--                    and Timeout prove things about them.
--   Scheduler/Dlq    scheduler/dlq.py: class DeadLetterQueue. Index, Bound and Runs prove things
--                    about it.
--   Scheduler/Retry  scheduler/retry.py: classes RetryPolicy and RetryHandler. Budget and Delay
--                    prove things about them.
--   Scheduler/JobStore  scheduler/job_store.py: class JobStore. Cleanup proves things about it.
--   Scheduler/DagExecutor  scheduler/dag_executor.py: class DAGExecutor. DagExecutor holds what is
--                    done to one execution, over the interface `Scheduling`, which says what it
--                    uses of the scheduler; Methods the methods on the table of executions, Calls
--                    series of them. Sets, Loops, Keeps, Outer, Order, Settled, Complete and
--                    Progress prove things about them.
--   Scheduler/Service  scheduler/scheduler.py: class Scheduler, composed of the components above;
--                    it gives the DAG executor the interface. Service holds submit, complete_job,
--                    fail_job and cancel_job, Run run_job as steps without a lock, Queries the
--                    other methods, Calls series of calls and steps. Moves, Submit, Ended, Cancel,
--                    Steps, Told, Invariant, Safety and System prove things about them.
--   Scheduler/Runner scheduler/runner.py: class JobRunner. Runs proves things about it.
--   Workers          workers/worker.py, and the start and stop of workers/thread_worker.py.
--   Workers/Pool     workers/pool.py: class WorkerPool. Size, Bounds and Scale prove things about
--                    it.
--   Prelude          tests on numbers, lists, dictionaries as association lists in insertion
--                    order, sets as lists without repetitions.
--   Samples, and the modules called Examples, run the definitions on given data.
--
-- How the code is read. An object is a record, a method a function that returns the new record
-- with its result, and an exception a value. Each method that holds its lock throughout is one
-- step. A UUID, a name or a text that the code only compares or carries is a number, and so is a
-- point in time; a clock reading is an argument. Floats stay abstract. Job objects that several
-- owners share are held by address in a store. Callbacks and the store behind the state machine
-- are parameters. Where a method holds no lock, or releases it, its parts are steps between which
-- other threads act: run_job, the scaling decisions and the health checks. A worker's thread runs
-- beside the pool: what it does to its worker is such a step. A power of floats and the sum of a
-- time and a delay may overflow, which is an error. Logging is left out.
--
-- Fuel. Only the loops of pop and acquire are not bounded by the code: they run over a given list
-- of rounds, and end in `looping` when it is used up. The loop of topological_sort has as much fuel
-- as there are nodes, since a node leaves its queue at most once; so have the searches for a cycle,
-- which turn a node gray in each call, and the loop of the execution plan, which takes a node in
-- each round. All other loops recur on a list.
--
-- Not modelled. How a configuration is read and written (core/config.py); the exceptions
-- (core/exceptions.py), which only carry texts; the abstract classes of storage; the locks on files
-- and on Redis, which the file system and a server decide; the command line; the workers in processes
-- and event loops; the threads themselves, with the times at which they run.
-- The heap of heapq is an ascending list, since the program uses only its least entry.
pub mod Prelude
mod Samples
pub mod Core
pub mod Queue
pub mod Locking
pub mod Scheduler
pub mod Workers
