-- ===== src/Core/Dag.antt =====
-- src/job_orchestrator/core/dag.py, classes DAGNode and DAG. The sets of a node are lists without
-- repetitions, the dictionaries keep the order of insertion. A method that can raise KeyError
-- returns an option, and one that also changes the graph a Boolean with the graph that is left.
-- The name, the description, the handler and the metadata are left out: the code only stores them.
pub mod Graph
pub mod Shape
pub mod Builder
pub mod Cycles
pub mod Edits
pub mod Plan
pub mod Ready
pub mod Sort
mod Examples
use job_orchestrator.Prelude.{
  ℕ, Bool, true, false, ◌&&◌, Option, none, some, List, [], ◌∷◌, ◌==◌, ◌||◌, if◌then◌else◌, length,
  filter, map, all, ◌>>=◌,
}
use job_orchestrator.Prelude.Ids.{contains, add, discard, drop_first}
use job_orchestrator.Prelude.Dict
use job_orchestrator.Prelude.Dict.{Dict}
use job_orchestrator.Core.Job.{Job, JobState, same_state, pending, completed, failed}

pub record Node : Type 0 where
  pub job_id : ℕ
  pub dependencies : List ℕ
  pub dependents : List ℕ

unfoldable pub add_dependency : ℕ → Node → Node
add_dependency id n = record n { dependencies = add id n.dependencies }

unfoldable pub add_dependent : ℕ → Node → Node
add_dependent id n = record n { dependents = add id n.dependents }

unfoldable pub remove_dependency : ℕ → Node → Node
remove_dependency id n = record n { dependencies = discard id n.dependencies }

unfoldable pub remove_dependent : ℕ → Node → Node
remove_dependent id n = record n { dependents = discard id n.dependents }

unfoldable pub in_degree : Node → ℕ
in_degree n = length n.dependencies

unfoldable pub out_degree : Node → ℕ
out_degree n = length n.dependents

unfoldable pub is_root : Node → Bool
is_root n = length n.dependencies == 0

unfoldable pub is_leaf : Node → Bool
is_leaf n = length n.dependents == 0

pub record Dag (F : Type 0) : Type 0 where
  pub nodes : Dict Node
  pub jobs : Dict (Job F)
  pub state : JobState
  pub started_at : Option ℕ
  pub completed_at : Option ℕ
  pub fail_fast : Bool
  pub max_parallel : Option ℕ
  pub enable_rollback : Bool

-- The two nodes of an edge that is added.
unfoldable pub link : (from_id to_id : ℕ) → Dict Node → Dict Node
link from_id to_id nodes =
    Dict.modify (add_dependent to_id) from_id (Dict.modify (add_dependency from_id) to_id nodes)

unfoldable pub unlink : (from_id to_id : ℕ) → Dict Node → Dict Node
unlink from_id to_id nodes =
    Dict.modify (remove_dependent to_id) from_id
      (Dict.modify (remove_dependency from_id) to_id nodes)

module _ {F : Type 0} where
  unfoldable pub new : Dag F
  new = record {
    nodes = [];
    jobs = [];
    state = pending;
    started_at = none;
    completed_at = none;
    fail_fast = true;
    max_parallel = none;
    enable_rollback = false;
  }

  unfoldable pub add_node : Job F → Dag F → Dag F
  add_node job g = if Dict.has_key job.id g.nodes then g else record g {
    nodes =
        Dict.insert job.id (record { job_id = job.id; dependencies = []; dependents = [] }) g.nodes;
    jobs = Dict.insert job.id job g.jobs;
  }

  abbrev pub note_dependency : ℕ → Job F → Job F
  note_dependency id job = record job { depends_on = add id job.depends_on }

  abbrev pub forget_dependency : ℕ → Job F → Job F
  forget_dependency id job = record job { depends_on = drop_first id job.depends_on }

  -- Both identifiers are in the graph. `self.jobs[to_job_id]` raises last, if at all.
  unfoldable pub add_edge : (from_id to_id : ℕ) → Dag F → Bool × Dag F
  unfolding link
  add_edge from_id to_id g =
      if Dict.has_key from_id g.nodes && Dict.has_key to_id g.nodes
      then (
        Dict.has_key to_id g.jobs,
        record g {
          nodes = link from_id to_id g.nodes;
          jobs = Dict.modify (note_dependency from_id) to_id g.jobs;
        },
      )
      else (false, g)

  unfoldable pub remove_edge : (from_id to_id : ℕ) → Dag F → Bool × Dag F
  unfolding unlink
  remove_edge from_id to_id g =
      if Dict.has_key from_id g.nodes && Dict.has_key to_id g.nodes
      then (
        Dict.has_key to_id g.jobs,
        record g {
          nodes = unlink from_id to_id g.nodes;
          jobs = Dict.modify (forget_dependency from_id) to_id g.jobs;
        },
      )
      else (true, g)

  -- The loop of `add_job`, which skips identifiers that are not in the graph.
  unfoldable pub add_edges : List ℕ → ℕ → Dag F → Bool × Dag F
  unfolding add_edge
  add_edges [] id g = (true, g)
  add_edges (d ∷ ds) id g =
      let edge = add_edge d id g in
      let rest = add_edges ds id edge.1 in
      let skip = add_edges ds id g in
      if Dict.has_key d g.nodes then (if edge.0 then rest else (false, edge.1)) else skip

  unfoldable pub add_job : Job F → List ℕ → Dag F → Bool × Dag F
  unfolding add_node add_edges
  add_job job depends_on g = add_edges depends_on job.id (add_node job g)

  unfoldable pub get_root_nodes : Dag F → List ℕ
  get_root_nodes g = map (λ n. n.job_id) (filter is_root (Dict.values g.nodes))

  unfoldable pub get_leaf_nodes : Dag F → List ℕ
  get_leaf_nodes g = map (λ n. n.job_id) (filter is_leaf (Dict.values g.nodes))

  -- `all(self.jobs[d].state == COMPLETED for d in ...)`, which stops at the first that is not.
  unfoldable pub all_completed : Dict (Job F) → List ℕ → Option Bool
  all_completed jobs [] = some true
  all_completed jobs (d ∷ ds) =
      let rest = all_completed jobs ds in
      elim (Dict.lookup d jobs) [
        | none ↦ none
        | some job ↦ if same_state job.state completed then rest else some false
      ]

  unfoldable pub node_ready : Dict (Job F) → Job F → Node → Option Bool
  node_ready jobs job node =
      if same_state job.state pending then all_completed jobs node.dependencies else some false

  -- The loop of `get_ready_jobs` over `self.nodes.items()`.
  unfoldable pub ready_among : Dict (Job F) → Dict Node → Option (List (Job F))
  ready_among jobs [] = some []
  ready_among jobs ((id, node) ∷ rest) = do
    job ← Dict.lookup id jobs
    ready ← node_ready jobs job node
    later ← ready_among jobs rest
    some (if ready then job ∷ later else later)

  unfoldable pub get_ready_jobs : Dag F → Option (List (Job F))
  get_ready_jobs g = ready_among g.jobs g.nodes

  unfoldable pub is_job_ready : ℕ → Dag F → Option Bool
  is_job_ready id g = elim (Dict.lookup id g.nodes) [
    | none ↦ some false
    | some node ↦ do job ← Dict.lookup id g.jobs; node_ready g.jobs job node
  ]

  unfoldable pub is_complete : Dag F → Bool
  is_complete g = all (λ job. same_state job.state completed) (Dict.values g.jobs)

  unfoldable pub any_failed : List (Job F) → Bool
  any_failed [] = false
  any_failed (job ∷ jobs) = same_state job.state failed || any_failed jobs

  unfoldable pub has_failed : Dag F → Bool
  unfolding any_failed
  has_failed g = any_failed (Dict.values g.jobs)

  -- `progress` is the quotient of the two numbers, and 1.0 on an empty graph.
  unfoldable pub progress : Dag F → ℕ × ℕ
  progress g =
      (length (filter (λ job. same_state job.state completed) (Dict.values g.jobs)), length g.jobs)
