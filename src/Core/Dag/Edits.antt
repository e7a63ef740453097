-- ===== src/Core/Dag/Edits.antt =====
-- Graphs as the methods of class DAG build them, one call after the other.
use job_orchestrator.Prelude.{ℕ, List, [], ◌∷◌}
use job_orchestrator.Core.Job.{Job}
use job_orchestrator.Core.Dag.{Dag, add_node, add_edge, remove_edge, add_job}
use job_orchestrator.Core.Dag.Shape.{
  IsDag, add_node-IsDag, add_edge-IsDag, remove_edge-IsDag, add_job-IsDag,
}

pub data Edit (F : Type 0) : Type 0 where
  node : Job F → Edit F
  edge : (from_id to_id : ℕ) → Edit F
  cut : (from_id to_id : ℕ) → Edit F
  job_after : Job F → List ℕ → Edit F

module _ {F : Type 0} where
  -- A call that raises leaves the graph as it is at that point.
  unfoldable pub edit : Edit F → Dag F → Dag F
  edit (node job) g = add_node job g
  edit (edge a b) g = (add_edge a b g).1
  edit (cut a b) g = (remove_edge a b g).1
  edit (job_after job ds) g = (add_job job ds g).1

  unfoldable pub edits : List (Edit F) → Dag F → Dag F
  unfolding edit
  edits [] g = g
  edits (e ∷ es) g = edits es (edit e g)

  -- Every series of calls of `add_node`, `add_edge`, `remove_edge` and `add_job`, also of calls that
  -- raise, keeps the shape of the graph: each edge is in the sets of both its ends, both of which
  -- are in the graph, the nodes and the jobs have the same keys, and a job lists its dependencies.
  pub edits-IsDag : (es : List (Edit F)) (g : Dag F) → IsDag g → IsDag (edits es g)
  unfolding edits edit
  edits-IsDag [] g w = w
  edits-IsDag (node job ∷ es) g w = edits-IsDag es _ (add_node-IsDag job g w)
  edits-IsDag (edge a b ∷ es) g w = edits-IsDag es _ (add_edge-IsDag a b g w)
  edits-IsDag (cut a b ∷ es) g w = edits-IsDag es _ (remove_edge-IsDag a b g w)
  edits-IsDag (job_after job ds ∷ es) g w = edits-IsDag es _ (add_job-IsDag job ds g w)
