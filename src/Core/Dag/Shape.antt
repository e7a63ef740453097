-- ===== src/Core/Dag/Shape.antt =====
-- The invariant of class DAG: the nodes form a graph, the two dictionaries have the same keys, and
-- each entry carries its key. The methods that change the graph keep it.
use job_orchestrator.Prelude.{
  ℕ, ◌≡◌, refl, true, ◌&&◌, Option, none, some, List, [], ◌∷◌, arith, Bool-cases, inl, inr,
}
use job_orchestrator.Prelude.Ids.{contains, add, drop_first, contains-add, contains-drop_first}
use job_orchestrator.Prelude.Dict
use job_orchestrator.Prelude.Ids
use job_orchestrator.Prelude.Dict.{Dict, IsDict}
use job_orchestrator.Core.Job.{Job}
use job_orchestrator.Core.Dag.{
  Dag, Node, new, add_node, link, unlink, add_edge, remove_edge, add_edges, add_job,
  note_dependency, forget_dependency, add_dependency, add_dependent, remove_dependency,
  remove_dependent,
}
use job_orchestrator.Core.Dag.Graph.{
  IsGraph, ins, ins_of, outs_of, link-IsGraph, unlink-IsGraph, insert-IsGraph, has_key-link,
  has_key-unlink, ins-link, ins-unlink,
}

-- A node under its key, and a job under its key.
abbrev pub NamesNode : ℕ → Option Node → Type 0
NamesNode k none = Unit
NamesNode k (some n) = n.job_id ≡ k

abbrev pub NamesJob : {F : Type 0} → ℕ → Option (Job F) → Type 0
NamesJob k none = Unit
NamesJob k (some job) = job.id ≡ k

abbrev pub deps_of : {F : Type 0} → Option (Job F) → List ℕ
deps_of none = []
deps_of (some job) = job.depends_on

link-NamesNode :
    (a b k : ℕ) (nodes : Dict Node)
    → NamesNode k (Dict.lookup k nodes)
    → NamesNode k (Dict.lookup k (link a b nodes))
unfolding link add_dependency add_dependent
link-NamesNode a b k nodes h = ground (
  arith,
  Dict.lookup-modify (add_dependent b) k a (Dict.modify (add_dependency a) b nodes),
  Dict.lookup-modify (add_dependency a) k b nodes,
)

unlink-NamesNode :
    (a b k : ℕ) (nodes : Dict Node)
    → NamesNode k (Dict.lookup k nodes)
    → NamesNode k (Dict.lookup k (unlink a b nodes))
unfolding unlink remove_dependency remove_dependent
unlink-NamesNode a b k nodes h = ground (
  arith,
  Dict.lookup-modify (remove_dependent b) k a (Dict.modify (remove_dependency a) b nodes),
  Dict.lookup-modify (remove_dependency a) k b nodes,
)

module _ {F : Type 0} where
  pub record IsDag (g : Dag F) : Type 0 where
    pub graph : IsGraph g.nodes
    pub job_dict : IsDict g.jobs
    pub same_keys : (k : ℕ) → Dict.has_key k g.jobs ≡ Dict.has_key k g.nodes
    pub node_names : (k : ℕ) → NamesNode k (Dict.lookup k g.nodes)
    pub job_names : (k : ℕ) → NamesJob k (Dict.lookup k g.jobs)
    pub noted :
        (a k : ℕ)
        → contains a (ins k g.nodes) ≡ true
        → contains a (deps_of (Dict.lookup k g.jobs)) ≡ true

  pub new-IsDag : IsDag new
  unfolding new Dict.lookup ins_of outs_of contains
  new-IsDag = record {
    graph = record {
      keyed = tt;
      ins_once = λ _. tt;
      outs_once = λ _. tt;
      closed = λ a b h. ground arith;
      mirror = λ _ _. refl;
    };
    job_dict = tt;
    same_keys = λ _. refl;
    node_names = λ _. tt;
    job_names = λ _. tt;
    noted = λ a k h. ground arith;
  }

  pub add_node-IsDag : (job : Job F) (g : Dag F) → IsDag g → IsDag (add_node job g)
  unfolding add_node ins_of contains
  add_node-IsDag job g w =
      let node : Node = record { job_id = job.id; dependencies = []; dependents = [] } in
      elim (Bool-cases (Dict.has_key job.id g.nodes)) [
        | inl present ↦ rw present w
        | inr absent ↦ rw absent (record {
          graph = insert-IsGraph job.id g.nodes absent w.graph;
          job_dict = Dict.insert-IsDict job.id job g.jobs w.job_dict;
          same_keys = λ k. ground (
            arith,
            w.same_keys k,
            Dict.lookup-insert k job.id node g.nodes,
            Dict.lookup-insert k job.id job g.jobs,
          );
          node_names =
              λ k. ground (arith, w.node_names k, Dict.lookup-insert k job.id node g.nodes);
          job_names = λ k. ground (arith, w.job_names k, Dict.lookup-insert k job.id job g.jobs);
          noted = λ a k. ground (
            arith,
            w.noted a k,
            Dict.lookup-insert k job.id node g.nodes,
            Dict.lookup-insert k job.id job g.jobs,
          );
        })
      ]

  pub add_edge-IsDag : (a b : ℕ) (g : Dag F) → IsDag g → IsDag (add_edge a b g).1
  unfolding add_edge
  add_edge-IsDag a b g w = elim (Bool-cases (Dict.has_key a g.nodes && Dict.has_key b g.nodes)) [
    | inr absent ↦ rw absent w
    | inl present ↦ rw present (record {
      graph = link-IsGraph a b g.nodes (ground arith) (ground arith) w.graph;
      job_dict = Dict.modify-IsDict (note_dependency a) b g.jobs w.job_dict;
      same_keys = λ k. ground (
        arith,
        w.same_keys k,
        has_key-link a b g.nodes k,
        Dict.lookup-modify (note_dependency a) k b g.jobs,
      );
      node_names = λ k. link-NamesNode a b k g.nodes (w.node_names k);
      job_names =
          λ k. ground (arith, w.job_names k, Dict.lookup-modify (note_dependency a) k b g.jobs);
      noted = λ x k h. ground (
        arith,
        h,
        w.noted x k,
        w.same_keys k,
        ins-link a b g.nodes k,
        Dict.lookup-modify (note_dependency a) k b g.jobs,
        contains-add x a (deps_of (Dict.lookup k g.jobs)),
        contains-add x a (ins k g.nodes),
      );
    })
  ]

  pub remove_edge-IsDag : (a b : ℕ) (g : Dag F) → IsDag g → IsDag (remove_edge a b g).1
  unfolding remove_edge
  remove_edge-IsDag a b g w = elim (Bool-cases (Dict.has_key a g.nodes && Dict.has_key b g.nodes)) [
    | inr absent ↦ rw absent w
    | inl present ↦ rw present (record {
      graph = unlink-IsGraph a b g.nodes (ground arith) (ground arith) w.graph;
      job_dict = Dict.modify-IsDict (forget_dependency a) b g.jobs w.job_dict;
      same_keys = λ k. ground (
        arith,
        w.same_keys k,
        has_key-unlink a b g.nodes k,
        Dict.lookup-modify (forget_dependency a) k b g.jobs,
      );
      node_names = λ k. unlink-NamesNode a b k g.nodes (w.node_names k);
      job_names =
          λ k. ground (arith, w.job_names k, Dict.lookup-modify (forget_dependency a) k b g.jobs);
      noted = λ x k h. ground (
        arith,
        h,
        w.noted x k,
        w.same_keys k,
        ins-unlink a b g.nodes k,
        Dict.lookup-modify (forget_dependency a) k b g.jobs,
        contains-drop_first x a (deps_of (Dict.lookup k g.jobs)),
        Ids.contains-discard x a (ins k g.nodes),
      );
    })
  ]

  -- Either end may be missing: then the call raises and nothing changes.
  pub add_edge_raises :
      (a b : ℕ) (g : Dag F)
      → IsDag g
      → (add_edge a b g).0 ≡ (Dict.has_key a g.nodes && Dict.has_key b g.nodes)
  unfolding add_edge
  add_edge_raises a b g w = ground (arith, w.same_keys b)

  pub add_edges-IsDag : (ds : List ℕ) (id : ℕ) (g : Dag F) → IsDag g → IsDag (add_edges ds id g).1
  unfolding add_edges
  add_edges-IsDag [] id g w = w
  add_edges-IsDag (d ∷ ds) id g w =
      let edge = add_edge-IsDag d id g w in
      let kept = add_edges-IsDag ds id (add_edge d id g).1 edge in
      let skipped = add_edges-IsDag ds id g w in ground (arith, edge, kept, skipped)

  pub add_job-IsDag : (job : Job F) (ds : List ℕ) (g : Dag F) → IsDag g → IsDag (add_job job ds g).1
  unfolding add_job
  add_job-IsDag job ds g w = add_edges-IsDag ds job.id (add_node job g) (add_node-IsDag job g w)
