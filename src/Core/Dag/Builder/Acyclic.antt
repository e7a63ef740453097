-- ===== src/Core/Dag/Builder/Acyclic.antt =====
-- Graphs that class DAGBuilder builds out of new jobs have no cycle.
use job_orchestrator.Prelude.{
  ℕ, suc, ◌+◌, ◌≤◌, ◌<◌, ◌≡◌, ap, ◌∙◌, true, false, ◌&&◌, some, List, [], ◌∷◌, ◌==◌, if◌then◌else◌,
  arith, Option-cases, Bool-cases, inl, inr,
}
use job_orchestrator.Prelude.Ids.{contains, contains-keys, contains-add}
use job_orchestrator.Prelude.Dict
use job_orchestrator.Prelude.Dict.{Dict}
use job_orchestrator.Core.Job.{Job}
use job_orchestrator.Core.Dag.{Dag, Node, new, add_node, add_edge}
use job_orchestrator.Core.Dag.Graph.{ins, ins_of, ins-link, has_key-link}
use job_orchestrator.Core.Dag.Shape.{IsDag, new-IsDag, add_node-IsDag, add_edge-IsDag}
use job_orchestrator.Core.Dag.Sort.Correct.{IsAcyclic}
use job_orchestrator.Core.Dag.Builder.{Builder, new_builder, depend, add_job}

-- A number that is at least the rank of each node of a list.
ceiling : (ℕ → ℕ) → List ℕ → ℕ
ceiling rank [] = 0
ceiling rank (k ∷ ks) = rank k + ceiling rank ks

ceiling_lem : (rank : ℕ → ℕ) (k : ℕ) (ks : List ℕ) → contains k ks ≡ true → rank k ≤ ceiling rank ks
unfolding ceiling contains
ceiling_lem rank k [] h = ground (arith, h)
ceiling_lem rank k (j ∷ ks) h = elim (Bool-cases (j == k)) [
  | inl same ↦ let e : j ≡ k = ground (arith, same) in omega (arith, ap rank e)
  | inr other ↦ omega (arith, ceiling_lem rank k ks (ground (arith, h, other)))
]

-- The edges go up, and the node `id` is above all others.
record IsBelow (id : ℕ) (nodes : Dict Node) (rank : ℕ → ℕ) : Type 0 where
  grows : (a b : ℕ) → contains a (ins b nodes) ≡ true → rank a < rank b
  top : (x : ℕ) → Dict.has_key x nodes ≡ true → x == id ≡ false → rank x < rank id

-- The numbering with a new node on top.
raised : (ℕ → ℕ) → ℕ → Dict Node → ℕ → ℕ
raised rank id nodes k = if k == id then suc (ceiling rank (Dict.keys nodes)) else rank k

module _ {F : Type 0} where
  module _ (job : Job F) (g : Dag F) (fresh : Dict.has_key job.id g.nodes ≡ false) where
    node : Node
    node = record { job_id = job.id; dependencies = []; dependents = [] }

    ins-add_node :
        (k : ℕ) → ins k (add_node job g).nodes ≡ (if job.id == k then [] else ins k g.nodes)
    unfolding add_node ins_of node
    ins-add_node k = ground (arith, fresh, Dict.lookup-insert k job.id node g.nodes)

    has_key-add_node :
        (k : ℕ)
        → Dict.has_key k (add_node job g).nodes
          ≡ (if job.id == k then true else Dict.has_key k g.nodes)
    unfolding add_node node
    has_key-add_node k = ground (arith, fresh, Dict.lookup-insert k job.id node g.nodes)

    add_node-IsBelow :
        (rank : ℕ → ℕ)
        → IsDag g
        → ((a b : ℕ) → contains a (ins b g.nodes) ≡ true → rank a < rank b)
        → IsBelow job.id (add_node job g).nodes (raised rank job.id g.nodes)
    unfolding raised contains ins_of
    add_node-IsBelow rank w grows = record {
      grows = λ a b e.
          let old : contains a (ins b g.nodes) ≡ true = ground (arith, e, ins-add_node b) in
          ground (arith, old, e, fresh, ins-add_node b, w.graph.closed a b old, grows a b old);
      top = λ x h other. ground (
        arith,
        h,
        other,
        has_key-add_node x,
        contains-keys x g.nodes,
        ceiling_lem rank x (Dict.keys g.nodes),
      );
    }

  -- Edges to the top node keep the numbering.
  add_edge-IsBelow :
      (d id : ℕ) (g : Dag F) (rank : ℕ → ℕ)
      → Dict.has_key d g.nodes ≡ true
      → d == id ≡ false
      → IsBelow id g.nodes rank
      → IsBelow id (add_edge d id g).1.nodes rank
  unfolding add_edge
  add_edge-IsBelow d id g rank here other below =
      elim (Bool-cases (Dict.has_key d g.nodes && Dict.has_key id g.nodes)) [
        | inr absent ↦ rw absent below
        | inl present ↦ rw present (record {
          grows = λ a b e. ground (
            arith,
            e,
            other,
            here,
            below.grows a b,
            below.top d,
            ins-link d id g.nodes b,
            contains-add a d (ins b g.nodes),
          );
          top = λ x h n. ground (arith, h, n, below.top x, has_key-link d id g.nodes x);
        })
      ]

  has_key-add_edge :
      (d id k : ℕ) (g : Dag F) → Dict.has_key k (add_edge d id g).1.nodes ≡ Dict.has_key k g.nodes
  unfolding add_edge
  has_key-add_edge d id k g = ground (arith, has_key-link d id g.nodes k)

  -- The keys of the builder name nodes of its graph.
  abbrev pub IsNaming : Builder F → Type 0
  IsNaming b =
      (key id : ℕ) → Dict.lookup key b.job_ids ≡ some id → Dict.has_key id b.dag.nodes ≡ true

  pub record IsBuild (b : Builder F) : Type 0 where
    pub shaped : IsDag b.dag
    pub acyclic : IsAcyclic b.dag.nodes
    pub naming : IsNaming b

  depend-IsBuild :
      (ds : List ℕ) (id : ℕ) (b : Builder F) (rank : ℕ → ℕ)
      → IsDag b.dag
      → IsBelow id b.dag.nodes rank
      → IsNaming b
      → ((key d : ℕ)
          → contains key ds ≡ true
          → Dict.lookup key b.job_ids ≡ some d
          → d == id ≡ false)
      → IsBuild (depend ds id b).1
  unfolding depend contains
  depend-IsBuild [] id b rank w below named f = record {
    shaped = w;
    acyclic = (rank, below.grows);
    naming = named;
  }
  depend-IsBuild (key ∷ ds) id b rank w below named f =
      elim (Option-cases (Dict.lookup key b.job_ids)) [
        | inl e ↦
            rw (e, depend) (record { shaped = w; acyclic = (rank, below.grows); naming = named })
        | inr (d, e) ↦
            let w2 = add_edge-IsDag d id b.dag w in
            let below2 =
              add_edge-IsBelow d id b.dag rank (named key d e) (f key d (ground arith) e) below in
            let named2 = λ (j i : ℕ) (h : Dict.lookup j b.job_ids ≡ some i).
              has_key-add_edge d id i b.dag ∙ named j i h in
            let rest =
              depend-IsBuild ds id (record b { dag = (add_edge d id b.dag).1 }) rank w2 below2
                named2 (λ j i h. f j i (ground (arith, h))) in
            elim (Bool-cases (add_edge d id b.dag).0) [
              | inl fine ↦ rw (e, depend) (rw fine rest)
              | inr raises ↦
                  rw (e, depend)
                    (rw raises
                      (record { shaped = w2; acyclic = (rank, below2.grows); naming = named2 }))
            ]
      ]

  -- `DAGBuilder.add_job` with a job that is not yet in the graph, and that does not name its own key
  -- among its dependencies, keeps the graph well-formed and without a cycle, also when it raises.
  pub add_job-IsBuild :
      (job : Job F) (key : ℕ) (ds : List ℕ) (b : Builder F)
      → IsBuild b
      → Dict.has_key job.id b.dag.nodes ≡ false
      → contains key ds ≡ false
      → IsBuild (add_job job key ds b).1
  unfolding add_job
  add_job-IsBuild job key ds b w fresh own =
      let named = λ (j : ℕ). Dict.lookup-insert j key job.id b.job_ids in
      depend-IsBuild ds job.id
        (record b { dag = add_node job b.dag; job_ids = Dict.insert key job.id b.job_ids })
        (raised w.acyclic.0 job.id b.dag.nodes) (add_node-IsDag job b.dag w.shaped)
        (add_node-IsBelow job b.dag fresh w.acyclic.0 w.shaped w.acyclic.1)
        (λ j i h. ground (arith, h, named j, w.naming j i, has_key-add_node job b.dag fresh i))
        (λ j i here h. ground (arith, h, here, own, fresh, named j, w.naming j i))

  pub new_builder-IsBuild : IsBuild new_builder
  unfolding new_builder new ins_of contains Dict.lookup
  new_builder-IsBuild = record {
    shaped = new-IsDag;
    acyclic = (λ _. 0, λ a b e. ground (arith, e));
    naming = λ key id e. ground (arith, e);
  }
