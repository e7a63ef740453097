-- ===== src/Core/Dag/Graph.antt =====
-- The shape that the methods of DAG keep: each edge is in the sets of both its ends.
use job_orchestrator.Prelude.{
  ℕ, ◌≡◌, true, false, Option, none, some, List, [], ◌==◌, if◌then◌else◌, arith,
}
use job_orchestrator.Prelude.Ids.{
  contains, IsNodup, add-IsNodup, discard-IsNodup, contains-add, contains-discard,
}
use job_orchestrator.Prelude.Dict
use job_orchestrator.Prelude.Ids
use job_orchestrator.Prelude.Dict.{Dict, IsDict}
use job_orchestrator.Core.Dag.{
  Node, link, unlink, add_dependency, add_dependent, remove_dependency, remove_dependent,
}

unfoldable pub ins_of : Option Node → List ℕ
ins_of none = []
ins_of (some n) = n.dependencies

unfoldable pub outs_of : Option Node → List ℕ
outs_of none = []
outs_of (some n) = n.dependents

abbrev pub ins : ℕ → Dict Node → List ℕ
ins k nodes = ins_of (Dict.lookup k nodes)

abbrev pub outs : ℕ → Dict Node → List ℕ
outs k nodes = outs_of (Dict.lookup k nodes)

pub record IsGraph (nodes : Dict Node) : Type 0 where
  pub keyed : IsDict nodes
  pub ins_once : (k : ℕ) → IsNodup (ins k nodes)
  pub outs_once : (k : ℕ) → IsNodup (outs k nodes)
  pub closed : (a b : ℕ) → contains a (ins b nodes) ≡ true → Dict.has_key a nodes ≡ true
  pub mirror : (a b : ℕ) → contains b (outs a nodes) ≡ contains a (ins b nodes)

module _ (a b : ℕ) (nodes : Dict Node) where
  pub ins-link :
      (k : ℕ)
      → Dict.has_key b nodes ≡ true
      → ins k (link a b nodes) ≡ (if b == k then Ids.add a (ins k nodes) else ins k nodes)
  unfolding link ins_of add_dependency add_dependent
  ins-link k h = ground (
    arith,
    Dict.lookup-modify (add_dependent b) k a (Dict.modify (add_dependency a) b nodes),
    Dict.lookup-modify (add_dependency a) k b nodes,
  )

  pub outs-link :
      (k : ℕ)
      → Dict.has_key a nodes ≡ true
      → outs k (link a b nodes) ≡ (if a == k then Ids.add b (outs k nodes) else outs k nodes)
  unfolding link outs_of add_dependency add_dependent
  outs-link k h = ground (
    arith,
    Dict.lookup-modify (add_dependent b) k a (Dict.modify (add_dependency a) b nodes),
    Dict.lookup-modify (add_dependency a) k b nodes,
  )

  pub has_key-link : (k : ℕ) → Dict.has_key k (link a b nodes) ≡ Dict.has_key k nodes
  unfolding link
  has_key-link k = ground (
    arith,
    Dict.lookup-modify (add_dependent b) k a (Dict.modify (add_dependency a) b nodes),
    Dict.lookup-modify (add_dependency a) k b nodes,
  )

  pub link-IsGraph :
      Dict.has_key a nodes ≡ true
      → Dict.has_key b nodes ≡ true
      → IsGraph nodes
      → IsGraph (link a b nodes)
  link-IsGraph ha hb g = record {
    keyed = unfold link in Dict.modify-IsDict _ a _ (Dict.modify-IsDict _ b nodes g.keyed);
    ins_once = λ k. ground (arith, ins-link k, g.ins_once k, add-IsNodup a (ins k nodes));
    outs_once = λ k. ground (arith, outs-link k, g.outs_once k, add-IsNodup b (outs k nodes));
    closed = λ x y.
        ground (arith, ins-link y, has_key-link x, g.closed x y, contains-add x a (ins y nodes));
    mirror = λ x y. ground (
      arith,
      ins-link y,
      outs-link x,
      g.mirror x y,
      contains-add x a (ins y nodes),
      contains-add y b (outs x nodes),
    );
  }

  pub ins-unlink :
      (k : ℕ)
      → Dict.has_key b nodes ≡ true
      → ins k (unlink a b nodes) ≡ (if b == k then Ids.discard a (ins k nodes) else ins k nodes)
  unfolding unlink ins_of remove_dependency remove_dependent
  ins-unlink k h = ground (
    arith,
    Dict.lookup-modify (remove_dependent b) k a (Dict.modify (remove_dependency a) b nodes),
    Dict.lookup-modify (remove_dependency a) k b nodes,
  )

  pub outs-unlink :
      (k : ℕ)
      → Dict.has_key a nodes ≡ true
      → outs k (unlink a b nodes) ≡ (if a == k then Ids.discard b (outs k nodes) else outs k nodes)
  unfolding unlink outs_of remove_dependency remove_dependent
  outs-unlink k h = ground (
    arith,
    Dict.lookup-modify (remove_dependent b) k a (Dict.modify (remove_dependency a) b nodes),
    Dict.lookup-modify (remove_dependency a) k b nodes,
  )

  pub has_key-unlink : (k : ℕ) → Dict.has_key k (unlink a b nodes) ≡ Dict.has_key k nodes
  unfolding unlink
  has_key-unlink k = ground (
    arith,
    Dict.lookup-modify (remove_dependent b) k a (Dict.modify (remove_dependency a) b nodes),
    Dict.lookup-modify (remove_dependency a) k b nodes,
  )

  pub unlink-IsGraph :
      Dict.has_key a nodes ≡ true
      → Dict.has_key b nodes ≡ true
      → IsGraph nodes
      → IsGraph (unlink a b nodes)
  unlink-IsGraph ha hb g = record {
    keyed = unfold unlink in Dict.modify-IsDict _ a _ (Dict.modify-IsDict _ b nodes g.keyed);
    ins_once = λ k. ground (arith, ins-unlink k, g.ins_once k, discard-IsNodup a (ins k nodes));
    outs_once = λ k. ground (arith, outs-unlink k, g.outs_once k, discard-IsNodup b (outs k nodes));
    closed = λ x y.
        ground
          (arith, ins-unlink y, has_key-unlink x, g.closed x y, contains-discard x a (ins y nodes));
    mirror = λ x y. ground (
      arith,
      ins-unlink y,
      outs-unlink x,
      g.mirror x y,
      contains-discard x a (ins y nodes),
      contains-discard y b (outs x nodes),
    );
  }

pub insert-IsGraph :
    (k : ℕ) (nodes : Dict Node)
    → Dict.has_key k nodes ≡ false
    → IsGraph nodes
    → IsGraph (Dict.insert k (record { job_id = k; dependencies = []; dependents = [] }) nodes)
unfolding ins_of outs_of contains
insert-IsGraph k nodes h g =
    let node : Node = record { job_id = k; dependencies = []; dependents = [] } in
    record {
      keyed = Dict.insert-IsDict k node nodes g.keyed;
      ins_once = λ x. ground (arith, g.ins_once x, Dict.lookup-insert x k node nodes);
      outs_once = λ x. ground (arith, g.outs_once x, Dict.lookup-insert x k node nodes);
      closed = λ x y. ground (
        arith,
        g.closed x y,
        Dict.lookup-insert x k node nodes,
        Dict.lookup-insert y k node nodes,
      );
      mirror = λ x y. ground (
        arith,
        g.mirror x y,
        g.closed x y,
        g.closed y x,
        Dict.lookup-insert x k node nodes,
        Dict.lookup-insert y k node nodes,
      );
    }
