-- ===== src/Core/Dag/Sort/Loop.antt =====
-- The loop of the topological sort from its start to its end: the fuel is enough, and no look-up
-- fails.
use job_orchestrator.Prelude.{
  ℕ, zero, suc, ◌+◌, ◌≤◌, ◌≡◌, refl, ap, ◌∙◌, true, some, List, [], ◌∷◌, ◌++◌, length, arith,
  Option-cases, inl, inr, filter, map, length-append, All, All-append,
}
use job_orchestrator.Prelude.Ids.{
  contains, IsNodup, contains-append, contains-keys, keys-IsNodup, length-keys,
}
use job_orchestrator.Prelude.Dict
use job_orchestrator.Prelude.Dict.{Dict, IsDict}
use job_orchestrator.Core.Job.{Job}
use job_orchestrator.Core.Dag.{Node, Dag}
use job_orchestrator.Core.Dag.Graph.{IsGraph, ins_of, outs_of}
use job_orchestrator.Core.Dag.Shape.{IsDag}
use job_orchestrator.Core.Dag.Sort.{Degree, is_free, relax, in_degrees, kahn, conclude}
use job_orchestrator.Core.Dag.Sort.Relax.{relax_lem}
use job_orchestrator.Core.Dag.Sort.Hits.{hits_nil, IsTopological, Nodup-length-le}
use job_orchestrator.Core.Dag.Sort.Step.{IsLoop, degree_after, is_released, step-IsLoop}

lookup-in_degrees :
    (k : ℕ) (nodes : Dict Node)
    → Dict.lookup k (in_degrees nodes) ≡ degree_after [] (Dict.lookup k nodes)
unfolding Dict.lookup in_degrees
lookup-in_degrees k [] = refl
lookup-in_degrees k ((j, n) ∷ nodes) =
    ground (arith, lookup-in_degrees k nodes, hits_nil n.dependencies)

-- The keys of the free in-degrees.
abbrev free_keys : Dict Degree → List ℕ
free_keys degrees = Dict.keys (filter (λ e. is_free e.1) degrees)

contains-free_keys :
    (k : ℕ) (nodes : Dict Node)
    → IsDict nodes
    → contains k (free_keys (in_degrees nodes)) ≡ is_released [] (Dict.lookup k nodes)
unfolding Dict.lookup in_degrees contains is_free
contains-free_keys k [] d = refl
contains-free_keys k ((j, n) ∷ nodes) d =
    ground (arith, contains-free_keys k nodes, hits_nil n.dependencies)

free_keys-IsNodup : (nodes : Dict Node) → IsDict nodes → IsNodup (free_keys (in_degrees nodes))
unfolding in_degrees contains is_free
free_keys-IsNodup [] d = tt
free_keys-IsNodup ((j, n) ∷ nodes) d =
    ground (arith, free_keys-IsNodup nodes d.1, contains-free_keys j nodes d.1)

in_degrees-IsDict : (nodes : Dict Node) → IsDict nodes → IsDict (in_degrees nodes)
unfolding in_degrees
in_degrees-IsDict [] d = tt
in_degrees-IsDict ((j, n) ∷ nodes) d =
    ground (arith, in_degrees-IsDict nodes d.1, lookup-in_degrees j nodes)

pub start-IsLoop :
    (nodes : Dict Node)
    → IsGraph nodes
    → IsLoop nodes (in_degrees nodes) (free_keys (in_degrees nodes)) []
unfolding IsTopological
start-IsLoop nodes g = record {
  degrees_right = λ k. lookup-in_degrees k nodes;
  members = λ k. contains-free_keys k nodes g.keyed;
  once = free_keys-IsNodup nodes g.keyed;
  keyed = in_degrees-IsDict nodes g.keyed;
  ordered = tt;
}

abbrev pub ids : {F : Type 0} → List (Job F) → List ℕ
ids jobs = map (λ job. job.id) jobs

ids_snoc :
    {F : Type 0} (js : List (Job F)) (job : Job F) → ids (js ++ job ∷ []) ≡ ids js ++ job.id ∷ []
ids_snoc [] job = refl
ids_snoc (j ∷ js) job = ap (λ t. j.id ∷ t) (ids_snoc js job)

pub length-ids : {F : Type 0} (js : List (Job F)) → length (ids js) ≡ length js
length-ids [] = refl
length-ids (j ∷ js) = ap suc (length-ids js)

-- What entered the queue is a node, so that it cannot be more than the nodes.
pub loop-length-le :
    (nodes : Dict Node) (degrees : Dict Degree) (queue done : List ℕ)
    → IsGraph nodes
    → IsLoop nodes degrees queue done
    → length done + length queue ≤ length nodes
loop-length-le nodes degrees queue done g l = ground (
  arith,
  length-append done queue,
  length-keys nodes,
  Nodup-length-le (done ++ queue) (Dict.keys nodes) l.once (keys-IsNodup nodes g.keyed)
      (λ k h. ground (arith, h, l.members k, contains-keys k nodes)),
)

module _ {F : Type 0} (g : Dag F) (w : IsDag g) where
  abbrev pub IsStored : Job F → Type 0
  IsStored job = Dict.lookup job.id g.jobs ≡ some job

  -- The head of the queue has a node and a job.
  head_known :
      (degrees : Dict Degree) (x : ℕ) (queue done : List ℕ)
      → IsLoop g.nodes degrees (x ∷ queue) done
      → (n : Node) × (job : Job F) × (Dict.lookup x g.nodes ≡ some n)
        × (Dict.lookup x g.jobs ≡ some job)
        × (job.id ≡ x)
  unfolding contains
  head_known degrees x queue done l =
      let entered = l.members x in
      let there = contains-append x done (x ∷ queue) in
      elim (Option-cases (Dict.lookup x g.nodes)) [
        | inl e ↦ absurd (ground (arith, e, entered, there))
        | inr (n, e) ↦ elim (Option-cases (Dict.lookup x g.jobs)) [
          | inl e2 ↦ absurd (ground (arith, e, e2, w.same_keys x))
          | inr (job, e2) ↦ (n, job, e, e2, ground (arith, w.job_names x, e2))
        ]
      ]

  -- The dependents of a job have in-degrees.
  dependents_known :
      (degrees : Dict Degree) (x : ℕ) (queue done : List ℕ) (n : Node)
      → IsLoop g.nodes degrees queue done
      → Dict.lookup x g.nodes ≡ some n
      → (k : ℕ) → contains k n.dependents ≡ true
      → Dict.has_key k degrees ≡ true
  unfolding ins_of outs_of contains
  dependents_known degrees x queue done n l e k h =
      ground (arith, e, h, w.graph.mirror x k, l.degrees_right k)

  kahn-suc :
      (fuel : ℕ) (degrees relaxed : Dict Degree) (x : ℕ) (queue later : List ℕ)
      (result : List (Job F)) (n : Node) (job : Job F)
      → Dict.lookup x g.jobs ≡ some job
      → Dict.lookup x g.nodes ≡ some n
      → relax degrees queue n.dependents ≡ some (relaxed, later)
      → kahn g (suc fuel) degrees (x ∷ queue) result
        ≡ kahn g fuel relaxed later (result ++ job ∷ [])
  unfolding kahn
  kahn-suc fuel degrees relaxed x queue later result n job e2 e run =
      rw (e2, kahn) (rw e (rw run refl))

  -- A round of the loop, with the invariant before and after it.
  round :
      (degrees : Dict Degree) (x : ℕ) (queue : List ℕ) (result : List (Job F))
      → IsLoop g.nodes degrees (x ∷ queue) (ids result)
      → All IsStored result
      → (relaxed : Dict Degree) × (later : List ℕ) × (job : Job F) × ((fuel : ℕ)
          → kahn g (suc fuel) degrees (x ∷ queue) result
            ≡ kahn g fuel relaxed later (result ++ job ∷ []))
        × IsLoop g.nodes relaxed later (ids (result ++ job ∷ []))
        × All IsStored (result ++ job ∷ [])
  round degrees x queue result l s =
      let (n, job, e, e2, same) = head_known degrees x queue (ids result) l in
      let (relaxed, later, run, r) =
        relax_lem degrees (ids result ++ x ∷ []) queue n.dependents
          (unfold outs_of in ground (arith, e, w.graph.outs_once x))
          (dependents_known degrees x (x ∷ queue) (ids result) n l e) in
      let next = step-IsLoop g.nodes degrees x queue (ids result) n relaxed later w.graph l e r in
      (
        relaxed,
        later,
        job,
        λ fuel. kahn-suc fuel degrees relaxed x queue later result n job e2 e run,
        rw (ids_snoc result job, same) next,
        (All-append IsStored result (job ∷ [])).1 (s, (rw (same, e2) refl, tt)),
      )

  -- The loop ends with an empty queue.
  pub kahn_lem :
      (fuel : ℕ) (degrees : Dict Degree) (queue : List ℕ) (result : List (Job F))
      → IsLoop g.nodes degrees queue (ids result)
      → All IsStored result
      → fuel + length result ≡ length g.nodes
      → (last : Dict Degree) × (js : List (Job F)) × (kahn g fuel degrees queue result
          ≡ conclude g last js)
        × IsLoop g.nodes last [] (ids js)
        × All IsStored js
  kahn_lem fuel degrees [] result l s f = (degrees, result, unfold kahn in refl, l, s)
  kahn_lem zero degrees (x ∷ queue) result l s f = absurd (
      ground (
        arith,
        loop-length-le g.nodes degrees (x ∷ queue) (ids result) w.graph l,
        length-ids result,
      ))
  kahn_lem (suc fuel) degrees (x ∷ queue) result l s f =
      let (relaxed, later, job, run, next, stored) = round degrees x queue result l s in
      let (last, js, rest, final, all_stored) =
        kahn_lem fuel relaxed later (result ++ job ∷ []) next stored
          (omega (arith, f, length-append result (job ∷ []))) in
      (last, js, run fuel ∙ rest, final, all_stored)
