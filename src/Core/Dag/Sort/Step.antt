-- ===== src/Core/Dag/Sort/Step.antt =====
-- The invariant of the loop of the topological sort, and that a round of the loop keeps it.
use job_orchestrator.Prelude.{
  ℕ, ◌≡◌, refl, ap, Bool, false, Option, none, some, List, [], ◌∷◌, ◌++◌, ◌==◌, length, arith,
}
use job_orchestrator.Prelude.Ids.{contains, IsNodup, contains-append}
use job_orchestrator.Prelude.Dict
use job_orchestrator.Prelude.Dict.{Dict}
use job_orchestrator.Core.Dag.{Node}
use job_orchestrator.Core.Dag.Graph.{IsGraph, ins, ins_of, outs_of}
use job_orchestrator.Core.Dag.Sort.{Degree, is_free, decrease}
use job_orchestrator.Core.Dag.Sort.Relax.{IsRelaxed}
use job_orchestrator.Core.Dag.Sort.Hits.{
  hits, hits-le, hits_snoc, IsTopological, snoc-IsTopological, hits_full,
}

-- The in-degree of a node once the jobs `done` are sorted.
abbrev pub degree_after : List ℕ → Option Node → Option Degree
degree_after done none = none
degree_after done (some n) =
    some (record { needs = length n.dependencies; met = hits done n.dependencies })

-- A node all of whose dependencies are sorted has entered the queue, and no other.
abbrev pub is_released : List ℕ → Option Node → Bool
is_released done none = false
is_released done (some n) = hits done n.dependencies == length n.dependencies

pub record IsLoop (nodes : Dict Node) (degrees : Dict Degree) (queue done : List ℕ) : Type 0 where
  pub degrees_right : (k : ℕ) → Dict.lookup k degrees ≡ degree_after done (Dict.lookup k nodes)
  pub members : (k : ℕ) → contains k (done ++ queue) ≡ is_released done (Dict.lookup k nodes)
  pub once : IsNodup (done ++ queue)
  pub keyed : Dict.IsDict degrees
  pub ordered : IsTopological nodes [] done

head_absent : (x : ℕ) (xs ys : List ℕ) → IsNodup (xs ++ x ∷ ys) → contains x xs ≡ false
unfolding contains
head_absent x [] ys n = refl
head_absent x (y ∷ xs) ys n = ground (arith, head_absent x xs ys, contains-append y xs (x ∷ ys))

append_cons : (xs ys : List ℕ) (x : ℕ) → (xs ++ x ∷ []) ++ ys ≡ xs ++ x ∷ ys
append_cons [] ys x = refl
append_cons (y ∷ xs) ys x = ap (λ t. y ∷ t) (append_cons xs ys x)

module _ (nodes : Dict Node) (degrees : Dict Degree) (x : ℕ) (queue done : List ℕ) where
  pub step-IsLoop :
      (n : Node) (relaxed : Dict Degree) (later : List ℕ)
      → IsGraph nodes
      → IsLoop nodes degrees (x ∷ queue) done
      → Dict.lookup x nodes ≡ some n
      → IsRelaxed degrees (done ++ x ∷ []) queue n.dependents relaxed later
      → IsLoop nodes relaxed later (done ++ x ∷ [])
  unfolding ins_of outs_of
  step-IsLoop n relaxed later g l e r =
      let fresh = head_absent x done queue l.once in
      record {
        degrees_right = λ k.
            unfold decrease in
            ground (
              arith,
              l.degrees_right k,
              r.counts k,
              g.mirror x k,
              hits_snoc x done (ins k nodes) (g.ins_once k) fresh,
            );
        members = λ k.
            unfold is_free decrease contains in
            ground (
              arith,
              l.members k,
              l.degrees_right k,
              r.counts k,
              r.members k,
              g.mirror x k,
              contains-append k (done ++ x ∷ []) later,
              contains-append k done (x ∷ []),
              contains-append k done (x ∷ queue),
              hits_snoc x done (ins k nodes) (g.ins_once k) fresh,
              hits-le (done ++ x ∷ []) (ins k nodes),
            );
        once = r.once (rw (append_cons done queue x) l.once) (λ k here free.
            unfold is_free decrease in
            ground (
              arith,
              append_cons done queue x,
              l.members k,
              l.degrees_right k,
              r.counts k,
              g.mirror x k,
              hits_snoc x done (ins k nodes) (g.ins_once k) fresh,
              hits-le (done ++ x ∷ []) (ins k nodes),
            ));
        keyed = r.keyed l.keyed;
        ordered = snoc-IsTopological nodes x [] done l.ordered (λ d i.
            unfold contains in
            ground (
              arith,
              i,
              l.members x,
              contains-append x done (x ∷ queue),
              (hits_full done (ins x nodes)).0 _ d,
            ));
      }
