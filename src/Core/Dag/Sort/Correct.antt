-- ===== src/Core/Dag/Sort/Correct.antt =====
-- What topological_sort of src/job_orchestrator/core/dag.py promises.
use job_orchestrator.Prelude.{
  ℕ, zero, suc, ◌≤◌, ◌<◌, ◌≡◌, refl, sym, ap, subst, ◌∙◌, Bool, true, false, ◌↔◌, ◌⊎◌, inl, inr,
  List, [], ◌∷◌, ◌++◌, ◌==◌, ltb, length, arith, Bool-cases, filter, All,
}
use job_orchestrator.Prelude.Ids.{
  contains, IsNodup, contains-append, contains-keys, keys-IsNodup, length-keys,
}
use job_orchestrator.Prelude.Dict
use job_orchestrator.Prelude.Dict.{Dict, IsDict}
use job_orchestrator.Core.Job.{Job}
use job_orchestrator.Core.Dag.{Node, Dag}
use job_orchestrator.Core.Dag.Graph.{ins, ins_of}
use job_orchestrator.Core.Dag.Shape.{IsDag}
use job_orchestrator.Core.Dag.Sort.{
  Degree, Sorted, sorted, cycle_among, key_error, out_of_fuel, conclude, topological_sort,
}
use job_orchestrator.Core.Dag.Sort.Hits.{
  hits_full, IsTopological, position, position_before, Nodup-length-le,
}
use job_orchestrator.Core.Dag.Sort.Step.{IsLoop, is_released}
use job_orchestrator.Core.Dag.Sort.Loop.{
  ids, length-ids, start-IsLoop, kahn_lem, loop-length-le, IsStored,
}

-- A numbering of the identifiers that grows along every edge: the graph has no cycle.
abbrev pub IsAcyclic : Dict Node → Type 0
IsAcyclic nodes = (rank : ℕ → ℕ) × ((a b : ℕ) → contains a (ins b nodes) ≡ true → rank a < rank b)

append_nil : (xs : List ℕ) → xs ++ [] ≡ xs
append_nil [] = refl
append_nil (x ∷ xs) = ap (λ t. x ∷ t) (append_nil xs)

true-false : true ≡ false → ⊥
true-false h = ground (arith, h)

-- The list that is returned, if one is.
listed : {F : Type 0} → Sorted F → List (Job F)
listed (sorted js) = js
listed (cycle_among _) = []
listed key_error = []
listed out_of_fuel = []

is_sorted : {F : Type 0} → Sorted F → Bool
is_sorted (sorted _) = true
is_sorted (cycle_among _) = false
is_sorted key_error = false
is_sorted out_of_fuel = false

-- The keys of the in-degrees that are still positive.
abbrev pub blocked_keys : Dict Degree → List ℕ
blocked_keys degrees = Dict.keys (filter (λ e. ltb e.1.met e.1.needs) degrees)

ins-has_key :
    (a b : ℕ) (nodes : Dict Node) → contains a (ins b nodes) ≡ true → Dict.has_key b nodes ≡ true
unfolding ins_of contains
ins-has_key a b nodes h = ground (arith, h)

module _ {F : Type 0} (g : Dag F) (w : IsDag g) where
  -- How the loop ends.
  pub sort_end :
      (last : Dict Degree) × (js : List (Job F)) × (topological_sort g ≡ conclude g last js)
      × IsLoop g.nodes last [] (ids js)
      × All (IsStored g w) js
  unfolding topological_sort
  sort_end = kahn_lem g w (length g.nodes) _ _ [] (start-IsLoop g.nodes w.graph) tt (omega arith)

  module _ (last : Dict Degree) (js : List (Job F)) (l : IsLoop g.nodes last [] (ids js)) where
    pub done_iff : (k : ℕ) → contains k (ids js) ≡ is_released (ids js) (Dict.lookup k g.nodes)
    done_iff k = unfold contains in ground (arith, l.members k, contains-append k (ids js) [])

    -- A node with all dependencies sorted is sorted.
    pub done_next :
        (k : ℕ)
        → Dict.has_key k g.nodes ≡ true
        → ((d : ℕ) → contains d (ins k g.nodes) ≡ true → contains d (ids js) ≡ true)
        → contains k (ids js) ≡ true
    unfolding ins_of
    done_next k here f = ground (arith, here, done_iff k, (hits_full (ids js) (ins k g.nodes)).1 f)

    -- Without a cycle every node is sorted.
    ranked_done :
        (rank : ℕ → ℕ)
        → ((a b : ℕ) → contains a (ins b g.nodes) ≡ true → rank a < rank b)
        → (bound k : ℕ) → rank k < bound
        → Dict.has_key k g.nodes ≡ true
        → contains k (ids js) ≡ true
    ranked_done rank grows zero k h here = absurd (omega (arith, h))
    ranked_done rank grows (suc bound) k h here = done_next k here (λ d e.
        ranked_done rank grows bound d (omega (arith, h, grows d k e)) (w.graph.closed d k e))

    pub done_once : IsNodup (ids js)
    done_once = rw (sym (append_nil (ids js))) l.once

    pub too_many :
        (k : ℕ)
        → contains k (ids js) ≡ false
        → Dict.has_key k g.nodes ≡ true
        → suc (length js) ≤ length g.nodes
    too_many k e here =
        let fit =
          Nodup-length-le (k ∷ ids js) (Dict.keys g.nodes) (e, done_once)
            (keys-IsNodup g.nodes w.graph.keyed)
            (λ x h.
              unfold contains in ground (arith, h, here, done_iff x, contains-keys x g.nodes)) in
        ground (arith, fit, length-ids js, length-keys g.nodes)

    -- As many jobs as nodes means that every node is sorted.
    all_done : length js ≡ length g.nodes → (k : ℕ) → contains k (ids js) ≡ Dict.has_key k g.nodes
    all_done full k = elim (Bool-cases (contains k (ids js))) [
      | inl e ↦ ground (arith, e, done_iff k)
      | inr e ↦ elim (Bool-cases (Dict.has_key k g.nodes)) [
        | inr e2 ↦ e ∙ sym e2
        | inl e2 ↦ absurd (ground (arith, full, too_many k e e2))
      ]
    ]

    -- Not every node is sorted when there are fewer jobs.
    pub none_missing :
        ((k : ℕ) → Dict.has_key k g.nodes ≡ true → contains k (ids js) ≡ true)
        → length js ≡ length g.nodes
    none_missing f =
        let lower =
          Nodup-length-le (Dict.keys g.nodes) (ids js) (keys-IsNodup g.nodes w.graph.keyed)
            done_once (λ k h. f k (ground (arith, h, contains-keys k g.nodes))) in
        ground (
          arith,
          lower,
          length-ids js,
          length-keys g.nodes,
          loop-length-le g.nodes last [] (ids js) w.graph l,
        )

  pub conclude-cases :
      (last : Dict Degree) (js : List (Job F))
      → ((length js ≡ length g.nodes) × (conclude g last js ≡ sorted js))
        ⊎ (((length js == length g.nodes) ≡ false)
            × (conclude g last js ≡ cycle_among (blocked_keys last)))
  unfolding conclude
  conclude-cases last js = elim (Bool-cases (length js == length g.nodes)) [
    | inl e ↦ inl (ground (arith, e), rw e refl)
    | inr e ↦ inr (e, rw e refl)
  ]

  -- The loop ends with the list that is returned.
  sorted_end :
      (js : List (Job F))
      → topological_sort g ≡ sorted js
      → (last : Dict Degree) × (length js ≡ length g.nodes)
        × IsLoop g.nodes last [] (ids js)
        × All (IsStored g w) js
  unfolding is_sorted listed
  sorted_end js h =
      let (last, found, run, l, s) = sort_end in
      elim (conclude-cases last found) [
        | inl (full, e) ↦
            let same : found ≡ js = ap listed (sym e ∙ sym run ∙ h) in
            (
              last,
              subst (λ t. length t ≡ length g.nodes) same full,
              subst (λ t. IsLoop g.nodes last [] (ids t)) same l,
              subst (λ t. All (IsStored g w) t) same s,
            )
        | inr (short, e) ↦ absurd (true-false (ap is_sorted (sym h ∙ run ∙ e)))
      ]

  -- `topological_sort` returns a list only in a right order: it holds each node once, each job is
  -- the stored one, and the dependencies of a job stand before it.
  pub sort_orders :
      (js : List (Job F))
      → topological_sort g ≡ sorted js
      → ((k : ℕ) → contains k (ids js) ≡ Dict.has_key k g.nodes)
        × IsNodup (ids js)
        × IsTopological g.nodes [] (ids js)
        × All (IsStored g w) js
  sort_orders js h =
      let (last, full, l, s) = sorted_end js h in
      (all_done last js l full, done_once last js l, l.ordered, s)

  -- `topological_sort` returns a list exactly when the graph has no cycle.
  pub sort_succeeds : ((js : List (Job F)) × (topological_sort g ≡ sorted js)) ↔ IsAcyclic g.nodes
  sort_succeeds = (
    λ found.
        let (last, full, l, s) = sorted_end found.0 found.1 in
        (
          λ k. position k (ids found.0),
          λ a b e.
              position_before g.nodes a b [] (ids found.0) l.ordered
                (all_done last found.0 l full b ∙ ins-has_key a b g.nodes e) e
                (unfold contains in refl),
        ),
    λ ranked.
        let (last, js, run, l, s) = sort_end in
        let full =
          none_missing last js l
            (λ k. ranked_done last js l ranked.0 ranked.1 (suc (ranked.0 k)) k (omega arith)) in
        (js, run ∙ (unfold conclude in ground (arith, full))),
  )
