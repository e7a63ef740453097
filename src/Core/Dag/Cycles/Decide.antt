-- ===== src/Core/Dag/Cycles/Decide.antt =====
-- What DAG.has_cycle of src/job_orchestrator/core/dag.py answers.
use job_orchestrator.Prelude.{
  ℕ, suc, ◌-◌, ◌≤◌, ◌≡◌, refl, ap, ◌∙◌, true, false, ◌⊎◌, inl, inr, none, some, List, [], ◌∷◌,
  if◌then◌else◌, arith, length,
}
use job_orchestrator.Prelude.Ids.{contains, contains-keys}
use job_orchestrator.Prelude.Dict
use job_orchestrator.Prelude.Dict.{Dict}
use job_orchestrator.Core.Dag.{Node, Dag}
use job_orchestrator.Core.Dag.Graph.{IsGraph}
use job_orchestrator.Core.Dag.Shape.{IsDag}
use job_orchestrator.Core.Dag.Sort.Correct.{IsAcyclic}
use job_orchestrator.Core.Dag.Cycles.{
  Color, white, gray, black, Marks, back_edge, clear, search_from, unmarked, search_all,
  found_back_edge, has_cycle,
}
use job_orchestrator.Core.Dag.Cycles.Colors.{Color-cases, whites, whites-le, IsColored}
use job_orchestrator.Core.Dag.Cycles.Visit.{dfs_lem}

module _ (nodes : Dict Node) (g : IsGraph nodes) where
  abbrev HasNoGray : Dict Color → Type 0
  HasNoGray colors = (k : ℕ) → ¬ (Dict.lookup k colors ≡ some gray)

  -- The loop over the nodes finds a cycle, or blackens them.
  search_lem :
      (fuel : ℕ) (todo : List ℕ) (m : Marks)
      → IsColored nodes m.color
      → HasNoGray m.color
      → whites m.color ≤ fuel
      → ((k : ℕ) → contains k todo ≡ true → Dict.has_key k nodes ≡ true)
      → ((found : ℕ) × (m2 : Marks) × (search_from nodes fuel todo m ≡ back_edge found m2)
          × ¬ IsAcyclic nodes)
        ⊎ ((m2 : Marks) × (search_from nodes fuel todo m ≡ clear m2)
            × IsColored nodes m2.color
            × ((k : ℕ) → Dict.lookup k m.color ≡ some black → Dict.lookup k m2.color ≡ some black)
            × ((k : ℕ) → contains k todo ≡ true → Dict.lookup k m2.color ≡ some black))
  unfolding search_from contains
  search_lem fuel [] m c n w here = inr (m, refl, c, λ k h. h, λ k h. ground (arith, h))
  search_lem fuel (id ∷ todo) m c n w here =
      let rest_here = λ (k : ℕ) (h : contains k todo ≡ true). here k (ground (arith, h)) in
      elim (Color-cases (Dict.lookup id m.color)) [
        | inl e ↦ absurd (ground (arith, e, here id, c.known id))
        | inr (inr (inl e)) ↦ absurd (n id e)
        | inr (inr (inr e)) ↦ elim (search_lem fuel todo m c n w rest_here) [
          | inl (found, m2, run, cyclic) ↦ inl (found, m2, rw (e, search_from) run, cyclic)
          | inr (m2, run, c2, keep, done) ↦
              inr (
                m2,
                rw (e, search_from) run,
                c2,
                keep,
                λ k h. ground (arith, h, e, keep id, done k),
              )
        ]
        | inr (inl e) ↦ elim (dfs_lem nodes g fuel id m c e w) [
          | inl (found, m2, run, caught) ↦ inl (
            found,
            m2,
            rw (e, search_from) (rw run refl),
            λ ranked. caught ranked.0 ranked.1 (λ x d gx hd. absurd (n x gx)),
          )
          | inr (m1, run1, l, black1) ↦
              elim (search_lem fuel todo m1 l.colored (λ k h. n k ((l.grays k).0 h))
                (omega (arith, l.fewer, w)) rest_here) [
                  | inl (found, m2, run, cyclic) ↦
                      inl (found, m2, rw (e, search_from) (rw run1 run), cyclic)
                  | inr (m2, run, c2, keep, done) ↦ inr (
                    m2,
                    rw (e, search_from) (rw run1 run),
                    c2,
                    λ k h. keep k (l.blacks k h),
                    λ k h. ground (arith, h, black1 id, keep id, done k),
                  )
                ]
        ]
      ]

  -- All black: the numbers of the nodes, counted down, grow along the edges.
  finished-IsAcyclic :
      (colors : Dict Color)
      → IsColored nodes colors
      → ((k : ℕ) → Dict.has_key k nodes ≡ true → Dict.lookup k colors ≡ some black)
      → IsAcyclic nodes
  finished-IsAcyclic colors c all_black =
      let (rank, bound, f) = c.finished in
      (
        λ k. bound - rank k,
        λ a b e.
            let black_a = all_black a (g.closed a b e) in
            let number = f.after a b black_a (g.mirror a b ∙ e) in
            omega (arith, f.below a black_a, number.1),
      )

lookup-unmarked :
    (k : ℕ) (nodes : Dict Node)
    → Dict.lookup k (unmarked nodes).color ≡ (if Dict.has_key k nodes then some white else none)
unfolding unmarked Dict.lookup
lookup-unmarked k [] = refl
lookup-unmarked k ((j, n) ∷ nodes) = ground (arith, lookup-unmarked k nodes)

length-unmarked : (nodes : Dict Node) → length (unmarked nodes).color ≡ length nodes
unfolding unmarked
length-unmarked [] = refl
length-unmarked ((j, n) ∷ nodes) = ap suc (length-unmarked nodes)

-- Before the search.
unmarked-IsColored : (nodes : Dict Node) → IsColored nodes (unmarked nodes).color
unmarked-IsColored nodes = record {
  known = λ k. ground (arith, lookup-unmarked k nodes);
  finished = (
    λ _. 0,
    0,
    record {
      below = λ b h. ground (arith, h, lookup-unmarked b nodes);
      after = λ b d h here. ground (arith, h, lookup-unmarked b nodes);
    },
  );
}

module _ {F : Type 0} (g : Dag F) (w : IsDag g) where
  -- `has_cycle` always answers, without a KeyError: yes exactly when the graph has a cycle, that is,
  -- when no numbering of the identifiers grows along every edge.
  pub has_cycle_lem :
      ((has_cycle g ≡ some true) × ¬ IsAcyclic g.nodes)
      ⊎ ((has_cycle g ≡ some false) × IsAcyclic g.nodes)
  unfolding has_cycle search_all found_back_edge
  has_cycle_lem =
      elim (search_lem g.nodes w.graph (length g.nodes) (Dict.keys g.nodes) (unmarked g.nodes)
        (unmarked-IsColored g.nodes) (λ k h. ground (arith, h, lookup-unmarked k g.nodes))
        (omega (arith, whites-le (unmarked g.nodes).color, length-unmarked g.nodes))
        (λ k h. ground (arith, h, contains-keys k g.nodes))) [
          | inl (found, m, run, cyclic) ↦ inl (ap found_back_edge run, cyclic)
          | inr (m, run, c, keep, done) ↦ inr (
            ap found_back_edge run,
            finished-IsAcyclic g.nodes w.graph m.color c
                (λ k h. done k (contains-keys k g.nodes ∙ h)),
          )
        ]
