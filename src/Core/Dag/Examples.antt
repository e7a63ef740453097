-- ===== src/Core/Dag/Examples.antt =====
-- Small graphs, and the theorems on class DAG at them.
use job_orchestrator.Prelude.{
  ℕ, ◌≡◌, refl, Bool, true, false, ◌↔◌, ◌⊎◌, none, some, List, [], ◌∷◌, All,
}
use job_orchestrator.Prelude.Ids.{contains, add, IsNodup}
use job_orchestrator.Prelude.Dict
use job_orchestrator.Core.Job.{Job, normal, pending, completed}
use job_orchestrator.Samples.{sample}
use job_orchestrator.Core.Dag
use job_orchestrator.Core.Dag.{
  Dag, new, add_node, add_edge, add_edges, link, add_dependency, add_dependent, is_job_ready,
}
use job_orchestrator.Core.Dag.Graph.{ins}
use job_orchestrator.Core.Dag.Shape.{IsDag, new-IsDag}
use job_orchestrator.Core.Dag.Edits.{Edit, node, edge, job_after, edit, edits, edits-IsDag}
use job_orchestrator.Core.Dag.Ready.{state_of, is_job_ready_iff}
use job_orchestrator.Core.Dag.Builder
use job_orchestrator.Core.Dag.Builder.{Builder, new_builder, add_job}
use job_orchestrator.Core.Dag.Builder.Acyclic.{IsBuild, add_job-IsBuild, new_builder-IsBuild}
use job_orchestrator.Core.Dag.Cycles.Decide.{has_cycle_lem}
use job_orchestrator.Core.Dag.Cycles.{
  has_cycle, find_cycle, found_back_edge, search_all, search_from, dfs, walk, finish, paint,
  set_parent, unmarked, cycle_of, climb, validate, missing_in, missing_among,
}
use job_orchestrator.Core.Dag.Plan.{
  get_execution_plan, plan_loop, level_of, left_over, lower_all, lower_level, prepend,
}
use job_orchestrator.Core.Dag.Sort.{
  topological_sort, kahn, conclude, relax, in_degrees, is_free, decrease, sorted, cycle_among,
}
use job_orchestrator.Core.Dag.Sort.Hits.{IsTopological}
use job_orchestrator.Core.Dag.Sort.Loop.{ids, IsStored}
use job_orchestrator.Core.Dag.Sort.Correct.{IsAcyclic, sort_orders, sort_succeeds}
use job_orchestrator.Core.Dag.Sort.Report.{sort_total, IsStuck}

abbrev a_job : ℕ → Job ℕ
a_job id = sample id normal none 0

-- Job 3 waits for 1 and 2, and 2 for 1.
abbrev calls : List (Edit ℕ)
calls =
    node (a_job 3)
    ∷ job_after (a_job 1) []
    ∷ job_after (a_job 2) (1 ∷ 9 ∷ [])
    ∷ edge 1 3
    ∷ edge 2 3
    ∷ edge 7 3
    ∷ []

chain : Dag ℕ
chain = edits calls new

-- The edge from 3 to 1 closes a cycle.
ring : Dag ℕ
ring = edits (edge 3 1 ∷ []) chain

chain-IsDag : IsDag chain
unfolding chain
chain-IsDag = edits-IsDag calls new new-IsDag

ring-IsDag : IsDag ring
unfolding ring
ring-IsDag = edits-IsDag (edge 3 1 ∷ []) chain chain-IsDag

program : Unit {0}
unfolding chain ring new add_node add_edge add_edges Dag.add_job link add_dependency add_dependent
    edit edits contains add Dict.lookup Dict.insert Dict.modify topological_sort kahn conclude relax
    in_degrees is_free decrease has_cycle found_back_edge search_all search_from dfs walk finish
    paint set_parent unmarked find_cycle cycle_of climb get_execution_plan plan_loop level_of
    left_over lower_all lower_level prepend validate missing_in missing_among
program = tt

order : List (Job ℕ)
order =
    a_job 1
    ∷ record (a_job 2) { depends_on = 1 ∷ [] }
    ∷ record (a_job 3) { depends_on = 1 ∷ 2 ∷ [] }
    ∷ []

chain_sorted : topological_sort chain ≡ sorted order
unfolding program order
chain_sorted = refl

ring_raises : topological_sort ring ≡ cycle_among (3 ∷ 1 ∷ 2 ∷ [])
unfolding program
ring_raises = refl

ring_cyclic : (has_cycle chain ≡ some false) × (has_cycle ring ≡ some true)
unfolding program
ring_cyclic = (refl, refl)

sort_orders_example :
    ((k : ℕ) → contains k (ids order) ≡ Dict.has_key k chain.nodes)
    × IsNodup (ids order)
    × IsTopological chain.nodes [] (ids order)
    × All (IsStored chain chain-IsDag) order
sort_orders_example = sort_orders chain chain-IsDag order chain_sorted

sort_succeeds_example :
    ((js : List (Job ℕ)) × (topological_sort chain ≡ sorted js)) ↔ IsAcyclic chain.nodes
sort_succeeds_example = sort_succeeds chain chain-IsDag

sort_total_example :
    ((js : List (Job ℕ)) × (topological_sort ring ≡ sorted js))
    ⊎ ((rest : List ℕ) × (topological_sort ring ≡ cycle_among rest)
        × ((k : ℕ) × (contains k rest ≡ true))
        × IsStuck ring ring-IsDag rest)
sort_total_example = sort_total ring ring-IsDag

edits-IsDag_example : IsDag (edits calls new)
edits-IsDag_example = edits-IsDag calls new new-IsDag

is_job_ready_iff_example :
    (b : Bool) × (is_job_ready 2 chain ≡ some b)
    × ((b ≡ true) ↔ (
        (state_of 2 chain.jobs ≡ some pending)
        × ((d : ℕ)
            → contains d (ins 2 chain.nodes) ≡ true
            → state_of d chain.jobs ≡ some completed)))
is_job_ready_iff_example = is_job_ready_iff chain chain-IsDag 2

has_cycle_lem_example :
    ((has_cycle ring ≡ some true) × ¬ IsAcyclic ring.nodes)
    ⊎ ((has_cycle ring ≡ some false) × IsAcyclic ring.nodes)
has_cycle_lem_example = has_cycle_lem ring ring-IsDag

built : Builder ℕ
built = (add_job (a_job 1) 10 [] new_builder).1

built-IsBuild : IsBuild built
unfolding built new_builder new Dict.lookup contains
built-IsBuild = add_job-IsBuild (a_job 1) 10 [] new_builder new_builder-IsBuild refl refl

fresh_in_built : Dict.has_key 2 built.dag.nodes ≡ false
unfolding built program Builder.add_job Builder.depend new_builder
fresh_in_built = refl

add_job-IsBuild_example : IsBuild (add_job (a_job 2) 20 (10 ∷ 30 ∷ []) built).1
add_job-IsBuild_example =
    add_job-IsBuild (a_job 2) 20 (10 ∷ 30 ∷ []) built built-IsBuild fresh_in_built
      (unfold contains in refl)
