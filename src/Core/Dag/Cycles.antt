-- ===== src/Core/Dag/Cycles.antt =====
-- DAG.has_cycle, find_cycle and validate of src/job_orchestrator/core/dag.py. The recursion of the
-- search is on fuel, the number of nodes: each call makes a white node gray. The loop over the
-- dependents takes the recursive call as an argument.
pub mod Colors
pub mod Visit
pub mod Decide
use job_orchestrator.Prelude.{
  ℕ, zero, suc, Bool, true, false, Option, none, some, List, [], ◌∷◌, ◌++◌, ◌==◌, if◌then◌else◌,
  length, map, ◌>>=◌,
}
use mathlib.Core.List.{reverse}
use job_orchestrator.Prelude.Dict
use job_orchestrator.Prelude.Dict.{Dict}
use job_orchestrator.Core.Dag.{Node, Dag}

pub data Color : Type 0 where
  white gray black : Color

-- The colors, and the parents that only `find_cycle` reads.
pub record Marks : Type 0 where
  pub color : Dict Color
  pub parent : Dict (Option ℕ)

pub data Search : Type 0 where
  back_edge : ℕ → Marks → Search
  clear : Marks → Search
  key_error : Search
  out_of_fuel : Search

unfoldable pub paint : ℕ → Color → Marks → Marks
paint id c m = record m { color = Dict.insert id c m.color }

unfoldable pub set_parent : ℕ → ℕ → Marks → Marks
set_parent child id m = record m { parent = Dict.insert child (some id) m.parent }

-- The loop over the dependents of `id`, with the search from a white one.
unfoldable pub walk : (ℕ → Marks → Search) → ℕ → List ℕ → Marks → Search
walk dfs id [] m = clear m
walk dfs id (d ∷ ds) m = elim (Dict.lookup d m.color) [
  | none ↦ key_error
  | some gray ↦ back_edge d m
  | some black ↦ walk dfs id ds m
  | some white ↦ elim (dfs d (set_parent d id m)) [
    | clear next ↦ walk dfs id ds next
    | back_edge found next ↦ back_edge found next
    | key_error ↦ key_error
    | out_of_fuel ↦ out_of_fuel
  ]
]

unfoldable pub finish : ℕ → Search → Search
finish id (clear m) = clear (paint id black m)
finish id (back_edge found m) = back_edge found m
finish id key_error = key_error
finish id out_of_fuel = out_of_fuel

unfoldable pub dfs : Dict Node → ℕ → ℕ → Marks → Search
unfolding walk finish paint
dfs nodes zero id m = out_of_fuel
dfs nodes (suc fuel) id m = elim (Dict.lookup id nodes) [
  | none ↦ key_error
  | some node ↦ finish id (walk (dfs nodes fuel) id node.dependents (paint id gray m))
]

-- The loop over all nodes.
unfoldable pub search_from : Dict Node → ℕ → List ℕ → Marks → Search
search_from nodes fuel [] m = clear m
search_from nodes fuel (id ∷ rest) m = elim (Dict.lookup id m.color) [
  | none ↦ key_error
  | some white ↦ elim (dfs nodes fuel id m) [
    | clear next ↦ search_from nodes fuel rest next
    | back_edge found next ↦ back_edge found next
    | key_error ↦ key_error
    | out_of_fuel ↦ out_of_fuel
  ]
  | some _ ↦ search_from nodes fuel rest m
]

unfoldable pub unmarked : Dict Node → Marks
unmarked nodes = record {
  color = map (λ e. (e.0, white)) nodes;
  parent = map (λ e. (e.0, none)) nodes;
}

unfoldable pub search_all : Dict Node → Search
unfolding unmarked
search_all nodes = search_from nodes (length nodes) (Dict.keys nodes) (unmarked nodes)

unfoldable pub found_back_edge : Search → Option Bool
found_back_edge (back_edge found m) = some true
found_back_edge (clear m) = some false
found_back_edge key_error = none
found_back_edge out_of_fuel = none

-- From the end of the back edge up the parents, until it comes back or a root is passed.
unfoldable pub climb : ℕ → Dict (Option ℕ) → ℕ → Option ℕ → Option (List ℕ)
climb fuel parent start none = some []
climb zero parent start (some current) = none
climb (suc fuel) parent start (some current) =
    let onward = (do
      above ← Dict.lookup current parent
      rest ← climb fuel parent start above
      some (current ∷ rest)) in
    if current == start then some [] else onward

pub data Problem : Type 0 where
  missing_dependency : (job_id dep_id : ℕ) → Problem
  cycle_found : List ℕ → Problem

-- `cycle or []`
unfoldable pub or_empty : Option (List ℕ) → List ℕ
or_empty none = []
or_empty (some xs) = xs

module _ {F : Type 0} (g : Dag F) where
  unfoldable pub has_cycle : Option Bool
  has_cycle = found_back_edge (search_all g.nodes)

  unfoldable pub cycle_of : Search → Option (Option (List ℕ))
  unfolding climb
  cycle_of (clear m) = some none
  cycle_of key_error = none
  cycle_of out_of_fuel = none
  cycle_of (back_edge found m) = do
    above ← Dict.lookup found m.parent
    path ← climb (length g.nodes) m.parent found above
    some (some (found ∷ reverse path ++ found ∷ []))

  -- None for a KeyError.
  unfoldable pub find_cycle : Option (Option (List ℕ))
  unfolding cycle_of
  find_cycle = cycle_of (search_all g.nodes)

  unfoldable pub missing_among : ℕ → List ℕ → List Problem
  missing_among id [] = []
  missing_among id (d ∷ ds) =
      let rest = missing_among id ds in
      if Dict.has_key d g.nodes then rest else missing_dependency id d ∷ rest

  unfoldable pub missing_in : Dict Node → List Problem
  unfolding missing_among
  missing_in [] = []
  missing_in ((id, n) ∷ nodes) = missing_among id n.dependencies ++ missing_in nodes

  -- The errors that `validate` raises with; none to raise means that it returns true.
  unfoldable pub validate : Option (List Problem)
  unfolding has_cycle find_cycle missing_in
  validate = do
    cyclic ← has_cycle
    path ← (if cyclic then find_cycle else some none)
    some (missing_in g.nodes ++ (if cyclic then cycle_found (or_empty path) ∷ [] else []))
