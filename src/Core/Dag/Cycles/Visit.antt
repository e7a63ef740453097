-- ===== src/Core/Dag/Cycles/Visit.antt =====
-- The recursive search for a cycle: it always ends, and either meets a gray node, and then the
-- graph has a cycle, or blackens the node and all that can be reached from it.
use job_orchestrator.Prelude.{
  ℕ, zero, suc, ◌≤◌, ◌<◌, ◌≡◌, refl, ◌∙◌, true, ◌⊎◌, inl, inr, some, List, [], ◌∷◌, arith,
  Option-cases,
}
use job_orchestrator.Prelude.Ids.{contains}
use job_orchestrator.Prelude.Dict
use job_orchestrator.Prelude.Dict.{Dict}
use job_orchestrator.Core.Dag.{Node}
use job_orchestrator.Core.Dag.Graph.{IsGraph, ins, outs, ins_of, outs_of}
use job_orchestrator.Core.Dag.Cycles.{
  Color, white, gray, black, Marks, Search, back_edge, clear, paint, set_parent, walk, finish, dfs,
}
use job_orchestrator.Core.Dag.Cycles.Colors.{
  Color-cases, whites, whites-insert_white, whites-insert_gray, IsColored, IsLater, gray-IsColored,
  black-IsColored,
}

module _ (nodes : Dict Node) (g : IsGraph nodes) where
  -- A numbering that grows along every edge.
  abbrev pub IsRanking : (ℕ → ℕ) → Type 0
  IsRanking rank = (a b : ℕ) → contains a (ins b nodes) ≡ true → rank a < rank b

  -- A search that met a gray node: no numbering is larger at the nodes `ds` than at all gray nodes.
  abbrev pub IsCaught : Dict Color → List ℕ → Search → Type 0
  IsCaught colors ds s =
      (found : ℕ) × (m : Marks) × (s ≡ back_edge found m)
      × ((rank : ℕ → ℕ)
          → IsRanking rank
          → ((x d : ℕ) → Dict.lookup x colors ≡ some gray → contains d ds ≡ true → rank x < rank d)
          → ⊥)

  abbrev pub IsCleared : Dict Color → List ℕ → Search → Type 0
  IsCleared colors ds s =
      (m : Marks) × (s ≡ clear m)
      × IsLater nodes colors m.color
      × ((d : ℕ) → contains d ds ≡ true → Dict.lookup d m.color ≡ some black)

  abbrev pub IsDecided : Dict Color → List ℕ → Search → Type 0
  IsDecided colors ds s = IsCaught colors ds s ⊎ IsCleared colors ds s

  -- A search that does what it should on a white node, as long as at most `n` nodes are white.
  abbrev pub IsVisit : ℕ → (ℕ → Marks → Search) → Type 0
  IsVisit n visit =
      (d : ℕ) (m : Marks)
      → IsColored nodes m.color
      → Dict.lookup d m.color ≡ some white
      → whites m.color ≤ n
      → IsDecided m.color (d ∷ []) (visit d m)

  IsLater-refl : (colors : Dict Color) → IsColored nodes colors → IsLater nodes colors colors
  IsLater-refl colors c = record {
    colored = c;
    fewer = omega arith;
    grays = λ k. (λ h. h, λ h. h);
    blacks = λ k h. h;
  }

  IsLater-trans : (a b c : Dict Color) → IsLater nodes a b → IsLater nodes b c → IsLater nodes a c
  IsLater-trans a b c p q = record {
    colored = q.colored;
    fewer = omega (arith, p.fewer, q.fewer);
    grays = λ k. (λ h. (p.grays k).0 ((q.grays k).0 h), λ h. (q.grays k).1 ((p.grays k).1 h));
    blacks = λ k h. q.blacks k (p.blacks k h);
  }

  module _ (n : ℕ) (visit : ℕ → Marks → Search) (v : IsVisit n visit) (id : ℕ) where
    -- The rest of the loop over the dependents, after a part that found no cycle.
    resume :
        (old : Dict Color) (d : ℕ) (ds : List ℕ) (next : Marks) (s : Search)
        → IsLater nodes old next.color
        → Dict.lookup d next.color ≡ some black
        → s ≡ walk visit id ds next
        → IsDecided next.color ds (walk visit id ds next)
        → IsDecided old (d ∷ ds) s
    unfolding contains
    resume old d ds next s l e same (inl (found, m, run, caught)) = inl (
      found,
      m,
      same ∙ run,
      λ rank r small.
          caught rank r (λ x y gx hy. small x y ((l.grays x).0 gx) (ground (arith, hy))),
    )
    resume old d ds next s l e same (inr (m, run, l2, done)) = inr (
      m,
      same ∙ run,
      IsLater-trans old next.color m.color l l2,
      λ y hy. ground (arith, hy, e, done y, l2.blacks d),
    )

    walk_lem :
        (ds : List ℕ) (m : Marks)
        → IsColored nodes m.color
        → ((d : ℕ) → contains d ds ≡ true → Dict.has_key d nodes ≡ true)
        → whites m.color ≤ n
        → IsDecided m.color ds (walk visit id ds m)
    unfolding contains walk set_parent
    walk_lem [] m c here w = inr (m, refl, IsLater-refl m.color c, λ d h. ground (arith, h))
    walk_lem (d ∷ ds) m c here w = elim (Color-cases (Dict.lookup d m.color)) [
      | inl e ↦ absurd (ground (arith, e, here d, c.known d))
      | inr (inr (inl e)) ↦
          inl (d, m, rw (e, walk) refl, λ rank r small. ground (arith, small d d e (ground arith)))
      | inr (inr (inr e)) ↦
          resume m.color d ds m _ (IsLater-refl m.color c) e (rw (e, walk) refl)
            (walk_lem ds m c (λ x h. here x (ground (arith, h))) w)
      | inr (inl e) ↦ elim (v d (set_parent d id m) c e w) [
        | inl (found, m2, run, caught) ↦ inl (
          found,
          m2,
          rw (e, walk) (rw run refl),
          λ rank r small. caught rank r (λ x y gx hy. small x y gx (ground (arith, hy))),
        )
        | inr (m2, run, l, done) ↦
            resume m.color d ds m2 _ l (done d (ground arith)) (rw (e, walk) (rw run refl)) (
              walk_lem ds m2 l.colored (λ x h. here x (ground (arith, h)))
                (omega (arith, l.fewer, w)))
      ]
    ]

  dependents_present :
      (id d : ℕ) (node : Node)
      → Dict.lookup id nodes ≡ some node
      → contains d node.dependents ≡ true
      → Dict.has_key d nodes ≡ true
  unfolding ins_of outs_of contains
  dependents_present id d node there h = ground (arith, h, there, g.mirror id d)

  -- A node was gray while its dependents were searched, and turns black.
  finish-IsLater :
      (id : ℕ) (old mid : Dict Color)
      → Dict.lookup id old ≡ some white
      → IsLater nodes (Dict.insert id gray old) mid
      → ((d : ℕ) → contains d (outs id nodes) ≡ true → Dict.lookup d mid ≡ some black)
      → IsLater nodes old (Dict.insert id black mid)
  finish-IsLater id old mid e l done =
      let grayed = λ (k : ℕ). Dict.lookup-insert k id gray old in
      let blackened = λ (k : ℕ). Dict.lookup-insert k id black mid in
      let e2 : Dict.lookup id mid ≡ some gray = (l.grays id).1 (ground (arith, grayed id)) in
      record {
        colored = black-IsColored nodes id mid e2 done l.colored;
        fewer = omega (
          arith,
          l.fewer,
          whites-insert_white id gray old e refl,
          whites-insert_gray id black mid e2 refl,
        );
        grays = λ k. (
          λ h. ground (arith, h, e, grayed k, blackened k, (l.grays k).0),
          λ h. ground (arith, h, e, grayed k, blackened k, (l.grays k).1),
        );
        blacks = λ k h. ground (arith, h, e, grayed k, blackened k, l.blacks k);
      }

  dfs-suc :
      (fuel id : ℕ) (m : Marks) (node : Node) (s : Search)
      → Dict.lookup id nodes ≡ some node
      → walk (dfs nodes fuel) id node.dependents (paint id gray m) ≡ s
      → dfs nodes (suc fuel) id m ≡ finish id s
  unfolding dfs
  dfs-suc fuel id m node s there run = rw (there, dfs) (rw run refl)

  -- The search from a white node.
  pub dfs_lem : (fuel : ℕ) → IsVisit fuel (dfs nodes fuel)
  unfolding paint contains outs_of finish
  dfs_lem zero id m c e w = absurd (omega (arith, w, whites-insert_white id gray m.color e refl))
  dfs_lem (suc fuel) id m c e w = elim (Option-cases (Dict.lookup id nodes)) [
    | inl absent ↦ absurd (ground (arith, e, absent, c.known id))
    | inr (node, there) ↦
        elim (walk_lem fuel (dfs nodes fuel) (dfs_lem fuel) id node.dependents (paint id gray m)
          (gray-IsColored nodes id m.color e c) (λ d h. dependents_present id d node there h)
          (omega (arith, w, whites-insert_white id gray m.color e refl))) [
            | inl (found, m2, run, caught) ↦ inl (
              found,
              m2,
              dfs-suc fuel id m node _ there run,
              λ rank r small. caught rank r (λ x y gx hy. ground (
                arith,
                gx,
                small x id,
                r id y,
                there,
                hy,
                g.mirror id y,
                Dict.lookup-insert x id gray m.color,
              )),
            )
            | inr (m2, run, l, done) ↦ inr (
              paint id black m2,
              dfs-suc fuel id m node _ there run,
              finish-IsLater id m.color m2.color e l (λ d h. done d (ground (arith, h, there))),
              λ d h. ground (arith, h, Dict.lookup-insert d id black m2.color),
            )
          ]
  ]
