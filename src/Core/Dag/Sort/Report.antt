-- ===== src/Core/Dag/Sort/Report.antt =====
-- When topological_sort of src/job_orchestrator/core/dag.py raises CyclicDependencyError, and what
-- the error names.
use job_orchestrator.Prelude.{
  ℕ, ◌<◌, ◌≡◌, refl, ◌∙◌, Bool, true, false, ◌⊎◌, Option, inl, inr, none, some, List, [], ◌∷◌, ◌==◌,
  if◌then◌else◌, ltb, length, arith, Bool-cases, List-cases,
}
use job_orchestrator.Prelude.Ids.{contains}
use job_orchestrator.Prelude.Dict
use job_orchestrator.Prelude.Dict.{Dict, IsDict}
use job_orchestrator.Core.Job.{Job}
use job_orchestrator.Core.Dag.{Dag}
use job_orchestrator.Core.Dag.Graph.{ins, ins_of}
use job_orchestrator.Core.Dag.Shape.{IsDag}
use job_orchestrator.Core.Dag.Sort.{Degree, sorted, cycle_among, topological_sort}
use job_orchestrator.Core.Dag.Sort.Hits.{hits, hits-le}
use job_orchestrator.Core.Dag.Sort.Step.{IsLoop}
use job_orchestrator.Core.Dag.Sort.Loop.{ids}
use job_orchestrator.Core.Dag.Sort.Correct.{
  blocked_keys, sort_end, conclude-cases, done_iff, none_missing,
}

-- A dependency that is not sorted.
missing :
    (done ds : List ℕ)
    → hits done ds < length ds
    → (d : ℕ) × (contains d ds ≡ true) × (contains d done ≡ false)
unfolding hits contains
missing done [] h = absurd (omega (arith, h))
missing done (d ∷ ds) h = elim (Bool-cases (contains d done)) [
  | inr e ↦ (d, ground arith, e)
  | inl e ↦
      let (k, here, absent) = missing done ds (ground (arith, h, e)) in
      (k, ground (arith, here), absent)
]

abbrev is_blocked : Option Degree → Bool
is_blocked none = false
is_blocked (some d) = ltb d.met d.needs

contains-blocked_keys :
    (k : ℕ) (degrees : Dict Degree)
    → IsDict degrees
    → contains k (blocked_keys degrees) ≡ is_blocked (Dict.lookup k degrees)
unfolding contains Dict.lookup
contains-blocked_keys k [] d = refl
contains-blocked_keys k ((j, v) ∷ degrees) d = ground (arith, contains-blocked_keys k degrees)

module _ {F : Type 0} (g : Dag F) (w : IsDag g) where
  blocked_iff :
      (last : Dict Degree) (js : List (Job F))
      → IsLoop g.nodes last [] (ids js)
      → (k : ℕ)
      → contains k (blocked_keys last)
        ≡ (if contains k (ids js) then false else Dict.has_key k g.nodes)
  unfolding ins_of
  blocked_iff last js l k = ground (
    arith,
    done_iff g w last js l k,
    l.degrees_right k,
    contains-blocked_keys k last l.keyed,
    hits-le (ids js) (ins k g.nodes),
  )

  -- The jobs that are named wait for one another.
  abbrev pub IsStuck : List ℕ → Type 0
  IsStuck rest =
      (k : ℕ)
      → contains k rest ≡ true
      → (Dict.has_key k g.nodes ≡ true)
        × ((d : ℕ) × (contains d (ins k g.nodes) ≡ true) × (contains d rest ≡ true))

  blocked-IsStuck :
      (last : Dict Degree) (js : List (Job F))
      → IsLoop g.nodes last [] (ids js)
      → IsStuck (blocked_keys last)
  unfolding ins_of
  blocked-IsStuck last js l k h =
      let (d, here, absent) =
        missing (ids js) (ins k g.nodes)
          (ground (arith, h, l.degrees_right k, contains-blocked_keys k last l.keyed)) in
      (
        ground (arith, h, blocked_iff last js l k),
        (d, here, ground (arith, absent, blocked_iff last js l d, w.graph.closed d k here)),
      )

  some_blocked :
      (last : Dict Degree) (js : List (Job F))
      → IsLoop g.nodes last [] (ids js)
      → (length js == length g.nodes) ≡ false
      → (k : ℕ) × (contains k (blocked_keys last) ≡ true)
  unfolding contains
  some_blocked last js l short = elim (List-cases (blocked_keys last)) [
    | inr (k, rest, e) ↦ (k, rw e (ground arith))
    | inl e ↦ absurd (
        ground (
          arith,
          short,
          none_missing g w last js l (λ k h. ground (arith, h, blocked_iff last js l k, e)),
        ))
  ]

  -- `topological_sort` always ends, and without a KeyError: it returns a list, or it raises the
  -- error for a cycle, which then names at least one job, and for each job that it names a
  -- dependency that it names too.
  pub sort_total :
      ((js : List (Job F)) × (topological_sort g ≡ sorted js))
      ⊎ ((rest : List ℕ) × (topological_sort g ≡ cycle_among rest)
          × ((k : ℕ) × (contains k rest ≡ true))
          × IsStuck rest)
  sort_total =
      let (last, js, run, l, s) = sort_end g w in
      elim (conclude-cases g w last js) [
        | inl (full, e) ↦ inl (js, run ∙ e)
        | inr (short, e) ↦
            inr
              (blocked_keys last, run ∙ e, some_blocked last js l short, blocked-IsStuck last js l)
      ]
