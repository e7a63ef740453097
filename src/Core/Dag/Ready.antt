-- ===== src/Core/Dag/Ready.antt =====
-- Which jobs get_ready_jobs and is_job_ready of class DAG call ready.
use job_orchestrator.Prelude.{
  ℕ, ◌≡◌, refl, Bool, true, false, ◌↔◌, inl, inr, Option, some, List, [], ◌∷◌, arith, Option-cases,
  Bool-cases,
}
use job_orchestrator.Prelude.Ids.{contains}
use mathlib.Core.Option
use job_orchestrator.Prelude.Dict
use job_orchestrator.Prelude.Dict.{Dict}
use job_orchestrator.Core.Job.{Job, JobState, pending, completed, same_state, same_state_iff}
use job_orchestrator.Core.Dag.{Dag, Node, all_completed, node_ready, is_job_ready}
use job_orchestrator.Core.Dag.Graph.{ins, ins_of}
use job_orchestrator.Core.Dag.Shape.{IsDag}

-- The state of a job of the graph.
abbrev pub state_of : {F : Type 0} → ℕ → Dict (Job F) → Option JobState
state_of k jobs = Option.map (λ job. job.state) (Dict.lookup k jobs)

all_completed_lem :
    {F : Type 0} (jobs : Dict (Job F)) (ds : List ℕ)
    → ((d : ℕ) → contains d ds ≡ true → Dict.has_key d jobs ≡ true)
    → (b : Bool) × (all_completed jobs ds ≡ some b)
      × ((b ≡ true) ↔ ((d : ℕ) → contains d ds ≡ true → state_of d jobs ≡ some completed))
unfolding all_completed contains
all_completed_lem jobs [] here = (true, refl, ((λ _ d h. ground (arith, h)), λ _. refl))
all_completed_lem jobs (d ∷ ds) here = elim (Option-cases (Dict.lookup d jobs)) [
  | inl e ↦ absurd (ground (arith, e, here d))
  | inr (job, e) ↦
      let (b, run, iff) = all_completed_lem jobs ds (λ x h. here x (ground (arith, h))) in
      elim (Bool-cases (same_state job.state completed)) [
        | inr other ↦ (
          false,
          rw (e, all_completed) (rw other refl),
          (
            (λ h. absurd (ground (arith, h))),
            λ f. ground (arith, other, e, f d, same_state_iff job.state completed),
          ),
        )
        | inl done ↦ (
          b,
          rw (e, all_completed) (rw done run),
          (
            (λ h x hx.
                ground (arith, h, hx, iff.0 h x, e, done, same_state_iff job.state completed)),
            λ f. iff.1 (λ x hx. f x (ground (arith, hx))),
          ),
        )
      ]
]

module _ {F : Type 0} (g : Dag F) (w : IsDag g) where
  deps_known :
      (k : ℕ) (n : Node)
      → Dict.lookup k g.nodes ≡ some n
      → (d : ℕ) → contains d n.dependencies ≡ true
      → Dict.has_key d g.jobs ≡ true
  unfolding ins_of
  deps_known k n e d h = ground (arith, e, h, w.graph.closed d k, w.same_keys d)

  node_ready_lem :
      (k : ℕ) (n : Node) (job : Job F)
      → Dict.lookup k g.nodes ≡ some n
      → (b : Bool) × (node_ready g.jobs job n ≡ some b)
        × ((b ≡ true) ↔ (
            (job.state ≡ pending)
            × ((d : ℕ) → contains d (ins k g.nodes) ≡ true → state_of d g.jobs ≡ some completed)))
  unfolding node_ready ins_of
  node_ready_lem k n job e =
      let (b, run, iff) = all_completed_lem g.jobs n.dependencies (deps_known k n e) in
      elim (Bool-cases (same_state job.state pending)) [
        | inr other ↦ (
          false,
          rw other refl,
          (
            (λ h. absurd (ground (arith, h))),
            λ f. ground (arith, other, f.0, same_state_iff job.state pending),
          ),
        )
        | inl waits ↦ (
          b,
          rw waits run,
          (
            (λ h. (
              (same_state_iff job.state pending).0 waits,
              λ d hd. iff.0 h d (ground (arith, e, hd)),
            )),
            λ f. iff.1 (λ d hd. f.1 d (ground (arith, e, hd))),
          ),
        )
      ]

  -- `is_job_ready` always answers, and says yes exactly for a job of the graph that is pending
  -- while all its dependencies are completed.
  pub is_job_ready_iff :
      (k : ℕ)
      → (b : Bool) × (is_job_ready k g ≡ some b)
        × ((b ≡ true) ↔ (
            (state_of k g.jobs ≡ some pending)
            × ((d : ℕ) → contains d (ins k g.nodes) ≡ true → state_of d g.jobs ≡ some completed)))
  unfolding is_job_ready
  is_job_ready_iff k = elim (Option-cases (Dict.lookup k g.nodes)) [
    | inl e ↦ (
      false,
      rw (e, is_job_ready) refl,
      ((λ h. absurd (ground (arith, h))), λ f. ground (arith, e, f.0, w.same_keys k)),
    )
    | inr (n, e) ↦ elim (Option-cases (Dict.lookup k g.jobs)) [
      | inl e2 ↦ absurd (ground (arith, e, e2, w.same_keys k))
      | inr (job, e2) ↦
          let (b, run, iff) = node_ready_lem k n job e in
          (
            b,
            rw (e, is_job_ready) (rw e2 run),
            (
              (λ h. (ground (arith, e2, (iff.0 h).0), (iff.0 h).1)),
              λ f. iff.1 (ground (arith, e2, f.0), f.1),
            ),
          )
    ]
  ]
