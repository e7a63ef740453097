-- ===== src/Core/Dag/Sort/Relax.antt =====
-- The inner loop of the topological sort: what it does to the in-degrees and to the queue.
use job_orchestrator.Prelude.{
  ℕ, ◌≡◌, refl, ap, Bool, true, false, ◌&&◌, ◌||◌, Option, none, some, List, [], ◌∷◌, ◌++◌,
  if◌then◌else◌, arith, Option-cases, inl, inr,
}
use job_orchestrator.Prelude.Ids.{contains, IsNodup, snoc-IsNodup, contains-append}
use job_orchestrator.Prelude.Dict
use job_orchestrator.Prelude.Dict.{Dict}
use job_orchestrator.Core.Dag.Sort.{Degree, is_free, decrease, relax}

-- The in-degree under a key after the loop over `ds`.
abbrev pub lowered : Bool → Option Degree → Option Degree
lowered hit none = none
lowered hit (some d) = some (if hit then decrease d else d)

abbrev pub freed : Option Degree → Bool
freed none = false
freed (some d) = is_free d

-- What the loop leaves behind, for the jobs `before` that left the queue earlier.
pub record IsRelaxed (degrees : Dict Degree) (before queue ds : List ℕ) (relaxed : Dict Degree)
    (later : List ℕ) : Type 0 where
  pub counts : (k : ℕ) → Dict.lookup k relaxed ≡ lowered (contains k ds) (Dict.lookup k degrees)
  pub members :
      (k : ℕ)
      → contains k later ≡ (contains k queue || (contains k ds && freed (Dict.lookup k relaxed)))
  pub once :
      IsNodup (before ++ queue)
      → ((k : ℕ)
          → contains k ds ≡ true
          → freed (Dict.lookup k relaxed) ≡ true
          → contains k (before ++ queue) ≡ false)
      → IsNodup (before ++ later)
  pub keyed : Dict.IsDict degrees → Dict.IsDict relaxed

abbrev requeue : ℕ → Degree → List ℕ → List ℕ
requeue d old queue = if is_free (decrease old) then queue ++ d ∷ [] else queue

append_snoc : (xs ys : List ℕ) (a : ℕ) → xs ++ (ys ++ a ∷ []) ≡ (xs ++ ys) ++ a ∷ []
append_snoc [] ys a = refl
append_snoc (x ∷ xs) ys a = ap (λ t. x ∷ t) (append_snoc xs ys a)

module _ (degrees : Dict Degree) (before queue : List ℕ) (d : ℕ) (ds : List ℕ) (old : Degree)
    (relaxed : Dict Degree) (later : List ℕ) where
  requeue-IsNodup :
      IsNodup (before ++ queue)
      → (is_free (decrease old) ≡ true → contains d (before ++ queue) ≡ false)
      → IsNodup (before ++ requeue d old queue)
  requeue-IsNodup h f = ground (arith, snoc-IsNodup d (before ++ queue), append_snoc before queue d)

  relax_step :
      contains d ds ≡ false
      → Dict.lookup d degrees ≡ some old
      → IsRelaxed
          (Dict.insert d (decrease old) degrees)
          before
          (requeue d old queue)
          ds
          relaxed
          later
      → IsRelaxed degrees before queue (d ∷ ds) relaxed later
  unfolding contains
  relax_step new e r = record {
    counts = λ k. ground (arith, r.counts k, Dict.lookup-insert k d (decrease old) degrees);
    members = λ k. ground (
      arith,
      r.counts k,
      r.members k,
      Dict.lookup-insert k d (decrease old) degrees,
      contains-append k queue (d ∷ []),
    );
    keyed = λ h. r.keyed (Dict.insert-IsDict d (decrease old) degrees h);
    once = λ h f.
        r.once
          (requeue-IsNodup h
            (ground (arith, f d, r.counts d, Dict.lookup-insert d d (decrease old) degrees)))
          (λ k here free. ground (
            arith,
            f k,
            contains-append k before queue,
            contains-append k before (requeue d old queue),
            contains-append k queue (d ∷ []),
          ));
  }

pub relax_lem :
    (degrees : Dict Degree) (before queue ds : List ℕ)
    → IsNodup ds
    → ((k : ℕ) → contains k ds ≡ true → Dict.has_key k degrees ≡ true)
    → (relaxed : Dict Degree) × (later : List ℕ) × (relax degrees queue ds ≡ some (relaxed, later))
      × IsRelaxed degrees before queue ds relaxed later
unfolding relax
relax_lem degrees before queue [] n keys = (
  degrees,
  queue,
  refl,
  record {
    counts = λ k. unfold contains in ground arith;
    members = λ k. unfold contains in ground arith;
    once = λ h _. h;
    keyed = λ h. h;
  },
)
relax_lem degrees before queue (d ∷ ds) n keys = elim (Option-cases (Dict.lookup d degrees)) [
  | inl e ↦ absurd (unfold contains in ground (arith, keys d))
  | inr (old, e) ↦
      let (relaxed, later, run, r) =
        relax_lem (Dict.insert d (decrease old) degrees) before (requeue d old queue) ds n.1 (λ k h.
          unfold contains in
          ground (arith, keys k, Dict.lookup-insert k d (decrease old) degrees)) in
      (
        relaxed,
        later,
        rw (e, relax) run,
        relax_step degrees before queue d ds old relaxed later n.0 e r,
      )
]
