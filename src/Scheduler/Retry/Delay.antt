-- ===== src/Scheduler/Retry/Delay.antt =====
-- How long the delay of RetryPolicy can be.
use job_orchestrator.Prelude.{
  ℕ, ◌≡◌, ◌↔◌, refl, Bool, true, false, none, some, List, Bool-cases, Option-cases, inl, inr, arith,
}
use job_orchestrator.Scheduler.Retry.{Floats, Policy, py_min, calculate_delay}

module _ {F : Type 0} (fl : Floats F) (isinstance : ℕ → List ℕ → Bool) where
  -- What the bound relies on: nothing is below itself, and a product with a factor that is not
  -- below 0 is monotone, rounding included.
  pub record IsOrdered : Type 0 where
    pub irreflexive : (a : F) → fl.lt a a ≡ false
    pub mul_mono :
        (a b factor : F)
        → fl.lt factor fl.nought ≡ false
        → fl.lt b a ≡ false
        → fl.lt (fl.mul b factor) (fl.mul a factor) ≡ false

  py_min-le : IsOrdered → (a b : F) → fl.lt b (py_min fl isinstance a b) ≡ false
  unfolding py_min
  py_min-le o a b = elim (Bool-cases (fl.lt b a)) [
    | inl less ↦ rw less (o.irreflexive b)
    | inr least ↦ rw least least
  ]

  -- For floats whose order is irreflexive and whose products with factors that are not below 0 are
  -- monotone, and for a random factor that is not below 0: `calculate_delay` raises exactly when the
  -- power does. Else, without jitter the delay is at most `max_delay`, and with jitter at most
  -- `max_delay` times the random factor.
  pub calculate_delay-bound :
      IsOrdered
      → (p : Policy F) (retry_count : ℕ) (random : F)
      → fl.lt (fl.add fl.half random) fl.nought ≡ false
      → let answer = calculate_delay fl isinstance p retry_count random in
        ((answer ≡ none) ↔ (fl.pow p.exponential_base retry_count ≡ none))
        × ((delay : F)
            → answer ≡ some delay
            → (p.jitter ≡ false → fl.lt p.max_delay delay ≡ false)
              × (p.jitter ≡ true
                  → fl.lt (fl.mul p.max_delay (fl.add fl.half random)) delay ≡ false))
  unfolding calculate_delay
  calculate_delay-bound o p retry_count random positive =
      elim (Option-cases (fl.pow p.exponential_base retry_count)) [
        | inl over ↦
            rw (over, calculate_delay)
              ((λ _. refl, λ _. refl), λ delay h. absurd (ground (arith, h)))
        | inr (power, fine) ↦
            let raw = fl.mul p.initial_delay power in
            let capped = py_min-le o raw p.max_delay in
            rw (fine, calculate_delay)
              (
                (λ h. absurd (ground (arith, h)), λ h. absurd (ground (arith, h))),
                λ delay h. (
                  λ plain. ground (arith, h, plain, capped),
                  λ jittered.
                      ground (arith, h, jittered, o.mul_mono _ p.max_delay _ positive capped),
                ),
              )
      ]
