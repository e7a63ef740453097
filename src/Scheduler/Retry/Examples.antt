-- ===== src/Scheduler/Retry/Examples.antt =====
-- Runs of the retry handler with natural numbers in place of floats, and its theorems at them.
use Prim.Native.Nat.{◌^◌}
use native.Mathlib.Nat.{mul-le-mul_right}
use job_orchestrator.Prelude.{
  ℕ, ◌+◌, ◌*◌, ◌≤◌, ◌≡◌, ◌↔◌, refl, if◌then◌else◌, Bool, true, false, none, some, List, [], ◌∷◌,
  ltb, arith,
}
use job_orchestrator.Core.Job.{Job, low}
use job_orchestrator.Samples.{sample}
use job_orchestrator.Scheduler.Retry.{
  Floats, py_min, calculate_delay, policy_allows, get_policy_for_job, schedule_retry,
  get_remaining_retries,
}
use job_orchestrator.Scheduler.Retry.Budget.{Failure, fail_all, note_answer, retries_budget}
use job_orchestrator.Scheduler.Retry.Delay.{IsOrdered, calculate_delay-bound}

abbrev numbers : Floats ℕ
numbers = record {
  nought = 0;
  half = 1;
  add = λ a b. a + b;
  mul = λ a b. a * b;
  pow = λ a n. some (a ^ n);
  lt = ltb;
  later = λ now delay. some (now + delay);
}

-- Every error is retried.
abbrev always : ℕ → List ℕ → Bool
always e types = true

not_below : (a b : ℕ) → a ≤ b → ltb b a ≡ false
not_below a b h = ground (arith, h)

le_of : (a b : ℕ) → ltb b a ≡ false → a ≤ b
le_of a b h = ground (arith, h)

numbers-IsOrdered : IsOrdered numbers always
numbers-IsOrdered = record {
  irreflexive = λ a. ground arith;
  mul_mono = λ a b factor positive h.
      not_below (a * factor) (b * factor) (mul-le-mul_right factor (le_of a b h));
}

abbrev job : Job ℕ
job = sample 1 low none 0

abbrev failures : List (Failure ℕ)
failures =
    record { raised = some 4; random = 0; now = 10 }
    ∷ record { raised = none; random = 0; now = 20 }
    ∷ record { raised = none; random = 0; now = 30 }
    ∷ record { raised = none; random = 0; now = 40 }
    ∷ []

three_granted : (fail_all numbers always failures job).granted ≡ 3
unfolding fail_all note_answer schedule_retry policy_allows get_policy_for_job calculate_delay
    py_min
three_granted = refl

-- With a clock that ends at 15, two attempts are counted without a retry.
abbrev early_end : Floats ℕ
early_end = record numbers { later = λ now delay. if ltb 15 (now + delay) then none else some now }

all_lost : (fail_all early_end always failures job).lost ≡ 2
unfolding fail_all note_answer schedule_retry policy_allows get_policy_for_job calculate_delay
    py_min
all_lost = refl

calculate_delay-bound_example :
    let p = get_policy_for_job numbers always job in
    let answer = calculate_delay numbers always p 12 0 in
    ((answer ≡ none) ↔ (some (p.exponential_base ^ 12) ≡ none))
    × ((delay : ℕ)
        → answer ≡ some delay
        → (p.jitter ≡ false → ltb p.max_delay delay ≡ false)
          × (p.jitter ≡ true → ltb (p.max_delay * (1 + 0)) delay ≡ false))
calculate_delay-bound_example =
    calculate_delay-bound numbers always numbers-IsOrdered (get_policy_for_job numbers always job)
      12 0 refl

retries_budget_example :
    let o = fail_all numbers always failures job in
    o.granted + o.lost + get_remaining_retries numbers always o.job
    ≡ get_remaining_retries numbers always job
retries_budget_example = retries_budget numbers always failures job
