-- ===== src/Scheduler/Dlq/Examples.antt =====
-- Runs of the dead letter queue, and its theorems at them.
use job_orchestrator.Prelude.{
  ℕ, ◌≤◌, length, ◌≡◌, refl, true, false, none, some, List, [], ◌∷◌, arith,
}
use job_orchestrator.Prelude.Dict
use job_orchestrator.Core.Job.{low}
use job_orchestrator.Samples.{sample}
use job_orchestrator.Scheduler.Dlq.{
  Dlq, new, add, register_entry, entry_of, reached, or_else, cleanup_expired, requeue,
  requeue_found, requeued_entry, get_entry, remove_entry, drop, evict_oldest, evict_among, oldest,
  settle, reset_job,
}
use job_orchestrator.Scheduler.Dlq.Index.{IsIndexed}
use job_orchestrator.Scheduler.Dlq.Bound.{add-bound}
use job_orchestrator.Scheduler.Dlq.Runs.{Call, put, take, call, run, run-IsIndexed}

abbrev kind : ℕ → ℕ
kind e = e

-- Two jobs fail; the first is put back, and the scheduler does not take it.
abbrev calls : List (Call ℕ)
calls =
    put 101 (sample 1 low none 0) (some 4) none 10 10
    ∷ put 102 (sample 2 low none 0) none none 20 20
    ∷ take 1 (some (λ job. false)) true (λ job. job) none 30
    ∷ []

start : Dlq ℕ
unfolding new
start = new (some 2) none none false

program : Unit {0}
unfolding start new add register_entry entry_of reached or_else cleanup_expired requeue
    requeue_found requeued_entry get_entry remove_entry drop evict_oldest evict_among oldest settle
    reset_job call run Dict.lookup Dict.insert Dict.remove
program = tt

start-IsIndexed : IsIndexed start
unfolding program
start-IsIndexed = record {
  keyed = tt;
  named = λ k e h. ground (arith, h);
  leads = λ j i h. ground (arith, h);
}

back_again : Dict.keys (run kind calls start).entries ≡ 102 ∷ 101 ∷ []
unfolding program
back_again = refl

-- A job that fails twice: when its older entry is evicted, its newer one is not found by the job.
lost_index :
    get_entry 1 (
      add kind 103 (sample 3 low none 0) none none 30 30 (
        add kind 102
          (sample 1 low none 0)
          none
          none
          20
          20
          (add kind 101 (sample 1 low none 0) none none 10 10 start)))
    ≡ none
unfolding program
lost_index = refl

run-IsIndexed_example : IsIndexed (run kind calls start)
run-IsIndexed_example =
    run-IsIndexed kind calls start (unfold program in (refl, (refl, (tt, tt)))) start-IsIndexed

twice : Dlq ℕ
twice = run kind calls start

twice-IsIndexed : IsIndexed twice
unfolding twice
twice-IsIndexed =
    run-IsIndexed kind calls start (unfold program in (refl, (refl, (tt, tt)))) start-IsIndexed

full :
    (twice.max_entries ≡ some 2)
    × (length twice.entries ≤ 2)
    × (Dict.has_key 7 twice.entries ≡ false)
unfolding program twice
full = (refl, omega arith, refl)

add-bound_example : length (add kind 7 (sample 3 low none 0) none none 40 40 twice).entries ≤ 2
add-bound_example =
    add-bound kind 7 (sample 3 low none 0) none none 40 40 1 twice twice-IsIndexed full.2 full.0
      full.1
