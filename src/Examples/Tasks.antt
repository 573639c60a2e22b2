-- ===== src/Examples/Tasks.antt =====
-- worker/async_worker.py: the tasks of two jobs, and a stop.
use schedora.Base.{
  ℕ, ◌*◌, ◌+◌, ◌≤◌, true, false, List, [], ◌∷◌, ◌≡◌, ◌⊎◌, refl, arith, length, count,
}
use schedora.Enums.{pending}
use schedora.Errors.{Result, ok}
use schedora.Models.{Job}
use schedora.Executor.{ExecutionResult}
use schedora.Executor.Steps.{succeeded}
use schedora.AsyncWorker.{no_jobs, count_result}
use schedora.AsyncWorker.Tasks.{
  Task, Loop, testing, claiming, over, ended, Event, claims, ends, silent, Step, polls, works,
  begin, claim, leave, acquire, finish, set_stop, Run, start, later, Steps, none_left, first,
}
use schedora.AsyncWorker.Accounts.{
  IsAccounted, Run-IsAccounted, after_claims, poll_unbounded, among, endings_of,
}
use schedora.AsyncWorker.Halting.{stopped_bound, stopped_rests, is_claim, is_cancellation}
use schedora.Examples.Data.{job_table, job_of}
use schedora.Examples.Runs.{alone}

abbrev two : Job
two = job_of 2 "b" pending

abbrev three : Job
three = job_of 3 "c" pending

abbrev fine : Result ExecutionResult
fine = ok (succeeded job_table alone "{}")

abbrev two_waits : List Task
two_waits = record { job = two; executing = false } ∷ []

-- Job 3 has run, and job 2 waits for the semaphore.
abbrev ran : Loop
ran = record {
  phase = testing;
  stopped = false;
  free = 2;
  running_tasks = two_waits;
  counters = count_result fine no_jobs;
}

run_of_two : Run 2 ran (two ∷ three ∷ []) ((three, ended fine) ∷ [])
run_of_two = later (works (finish two_waits [] three (ended fine) refl)) (
    later (works (acquire two_waits [] three refl (omega arith))) (
      later (polls (claim two refl)) (
        later (polls (begin refl refl))
          (later (polls (claim three refl)) (later (polls (begin refl refl)) start)))))

Run-IsAccounted_example : IsAccounted 2 ran (two ∷ three ∷ []) ((three, ended fine) ∷ [])
Run-IsAccounted_example = Run-IsAccounted run_of_two

poll_unbounded_example :
    Run 1 (after_claims 1 (two ∷ three ∷ [])) (two ∷ three ∷ []) []
    × ((after_claims 1 (two ∷ three ∷ [])).phase ≡ claiming)
    × ((after_claims 1 (two ∷ three ∷ [])).stopped ≡ false)
    × ((after_claims 1 (two ∷ three ∷ [])).free ≡ 0)
    × (length (after_claims 1 (two ∷ three ∷ [])).running_tasks ≡ 2)
    × (count (λ t. t.executing) (after_claims 1 (two ∷ three ∷ [])).running_tasks + 0 ≡ 1)
poll_unbounded_example = poll_unbounded 1 (two ∷ three ∷ [])

-- `stop` is called while the loop waits for a claim: job 2 waits, and the claim brings job 3.
abbrev stopped : Loop
stopped = record ran { phase = claiming; stopped = true }

run_of_stop : Run 2 stopped (two ∷ three ∷ []) ((three, ended fine) ∷ [])
run_of_stop = later (set_stop refl) (later (polls (begin refl refl)) run_of_two)

abbrev closing : List Event
closing = claims three ∷ silent ∷ silent ∷ ends two (ended fine) ∷ []

abbrev closed : Loop
closed = record {
  phase = over;
  stopped = true;
  free = 2;
  running_tasks = record { job = three; executing = false } ∷ [];
  counters = count_result fine (count_result fine no_jobs);
}

closing_run : Steps stopped closing closed
closing_run = first (polls (claim three refl)) (
    first
      (works (acquire (record { job = three; executing = false } ∷ []) [] two refl (omega arith)))
      (first (polls (leave refl refl)) (
        first
          (works (finish (record { job = three; executing = false } ∷ []) [] two (ended fine) refl))
          none_left)))

stopped_bound_example : (length closing ≤ 4 + 2 * 1) × (count is_claim closing ≤ 1)
stopped_bound_example = stopped_bound closing_run refl

stopped_rests_example :
    ((v : Event) × (t : Loop) × Step stopped v t × (is_cancellation v ≡ false))
    ⊎ ((stopped.phase ≡ over)
        × (stopped.running_tasks ≡ [])
        × ((k : ℕ) → among k (two ∷ three ∷ []) ≡ endings_of k ((three, ended fine) ∷ [])))
stopped_rests_example = stopped_rests fine (omega arith) run_of_stop refl
