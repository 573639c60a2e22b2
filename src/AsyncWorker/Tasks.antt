-- ===== src/AsyncWorker/Tasks.antt =====
-- worker/async_worker.py: the tasks of a worker, its semaphore, its counters and where its polling loop
-- stands, as steps of the event loop, of one call of `start`. The set of tasks is a list in no particular
-- order. The claim runs in a thread, so anything may happen while the loop waits for it.
use schedora.Base.{ℕ, ◌+◌, ◌-◌, ◌<◌, Bool, true, false, List, [], ◌∷◌, ◌++◌, ◌≡◌}
use schedora.Errors.{Result}
use schedora.Models.{Job}
use schedora.Executor.{ExecutionResult}
use schedora.AsyncWorker.{Counters, no_jobs, count_result}

-- A task of `_execute_job_with_semaphore`: before or inside its `async with`.
pub record Task : Type 0 where
  pub job : Job
  pub executing : Bool

-- Where `_poll_loop` stands: at the test of the stop event, at the await of the claim, at the sleep after
-- a turn without a job, or after the loop, where `start` has set `is_running` to False.
pub data Phase : Type 0 where
  testing claiming sleeping over : Phase

-- What the coroutines share. `free` is the value of the semaphore.
pub record Loop : Type 0 where
  pub phase : Phase
  pub stopped : Bool
  pub free : ℕ
  pub running_tasks : List Task
  pub counters : Counters

abbrev pub new_loop : ℕ → Loop
new_loop max_concurrent_jobs = record {
  phase = testing;
  stopped = false;
  free = max_concurrent_jobs;
  running_tasks = [];
  counters = no_jobs;
}

abbrev pub is_running : Loop → Bool
is_running s = elim s.phase [ Phase.over ↦ false | _ ↦ true ]

-- `create_task` and `_running_tasks.add`, with which a turn ends that has claimed a job
abbrev pub add_task : Job → Loop → Loop
add_task j s = record s {
  phase = testing;
  running_tasks = record { job = j; executing = false } ∷ s.running_tasks;
}

-- How a task ends: `execute` has returned or raised, or the task was cancelled.
pub data Ending : Type 0 where
  ended : Result ExecutionResult → Ending
  cancelled : Ending

-- A cancelled task runs neither the rest of the `try` nor the `except Exception`.
abbrev pub count_ending : Ending → Counters → Counters
count_ending (ended r) c = count_result r c
count_ending cancelled c = c

-- What a step adds to the jobs for which a task was created, and to the tasks that have ended.
pub data Event : Type 0 where
  claims : Job → Event
  ends : Job → Ending → Event
  silent : Event

-- One step of `_poll_loop`. A claim that fails is a turn without a job, and a CancelledError at an await
-- ends the loop.
pub data PollStep : Loop → Event → Loop → Type 0 where
  begin :
      {s : Loop}
      → s.phase ≡ testing
      → s.stopped ≡ false
      → PollStep s silent (record s { phase = claiming })
  claim : {s : Loop} (j : Job) → s.phase ≡ claiming → PollStep s (claims j) (add_task j s)
  nothing : {s : Loop} → s.phase ≡ claiming → PollStep s silent (record s { phase = sleeping })
  wake : {s : Loop} → s.phase ≡ sleeping → PollStep s silent (record s { phase = testing })
  leave :
      {s : Loop}
      → s.phase ≡ testing
      → s.stopped ≡ true
      → PollStep s silent (record s { phase = over })
  break_claim : {s : Loop} → s.phase ≡ claiming → PollStep s silent (record s { phase = over })
  break_sleep : {s : Loop} → s.phase ≡ sleeping → PollStep s silent (record s { phase = over })

-- One step of a task. It may be cancelled at any time.
pub data TaskStep : Loop → Event → Loop → Type 0 where
  acquire :
      {s : Loop} (l m : List Task) (j : Job)
      → s.running_tasks ≡ l ++ record { job = j; executing = false } ∷ m
      → 0 < s.free
      → TaskStep s silent (record s {
        running_tasks = l ++ record { job = j; executing = true } ∷ m;
        free = s.free - 1;
      })
  finish :
      {s : Loop} (l m : List Task) (j : Job) (e : Ending)
      → s.running_tasks ≡ l ++ record { job = j; executing = true } ∷ m
      → TaskStep s (ends j e) (record s {
        running_tasks = l ++ m;
        free = s.free + 1;
        counters = count_ending e s.counters;
      })
  give_up :
      {s : Loop} (l m : List Task) (j : Job)
      → s.running_tasks ≡ l ++ record { job = j; executing = false } ∷ m
      → TaskStep s (ends j cancelled) (record s { running_tasks = l ++ m })

-- One step of the worker, the last being the `set` of `stop`. The steps may follow in any order, also in
-- orders that the event loop does not take, as where a second task is created before the first one has
-- taken its first step.
pub data Step : Loop → Event → Loop → Type 0 where
  polls : {s t : Loop} {v : Event} → PollStep s v t → Step s v t
  works : {s t : Loop} {v : Event} → TaskStep s v t → Step s v t
  set_stop : {s : Loop} → s.stopped ≡ false → Step s silent (record s { stopped = true })

abbrev pub with_claims : Event → List Job → List Job
with_claims (claims j) js = j ∷ js
with_claims (ends j e) js = js
with_claims silent js = js

abbrev pub with_ends : Event → List (Job × Ending) → List (Job × Ending)
with_ends (claims j) es = es
with_ends (ends j e) es = (j, e) ∷ es
with_ends silent es = es

-- What can have happened since `start`, with the jobs for which a task was created and the tasks that
-- have ended, the latest first.
pub data Run (max_concurrent_jobs : ℕ) : Loop → List Job → List (Job × Ending) → Type 0 where
  start : Run max_concurrent_jobs (new_loop max_concurrent_jobs) [] []
  later :
      {s t : Loop} {js : List Job} {es : List (Job × Ending)} {v : Event}
      → Step s v t
      → Run max_concurrent_jobs s js es
      → Run max_concurrent_jobs t (with_claims v js) (with_ends v es)

-- A row of steps, with what each of them adds, the first in front.
pub data Steps : Loop → List Event → Loop → Type 0 where
  none_left : {s : Loop} → Steps s [] s
  first :
      {s t u : Loop} {v : Event} {vs : List Event} → Step s v t → Steps t vs u → Steps s (v ∷ vs) u
