-- ===== src/AsyncWorker.antt =====
-- worker/async_worker.py in its production mode. What other sessions commit before a claim, the rows
-- that they hold locked, the clock and the cancellation of the polling coroutine are arguments.
pub mod Claiming
pub mod Draining
pub mod Tasks
pub mod Accounts
pub mod Halting
use schedora.Base.{
  ℕ, ◌+◌, String, Bool, true, false, Option, none, some, List, [], ◌∷◌, if◌then◌else◌,
}
use schedora.Errors.{Result, ok, err}
use schedora.Models.{Job, JobTable, Dependency}
use schedora.Store.{QueueStore}
use schedora.Queue.{RedisQueue, dequeue}
use schedora.Scheduler.{claim_job}
use schedora.Jobs.{World}
use schedora.Executor.{ExecutionResult}

-- One turn of the loop of `_poll_loop`, as it meets the outside.
pub record Round (S : Type 0) : Type 0 where
  -- The stop event is set when the turn begins.
  pub stop : Bool
  -- A CancelledError arrives at the await of the turn.
  pub cancelled : Bool
  pub now : ℕ
  pub locked : ℕ → Bool
  pub others : S → S

-- The counters that `__init__` sets to zero.
pub record Counters : Type 0 where
  pub jobs_processed : ℕ
  pub jobs_succeeded : ℕ
  pub jobs_failed : ℕ

abbrev pub no_jobs : Counters
no_jobs = record { jobs_processed = 0; jobs_succeeded = 0; jobs_failed = 0 }

-- The body of `_execute_job_with_semaphore` after `execute` has returned or raised.
unfoldable pub count_result : Result ExecutionResult → Counters → Counters
count_result (ok r) c =
    if r.success
    then record c { jobs_processed = c.jobs_processed + 1; jobs_succeeded = c.jobs_succeeded + 1 }
    else record c { jobs_processed = c.jobs_processed + 1; jobs_failed = c.jobs_failed + 1 }
count_result (err e) c = record c { jobs_failed = c.jobs_failed + 1 }

-- `except Exception`: the error is logged, and the answer is None.
abbrev pub or_none : Result (Option Job) → Option Job
or_none (ok j) = j
or_none (err e) = none

-- A job for which a task is created, in front of those of the later turns.
abbrev pub create_task : {S : Type 0} → Option Job → List Job × S → List Job × S
create_task none rest = rest
create_task (some j) (js, s) = (j ∷ js, s)

module _ (jobs : JobTable) (links : List Dependency) (store : QueueStore) (worker_id : String) where
  unfoldable pub claim_from_db : Round jobs.State → World jobs store → Option Job × World jobs store
  claim_from_db r w =
      let (c, t) = claim_job jobs links worker_id r.now r.locked none (r.others w.db) in
      (or_none c, record w { db = t })

  -- The id is popped first; the claim of that job is a transaction of its own.
  unfoldable pub dequeue_and_claim :
      RedisQueue → Round jobs.State → World jobs store → Option Job × World jobs store
  dequeue_and_claim q r w =
      let (job_id, redis) = dequeue store q w.redis in
      elim job_id [
        | none ↦ (none, record w { redis = redis })
        | some k ↦
            let (c, t) = claim_job jobs links worker_id r.now r.locked (some k) (r.others w.db) in
            (or_none c, record { db = t; redis = redis })
      ]

  unfoldable pub claim :
      Option RedisQueue → Round jobs.State → World jobs store → Option Job × World jobs store
  claim none r w = claim_from_db r w
  claim (some q) r w = dequeue_and_claim q r w

  -- The jobs for which a task is created, in their order, and what is left. A turn that is cancelled
  -- ends the loop; its claim has happened in a thread of its own.
  unfoldable pub poll_loop :
      Option RedisQueue → List (Round jobs.State) → World jobs store → List Job × World jobs store
  poll_loop queue [] w = ([], w)
  poll_loop queue (r ∷ rs) w = elim r.stop [
    | true ↦ ([], w)
    | false ↦
        let (job, w') = claim queue r w in
        elim r.cancelled [ true ↦ ([], w') | false ↦ create_task job (poll_loop queue rs w') ]
  ]
