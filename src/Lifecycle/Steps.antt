-- ===== src/Lifecycle/Steps.antt =====
-- The calls of the services and the worker that write the table `jobs`, as steps of the whole program:
-- `create_job`, `cancel_job` and `transition_status` of services/job_service.py, `claim_job` and
-- `claim_ready_jobs` of services/scheduler.py, `handle_stale_worker` of services/heartbeat_service.py, and
-- the sessions of worker/job_executor.py. The repositories are called by these only.
-- Each call is one step, in any order and with any arguments, and no other session commits between its
-- reading and its writing (Jobs/Races says what happens in `cancel_job` otherwise). The sessions of a run
-- are steps of their own, between which others may stand.
use schedora.Base.{◌≡◌, true, false, ℕ, String, Bool, Option, List}
use schedora.Enums.{JobStatus, running, success, failed}
use schedora.Models.{Job, JobTable, WorkerTable, Dependency}
use schedora.Store.{QueueStore, PresenceStore}
use schedora.Queue.{RedisQueue}
use schedora.Jobs.{World, JobCreate, create_job, cancel_job}
use schedora.Jobs
use schedora.Scheduler.{claim_job, claim_ready_jobs}
use schedora.Executor.{
  write_job, transition_status, set_started, set_completed, set_result, set_error,
}
use schedora.Heartbeat.{Service, handle_stale_worker}

-- What a call may do to the status of a row: what the program itself asks for, a reset from RUNNING to
-- PENDING, or whatever the caller of `transition_status` of the service asks for.
pub data Kind : Type 0 where
  ordinary recovery service : Kind

abbrev pub fits : (service : Bool) → Kind → Bool
fits allowed Kind.ordinary = true
fits allowed Kind.recovery = true
fits allowed Kind.service = allowed

-- The statuses that `_transition_status` is called with.
pub data Target : JobStatus → Type 0 where
  to_running : Target running
  to_success : Target success
  to_failed : Target failed

module _ (jobs : JobTable) (env : ℕ → jobs.State → jobs.State) where
  -- The functions that `update_start_sync` and its like apply to a row.
  pub data Write : (Job → Job) → Type 0 where
    start_time : (now : ℕ) → Write (set_started jobs env now)
    completion_time : (now : ℕ) → Write (set_completed jobs env now)
    the_result : (r : String) → Write (set_result jobs env r)
    the_error :
        (message : String) (details : Option String) → Write (set_error jobs env message details)

module _ (jobs : JobTable) (workers : WorkerTable) (presence : PresenceStore) (timeout : ℕ)
    (store : QueueStore) (env : ℕ → jobs.State → jobs.State) where
  pub data Step : jobs.State → jobs.State → Type 0 where
    creating :
        (queue : Option RedisQueue) (job_id now flushed_at : ℕ) (names_key : Bool) (d : JobCreate)
        (w : World jobs store)
        → Step w.db (create_job jobs store queue job_id now flushed_at (λ s. s) names_key d w).1.db
    canceling :
        (queue : Option RedisQueue) (job_id : ℕ) (w : World jobs store)
        → Step w.db (cancel_job jobs store queue job_id w).1.db
    claiming :
        (links : List Dependency) (worker_id : String) (now : ℕ) (locked : ℕ → Bool)
        (job_id : Option ℕ) (s : jobs.State)
        → Step s (claim_job jobs links worker_id now locked job_id s).1
    claiming_batch :
        (links : List Dependency) (worker_id : String) (now : ℕ) (locked : ℕ → Bool) (limit : ℕ)
        (s : jobs.State)
        → Step s (claim_ready_jobs jobs links worker_id now locked limit s).1
    writing :
        {f : Job → Job} (job_id : ℕ) (s : jobs.State)
        → Write jobs env f
        → Step s (write_job jobs env job_id f s).1
    transitioning :
        {st : JobStatus} (job_id : ℕ) (s : jobs.State)
        → Target st
        → Step s (transition_status jobs env job_id st s).1
    recovering :
        (worker_id : String) (v : Service jobs workers presence timeout)
        → Step v.job_rows (handle_stale_worker jobs workers presence timeout worker_id v).1.job_rows
    transitioning_by_service :
        (queue : Option RedisQueue) (job_id : ℕ) (st : JobStatus) (w : World jobs store)
        → Step w.db (Jobs.transition_status jobs store queue job_id st w).1.db

  abbrev pub kind_of : {s t : jobs.State} → Step s t → Kind
  kind_of (creating queue k now at names d w) = ordinary
  kind_of (canceling queue k w) = ordinary
  kind_of (claiming links w now locked k s) = ordinary
  kind_of (claiming_batch links w now locked limit s) = ordinary
  kind_of (writing k s f) = ordinary
  kind_of (transitioning k s to) = ordinary
  kind_of (recovering w v) = recovery
  kind_of (transitioning_by_service queue k st w) = service

  -- Neither a claim, nor a recovery, nor `transition_status` of the service.
  abbrev pub is_other : {s t : jobs.State} → Step s t → Bool
  is_other (creating queue k now at names d w) = true
  is_other (canceling queue k w) = true
  is_other (claiming links w now locked k s) = false
  is_other (claiming_batch links w now locked limit s) = false
  is_other (writing k s f) = true
  is_other (transitioning k s to) = true
  is_other (recovering w v) = false
  is_other (transitioning_by_service queue k st w) = false

  -- Calls in a row. `transition_status` of the service is among them only if `service`.
  pub data Steps (service : Bool) : jobs.State → jobs.State → Type 0 where
    done : {s : jobs.State} → Steps service s s
    next :
        {s t u : jobs.State} (step : Step s t)
        → fits service (kind_of step) ≡ true
        → Steps service t u
        → Steps service s u
