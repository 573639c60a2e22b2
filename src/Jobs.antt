-- ===== src/Jobs.antt =====
-- repositories/job_repository.py and services/job_service.py. The new UUID, the clock, what other
-- sessions commit meanwhile and whether an IntegrityError names the key's column are arguments.
pub mod Repository
pub mod Queueing
pub mod Create
pub mod Transition
pub mod Future
pub mod Races
use schedora.Base.{
  not, false, ℕ, String, Bool, true, Option, none, some, ◌==◌, ltb, if◌then◌else◌, nat_eq,
  string_eq,
}
use schedora.Enums.{JobStatus, RetryPolicy, pending, scheduled, canceled, job_status_eq}
use schedora.Errors.{
  Result, Action, Error, type_error, data_error, ok, err, job_not_found, duplicate_idempotency_key,
  integrity_error, pure, raise, gets, modify, or_raise, commit, ◌>>=◌, ◌>>◌,
}
use schedora.Models.{Job, JobTable, fits_columns}
use schedora.Store.{QueueStore}
use schedora.StateMachine.{validate_transition}
use schedora.Queue.{RedisQueue, enqueue, remove}

-- A `datetime`: with a timezone, a time in microseconds since the epoch; without one, what a clock shows.
pub record Datetime : Type 0 where
  pub instant : ℕ
  pub aware : Bool

-- api/schemas/job.py: a validated request.
pub record JobCreate : Type 0 where
  pub type : String
  pub payload : String
  pub priority : ℕ
  pub scheduled_at : Option Datetime
  pub max_retries : ℕ
  pub retry_policy : RetryPolicy
  pub timeout_seconds : Option ℕ
  pub idempotency_key : String
  pub parent_job_id : Option ℕ

abbrev pub scheduled_or : ℕ → Option Datetime → ℕ
scheduled_or now none = now
scheduled_or now (some t) = t.instant

-- SCHEDULED if a time was given that is in the future; otherwise the column's default.
abbrev pub initial_status : ℕ → Option Datetime → JobStatus
initial_status now none = pending
initial_status now (some t) = if ltb now t.instant then scheduled else pending

-- `Job(**job_data)` with the defaults of its columns, which are filled in when it is flushed.
unfoldable pub new_job : ℕ → ℕ → ℕ → JobCreate → Job
new_job job_id now flushed_at d = record {
  job_id = job_id;
  type = d.type;
  payload = d.payload;
  priority = d.priority;
  scheduled_at = scheduled_or flushed_at d.scheduled_at;
  max_retries = d.max_retries;
  retry_count = 0;
  retry_policy = d.retry_policy;
  timeout_seconds = d.timeout_seconds;
  idempotency_key = d.idempotency_key;
  status = initial_status now d.scheduled_at;
  parent_job_id = d.parent_job_id;
  started_at = none;
  completed_at = none;
  worker_id = none;
  error_message = none;
  error_details = none;
  result = none;
}

-- A time was given without a timezone: it cannot be compared with the time of `create`.
abbrev pub is_naive : Option Datetime → Bool
is_naive none = false
is_naive (some t) = not t.aware

-- What is raised before a row is inserted: TypeError by the comparison, or DataError by the flush.
abbrev pub fault : Option Datetime → Job → Option Error
fault scheduled_at job =
    if is_naive scheduled_at
    then some type_error
    else if fits_columns job
    then none
    else some data_error

module _ (jobs : JobTable) where
  open jobs use {State, first, insert, flush}

  unfoldable pub create : ℕ → ℕ → ℕ → JobCreate → Action State Job
  create job_id now flushed_at d s = elim (fault d.scheduled_at (new_job job_id now flushed_at d)) [
    | some e ↦ (err e, s)
    | none ↦ commit (new_job job_id now flushed_at d) (insert (new_job job_id now flushed_at d) s) s
  ]

  unfoldable pub get_by_id : ℕ → State → Option Job
  get_by_id job_id s = first (λ j. j.job_id == job_id) s

  unfoldable pub get_by_idempotency_key : String → State → Option Job
  get_by_idempotency_key key s = first (λ j. j.idempotency_key == key) s

  -- `job.status = status` and the flush.
  abbrev pub write_status : JobStatus → Job → Action State Job
  write_status status job s =
      commit (record job { status = status }) (flush (record job { status = status }) s) s

  unfoldable pub update_status : ℕ → JobStatus → Action State Job
  update_status job_id status = do
    found ← gets (get_by_id job_id)
    job ← or_raise found job_not_found
    write_status status job

module _ (jobs : JobTable) (store : QueueStore) where
  -- What the service works on: the database and Redis.
  pub record World : Type 0 where
    pub db : jobs.State
    pub redis : store.State

  abbrev pub on_db : {A : Type 0} → Action jobs.State A → Action World A
  on_db m w = let (r, t) = m w.db in (r, record w { db = t })

  abbrev pub on_queue : Option RedisQueue → (RedisQueue → store.State → store.State) → World → World
  on_queue none f w = w
  on_queue (some q) f w = record w { redis = f q w.redis }

  unfoldable pub get_job : ℕ → Action World Job
  get_job job_id w = or_raise (get_by_id jobs job_id w.db) job_not_found w

  abbrev pub enqueue_if_pending : Option RedisQueue → JobStatus → Job → World → World
  enqueue_if_pending queue status job w =
      if status == pending
      then on_queue queue (λ q. enqueue store q job.job_id job.priority) w
      else w

  -- The `except IntegrityError` of `create_job`.
  abbrev pub translate : Bool → Result Job → Result Job
  translate names_key (err integrity_error) =
      if names_key then err duplicate_idempotency_key else err integrity_error
  translate names_key r = r

  abbrev pub enqueue_new : Option RedisQueue → Result Job → World → World
  enqueue_new queue (ok job) w = enqueue_if_pending queue job.status job w
  enqueue_new queue (err e) w = w

  unfoldable pub create_job :
      Option RedisQueue
      → ℕ
      → ℕ
      → ℕ
      → (jobs.State → jobs.State)
      → Bool
      → JobCreate
      → Action World Job
  unfolding create
  create_job queue job_id now flushed_at others names_key d w =
      elim (get_by_idempotency_key jobs d.idempotency_key w.db) [
        | some existing ↦ (err duplicate_idempotency_key, w)
        | none ↦
            let (r, t) = create jobs job_id now flushed_at d (others w.db) in
            (translate names_key r, enqueue_new queue r (record w { db = t }))
      ]

  unfoldable pub cancel_job : Option RedisQueue → ℕ → Action World Job
  unfolding get_job validate_transition
  cancel_job queue job_id = do
    job ← get_job job_id
    validate_transition job.status canceled
    updated_job ← on_db (update_status jobs job_id canceled)
    modify (on_queue queue (λ q s. (remove store q job_id s).1))
    pure updated_job

  unfoldable pub transition_status : Option RedisQueue → ℕ → JobStatus → Action World Job
  unfolding get_job validate_transition
  transition_status queue job_id new_status = do
    job ← get_job job_id
    validate_transition job.status new_status
    updated_job ← on_db (update_status jobs job_id new_status)
    modify (enqueue_if_pending queue new_status updated_job)
    pure updated_job
