-- ===== src/Models.antt =====
-- schedora/models: the rows of the tables `jobs`, `workers` and `workflows`, with the CHECK
-- constraints of their tables. A UUID and a time (microseconds since the epoch) are numbers; a JSONB
-- column is its text.
use Prim.Native.String.{count}
use schedora.Base.{
  ℕ, String, Bool, true, ◌&&◌, ◌||◌, ◌==◌, nat_eq, string_eq, Option, none, some, ltb, leb,
}
use schedora.Store.{Table}
use schedora.Enums.{JobStatus, RetryPolicy, WorkerStatus}

pub record Job : Type 0 where
  pub job_id : ℕ
  pub type : String
  pub payload : String
  pub priority : ℕ
  pub scheduled_at : ℕ
  pub max_retries : ℕ
  pub retry_count : ℕ
  pub retry_policy : RetryPolicy
  pub timeout_seconds : Option ℕ
  pub idempotency_key : String
  pub status : JobStatus
  pub parent_job_id : Option ℕ
  pub started_at : Option ℕ
  pub completed_at : Option ℕ
  pub worker_id : Option String
  pub error_message : Option String
  pub error_details : Option String
  pub result : Option String

-- `x IS NULL OR p x`
abbrev pub null_or : Option ℕ → (ℕ → Bool) → Bool
null_or none p = true
null_or (some x) p = p x

-- The CHECK constraints of `jobs`. Those that ask for a number from 0 up hold of every ℕ.
abbrev pub check_job : Job → Bool
check_job j =
    leb j.priority 10
    && (leb j.retry_count j.max_retries
        && (null_or j.timeout_seconds (λ t. ltb 0 t)
            && null_or j.completed_at (λ c. null_or j.started_at (λ s. leb s c))))

-- The largest number of an `Integer` column.
abbrev pub max_integer : ℕ
max_integer = 2_147_483_647

-- `jobs.worker_id` is a String(100).
abbrev pub fits_worker_id : Option String → Bool
fits_worker_id none = true
fits_worker_id (some worker_id) = leb (count worker_id) 100

-- The values fit the columns of `jobs`: its numbers, and its texts of a limited length.
abbrev pub fits_columns : Job → Bool
fits_columns j =
    leb (count j.type) 100
    && (leb j.priority max_integer
        && (leb j.max_retries max_integer
            && (leb j.retry_count max_integer
                && (null_or j.timeout_seconds (λ t. leb t max_integer)
                    && (leb (count j.idempotency_key) 255 && fits_worker_id j.worker_id)))))

-- A row of `job_dependencies`.
pub record Dependency : Type 0 where
  pub job_id : ℕ
  pub depends_on_job_id : ℕ

pub record Worker : Type 0 where
  pub worker_id : String
  pub hostname : String
  pub pid : ℕ
  pub version : String
  pub status : WorkerStatus
  pub last_heartbeat_at : Option ℕ
  pub started_at : Option ℕ
  pub stopped_at : Option ℕ
  pub max_concurrent_jobs : ℕ
  pub current_job_count : ℕ
  pub total_jobs_processed : ℕ
  pub total_jobs_succeeded : ℕ
  pub total_jobs_failed : ℕ
  pub cpu_percent : Option ℕ
  pub memory_percent : Option ℕ
  pub capabilities : Option String
  pub worker_metadata : Option String

-- The CHECK constraints of `workers`.
abbrev pub check_worker : Worker → Bool
check_worker w =
    ltb 0 w.max_concurrent_jobs
    && (leb w.current_job_count w.max_concurrent_jobs
        && null_or w.stopped_at (λ t. null_or w.started_at (λ s. leb s t)))

pub record Workflow : Type 0 where
  pub workflow_id : ℕ
  pub name : String
  pub description : Option String
  pub config : Option String

-- The tables, with their primary keys, unique columns and CHECK constraints.
abbrev pub JobTable : Type 1
JobTable =
    Table ℕ Job (λ j. j.job_id)
      (λ a b. a.job_id == b.job_id || a.idempotency_key == b.idempotency_key) check_job

abbrev pub WorkerTable : Type 1
WorkerTable =
    Table String Worker (λ w. w.worker_id) (λ a b. a.worker_id == b.worker_id) check_worker

abbrev pub WorkflowTable : Type 1
WorkflowTable =
    Table ℕ Workflow (λ w. w.workflow_id)
      (λ a b. a.workflow_id == b.workflow_id || a.name == b.name) (λ w. true)
