-- ===== src/Api/Schemas.antt =====
-- api/schemas: the checks of a request before its handler runs. A field is none where it was not sent, or
-- is null and may be; values of other JSON types are left out. A request that fails a check is answered
-- by 422, which is none.
pub mod Accepted
use Prim.Native.String.{count}
use schedora.Base.{ℕ, String, Bool, true, false, Option, none, some, ◌&&◌, leb, ltb, if◌then◌else◌}
use schedora.Enums.{RetryPolicy, exponential}
use schedora.Jobs.{JobCreate, Datetime}
use schedora.Heartbeat.{Registration}

-- A number of a request.
pub data Number : Type 0 where
  natural : ℕ → Number
  negative : Number

infixl 5 ◌>>=◌
abbrev pub ◌>>=◌ : {A B : Type 0} → Option A → (A → Option B) → Option B
none >>= f = none
some a >>= f = f a

abbrev pub default_to : {A : Type 0} → A → Option A → A
default_to d none = d
default_to d (some a) = a

-- `min_length=1, max_length=...`
abbrev pub text_field : ℕ → Option String → Option String
text_field max_length none = none
text_field max_length (some t) =
    if leb 1 (count t) && leb (count t) max_length then some t else none

-- `ge=0`
abbrev pub natural_field : Number → Option ℕ
natural_field (natural n) = some n
natural_field negative = none

-- `ge=0, le=...`
abbrev pub bounded_field : ℕ → Number → Option ℕ
bounded_field le (natural n) = if leb n le then some n else none
bounded_field le negative = none

-- `Optional[int]` with `gt=0`
abbrev pub positive_field : Option Number → Option (Option ℕ)
positive_field none = some none
positive_field (some (natural n)) = if ltb 0 n then some (some n) else none
positive_field (some negative) = none

pub record JobRequest : Type 0 where
  pub type : Option String
  pub payload : Option String
  pub priority : Option Number
  pub scheduled_at : Option Datetime
  pub max_retries : Option Number
  pub retry_policy : Option RetryPolicy
  pub timeout_seconds : Option Number
  pub idempotency_key : Option String
  pub parent_job_id : Option ℕ

unfoldable pub job_create : JobRequest → Option JobCreate
job_create r = do
  type ← text_field 100 r.type
  priority ← bounded_field 10 (default_to (natural 5) r.priority)
  max_retries ← natural_field (default_to (natural 3) r.max_retries)
  timeout_seconds ← positive_field r.timeout_seconds
  idempotency_key ← text_field 255 r.idempotency_key
  some (record {
    type = type;
    payload = default_to "{}" r.payload;
    priority = priority;
    scheduled_at = r.scheduled_at;
    max_retries = max_retries;
    retry_policy = default_to exponential r.retry_policy;
    timeout_seconds = timeout_seconds;
    idempotency_key = idempotency_key;
    parent_job_id = r.parent_job_id;
  })

-- `ge=1`
abbrev pub positive_or_refused : Option Number → Option ℕ
positive_or_refused none = none
positive_or_refused (some (natural n)) = if leb 1 n then some n else none
positive_or_refused (some negative) = none

pub record WorkerRegisterRequest : Type 0 where
  pub worker_id : Option String
  pub hostname : Option String
  pub pid : Option ℕ
  pub max_concurrent_jobs : Option Number
  pub version : Option String
  pub capabilities : Option String
  pub metadata : Option String

unfoldable pub worker_register : WorkerRegisterRequest → Option Registration
worker_register r = do
  worker_id ← r.worker_id
  hostname ← r.hostname
  pid ← r.pid
  max_concurrent_jobs ← positive_or_refused r.max_concurrent_jobs
  some (record {
    worker_id = worker_id;
    hostname = hostname;
    pid = pid;
    version = default_to "1.0.0" r.version;
    max_concurrent_jobs = max_concurrent_jobs;
    capabilities = r.capabilities;
    metadata = r.metadata;
  })

pub record WorkflowCreate : Type 0 where
  pub name : Option String
  pub description : Option String
  pub config : Option String

-- The three arguments of `create_workflow`.
unfoldable pub workflow_create : WorkflowCreate → Option (String × Option String × Option String)
workflow_create r = do name ← text_field 255 r.name; some (name, r.description, r.config)
