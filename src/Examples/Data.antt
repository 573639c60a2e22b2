-- ===== src/Examples/Data.antt =====
-- Sample rows and stores.
use schedora.Base.{
  ℕ, String, Bool, false, Option, none, List, [], ◌∷◌, ◌==◌, ◌||◌, nat_eq, string_eq,
}
use schedora.Enums.{JobStatus, pending, success, fixed}
use schedora.Models.{Job, JobTable, WorkerTable, Dependency, check_job, check_worker}
use schedora.Store.Sample.{list_table}
use schedora.Store.Sample.Keys.{Queues, Presence}
use schedora.Jobs.{JobCreate, Datetime}
use schedora.Heartbeat.{Registration}

abbrev pub job_table : JobTable
job_table =
    list_table (λ j. j.job_id)
      (λ a b. a.job_id == b.job_id || a.idempotency_key == b.idempotency_key) check_job

abbrev pub worker_table : WorkerTable
worker_table = list_table (λ w. w.worker_id) (λ a b. a.worker_id == b.worker_id) check_worker

abbrev pub job_of : ℕ → String → JobStatus → Job
job_of k key st = record {
  job_id = k;
  type = "echo";
  payload = "{}";
  priority = 5;
  scheduled_at = 10;
  max_retries = 3;
  retry_count = 0;
  retry_policy = fixed;
  timeout_seconds = none;
  idempotency_key = key;
  status = st;
  parent_job_id = none;
  started_at = none;
  completed_at = none;
  worker_id = none;
  error_message = none;
  error_details = none;
  result = none;
}

-- Job 1 succeeded, job 2 depends on it, job 3 is free, and job 4 depends on the failed job 5.
abbrev pub links : List Dependency
links =
    record { job_id = 2; depends_on_job_id = 1 } ∷ record { job_id = 4; depends_on_job_id = 5 } ∷ []

abbrev pub rows : List Job
rows = job_of 1 "a" success ∷ job_of 2 "b" pending ∷ job_of 3 "c" pending ∷ []

abbrev pub unlocked : ℕ → Bool
unlocked k = false

abbrev pub request : Option Datetime → JobCreate
request at = record {
  type = "echo";
  payload = "{}";
  priority = 7;
  scheduled_at = at;
  max_retries = 3;
  retry_policy = fixed;
  timeout_seconds = none;
  idempotency_key = "new";
  parent_job_id = none;
}

abbrev pub no_queues : Queues
no_queues = record { zsets = λ k. []; hashes = λ k. [] }

abbrev pub no_presence : Presence
no_presence = record { sets = λ k. []; expires = λ k. 0 }

abbrev pub registration : Registration
registration = record {
  worker_id = "w";
  hostname = "host";
  pid = 1;
  version = "1";
  max_concurrent_jobs = 2;
  capabilities = none;
  metadata = none;
}
