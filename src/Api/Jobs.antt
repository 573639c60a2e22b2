-- ===== src/Api/Jobs.antt =====
-- api/v1/jobs.py
pub mod Laws
use schedora.Base.{ℕ, String, Bool, Option, some}
use schedora.Enums.{JobStatus}
use schedora.Errors.{
  Result, ok, err, job_not_found, duplicate_idempotency_key, invalid_state_transition,
}
use schedora.Models.{Job, JobTable}
use schedora.Store.{QueueStore}
use schedora.Queue.{RedisQueue}
use schedora.Jobs.{
  World, JobCreate, create_job as service_create_job, get_job as service_get_job,
  cancel_job as service_cancel_job,
}
use schedora.Api.{StandardResponse, Response, Handler, answer, http_exception, uncaught}

pub record JobCancelResponse : Type 0 where
  pub job_id : ℕ
  pub status : JobStatus

abbrev pub created_answer : Result Job → Response (StandardResponse Job)
created_answer (ok job) =
    answer 201 (record { content = job; code = "JOB_0001"; http_status = "CREATED" })
created_answer (err duplicate_idempotency_key) =
    http_exception 409 (some (record { code = "JOB_4002"; http_status = "CONFLICT" }))
created_answer (err e) = uncaught e

abbrev pub found_answer : Result Job → Response (StandardResponse Job)
found_answer (ok job) = answer 200 (record { content = job; code = "JOB_0002"; http_status = "OK" })
found_answer (err job_not_found) =
    http_exception 404 (some (record { code = "JOB_4001"; http_status = "NOT_FOUND" }))
found_answer (err e) = uncaught e

abbrev pub canceled_answer : Result Job → Response (StandardResponse JobCancelResponse)
canceled_answer (ok job) = answer 200 (record {
  content = record { job_id = job.job_id; status = job.status };
  code = "JOB_0003";
  http_status = "OK";
})
canceled_answer (err job_not_found) =
    http_exception 404 (some (record { code = "JOB_4001"; http_status = "NOT_FOUND" }))
canceled_answer (err invalid_state_transition) =
    http_exception 400 (some (record { code = "JOB_4003"; http_status = "BAD_REQUEST" }))
canceled_answer (err e) = uncaught e

-- `queue` is the one of `get_job_service`: None where Redis is not available.
module _ (jobs : JobTable) (store : QueueStore) (queue : Option RedisQueue) where
  unfoldable pub create_job :
      ℕ
      → ℕ
      → ℕ
      → (jobs.State → jobs.State)
      → Bool
      → JobCreate
      → Handler (World jobs store) (StandardResponse Job)
  create_job job_id now flushed_at others names_key d w =
      let (r, v) = service_create_job jobs store queue job_id now flushed_at others names_key d w in
      (created_answer r, v)

  unfoldable pub get_job : ℕ → Handler (World jobs store) (StandardResponse Job)
  get_job job_id w = let (r, v) = service_get_job jobs store job_id w in (found_answer r, v)

  unfoldable pub cancel_job : ℕ → Handler (World jobs store) (StandardResponse JobCancelResponse)
  cancel_job job_id w =
      let (r, v) = service_cancel_job jobs store queue job_id w in (canceled_answer r, v)
