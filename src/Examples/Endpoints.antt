-- ===== src/Examples/Endpoints.antt =====
-- api/v1 and api/schemas: status codes, and a request that passes its checks.
use schedora.Base.{true, false, none, some, [], ◌∷◌, ◌≡◌, refl, IsIn}
use schedora.Models.{check_job}
use schedora.Errors.{type_error, data_error}
use schedora.Jobs.{
  World, JobCreate, new_job, get_by_idempotency_key, create_job as service_create_job,
}
use schedora.Api.{answer, uncaught}
use schedora.Api.Jobs.{create_job, get_job, cancel_job}
use schedora.Api.Codes.{status_code, job_codes}
use schedora.Api.Schemas.{JobRequest, natural, job_create}
use schedora.Api.Schemas.Accepted.{Fits, requested_job}
use schedora.Enums.{exponential}
use schedora.Store.Sample.Keys.{map_queues}
use schedora.Examples.Data.{job_table, rows, request, no_queues}

abbrev world : World job_table map_queues
world = record { db = rows; redis = no_queues }

abbrev empty_world : World job_table map_queues
empty_world = record { db = []; redis = no_queues }

job_codes_example :
    IsIn (status_code (get_job job_table map_queues none 2 world).0) (200 ∷ 404 ∷ [])
    × IsIn (status_code (cancel_job job_table map_queues none 2 world).0) (200 ∷ 400 ∷ 404 ∷ [])
    × IsIn
        (status_code
          (create_job job_table map_queues none 7 20 21 (λ s. s) true (request none) world).0)
        (201 ∷ 409 ∷ [])
unfolding new_job
job_codes_example = job_codes job_table map_queues none 2 7 20 21 (λ s. s) true (request none) world

abbrev sent : JobRequest
sent = record {
  type = some "echo";
  payload = none;
  priority = some (natural 7);
  scheduled_at = none;
  max_retries = none;
  retry_policy = none;
  timeout_seconds = some (natural 60);
  idempotency_key = some "new";
  parent_job_id = none;
}

abbrev checked : JobCreate
checked = record (request none) { retry_policy = exponential; timeout_seconds = some 60 }

passes : job_create sent ≡ some checked
unfolding job_create
passes = refl

requested_job_example :
    Fits checked
    × (check_job (new_job 7 20 21 checked) ≡ true)
    × ((create_job job_table map_queues none 7 20 21 (λ s. s) true checked empty_world).0
        ≡ answer 201 (record {
          content = new_job 7 20 21 checked;
          code = "JOB_0001";
          http_status = "CREATED";
        }))
requested_job_example =
    requested_job job_table map_queues none sent checked 7 20 21 (λ s. s) true empty_world passes
      (λ k x found. absurd (cc found)) (λ k x found. absurd (cc found))

-- What no handler catches: a time without a timezone, and a number that its column does not hold.
abbrev naive : JobCreate
naive = request (some (record { instant = 50; aware = false }))

abbrev too_many : JobCreate
too_many = record (request none) { max_retries = 2_147_483_648 }

naive_refused :
    (create_job job_table map_queues none 7 20 21 (λ s. s) true naive empty_world).0
    ≡ uncaught type_error
unfolding create_job service_create_job get_by_idempotency_key new_job
naive_refused = refl

too_many_refused :
    (create_job job_table map_queues none 7 20 21 (λ s. s) true too_many empty_world).0
    ≡ uncaught data_error
unfolding create_job service_create_job get_by_idempotency_key new_job
too_many_refused = refl
