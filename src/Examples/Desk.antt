-- ===== src/Examples/Desk.antt =====
-- api/v1 on a few requests.
use schedora.Base.{
  ℕ, ◌<◌, Bool, true, Option, none, some, List, ◌≡◌, ◌==◌, refl, if◌then◌else◌, nat_eq,
}
use schedora.Enums.{pending, canceled}
use schedora.Models.{Job, Worker}
use schedora.Queue.{RedisQueue}
use schedora.Jobs.{
  World, JobCreate, new_job, create_job as service_create_job, get_by_idempotency_key,
}
use schedora.Jobs.Queueing.{redis_removed}
use schedora.Heartbeat.{new_worker}
use schedora.Api.{answer, http_exception}
use schedora.Api.Jobs.{create_job, get_job, cancel_job}
use schedora.Api.Jobs.Laws.{create_job-get_job, cancel_job_lem}
use schedora.Api.Workers.{register_worker, get_worker}
use schedora.Api.Workers.Laws.{register_worker-get_worker}
use schedora.Store.Sample.Keys.{map_queues, map_presence}
use schedora.Examples.Data.{job_of, job_table, worker_table, rows, request, no_queues, registration}
use schedora.Examples.Workers.{Fleet, nobody}

abbrev queue : Option RedisQueue
queue = some (record { queue_name = "schedora:queue:jobs"; dlq_name = "schedora:queue:jobs:dlq" })

abbrev Rows : Type 0
Rows = World job_table map_queues

abbrev start : Rows
start = record { db = rows; redis = no_queues }

abbrev others : List Job → List Job
others s = s

abbrev after : Rows
after = (create_job job_table map_queues queue 7 20 21 others true (request none) start).1

accepted : create_job job_table map_queues queue 7 20 21 others true (request none) start ≡ (
  answer 201 (record {
    content = new_job 7 20 21 (request none);
    code = "JOB_0001";
    http_status = "CREATED";
  }),
  after,
)
unfolding create_job service_create_job new_job get_by_idempotency_key
accepted = refl

abbrev created_code : ℕ
created_code = 201

create_job-get_job_example :
    (created_code ≡ 201)
    × (new_job 7 20 21 (request none) ≡ new_job 7 20 21 (request none))
    × (get_job job_table map_queues queue 7 after ≡ (
      answer 200 (record {
        content = new_job 7 20 21 (request none);
        code = "JOB_0002";
        http_status = "OK";
      }),
      after,
    ))
    × ((i later later_flush : ℕ) (more : List Job → List Job) (named : Bool) (e : JobCreate)
        → create_job job_table map_queues queue i later later_flush more named
            (record e { idempotency_key = "new" })
            after
          ≡ (
            http_exception 409 (some (record { code = "JOB_4002"; http_status = "CONFLICT" })),
            after,
          ))
create_job-get_job_example =
    create_job-get_job job_table map_queues queue 7 20 21 others true (request none) start after 201
      (record {
        content = new_job 7 20 21 (request none);
        code = "JOB_0001";
        http_status = "CREATED";
      })
      accepted

cancel_job_lem_example :
    (v : Rows) × (cancel_job job_table map_queues queue 2 start ≡ (
      answer 200 (record {
        content = record { job_id = 2; status = canceled };
        code = "JOB_0003";
        http_status = "OK";
      }),
      v,
    ))
    × ((i : ℕ)
        → job_table.get i v.db ≡ (
            if 2 == i
            then some (record (job_of 2 "b" pending) { status = canceled })
            else job_table.get i rows))
    × (v.redis ≡ redis_removed job_table map_queues queue 2 no_queues)
cancel_job_lem_example =
    cancel_job_lem job_table map_queues queue 2 (job_of 2 "b" pending) start refl

register_worker-get_worker_example :
    (worker_table.get "w" nobody.worker_rows ≡ none
      → 0 < 2
      → (t : Fleet) × (register_worker job_table worker_table map_presence 30 5 registration nobody
          ≡ (answer 201 (new_worker 5 registration), t))
        × (get_worker job_table worker_table map_presence 30 "w" t
            ≡ (answer 200 (new_worker 5 registration), t)))
    × ((w : Worker)
        → worker_table.get "w" nobody.worker_rows ≡ some w
        → register_worker job_table worker_table map_presence 30 5 registration nobody
          ≡ (http_exception 400 none, nobody))
register_worker-get_worker_example =
    register_worker-get_worker job_table worker_table map_presence 30 nobody 5 registration
