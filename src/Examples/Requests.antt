-- ===== src/Examples/Requests.antt =====
-- services/job_service.py on a few requests.
use schedora.Base.{
  ≡→eq, ◌∙◌, string_eq, ℕ, Bool, true, false, Option, none, some, List, [], ◌∷◌, ◌≡◌, ◌≢◌, ◌==◌,
  nat_eq, refl, IsIn, if◌then◌else◌, arith, ap,
}
use schedora.Enums.{job_status_eq, pending, scheduled}
use schedora.Errors.{ok}
use schedora.Models.{Job}
use schedora.Queue.{RedisQueue}
use schedora.Jobs.{World, Datetime, new_job, create_job, get_by_idempotency_key}
use schedora.Jobs.Queueing.{redis_enqueued}
use schedora.Jobs.Create.{create_job-ok}
use schedora.Jobs.Future.{create_job_future}
use schedora.Scheduler.Exclusive.{stop}
use schedora.Store.Sample.Keys.{map_queues}
use schedora.Examples.Data.{job_table, job_of, rows, links, request, no_queues}

abbrev jobs : Option RedisQueue
jobs = some (record { queue_name = "schedora:queue:jobs"; dlq_name = "schedora:queue:jobs:dlq" })

abbrev start : World job_table map_queues
start = record { db = rows; redis = no_queues }

abbrev added : Job
added = job_of 9 "z" pending

-- Between the check and the INSERT another session commits a job.
abbrev others : List Job → List Job
others s = added ∷ s

abbrev at_fifty : Datetime
at_fifty = record { instant = 50; aware = true }

created_now :
    (create_job job_table map_queues jobs 7 20 21 others true (request none) start).0
    ≡ ok (new_job 7 20 21 (request none))
unfolding create_job new_job get_by_idempotency_key
created_now = refl

create_job-ok_example :
    (t : List Job) × (new_job 7 20 21 (request none) ≡ new_job 7 20 21 (request none))
    × ((create_job job_table map_queues jobs 7 20 21 others true (request none) start).1 ≡ record {
      db = t;
      redis =
          redis_enqueued job_table map_queues jobs
            ((new_job 7 20 21 (request none)).status == pending)
            7
            7
            no_queues;
    })
    × ((new_job 7 20 21 (request none)).status ≡ pending)
    × ((new_job 7 20 21 (request none)).retry_count ≡ 0)
    × ((k : ℕ)
        → job_table.get k t ≡ (
            if 7 == k
            then some (new_job 7 20 21 (request none))
            else job_table.get k (others rows)))
    × ((k : ℕ) (x : Job) → job_table.get k t ≡ some x → x.idempotency_key ≡ "new" → k ≡ 7)
create_job-ok_example =
    create_job-ok job_table map_queues jobs 7 20 21 others true (request none) start
      (new_job 7 20 21 (request none)) created_now

created_for_later :
    (create_job job_table map_queues jobs 7 20 21 others true (request (some at_fifty)) start).0
    ≡ ok (new_job 7 20 21 (request (some at_fifty)))
unfolding create_job new_job get_by_idempotency_key
created_for_later = refl

create_job_future_example :
    ((new_job 7 20 21 (request (some at_fifty))).status ≡ scheduled)
    × ((create_job job_table map_queues jobs 7 20 21 others true
          (request (some at_fifty))
          start).1.redis
        ≡ no_queues)
    × ¬ IsIn (new_job 7 20 21 (request (some at_fifty))).job_id []
create_job_future_example =
    create_job_future job_table map_queues jobs links 7 20 21 others true (request (some at_fifty))
      start at_fifty (new_job 7 20 21 (request (some at_fifty))) [] _ refl (omega arith)
      created_for_later stop

only_row :
    (found : Bool) (x : Job)
    → (if found then some added else none) ≡ some x
    → (x.job_id ≢ 7) × (x.idempotency_key ≢ "new")
only_row true x h =
    let same : added ≡ x = ground arith in
    (λ e. ground arith, λ e. cc (≡→eq "z" "new" (ap (λ r. r.idempotency_key) same ∙ e)))
only_row false x h = cc h
