-- ===== src/Examples/Polling.antt =====
-- worker/async_worker.py with a queue, on a few jobs.
use schedora.Base.{
  ℕ, ◌≤◌, true, false, none, some, List, [], ◌∷◌, ◌≡◌, refl, ap, ◌∙◌, arith, IsIn, nat_eq, length,
}
use schedora.Enums.{scheduled, success}
use schedora.Errors.{ok}
use schedora.Models.{Job}
use schedora.Queue.{RedisQueue, dequeue, get_queue_length}
use schedora.Queue.Order.{queued, IsOrdered}
use schedora.Queue.Refinement.{
  Call, enqueue_call, dequeue_call, peek_call, remove_call, AllowsAll, calls, calls-AllowsAll,
}
use schedora.Scheduler.Claim.{IsClaimable}
use schedora.Jobs.{World, new_job, create_job, get_by_idempotency_key}
use schedora.Registry.{get_handler}
use schedora.Executor.{run_handler, run_handler_with_timeout, returned, execute}
use schedora.Executor.Steps.{succeeded}
use schedora.AsyncWorker.{Round, dequeue_and_claim, poll_loop}
use schedora.AsyncWorker.Claiming.{dequeue_and_claim_drops}
use schedora.AsyncWorker.Draining.{IsCalm, unlocked as free_rows, poll_loop_drains}
use schedora.Lifecycle.{created_job_succeeds}
use schedora.Store.Sample.Keys.{Queues, map_queues}
use schedora.Examples.Data.{job_table, links, rows, unlocked, request, no_queues}
use schedora.Examples.Runs.{alone, texts, echo}

abbrev q : RedisQueue
q = record { queue_name = "schedora:queue:jobs"; dlq_name = "schedora:queue:jobs:dlq" }

-- Job 2 with priority 9, and job 3 with priority 5.
abbrev waiting : Queues
waiting = record {
  zsets = λ k. record { member = 2; score = 9 } ∷ record { member = 3; score = 5 } ∷ [];
  hashes = λ k. [];
}

abbrev world : World job_table map_queues
world = record { db = rows; redis = waiting }

abbrev turn : ℕ → Round (List Job)
turn now = record { stop = false; cancelled = false; now = now; locked = unlocked; others = λ s. s }

waiting-IsOrdered : IsOrdered map_queues q waiting
waiting-IsOrdered = ((λ y i. ground arith), ((λ y i. ground arith), tt))

top : (dequeue map_queues q waiting).0 ≡ some 2
unfolding dequeue
top = refl

-- Job 2 is due at 10, and not at 5.
unable_two : (j : Job) → ¬ IsClaimable job_table links 5 unlocked (some 2) rows j
unable_two j able =
    let id : 2 ≡ j.job_id = ground (arith, able.asked) in
    let found : job_table.get 2 rows ≡ some j = ap (λ k. job_table.get k rows) id ∙ able.found in
    ground (arith, able.due)

dequeue_and_claim_drops_example :
    (w' : World job_table map_queues) × (dequeue_and_claim job_table links map_queues "w" q
        (turn 5)
        world
      ≡ (none, w'))
    × (w'.db ≡ rows)
    × (queued map_queues q 2 w'.redis ≡ none)
dequeue_and_claim_drops_example =
    dequeue_and_claim_drops job_table links map_queues "w" q (turn 5) world 2 waiting-IsOrdered top
      unable_two

two_waiting : length (turn 20 ∷ turn 21 ∷ []) ≡ get_queue_length map_queues q waiting
unfolding get_queue_length
two_waiting = refl

calm : (now then_now : ℕ) → now ≤ then_now → IsCalm now (turn then_now)
calm now then_now later = record {
  runs = refl;
  kept = refl;
  later = later;
  free = λ k. refl;
  alone = λ s. refl;
}

poll_loop_drains_example :
    ((j : Job) (p : ℕ)
      → queued map_queues q j.job_id waiting ≡ some p
      → IsClaimable job_table links 20 free_rows none rows j
      → IsIn
          (record j { status = scheduled; worker_id = some "w" })
          (poll_loop job_table links map_queues "w" (some q) (turn 20 ∷ turn 21 ∷ []) world).0)
    × ((k : ℕ)
        → queued map_queues q k
            (poll_loop job_table links map_queues "w"
              (some q)
              (turn 20 ∷ turn 21 ∷ [])
              world).1.redis
          ≡ none)
poll_loop_drains_example =
    poll_loop_drains job_table links map_queues "w" q 20 (turn 20 ∷ turn 21 ∷ []) world two_waiting
      (calm 20 20 (omega arith), (calm 20 21 (omega arith), tt))

abbrev some_calls : List Call
some_calls = enqueue_call 7 6 ∷ peek_call ∷ dequeue_call ∷ remove_call 3 ∷ dequeue_call ∷ []

calls-AllowsAll_example :
    AllowsAll
      (λ k. queued map_queues q k waiting)
      some_calls
      (calls map_queues q some_calls waiting).0
      (λ k. queued map_queues q k (calls map_queues q some_calls waiting).1)
    × IsOrdered map_queues q (calls map_queues q some_calls waiting).1
calls-AllowsAll_example = calls-AllowsAll map_queues q some_calls waiting waiting-IsOrdered

abbrev empty_world : World job_table map_queues
empty_world = record { db = rows; redis = no_queues }

made :
    (create_job job_table map_queues (some q) 7 20 21 (λ s. s) true (request none) empty_world).0
    ≡ ok (new_job 7 20 21 (request none))
unfolding create_job new_job get_by_idempotency_key
made = refl

due : (new_job 7 20 21 (request none)).scheduled_at ≤ 25
unfolding new_job
due = omega arith

echoed :
    run_handler job_table alone texts echo
      (record (new_job 7 20 21 (request none)) { status = scheduled; worker_id = some "w" })
    ≡ returned "{}"
unfolding run_handler get_handler run_handler_with_timeout new_job
echoed = refl

created_job_succeeds_example :
    (w' : World job_table map_queues) × (dequeue_and_claim job_table links map_queues "w" q
        (turn 25)
        (create_job job_table map_queues
          (some q)
          7
          20
          21
          (λ s. s)
          true
          (request none)
          empty_world).1
      ≡ (
        some (record (new_job 7 20 21 (request none)) { status = scheduled; worker_id = some "w" }),
        w',
      ))
    × (t : List Job) × (execute job_table alone texts echo
          (record (new_job 7 20 21 (request none)) { status = scheduled; worker_id = some "w" })
          30
          40
          50
          w'.db
        ≡ (ok (succeeded job_table alone "{}"), t))
    × (job_table.get 7 t
        ≡ some (record (new_job 7 20 21 (request none)) {
          status = success;
          worker_id = some "w";
          started_at = some 30;
          completed_at = some 40;
          result = some "{}";
        }))
created_job_succeeds_example =
    created_job_succeeds job_table links map_queues "w" q alone texts echo 7 20 21 30 40 50 (λ s. s)
      true (request none) empty_world (new_job 7 20 21 (request none)) (turn 25) "{}" made refl refl
      (λ l i same. ground arith) (λ s. refl) refl due (λ n s. refl) (omega arith) echoed
