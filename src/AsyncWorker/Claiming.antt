-- ===== src/AsyncWorker/Claiming.antt =====
-- worker/async_worker.py: one claim by way of the Redis queue.
use schedora.Base.{
  ℕ, String, Option, none, some, List, ◌≡◌, ◌==◌, ◌∙◌, ap, refl, sym, nat_eq, eq_self,
  if◌then◌else◌,
}
use schedora.Enums.{scheduled}
use schedora.Errors.{ok}
use schedora.Models.{Job, JobTable, Dependency}
use schedora.Store.{QueueStore}
use schedora.Queue.{RedisQueue, dequeue}
use schedora.Queue.Order.{queued, IsOrdered, dequeue-IsHighest}
use schedora.Scheduler.{claim_job, claimed_by}
use schedora.Scheduler.Claim.{IsClaimable, claim_job-ok, claim_job-none, claim_job-some}
use schedora.Scheduler.Asked.{claim_job-asked}
use schedora.Jobs.{World}
use schedora.AsyncWorker.{Round, or_none, dequeue_and_claim}

module _ (jobs : JobTable) (links : List Dependency) (store : QueueStore) (worker_id : String)
    (q : RedisQueue) (r : Round jobs.State) (w : World jobs store) where
  open jobs use {State, get}

  -- With a job in the queue the answer is that of the scheduler for this job.
  pub dequeue_and_claim-some :
      (k : ℕ)
      → (dequeue store q w.redis).0 ≡ some k
      → dequeue_and_claim jobs links store worker_id q r w ≡ (
        or_none (claim_job jobs links worker_id r.now r.locked (some k) (r.others w.db)).0,
        record {
          db = (claim_job jobs links worker_id r.now r.locked (some k) (r.others w.db)).1;
          redis = (dequeue store q w.redis).1;
        },
      )
  unfolding dequeue_and_claim
  dequeue_and_claim-some k popped = rw (popped, dequeue_and_claim) refl

  -- If the job at the top of the queue can be claimed, the worker gets it, SCHEDULED for this worker;
  -- the table has that row, and every other row as the other sessions left it, and the job waits in
  -- the queue no longer. The queue is in order.
  pub dequeue_and_claim_takes :
      (j : Job)
      → IsOrdered store q w.redis
      → (dequeue store q w.redis).0 ≡ some j.job_id
      → IsClaimable jobs links r.now r.locked (some j.job_id) (r.others w.db) j
      → (w' : World jobs store) × (dequeue_and_claim jobs links store worker_id q r w
          ≡ (some (record j { status = scheduled; worker_id = some worker_id }), w'))
        × ((k : ℕ)
            → get k w'.db ≡ (
                if j.job_id == k
                then some (record j { status = scheduled; worker_id = some worker_id })
                else get k (r.others w.db)))
        × ((k : ℕ)
            → queued store q k w'.redis
              ≡ (if j.job_id == k then none else queued store q k w.redis))
  dequeue_and_claim_takes j ordered popped able =
      let hit = claim_job-asked jobs links worker_id r.now r.locked (r.others w.db) j able in
      let (i, other, same, _, frame) =
        claim_job-some jobs links worker_id r.now r.locked (some j.job_id) (r.others w.db)
          (claimed_by worker_id j) hit in
      let id : i.job_id ≡ j.job_id = sym (ap (λ x. x.job_id) same) in
      (
        record {
          db = (claim_job jobs links worker_id r.now r.locked (some j.job_id) (r.others w.db)).1;
          redis = (dequeue store q w.redis).1;
        },
        dequeue_and_claim-some j.job_id popped ∙ rw hit refl,
        λ k. frame k ∙ rw id refl,
        (dequeue-IsHighest store q w.redis j.job_id ordered popped).2,
      )

  -- If no row is claimable under the id at the top of the queue (the job is not due, say, or a
  -- dependency has not succeeded), the worker gets None, the table is as the other sessions left it,
  -- and the id is gone from the queue, although the job may still be PENDING. The queue is in order.
  pub dequeue_and_claim_drops :
      (k : ℕ)
      → IsOrdered store q w.redis
      → (dequeue store q w.redis).0 ≡ some k
      → ((j : Job) → ¬ IsClaimable jobs links r.now r.locked (some k) (r.others w.db) j)
      → (w' : World jobs store) × (dequeue_and_claim jobs links store worker_id q r w ≡ (none, w'))
        × (w'.db ≡ r.others w.db)
        × (queued store q k w'.redis ≡ none)
  dequeue_and_claim_drops k ordered popped unable =
      go (claim_job-ok jobs links worker_id r.now r.locked (some k) (r.others w.db))
    where
      go :
          (c : Option Job) × ((claim_job jobs links worker_id r.now r.locked
                (some k)
                (r.others w.db)).0
              ≡ ok c)
          → (w' : World jobs store) × (dequeue_and_claim jobs links store worker_id q r w
              ≡ (none, w'))
            × (w'.db ≡ r.others w.db)
            × (queued store q k w'.redis ≡ none)
      go (some c, e) = absurd (
          let (i, able, _, _, _) =
            claim_job-some jobs links worker_id r.now r.locked (some k) (r.others w.db) c e in
          unable i able)
      go (none, e) = (
        record {
          db = (claim_job jobs links worker_id r.now r.locked (some k) (r.others w.db)).1;
          redis = (dequeue store q w.redis).1;
        },
        dequeue_and_claim-some k popped ∙ rw e refl,
        (claim_job-none jobs links worker_id r.now r.locked (some k) (r.others w.db) e).0,
        (dequeue-IsHighest store q w.redis k ordered popped).2 k ∙ rw (eq_self k) refl,
      )
