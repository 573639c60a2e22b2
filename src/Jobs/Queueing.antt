-- ===== src/Jobs/Queueing.antt =====
-- services/job_service.py: what a call leaves in Redis, with and without a queue.
use schedora.Base.{
  ℕ, Bool, Option, none, some, ◌≡◌, ◌==◌, refl, if◌then◌else◌, inl, inr, Bool-cases,
}
use schedora.Enums.{JobStatus, pending, job_status_eq}
use schedora.Models.{Job, JobTable}
use schedora.Store.{QueueStore}
use schedora.Queue.{RedisQueue, enqueue, remove}
use schedora.Jobs.{World, on_queue, enqueue_if_pending}

module _ (jobs : JobTable) (store : QueueStore) where
  -- Redis after the job `k` with the priority `p` was enqueued, if `waits`.
  abbrev pub redis_enqueued : Option RedisQueue → Bool → ℕ → ℕ → store.State → store.State
  redis_enqueued none waits k p s = s
  redis_enqueued (some q) waits k p s = if waits then enqueue store q k p s else s

  -- Redis after the job `k` was taken out of the queue.
  abbrev pub redis_removed : Option RedisQueue → ℕ → store.State → store.State
  redis_removed none k s = s
  redis_removed (some q) k s = (remove store q k s).1

  pub enqueue_if_pending_lem :
      (queue : Option RedisQueue) (st : JobStatus) (j : Job) (w : World jobs store)
      → enqueue_if_pending jobs store queue st j w
        ≡ record w { redis = redis_enqueued queue (st == pending) j.job_id j.priority w.redis }
  enqueue_if_pending_lem none st j w = elim (Bool-cases (st == pending)) [
    | inl e ↦ rw e refl
    | inr e ↦ rw e refl
  ]
  enqueue_if_pending_lem (some q) st j w = elim (Bool-cases (st == pending)) [
    | inl e ↦ rw e refl
    | inr e ↦ rw e refl
  ]

  pub on_queue-remove :
      (queue : Option RedisQueue) (k : ℕ) (w : World jobs store)
      → on_queue jobs store queue (λ q s. (remove store q k s).1) w
        ≡ record w { redis = redis_removed queue k w.redis }
  on_queue-remove none k w = refl
  on_queue-remove (some q) k w = refl
