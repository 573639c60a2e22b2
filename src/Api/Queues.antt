-- ===== src/Api/Queues.antt =====
-- api/v1/queue.py, with the dependency `get_redis_queue`: without Redis each request is refused.
use schedora.Base.{ℕ, Option, none, some}
use schedora.Store.{QueueStore}
use schedora.Queue.{
  RedisQueue, peek, purge, purge_dlq as service_purge_dlq, get_queue_length, get_dlq_length,
}
use schedora.Api.{Response, Handler, answer, http_exception}

pub record QueueStatsResponse : Type 0 where
  pub pending_jobs : ℕ
  pub dlq_jobs : ℕ

-- `if not job_id`
abbrev pub peek_answer : Option ℕ → Response ℕ
peek_answer none = http_exception 404 none
peek_answer (some job_id) = answer 200 job_id

module _ (store : QueueStore) where
  -- `get_redis_queue`
  abbrev pub with_queue :
      {T : Type 0}
      → (RedisQueue → Handler store.State T)
      → Option RedisQueue
      → Handler store.State T
  with_queue handler none s = (http_exception 503 none, s)
  with_queue handler (some q) s = handler q s

  unfoldable pub get_queue_stats : Option RedisQueue → Handler store.State QueueStatsResponse
  get_queue_stats = with_queue λ q s. (
    answer 200
        (record { pending_jobs = get_queue_length store q s; dlq_jobs = get_dlq_length store q s }),
    s,
  )

  unfoldable pub purge_queue : Option RedisQueue → Handler store.State (Unit {0})
  purge_queue = with_queue λ q s. (answer 200 tt, purge store q s)

  unfoldable pub purge_dlq : Option RedisQueue → Handler store.State (Unit {0})
  purge_dlq = with_queue λ q s. (answer 200 tt, service_purge_dlq store q s)

  unfoldable pub peek_next_job : Option RedisQueue → Handler store.State ℕ
  peek_next_job = with_queue λ q s. (peek_answer (peek store q s), s)
