-- ===== src/Queue.antt =====
-- services/redis_queue.py: the priority queue of job ids on a sorted set, and the dead letter queue
-- on a hash. A member is the UUID itself where the code stores `str(job_id)` and reads it back by
-- `UUID(...)`. `json` stands for `json.dumps` of the three values of a dead letter.
pub mod Entries
pub mod Keys
pub mod Order
pub mod Refinement
pub mod Drain
pub mod DeadLetters
use Prim.Native.String.{◌++◌}
use schedora.Base.{ℕ, String, Bool, Option, none, some, ltb, head_of}
use schedora.Store.{Entry, QueueStore}

-- The attributes that `__init__` sets.
pub record RedisQueue : Type 0 where
  pub queue_name : String
  pub dlq_name : String

unfoldable pub new_queue : String → RedisQueue
new_queue name =
    let queue_name : String = "schedora:queue:" ++ name in
    record { queue_name = queue_name; dlq_name = queue_name ++ ":dlq" }

abbrev pub entry_id : Option Entry → Option ℕ
entry_id none = none
entry_id (some x) = some x.member

module _ (store : QueueStore) (q : RedisQueue) where
  open store use {State, zset, zadd, zpopmax, zrem, zcard, hset, hlen, delete}

  unfoldable pub enqueue : ℕ → ℕ → State → State
  enqueue job_id priority s = zadd q.queue_name (record { member = job_id; score = priority }) s

  unfoldable pub dequeue : State → Option ℕ × State
  dequeue s = let (result, s') = zpopmax q.queue_name s in (entry_id result, s')

  -- ZRANGE 0 0 REV: the highest entry.
  unfoldable pub peek : State → Option ℕ
  peek s = entry_id (head_of (zset q.queue_name s))

  unfoldable pub remove : ℕ → State → Bool × State
  remove job_id s = let (removed, s') = zrem q.queue_name job_id s in (ltb 0 removed, s')

  unfoldable pub get_queue_length : State → ℕ
  get_queue_length s = zcard q.queue_name s

  unfoldable pub move_to_dlq : (ℕ → String → ℕ → String) → ℕ → String → ℕ → State → State
  unfolding remove
  move_to_dlq json job_id reason now s =
      (remove job_id (hset q.dlq_name job_id (json job_id reason now) s)).1

  unfoldable pub get_dlq_length : State → ℕ
  get_dlq_length s = hlen q.dlq_name s

  unfoldable pub purge : State → State
  purge s = delete q.queue_name s

  unfoldable pub purge_dlq : State → State
  purge_dlq s = delete q.dlq_name s
