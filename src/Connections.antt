-- ===== src/Connections.antt =====
-- core/redis.py and the dependencies of api/deps.py for Redis. A client is a number, given by the library
-- in the order in which clients are made; `unclosed` are those that were made and not closed.
pub mod Singletons
use schedora.Base.{
  Bool, if◌then◌else◌, ℕ, ◌+◌, Option, none, some, List, [], ◌∷◌, ◌==◌, nat_eq, not, keep,
}
use schedora.Queue.{RedisQueue, new_queue}

-- The two globals of the module, and what the library holds.
pub record Clients : Type 0 where
  pub redis_client : Option ℕ
  pub async_redis_client : Option ℕ
  pub made : ℕ
  pub unclosed : List ℕ

abbrev pub no_clients : Clients
no_clients = record { redis_client = none; async_redis_client = none; made = 0; unclosed = [] }

-- `from_url`
abbrev from_url : Clients → ℕ × Clients
from_url c = (c.made, record c { made = c.made + 1; unclosed = c.made ∷ c.unclosed })

-- `close` of a client
abbrev close : ℕ → Clients → Clients
close k c = record c { unclosed = keep (λ x. not (x == k)) c.unclosed }

unfoldable pub get_redis : Clients → ℕ × Clients
get_redis c = elim c.redis_client [
  | some client ↦ (client, c)
  | none ↦ let (client, d) = from_url c in (client, record d { redis_client = some client })
]

unfoldable pub get_async_redis : Clients → ℕ × Clients
get_async_redis c = elim c.async_redis_client [
  | some client ↦ (client, c)
  | none ↦ let (client, d) = from_url c in (client, record d { async_redis_client = some client })
]

unfoldable pub close_redis : Clients → Clients
close_redis c = elim c.redis_client [
  | none ↦ c
  | some client ↦ record (close client c) { redis_client = none }
]

unfoldable pub close_async_redis : Clients → Clients
close_async_redis c = elim c.async_redis_client [
  | none ↦ c
  | some client ↦ record (close client c) { async_redis_client = none }
]

module _ (is_true : ℕ → Bool) where
  -- `RedisQueue(redis) if redis else None`, the queue of the service.
  unfoldable pub get_job_service : Clients → Option RedisQueue × Clients
  unfolding get_redis
  get_job_service c =
      let (redis, d) = get_redis c in (if is_true redis then some (new_queue "jobs") else none, d)

  -- None stands for the HTTPException 503.
  unfoldable pub get_redis_queue : Clients → Option RedisQueue × Clients
  unfolding get_redis
  get_redis_queue c =
      let (redis, d) = get_redis c in
      (if not (is_true redis) then none else some (new_queue "jobs"), d)
