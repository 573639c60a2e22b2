-- ===== src/Queue/DeadLetters.antt =====
-- services/redis_queue.py: the dead letter queue beside the queue.
use schedora.Base.{
  ℕ, ◌+◌, String, Option, none, some, ◌≡◌, ◌≢◌, sym, ◌∙◌, ap, ◌==◌, eq_self, ne→eq_false,
  if◌then◌else◌, is_some, nat_eq, string_eq, arith,
}
use schedora.Store.{QueueStore, without}
use schedora.Queue.{new_queue, move_to_dlq, get_queue_length, get_dlq_length, purge, purge_dlq}
use schedora.Queue.Keys.{dlq-ne-queue}
use schedora.Queue.Entries.{score_of, score_of-without}
use schedora.Queue.Order.{queued}

module _ (store : QueueStore) (name : String) where
  open store use {
    State, zset, hash, hset, hash-hset, hash-zrem, hash-delete, hlen-hset, hlen-zrem, hlen-delete,
    zset-zrem, zset-hset, zset-delete, zcard-zset,
  }

  abbrev key : String
  key = (new_queue name).queue_name

  abbrev dead : String
  dead = (new_queue name).dlq_name

  -- The dead letter of a job.
  abbrev pub letter : ℕ → State → Option String
  letter k s = hash (new_queue name).dlq_name k s

  apart : (new_queue name).dlq_name ≢ (new_queue name).queue_name
  apart = dlq-ne-queue name

  -- Moving a job to the dead letter queue takes it, and no other, out of the queue, and writes its
  -- letter, and no other. The number of letters grows by one if the job had none.
  pub move_to_dlq_lem :
      (json : ℕ → String → ℕ → String) (j k now : ℕ) (reason : String) (s : State)
      → let s' = move_to_dlq store (new_queue name) json j reason now s in
        (queued store (new_queue name) k s'
          ≡ (if j == k then none else queued store (new_queue name) k s))
        × (letter k s' ≡ (if j == k then some (json j reason now) else letter k s))
        × (get_dlq_length store (new_queue name) s'
            ≡ get_dlq_length store (new_queue name) s + (if is_some (letter j s) then 0 else 1))
  unfolding move_to_dlq get_dlq_length
  move_to_dlq_lem json j k now reason s = (
    ap (score_of k)
          (zset-zrem key key j written ∙ ap (λ z. if key == key then without j z else z) kept)
        ∙ rw (eq_self key) (score_of-without k j (zset key s)),
    hash-zrem dead key k j written other
        ∙ hash-hset dead dead k j (json j reason now) s
        ∙ rw (eq_self dead),
    hlen-zrem dead key j written other ∙ hlen-hset dead j (json j reason now) s ∙ ground arith,
  )
    where
      other : key ≢ dead
      other e = apart (sym e)

      written : State
      written = hset dead j (json j reason now) s

      kept : zset key written ≡ zset key s
      kept = zset-hset key dead j (json j reason now) s apart

  -- Purging the queue leaves no job waiting and every letter, and purging the letters leaves none
  -- and every waiting job.
  pub purge_lem :
      (k : ℕ) (s : State)
      → (queued store (new_queue name) k (purge store (new_queue name) s) ≡ none)
        × (get_queue_length store (new_queue name) (purge store (new_queue name) s) ≡ 0)
        × (letter k (purge store (new_queue name) s) ≡ letter k s)
        × (letter k (purge_dlq store (new_queue name) s) ≡ none)
        × (get_dlq_length store (new_queue name) (purge_dlq store (new_queue name) s) ≡ 0)
        × (queued store (new_queue name) k (purge_dlq store (new_queue name) s)
            ≡ queued store (new_queue name) k s)
  unfolding purge purge_dlq get_queue_length get_dlq_length
  purge_lem k s = (
    rw (zset-delete key key s, eq_self key),
    zcard-zset key _ ∙ rw (zset-delete key key s, eq_self key),
    rw (hash-delete dead key k s, ne→eq_false key dead (λ e. apart (sym e))),
    rw (hash-delete dead dead k s, eq_self dead),
    rw (hlen-delete dead dead s, eq_self dead),
    rw (zset-delete key dead s, ne→eq_false dead key apart),
  )
