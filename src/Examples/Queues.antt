-- ===== src/Examples/Queues.antt =====
-- services/redis_queue.py on a queue of two jobs.
use schedora.Base.{
  ℕ, ◌+◌, true, none, [], ◌∷◌, ◌≡◌, nat_eq, ◌↔◌, IsIn, if◌then◌else◌, is_some, arith,
}
use schedora.Queue.{RedisQueue, new_queue, get_queue_length, move_to_dlq, get_dlq_length}
use schedora.Queue.Order.{queued, IsOrdered}
use schedora.Queue.Drain.{Falls, drain, drain_queue}
use schedora.Queue.DeadLetters.{letter, move_to_dlq_lem}
use schedora.Store.Sample.Keys.{Queues, map_queues}

abbrev jobs : RedisQueue
jobs = record { queue_name = "schedora:queue:jobs"; dlq_name = "schedora:queue:jobs:dlq" }

-- Job 8 with priority 9, and job 6 with priority 2.
abbrev two : Queues
two = record {
  zsets = λ k. record { member = 8; score = 9 } ∷ record { member = 6; score = 2 } ∷ [];
  hashes = λ k. [];
}

two-IsOrdered : IsOrdered map_queues jobs two
two-IsOrdered = ((λ y i. ground arith), ((λ y i. ground arith), tt))

drain_queue_example :
    let (js, s') = drain map_queues jobs (get_queue_length map_queues jobs two) two in
    Falls (λ k. queued map_queues jobs k two) js
    × ((k : ℕ) → IsIn k js ↔ (is_some (queued map_queues jobs k two) ≡ true))
    × ((k : ℕ) → queued map_queues jobs k s' ≡ none)
drain_queue_example = drain_queue map_queues jobs two two-IsOrdered

move_to_dlq_lem_example :
    let s' = move_to_dlq map_queues (new_queue "jobs") (λ j r t. r) 8 "boom" 3 two in
    (queued map_queues (new_queue "jobs") 6 s' ≡ queued map_queues (new_queue "jobs") 6 two)
    × (letter map_queues "jobs" 6 s' ≡ letter map_queues "jobs" 6 two)
    × (get_dlq_length map_queues (new_queue "jobs") s'
        ≡ get_dlq_length map_queues (new_queue "jobs") two
          + (if is_some (letter map_queues "jobs" 8 two) then 0 else 1))
move_to_dlq_lem_example = move_to_dlq_lem map_queues "jobs" (λ j r t. r) 8 6 3 "boom" two
