-- ===== src/Queue/Keys.antt =====
-- services/redis_queue.py: the Redis keys of the queues.
use Prim.Native.String.{◌++◌}
use text.Mathlib.TextLemmas.{append_cancel_left, append_cancel_right, append_assoc, append-nil}
use schedora.Base.{String, ◌≡◌, ◌≢◌, sym, ◌∙◌}
use schedora.Queue.{new_queue}

-- A queue and its own dead letter queue have different keys.
pub dlq-ne-queue : (name : String) → (new_queue name).dlq_name ≢ (new_queue name).queue_name
unfolding new_queue
dlq-ne-queue name h =
    cc (append_cancel_left ("schedora:queue:" ++ name) ":dlq" "" (h ∙ sym (append-nil _)))

-- Queues with different names share neither their keys nor their dead letter keys.
pub new_queue-injective :
    (a b : String)
    → a ≢ b
    → ((new_queue a).queue_name ≢ (new_queue b).queue_name)
      × ((new_queue a).dlq_name ≢ (new_queue b).dlq_name)
unfolding new_queue
new_queue-injective a b h = (
  λ same. h (append_cancel_left "schedora:queue:" a b same),
  λ same. h (append_cancel_left "schedora:queue:" a b (append_cancel_right _ _ ":dlq" same)),
)

-- The queue that is named after another one with `:dlq` behind it is that one's dead letter key.
pub new_queue-clash :
    (name : String) → (new_queue (name ++ ":dlq")).queue_name ≡ (new_queue name).dlq_name
unfolding new_queue
new_queue-clash name = sym (append_assoc "schedora:queue:" name ":dlq")
