-- ===== src/Queue/Drain.antt =====
-- services/redis_queue.py: emptying a queue by `dequeue`.
use schedora.Base.{
  ℕ, zero, suc, ◌≤◌, true, Option, none, some, List, [], ◌∷◌, ◌≡◌, ◌≢◌, ◌↔◌, ◌∙◌, ap, refl, IsIn,
  IsIn-map, length, map, is_some, nat_eq, string_eq, arith, inl, inr, head_of, tail_of,
}
use schedora.Store.{Entry, QueueStore}
use schedora.Queue.{RedisQueue, entry_id, dequeue, get_queue_length}
use schedora.Queue.Entries.{score_of, IsRanked}
use schedora.Queue.Order.{queued, IsOrdered, dequeue_head, zset-dequeue}

-- Every job of the list has a priority; it stands once, and no later one has a greater priority.
abbrev pub Falls : (ℕ → Option ℕ) → List ℕ → Type 0
Falls f [] = Unit
Falls f (j ∷ js) =
    ((p : ℕ) × (f j ≡ some p) × ((k r : ℕ) → IsIn k js → f k ≡ some r → (r ≤ p) × (k ≢ j)))
    × Falls f js

score_of_self :
    (y : Entry) (l : List Entry) → IsRanked l → IsIn y l → score_of y.member l ≡ some y.score
score_of_self y [] r i = elim i [ ]
score_of_self y (x ∷ l) r (inl same) = rw same (ground arith)
score_of_self y (x ∷ l) r (inr i) = ground (arith, score_of_self y l r.1 i, r.0 y i)

mem-map_iff :
    (k : ℕ) (l : List Entry) → IsIn k (map (λ x. x.member) l) ↔ (is_some (score_of k l) ≡ true)
mem-map_iff k [] = ((λ i. elim i [ ]), λ h. cc)
mem-map_iff k (x ∷ l) = ground (arith, mem-map_iff k l)

map-Falls :
    (f : ℕ → Option ℕ) (l : List Entry)
    → ((y : Entry) → IsIn y l → f y.member ≡ some y.score)
    → IsRanked l
    → Falls f (map (λ x. x.member) l)
map-Falls f [] scores r = tt
map-Falls f (x ∷ l) scores r = (
  (
    x.score,
    scores x (inl refl),
    λ k p i found.
        let (y, m, e) = IsIn-map (λ z. z.member) k l i in ground (arith, r.0 y m, scores y (inr m)),
  ),
  map-Falls f l (λ y i. scores y (inr i)) r.1,
)

module _ (store : QueueStore) (q : RedisQueue) where
  open store use {
    State, zset, zpopmax, zset-zadd, zpopmax_head, zset-zpopmax, zrem_count, zset-zrem, zcard-zset,
    zset-delete,
  }

  -- A worker that dequeues `n` times, up to the first None.
  pub drain : ℕ → State → List ℕ × State
  drain zero s = ([], s)
  drain (suc n) s = elim (dequeue store q s).0 [
    | none ↦ ([], (dequeue store q s).1)
    | some j ↦ let (js, s') = drain n (dequeue store q s).1 in (j ∷ js, s')
  ]

  drain_all :
      (l : List Entry) (s : State)
      → zset q.queue_name s ≡ l
      → ((drain (length l) s).0 ≡ map (λ x. x.member) l)
        × (zset q.queue_name (drain (length l) s).1 ≡ [])
  unfolding drain
  drain_all [] s h = (refl, h)
  drain_all (x ∷ l) s h =
      let first : (dequeue store q s).0 ≡ some x.member =
        dequeue_head store q s ∙ ap (λ z. entry_id (head_of z)) h in
      let (rest, empty) =
        drain_all l (dequeue store q s).1 (zset-dequeue store q s ∙ ap tail_of h) in
      rw (first, drain) (ap (λ z. x.member ∷ z) rest, empty)

  -- As many dequeues as the queue is long give every waiting job exactly once, in the order of
  -- non-increasing priority, and leave no job waiting. The queue is in order.
  pub drain_queue :
      (s : State)
      → IsOrdered store q s
      → let (js, s') = drain (get_queue_length store q s) s in
        Falls (λ k. queued store q k s) js
        × ((k : ℕ) → IsIn k js ↔ (is_some (queued store q k s) ≡ true))
        × ((k : ℕ) → queued store q k s' ≡ none)
  unfolding get_queue_length
  drain_queue s r =
      let (all, empty) = drain_all (zset q.queue_name s) s refl in
      rw (zcard-zset q.queue_name s) (
        rw all (
          (map-Falls (λ k. queued store q k s) _ (λ y i. score_of_self y _ r i) r),
          (λ k. mem-map_iff k (zset q.queue_name s)),
          (λ k. ap (score_of k) empty),
        ))
