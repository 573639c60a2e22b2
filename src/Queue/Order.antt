-- ===== src/Queue/Order.antt =====
-- services/redis_queue.py: the queue as a map from jobs to priorities, and the order of dequeuing.
use schedora.Base.{
  ℕ, ◌+◌, ◌≤◌, Option, none, some, List, [], ◌∷◌, ◌≡◌, ◌↔◌, sym, ◌∙◌, ap, refl, IsIn, ◌==◌, eq_self,
  if◌then◌else◌, is_some, nat_eq, string_eq, arith, inl, inr, head_of, tail_of,
}
use schedora.Store.{Entry, QueueStore, place, without}
use schedora.Queue.{RedisQueue, entry_id, enqueue, dequeue, peek, remove, get_queue_length}
use schedora.Queue.Entries.{
  score_of, IsRanked, score_of-without, score_of-place, any-score_of, without_absent, without-place,
  length-place, score_of-IsIn, score_of-head, length-without, without-IsRanked, place-IsRanked,
}

tail-IsRanked : (l : List Entry) → IsRanked l → IsRanked (tail_of l)
tail-IsRanked [] r = r
tail-IsRanked (x ∷ l) r = r.1

-- `j` is in the set, and no member has a greater score.
abbrev pub IsHighest : ℕ → List Entry → Type 0
IsHighest j l = (p : ℕ) × (score_of j l ≡ some p) × ((k r : ℕ) → score_of k l ≡ some r → r ≤ p)

head-IsHighest :
    (j : ℕ) (l : List Entry) → IsRanked l → entry_id (head_of l) ≡ some j → IsHighest j l
head-IsHighest j [] r h = absurd (ground arith)
head-IsHighest j (x ∷ l) r h = (
  x.score,
  ground arith,
  λ k p found. let (y, i, _, scored) = score_of-IsIn k p (x ∷ l) found in below y i p scored,
)
  where
    below : (y : Entry) → IsIn y (x ∷ l) → (p : ℕ) → y.score ≡ p → p ≤ x.score
    below y (inl same) p e = ground arith
    below y (inr i) p e = omega (arith, (r.0 y i).0)

score_of-tail :
    (j k : ℕ) (l : List Entry)
    → IsRanked l
    → entry_id (head_of l) ≡ some j
    → score_of k (tail_of l) ≡ (if j == k then none else score_of k l)
score_of-tail j k [] r h = absurd (ground arith)
score_of-tail j k (x ∷ l) r h = ground (arith, score_of-head x l r)

nothing_iff : (l : List Entry) → (entry_id (head_of l) ≡ none) ↔ ((k : ℕ) → score_of k l ≡ none)
nothing_iff [] = ((λ h k. refl), λ h. refl)
nothing_iff (x ∷ l) = ((λ h k. absurd (ground arith)), λ h. absurd (ground (arith, h x.member)))

module _ (store : QueueStore) (q : RedisQueue) where
  open store use {
    State, zset, zpopmax, zset-zadd, zpopmax_head, zset-zpopmax, zrem_count, zset-zrem, zcard-zset,
    zset-delete,
  }

  -- The priority that a job waits with.
  abbrev pub queued : ℕ → State → Option ℕ
  queued k s = score_of k (zset q.queue_name s)

  abbrev pub IsOrdered : State → Type 0
  IsOrdered s = IsRanked (zset q.queue_name s)

  pub zset-enqueue :
      (j p : ℕ) (s : State)
      → zset q.queue_name (enqueue store q j p s)
        ≡ place (record { member = j; score = p }) (without j (zset q.queue_name s))
  unfolding enqueue
  zset-enqueue j p s = rw (zset-zadd, eq_self q.queue_name)

  zset-remove :
      (j : ℕ) (s : State)
      → zset q.queue_name (remove store q j s).1 ≡ without j (zset q.queue_name s)
  unfolding remove
  zset-remove j s = rw (zset-zrem, eq_self q.queue_name)

  pub zset-dequeue :
      (s : State) → zset q.queue_name (dequeue store q s).1 ≡ tail_of (zset q.queue_name s)
  unfolding dequeue
  zset-dequeue s = rw (zset-zpopmax, eq_self q.queue_name)

  pub dequeue_head : (s : State) → (dequeue store q s).0 ≡ entry_id (head_of (zset q.queue_name s))
  unfolding dequeue
  dequeue_head s = rw zpopmax_head

  gone : (j : ℕ) (s : State) → score_of j (without j (zset q.queue_name s)) ≡ none
  gone j s = score_of-without j j (zset q.queue_name s) ∙ ground arith

  -- Enqueuing sets the priority of the job, also of one that waits already, and of no other.
  pub queued-enqueue :
      (j p k : ℕ) (s : State)
      → queued k (enqueue store q j p s) ≡ (if j == k then some p else queued k s)
  queued-enqueue j p k s =
      ap (score_of k) (zset-enqueue j p s)
      ∙ score_of-place k (record { member = j; score = p }) _ (gone j s)
      ∙ ground (arith, score_of-without k j (zset q.queue_name s))

  remove_answer : (j : ℕ) (s : State) → (remove store q j s).0 ≡ is_some (queued j s)
  unfolding remove
  remove_answer j s =
      ground (arith, zrem_count q.queue_name j s, any-score_of j (zset q.queue_name s))

  -- `remove` answers whether the job waited; afterwards it does not, and all others wait as before.
  pub queued-remove :
      (j k : ℕ) (s : State)
      → ((remove store q j s).0 ≡ is_some (queued j s))
        × (queued k (remove store q j s).1 ≡ (if j == k then none else queued k s))
  queued-remove j k s = (
    remove_answer j s,
    ap (score_of k) (zset-remove j s) ∙ score_of-without k j (zset q.queue_name s),
  )

  -- A queue stays in order under `enqueue`, `dequeue` and `remove`.
  pub queue_ops-IsOrdered :
      (j p : ℕ) (s : State)
      → IsOrdered s
      → IsOrdered (enqueue store q j p s)
        × IsOrdered (dequeue store q s).1
        × IsOrdered (remove store q j s).1
  queue_ops-IsOrdered j p s r = (
    rw zset-enqueue (place-IsRanked _ _ (gone j s) (without-IsRanked j _ r)),
    rw zset-dequeue (tail-IsRanked _ r),
    rw zset-remove (without-IsRanked j _ r),
  )

  -- From a queue in order `dequeue` takes a job of the highest priority, and `peek` shows that job.
  -- The job waits no longer, and all others wait as before.
  pub dequeue-IsHighest :
      (s : State) (j : ℕ)
      → IsOrdered s
      → (dequeue store q s).0 ≡ some j
      → (peek store q s ≡ some j)
        × IsHighest j (zset q.queue_name s)
        × ((k : ℕ) → queued k (dequeue store q s).1 ≡ (if j == k then none else queued k s))
  unfolding peek
  dequeue-IsHighest s j r h =
      let top = sym (dequeue_head s) ∙ h in
      (
        top,
        head-IsHighest j _ r top,
        λ k. ap (score_of k) (zset-dequeue s) ∙ score_of-tail j k _ r top,
      )

  -- `dequeue` answers None exactly when no job waits.
  pub dequeue-none_iff :
      (s : State) → ((dequeue store q s).0 ≡ none) ↔ ((k : ℕ) → queued k s ≡ none)
  dequeue-none_iff s = rw dequeue_head (nothing_iff (zset q.queue_name s))

  -- For a queue in order, enqueuing adds one to the length if the job did not wait, and keeps it
  -- otherwise; removing takes one off if the job did wait, and keeps it otherwise.
  pub get_queue_length_ops :
      (j p : ℕ) (s : State)
      → IsOrdered s
      → (get_queue_length store q (enqueue store q j p s) + (if is_some (queued j s) then 1 else 0)
          ≡ get_queue_length store q s + 1)
        × (get_queue_length store q (remove store q j s).1 + (if is_some (queued j s) then 1 else 0)
            ≡ get_queue_length store q s)
  unfolding get_queue_length
  get_queue_length_ops j p s r = (
    rw
        (
          zcard-zset q.queue_name (enqueue store q j p s),
          zset-enqueue,
          zcard-zset q.queue_name s,
          length-place,
        )
        (omega (arith, length-without j (zset q.queue_name s) r)),
    rw (zcard-zset q.queue_name (remove store q j s).1, zset-remove, zcard-zset q.queue_name s)
        (omega (arith, length-without j (zset q.queue_name s) r)),
  )

  -- Removing a job that was just enqueued gives back the queue, if the job did not wait before.
  pub remove-enqueue :
      (j p : ℕ) (s : State)
      → queued j s ≡ none
      → zset q.queue_name (remove store q j (enqueue store q j p s)).1 ≡ zset q.queue_name s
  remove-enqueue j p s h =
      let new : Entry = record { member = j; score = p } in
      zset-remove j (enqueue store q j p s)
      ∙ ap (without j) (zset-enqueue j p s)
      ∙ without-place new (without j (zset q.queue_name s))
      ∙ ap (without j) (without_absent j _ h)
      ∙ without_absent j _ h
