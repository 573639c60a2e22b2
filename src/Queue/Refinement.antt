-- ===== src/Queue/Refinement.antt =====
-- services/redis_queue.py: the queue implements a map from waiting jobs to priorities, for any sequence
-- of calls.
use schedora.Base.{
  ℕ, ◌≤◌, Bool, Option, none, some, List, [], ◌∷◌, ◌≡◌, ◌==◌, ◌∙◌, ap, refl, sym, inl, inr, nat_eq,
  string_eq, eq_self, is_some, if◌then◌else◌, Option-cases, head_of, tail_of,
}
use schedora.Store.{QueueStore, Entry}
use schedora.Queue.{RedisQueue, entry_id, enqueue, dequeue, peek, remove, purge}
use schedora.Queue.Entries.{score_of}
use schedora.Queue.Order.{
  queued, IsOrdered, queued-enqueue, queued-remove, queue_ops-IsOrdered, dequeue-IsHighest,
  dequeue-none_iff, dequeue_head, zset-dequeue,
}

-- The specification: which jobs wait, with which priorities.
abbrev pub Waiting : Type 0
Waiting = ℕ → Option ℕ

pub data Call : Type 0 where
  enqueue_call : (job_id priority : ℕ) → Call
  dequeue_call peek_call purge_call : Call
  remove_call : (job_id : ℕ) → Call

pub data Answer : Type 0 where
  nothing : Answer
  removed : Bool → Answer
  job : Option ℕ → Answer

-- A job of the highest priority, or None where none waits.
abbrev pub IsNext : Waiting → Option ℕ → Type 0
IsNext f none = (k : ℕ) → f k ≡ none
IsNext f (some j) = (p : ℕ) × (f j ≡ some p) × ((k r : ℕ) → f k ≡ some r → r ≤ p)

abbrev pub removing : Option ℕ → Waiting → Waiting
removing none f k = f k
removing (some j) f k = if j == k then none else f k

-- What a call may answer, and which map it leaves. Among jobs of one priority any may be next.
abbrev pub Allows : Waiting → Call → Answer → Waiting → Type 0
Allows f (enqueue_call j p) a g = (a ≡ nothing) × ((k : ℕ) → g k ≡ (if j == k then some p else f k))
Allows f dequeue_call a g =
    (o : Option ℕ) × (a ≡ job o) × IsNext f o × ((k : ℕ) → g k ≡ removing o f k)
Allows f peek_call a g = (o : Option ℕ) × (a ≡ job o) × IsNext f o × ((k : ℕ) → g k ≡ f k)
Allows f purge_call a g = (a ≡ nothing) × ((k : ℕ) → g k ≡ none)
Allows f (remove_call j) a g =
    (a ≡ removed (is_some (f j))) × ((k : ℕ) → g k ≡ removing (some j) f k)

-- The same for a sequence of calls.
abbrev pub AllowsAll : Waiting → List Call → List Answer → Waiting → Type 0
AllowsAll f [] [] g = (k : ℕ) → g k ≡ f k
AllowsAll f [] (a ∷ as') g = ⊥
AllowsAll f (c ∷ cs) [] g = ⊥
AllowsAll f (c ∷ cs) (a ∷ as') g = (h : Waiting) × Allows f c a h × AllowsAll h cs as' g

none-tail :
    (k : ℕ) (l : List Entry) → entry_id (head_of l) ≡ none → score_of k (tail_of l) ≡ score_of k l
none-tail k [] h = refl
none-tail k (x ∷ l) h = cc h

module _ (store : QueueStore) (q : RedisQueue) where
  open store use {State, zset, zset-delete}

  -- A call of the class, with its answer.
  pub call : Call → State → Answer × State
  call (enqueue_call j p) s = (nothing, enqueue store q j p s)
  call dequeue_call s = let (o, t) = dequeue store q s in (job o, t)
  call peek_call s = (job (peek store q s), s)
  call purge_call s = (nothing, purge store q s)
  call (remove_call j) s = let (b, t) = remove store q j s in (removed b, t)

  pub calls : List Call → State → List Answer × State
  calls [] s = ([], s)
  calls (c ∷ cs) s = let (a, t) = call c s in let (as', u) = calls cs t in (a ∷ as', u)

  -- What `dequeue` and `peek` answer, and what `dequeue` leaves.
  after_dequeue :
      (s : State)
      → IsOrdered store q s
      → IsNext (λ k. queued store q k s) (dequeue store q s).0
        × ((k : ℕ)
            → queued store q k (dequeue store q s).1
              ≡ removing (dequeue store q s).0 (λ i. queued store q i s) k)
  after_dequeue s ordered = elim (Option-cases (dequeue store q s).0) [
    | inl e ↦ rw e (
      (dequeue-none_iff store q s).0 e,
      λ k.
          ap (score_of k) (zset-dequeue store q s)
          ∙ none-tail k (zset q.queue_name s) (sym (dequeue_head store q s) ∙ e),
    )
    | inr (j, e) ↦
        let (_, highest, others) = dequeue-IsHighest store q s j ordered e in rw e (highest, others)
  ]

  peek-dequeue : (s : State) → peek store q s ≡ (dequeue store q s).0
  unfolding peek
  peek-dequeue s = sym (dequeue_head store q s)

  -- One call.
  call-Allows :
      (c : Call) (s : State)
      → IsOrdered store q s
      → Allows (λ k. queued store q k s) c (call c s).0 (λ k. queued store q k (call c s).1)
        × IsOrdered store q (call c s).1
  unfolding call purge
  call-Allows (enqueue_call j p) s ordered =
      ((refl, λ k. queued-enqueue store q j p k s), (queue_ops-IsOrdered store q j p s ordered).0)
  call-Allows dequeue_call s ordered = (
    ((dequeue store q s).0, refl, (after_dequeue s ordered).0, (after_dequeue s ordered).1),
    (queue_ops-IsOrdered store q 0 0 s ordered).1,
  )
  call-Allows peek_call s ordered = (
    ((dequeue store q s).0, ap job (peek-dequeue s), (after_dequeue s ordered).0, λ k. refl),
    ordered,
  )
  call-Allows purge_call s ordered =
      let empty : zset q.queue_name (purge store q s) ≡ [] =
        zset-delete q.queue_name q.queue_name s ∙ rw (eq_self q.queue_name) refl in
      ((refl, λ k. ap (score_of k) empty), rw empty tt)
  call-Allows (remove_call j) s ordered = (
    (ap removed (queued-remove store q j j s).0, λ k. (queued-remove store q j k s).1),
    (queue_ops-IsOrdered store q j 0 s ordered).2,
  )

  -- Whatever sequence of calls is made of a queue in order: its answers are answers that the map of the
  -- waiting jobs allows, each call changes that map as the specification says, and the queue is in
  -- order again.
  pub calls-AllowsAll :
      (cs : List Call) (s : State)
      → IsOrdered store q s
      → AllowsAll (λ k. queued store q k s) cs (calls cs s).0 (λ k. queued store q k (calls cs s).1)
        × IsOrdered store q (calls cs s).1
  unfolding calls
  calls-AllowsAll [] s ordered = ((λ k. refl), ordered)
  calls-AllowsAll (c ∷ cs) s ordered =
      let (step, kept) = call-Allows c s ordered in
      let (rest, last) = calls-AllowsAll cs (call c s).1 kept in
      (((λ k. queued store q k (call c s).1), step, rest), last)
