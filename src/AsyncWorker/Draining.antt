-- ===== src/AsyncWorker/Draining.antt =====
-- worker/async_worker.py: a polling loop empties the queue.
use mathlib.Core.Path.{subst}
use schedora.Base.{
  ℕ, ◌≤◌, String, Bool, true, false, Option, none, some, List, [], ◌∷◌, ◌≡◌, ◌≢◌, ◌==◌, ◌∙◌, ap,
  refl, sym, arith, IsIn, nat_eq, eq_self, ≡→eq, eq→≡, Bool-cases, inl, inr, length, tail_of,
  head_of, is_some,
}
use schedora.Enums.{scheduled}
use schedora.Models.{Job, JobTable, Dependency}
use schedora.Store.{QueueStore, Entry}
use schedora.Queue.{RedisQueue, entry_id, dequeue, get_queue_length}
use schedora.Queue.Entries.{score_of}
use schedora.Queue.Order.{queued, dequeue_head, zset-dequeue}
use schedora.Scheduler.{claim_job, claimed_by}
use schedora.Scheduler.Claim.{IsClaimable, claim_job-some}
use schedora.Scheduler.Asked.{claim_job-asked, claim_job-IsClaimable}
use schedora.Jobs.{World}
use schedora.AsyncWorker.{Round, or_none, dequeue_and_claim, claim, poll_loop, create_task}
use schedora.AsyncWorker.Claiming.{dequeue_and_claim-some}

-- A turn that nothing disturbs, at `now` or later.
pub record IsCalm {S : Type 0} (now : ℕ) (r : Round S) : Type 0 where
  pub runs : r.stop ≡ false
  pub kept : r.cancelled ≡ false
  pub later : now ≤ r.now
  pub free : (k : ℕ) → r.locked k ≡ false
  pub alone : (s : S) → r.others s ≡ s

-- Calm turns, one after the other.
abbrev pub AreCalm : {S : Type 0} → ℕ → List (Round S) → Type 0
AreCalm now [] = Unit
AreCalm now (r ∷ rs) = IsCalm now r × AreCalm r.now rs

abbrev pub unlocked : ℕ → Bool
unlocked k = false

module _ (jobs : JobTable) (links : List Dependency) (store : QueueStore) (worker_id : String)
    (q : RedisQueue) where
  open jobs use {State}
  open store use {zset, zcard-zset}

  abbrev turn : Round State → World jobs store → Option Job × World jobs store
  turn r w = dequeue_and_claim jobs links store worker_id q r w

  abbrev polls : List (Round State) → World jobs store → List Job × World jobs store
  polls rs w = poll_loop jobs links store worker_id (some q) rs w

  -- A calm turn of the loop.
  poll_loop-cons :
      (now : ℕ) (r : Round State) (rs : List (Round State)) (w : World jobs store)
      → IsCalm now r
      → polls (r ∷ rs) w ≡ create_task (turn r w).0 (polls rs (turn r w).1)
  unfolding poll_loop claim dequeue_and_claim
  poll_loop-cons now r rs w calm = rw (calm.runs, poll_loop) (rw calm.kept refl)

  kept-create_task :
      (c : Job) (o : Option Job) (p : List Job × World jobs store)
      → IsIn c p.0
      → IsIn c (create_task o p).0
  kept-create_task c none p i = i
  kept-create_task c (some j) p i = inr i

  world-create_task : (o : Option Job) (p : List Job × World jobs store) → (create_task o p).1 ≡ p.1
  world-create_task none p = refl
  world-create_task (some j) p = refl

  -- The claim of a calm turn reads the table as it stands.
  turn-some :
      (now k : ℕ) (r : Round State) (w : World jobs store)
      → IsCalm now r
      → (dequeue store q w.redis).0 ≡ some k
      → turn r w ≡ (
        or_none (claim_job jobs links worker_id r.now r.locked (some k) w.db).0,
        record {
          db = (claim_job jobs links worker_id r.now r.locked (some k) w.db).1;
          redis = (dequeue store q w.redis).1;
        },
      )
  turn-some now k r w calm popped =
      dequeue_and_claim-some jobs links store worker_id q r w k popped
      ∙ ap
          (λ s. (
            or_none (claim_job jobs links worker_id r.now r.locked (some k) s).0,
            record {
              db = (claim_job jobs links worker_id r.now r.locked (some k) s).1;
              redis = (dequeue store q w.redis).1;
            },
          ))
          (calm.alone w.db)

  -- A row that was claimable is asked for later, with no lock in the way.
  ask :
      (now : ℕ) (r : Round State) (s : State) (j : Job)
      → IsCalm now r
      → IsClaimable jobs links now unlocked none s j
      → IsClaimable jobs links r.now r.locked (some j.job_id) s j
  ask now r s j calm able = record {
    found = able.found;
    waits = able.waits;
    due = omega (arith, able.due, calm.later);
    met = able.met;
    free = calm.free j.job_id;
    asked = eq_self j.job_id;
  }

  -- The claim of another job leaves the row claimable.
  pass_by :
      (now k : ℕ) (r : Round State) (s : State) (j : Job)
      → IsCalm now r
      → k ≢ j.job_id
      → IsClaimable jobs links now unlocked none s j
      → IsClaimable jobs links r.now unlocked none
          (claim_job jobs links worker_id r.now r.locked (some k) s).1
          j
  pass_by now k r s j calm apart able =
      claim_job-IsClaimable jobs links worker_id now r.now r.locked unlocked (some k) none s j
        calm.later
        (λ c e same.
          let (i, other, copy, _, _) =
            claim_job-some jobs links worker_id r.now r.locked (some k) s c e in
          apart (sym (eq→≡ i.job_id k other.asked) ∙ sym (ap (λ x. x.job_id) copy) ∙ same))
        able

  top :
      (x : Entry) (l : List Entry) (w : World jobs store)
      → zset q.queue_name w.redis ≡ x ∷ l
      → (dequeue store q w.redis).0 ≡ some x.member
  top x l w e = dequeue_head store q w.redis ∙ ap (λ z. entry_id (head_of z)) e

  drains :
      (l : List Entry) (rs : List (Round State)) (now : ℕ) (w : World jobs store)
      → zset q.queue_name w.redis ≡ l
      → length rs ≡ length l
      → AreCalm now rs
      → ((j : Job)
          → is_some (score_of j.job_id l) ≡ true
          → IsClaimable jobs links now unlocked none w.db j
          → IsIn (claimed_by worker_id j) (polls rs w).0)
        × (zset q.queue_name (polls rs w).1.redis ≡ [])
  unfolding poll_loop
  drains [] [] now w e same calm = ((λ j waits. cc waits), e)
  drains [] (r ∷ rs) now w e same calm = absurd (omega (arith, same))
  drains (x ∷ l) [] now w e same calm = absurd (omega (arith, same))
  drains (x ∷ l) (r ∷ rs) now w e same (calm, rest) =
      let step = turn-some now x.member r w calm (top x l w e) in
      let (taken, empty) =
        drains l rs r.now (turn r w).1
          (ap (λ z. zset q.queue_name z.1.redis) step ∙ zset-dequeue store q w.redis ∙ ap tail_of e)
          (omega (arith, same)) rest in
      (
        λ j waits able. elim (Bool-cases (x.member == j.job_id)) [
          | inl hit ↦
              let claimed =
                ap (λ z. or_none z)
                  (claim_job-asked jobs links worker_id r.now r.locked w.db j
                    (ask now r w.db j calm able)) in
              let got : (turn r w).0 ≡ some (claimed_by worker_id j) =
                ap (λ z. z.0) step
                ∙ ap (λ k. or_none (claim_job jobs links worker_id r.now r.locked (some k) w.db).0)
                    (eq→≡ x.member j.job_id hit)
                ∙ claimed in
              rw (poll_loop-cons now r rs w calm) (rw got (inl refl))
          | inr miss ↦
              let apart : x.member ≢ j.job_id = λ h. cc (≡→eq x.member j.job_id h, miss) in
              rw (poll_loop-cons now r rs w calm) (
                kept-create_task (claimed_by worker_id j) (turn r w).0 (polls rs (turn r w).1) (
                  taken j (ground (arith, waits, miss)) (
                    subst (λ z. IsClaimable jobs links r.now unlocked none z.1.db j) (sym step)
                      (pass_by now x.member r w.db j calm apart able))))
        ],
        rw (poll_loop-cons now r rs w calm) (
            ap (λ z. zset q.queue_name z.redis)
              (world-create_task (turn r w).0 (polls rs (turn r w).1))
            ∙ empty),
      )

  -- Liveness of the queue: as many calm turns as the queue is long (the stop event is not set, nothing
  -- is cancelled or locked, no other session commits, and the clock does not run backwards) create a
  -- task for every waiting job that was claimable at `now`, and leave no job waiting.
  pub poll_loop_drains :
      (now : ℕ) (rs : List (Round State)) (w : World jobs store)
      → length rs ≡ get_queue_length store q w.redis
      → AreCalm now rs
      → ((j : Job) (p : ℕ)
          → queued store q j.job_id w.redis ≡ some p
          → IsClaimable jobs links now unlocked none w.db j
          → IsIn
              (record j { status = scheduled; worker_id = some worker_id })
              (poll_loop jobs links store worker_id (some q) rs w).0)
        × ((k : ℕ)
            → queued store q k (poll_loop jobs links store worker_id (some q) rs w).1.redis ≡ none)
  unfolding get_queue_length
  poll_loop_drains now rs w enough calm =
      let (taken, empty) =
        drains (zset q.queue_name w.redis) rs now w refl (enough ∙ zcard-zset q.queue_name w.redis)
          calm in
      (λ j p waits able. taken j (ap (λ o. is_some o) waits) able, λ k. ap (score_of k) empty)
