-- ===== src/Lifecycle.antt =====
-- A job on its way through services/job_service.py, services/redis_queue.py, worker/async_worker.py,
-- services/scheduler.py and worker/job_executor.py.
pub mod Recovery
pub mod Steps
pub mod Rows
pub mod History
pub mod Claims
use schedora.Base.{
  ℕ, ◌≤◌, String, Bool, true, false, Option, some, List, [], ◌∷◌, ◌≡◌, ◌≢◌, ◌∙◌, ap, refl, sym,
  arith, IsIn, inl, inr, nat_eq, eq_self, ne→eq_false, head_of,
}
use schedora.Enums.{pending, scheduled, success, job_status_eq}
use schedora.Errors.{ok}
use schedora.Models.{Job, JobTable, Dependency}
use schedora.Store.{QueueStore}
use schedora.Queue.{RedisQueue, entry_id, enqueue, dequeue}
use schedora.Queue.Order.{IsOrdered, queue_ops-IsOrdered, zset-enqueue, dequeue_head}
use schedora.Dependencies.{joined, dependencies, are_dependencies_met}
use schedora.Scheduler.Claim.{IsClaimable}
use schedora.Jobs.{World, JobCreate, new_job, create_job}
use schedora.Jobs.Create.{create_job-ok, is_later}
use schedora.Executor.{Run, Texts, returned, run_handler, execute}
use schedora.Executor.Steps.{Leaves, succeeded}
use schedora.Executor.Outcome.{execute-returned}
use schedora.AsyncWorker.{Round, dequeue_and_claim}
use schedora.AsyncWorker.Claiming.{dequeue_and_claim_takes}

module _ (jobs : JobTable) (links : List Dependency) where
  open jobs use {State, get}

  joined_unlinked :
      (k : ℕ) (s : State) (ls : List Dependency)
      → ((l : Dependency) → IsIn l ls → l.job_id ≢ k)
      → joined jobs links k s ls ≡ []
  joined_unlinked k s [] apart = refl
  joined_unlinked k s (l ∷ ls) apart =
      let rest = joined_unlinked k s ls (λ x i. apart x (inr i)) in
      ground (arith, rest, ne→eq_false l.job_id k (apart l (inl refl)))

  -- A job that depends on none has its dependencies met.
  pub unlinked_met :
      (s : State) (j : Job)
      → ((l : Dependency) → IsIn l links → l.job_id ≢ j.job_id)
      → are_dependencies_met jobs links s j ≡ true
  unfolding are_dependencies_met dependencies
  unlinked_met s j apart = rw (joined_unlinked j.job_id s links apart) refl

module _ (store : QueueStore) (q : RedisQueue) where
  open store use {State, zset}

  -- A job that is enqueued to an empty queue is at its top.
  enqueued_first :
      (k p : ℕ) (s : State)
      → zset q.queue_name s ≡ []
      → ((dequeue store q (enqueue store q k p s)).0 ≡ some k)
        × IsOrdered store q (enqueue store q k p s)
  enqueued_first k p s empty = (
    dequeue_head store q (enqueue store q k p s)
        ∙ ap (λ l. entry_id (head_of l)) (zset-enqueue store q k p s)
        ∙ rw empty refl,
    (queue_ops-IsOrdered store q k p s (rw empty tt)).0,
  )

module _ (jobs : JobTable) (links : List Dependency) (store : QueueStore) (worker_id : String)
    (q : RedisQueue) (env : ℕ → jobs.State → jobs.State) (texts : Texts)
    (registry : List (String × (String → Run))) where
  open jobs use {State, get}
  open store use {zset}

  -- The row of a job that a worker has claimed.
  abbrev pub claimed_row : Job → Job
  claimed_row c = record c { status = scheduled; worker_id = some worker_id }

  -- A request that is accepted with an empty queue, for no later time, by a job that depends on none:
  -- the next turn of a worker gets the job, its execution by a handler that returns in time succeeds,
  -- and leaves the row of the request with SUCCESS, the worker, the times and the result. Meanwhile no
  -- other process touches the row, the row is not locked at the turn, and the clock does not run
  -- backwards.
  pub created_job_succeeds :
      (job_id now flushed_at started finished later : ℕ) (others : State → State) (names_key : Bool)
      (d : JobCreate) (w : World jobs store) (c : Job) (r : Round State) (res : String)
      → (create_job jobs store (some q) job_id now flushed_at others names_key d w).0 ≡ ok c
      → is_later jobs store (some q) job_id now flushed_at others names_key d w d.scheduled_at
        ≡ false
      → zset q.queue_name w.redis ≡ []
      → ((l : Dependency) → IsIn l links → l.job_id ≢ job_id)
      → ((s : State) → get job_id (r.others s) ≡ get job_id s)
      → r.locked job_id ≡ false
      → c.scheduled_at ≤ r.now
      → Leaves jobs env job_id
      → started ≤ finished
      → run_handler jobs env texts registry (claimed_row c) ≡ returned res
      → (w' : World jobs store) × (dequeue_and_claim jobs links store worker_id q r
            (create_job jobs store (some q) job_id now flushed_at others names_key d w).1
          ≡ (some (claimed_row c), w'))
        × (t : State) × (execute jobs env texts registry
              (claimed_row c)
              started
              finished
              later
              w'.db
            ≡ (ok (succeeded jobs env res), t))
        × (get job_id t
            ≡ some (record (new_job job_id now flushed_at d) {
              status = success;
              worker_id = some worker_id;
              started_at = some started;
              completed_at = some finished;
              result = some res;
            }))
  unfolding new_job
  created_job_succeeds job_id now flushed_at started finished later others names_key d w c r res
        made soon empty apart leave free due leaves clock handled =
      let (t, same, after, st, _, rows, _) =
        create_job-ok jobs store (some q) job_id now flushed_at others names_key d w c made in
      let id : c.job_id ≡ job_id = ap (λ x. x.job_id) same in
      let waits : c.status ≡ pending = st ∙ rw soon refl in
      let world : (create_job jobs store (some q) job_id now flushed_at others names_key d w).1
          ≡ record { db = t; redis = enqueue store q job_id d.priority w.redis } =
        after ∙ rw waits refl in
      let (first, ordered) = enqueued_first store q job_id d.priority w.redis empty in
      let row : get job_id (r.others t) ≡ some c =
        leave t ∙ rows job_id ∙ rw (eq_self job_id) refl in
      let able : IsClaimable jobs links r.now r.locked (some c.job_id) (r.others t) c = record {
        found = ap (λ k. get k (r.others t)) id ∙ row;
        waits = waits;
        due = due;
        met = unlinked_met jobs links (r.others t) c (λ l i h. apart l i (h ∙ id));
        free = ap r.locked id ∙ free;
        asked = eq_self c.job_id;
      } in
      let (w', got, table, _) =
        dequeue_and_claim_takes jobs links store worker_id q r
          (record { db = t; redis = enqueue store q job_id d.priority w.redis }) c ordered
          (first ∙ ap some (sym id)) able in
      let held : get c.job_id w'.db ≡ some (claimed_row c) =
        table c.job_id ∙ rw (eq_self c.job_id) refl in
      let (u, ran, final) =
        execute-returned jobs env texts registry (claimed_row c) started finished later res w'.db
          (λ n s. ap (λ k. get k (env n s)) id ∙ leaves n s ∙ ap (λ k. get k s) (sym id)) held refl
          (ap (λ x. x.completed_at) same) clock handled in
      (
        w',
        ap (λ v. dequeue_and_claim jobs links store worker_id q r v) world ∙ got,
        u,
        ran,
        ap (λ k. get k u) (sym id)
            ∙ final
            ∙ ap {A = Job} {B = Option Job}
                (λ x. some (record x {
                  status = success;
                  worker_id = some worker_id;
                  started_at = some started;
                  completed_at = some finished;
                  result = some res;
                }))
                same,
      )
