-- ===== src/Jobs/Races.antt =====
-- services/job_service.py: `cancel_job` against another session that commits between the SELECT of the
-- job and the UPDATE. The row is not locked, and the UPDATE writes the column `status` alone.
use schedora.Base.{ℕ, Option, some, ◌≡◌, ◌⊎◌, ◌∙◌, ap, refl, ◌==◌, nat_eq, arith, if◌then◌else◌}
use schedora.Enums.{pending, scheduled, running, canceled}
use schedora.Errors.{Action, ok, modify, pure, ◌>>=◌, ◌>>◌}
use schedora.Models.{Job, JobTable}
use schedora.Store.{QueueStore}
use schedora.StateMachine.{validate_transition}
use schedora.StateMachine.Paths.{can_transition-canceled_iff}
use schedora.Queue.{RedisQueue, remove}
use schedora.Jobs.{World, on_db, on_queue, get_job, update_status, cancel_job}
use schedora.Jobs.Queueing.{redis_removed, on_queue-remove}
use schedora.Jobs.Repository.{get_by_id-get, update_status_found}

module _ (jobs : JobTable) (store : QueueStore) (queue : Option RedisQueue) where
  open jobs use {State, get}

  unfoldable pub cancel_job_during : (State → State) → ℕ → Action (World jobs store) Job
  unfolding get_job validate_transition
  cancel_job_during meanwhile job_id = do
    job ← get_job jobs store job_id
    validate_transition job.status canceled
    modify (λ w. record w { db = meanwhile w.db })
    updated_job ← on_db jobs store (update_status jobs job_id canceled)
    modify (on_queue jobs store queue (λ q s. (remove store q job_id s).1))
    pure updated_job

  -- With nothing committed meanwhile it is `cancel_job`.
  during_alone :
      (k : ℕ) (w : World jobs store)
      → cancel_job_during (λ s. s) k w ≡ cancel_job jobs store queue k w
  unfolding cancel_job_during cancel_job
  during_alone k w = refl

  -- When the job is PENDING, SCHEDULED or RUNNING at the SELECT, the call succeeds and leaves it
  -- CANCELED and out of the queue, whatever row another session has committed for it meanwhile: also
  -- one that is SUCCESS or FAILED by then, whose result, times and errors stay beside the CANCELED. All
  -- other rows are those of the other session.
  pub cancel_job_overwrites :
      (meanwhile : State → State) (k : ℕ) (w : World jobs store) (j j' : Job)
      → get k w.db ≡ some j
      → (j.status ≡ pending) ⊎ (j.status ≡ scheduled) ⊎ (j.status ≡ running)
      → get k (meanwhile w.db) ≡ some j'
      → (t : State) × (cancel_job_during meanwhile k w ≡ (
        ok (record j' { status = canceled }),
        record { db = t; redis = redis_removed jobs store queue k w.redis },
      ))
        × ((i : ℕ)
            → get i t
              ≡ (if k == i then some (record j' { status = canceled }) else get i (meanwhile w.db)))
  unfolding cancel_job_during
  cancel_job_overwrites meanwhile k w j j' found open_status changed =
      let (t, done, frame) = update_status_found jobs k canceled (meanwhile w.db) j' changed in
      let allowed = (can_transition-canceled_iff j.status).1 open_status in
      (
        t,
        ground (arith, get_by_id-get jobs k w.db, done)
            ∙ ap (λ v. (ok (record j' { status = canceled }), v))
                (on_queue-remove jobs store queue k (record w { db = t })),
        frame,
      )
