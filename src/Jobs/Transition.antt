-- ===== src/Jobs/Transition.antt =====
-- services/job_service.py: `transition_status` and `cancel_job` on every branch.
use schedora.Base.{
  ap, ◌∙◌, ℕ, true, false, Option, some, ◌≡◌, ◌==◌, nat_eq, arith, if◌then◌else◌, ◌⊎◌, inl, inr,
  Bool-cases, Option-cases, is_some,
}
use schedora.Enums.{JobStatus, pending, scheduled, running, canceled, job_status_eq}
use schedora.Errors.{ok, err, job_not_found, invalid_state_transition}
use schedora.Models.{Job, JobTable}
use schedora.Store.{QueueStore}
use schedora.StateMachine.{can_transition}
use schedora.StateMachine.Paths.{can_transition-canceled_iff}
use schedora.Queue.{RedisQueue}
use schedora.Jobs.{World, cancel_job, transition_status}
use schedora.Jobs.Queueing.{redis_enqueued, redis_removed, enqueue_if_pending_lem, on_queue-remove}
use schedora.Jobs.Repository.{get_by_id-get, update_status_found}

module _ (jobs : JobTable) (store : QueueStore) (queue : Option RedisQueue) where
  open jobs use {State, get}

  -- For a job that is there and a transition that is allowed, the row gets the new status, every
  -- other row stays, and a job that becomes PENDING is enqueued with its priority.
  pub transition_status_allowed :
      (k : ℕ) (st : JobStatus) (w : World jobs store) (j : Job)
      → get k w.db ≡ some j
      → can_transition j.status st ≡ true
      → (t : State) × (transition_status jobs store queue k st w ≡ (
        ok (record j { status = st }),
        record {
          db = t;
          redis = redis_enqueued jobs store queue (st == pending) j.job_id j.priority w.redis;
        },
      ))
        × ((i : ℕ) → get i t ≡ (if k == i then some (record j { status = st }) else get i w.db))
  unfolding transition_status
  transition_status_allowed k st w j found allowed =
      let (t, done, frame) = update_status_found jobs k st w.db j found in
      (
        t,
        ground (arith, get_by_id-get jobs k w.db, done)
            ∙ ap (λ v. (ok (record j { status = st }), v))
                (enqueue_if_pending_lem jobs store queue st (record j { status = st })
                  (record w { db = t })),
        frame,
      )

  -- Without the job the call raises JobNotFoundError, and for a transition that is not allowed
  -- InvalidStateTransitionError; it changes nothing.
  pub transition_status_refused :
      (k : ℕ) (st : JobStatus) (w : World jobs store)
      → ((j : Job) → get k w.db ≡ some j → can_transition j.status st ≡ false)
      → transition_status jobs store queue k st w
        ≡ (err (if is_some (get k w.db) then invalid_state_transition else job_not_found), w)
  unfolding transition_status
  transition_status_refused k st w refused = elim (Option-cases (get k w.db)) [
    | inl gone ↦ ground (arith, get_by_id-get jobs k w.db)
    | inr (j, found) ↦ ground (arith, get_by_id-get jobs k w.db, refused j found)
  ]

  -- A job that is there and PENDING, SCHEDULED or RUNNING is canceled and taken out of the queue, and
  -- every other row stays.
  pub cancel_job_open :
      (k : ℕ) (w : World jobs store) (j : Job)
      → get k w.db ≡ some j
      → (j.status ≡ pending) ⊎ (j.status ≡ scheduled) ⊎ (j.status ≡ running)
      → (t : State) × (cancel_job jobs store queue k w ≡ (
        ok (record j { status = canceled }),
        record { db = t; redis = redis_removed jobs store queue k w.redis },
      ))
        × ((i : ℕ)
            → get i t ≡ (if k == i then some (record j { status = canceled }) else get i w.db))
  unfolding cancel_job
  cancel_job_open k w j found open_status =
      let (t, done, frame) = update_status_found jobs k canceled w.db j found in
      let allowed = (can_transition-canceled_iff j.status).1 open_status in
      (
        t,
        ground (arith, get_by_id-get jobs k w.db, done)
            ∙ ap (λ v. (ok (record j { status = canceled }), v))
                (on_queue-remove jobs store queue k (record w { db = t })),
        frame,
      )

  -- A job in any other status, FAILED and RETRYING included, raises InvalidStateTransitionError, and
  -- without the job the call raises JobNotFoundError; it changes nothing.
  pub cancel_job_closed :
      (k : ℕ) (w : World jobs store)
      → ((j : Job)
          → get k w.db ≡ some j
          → ¬ ((j.status ≡ pending) ⊎ (j.status ≡ scheduled) ⊎ (j.status ≡ running)))
      → cancel_job jobs store queue k w
        ≡ (err (if is_some (get k w.db) then invalid_state_transition else job_not_found), w)
  unfolding cancel_job
  cancel_job_closed k w closed = elim (Option-cases (get k w.db)) [
    | inl gone ↦ ground (arith, get_by_id-get jobs k w.db)
    | inr (j, found) ↦
        let refused : can_transition j.status canceled ≡ false =
          elim (Bool-cases (can_transition j.status canceled)) [
            | inl e ↦ absurd (closed j found ((can_transition-canceled_iff j.status).0 e))
            | inr e ↦ e
          ] in
        ground (arith, get_by_id-get jobs k w.db)
  ]
