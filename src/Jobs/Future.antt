-- ===== src/Jobs/Future.antt =====
-- A job that is created for a later time, between services/job_service.py and services/scheduler.py.
use schedora.Base.{
  none, ◌==◌, ℕ, ◌<◌, Bool, Option, some, List, ◌≡◌, ap, ◌∙◌, IsIn, arith, eq_self, nat_eq, refl,
}
use schedora.Enums.{JobStatus, scheduled, pending, job_status_eq}
use schedora.Errors.{ok}
use schedora.Models.{Job, JobTable, Dependency}
use schedora.Store.{QueueStore}
use schedora.Queue.{RedisQueue}
use schedora.Scheduler.Exclusive.{Trace, Trace-IsTaken}
use schedora.Jobs.{World, JobCreate, Datetime, new_job, create_job}
use schedora.Jobs.Queueing.{redis_enqueued}
use schedora.Jobs.Create.{create_job-ok}

module _ (jobs : JobTable) (store : QueueStore) (queue : Option RedisQueue)
    (links : List Dependency) (job_id now flushed_at : ℕ) (others : jobs.State → jobs.State)
    (names_key : Bool) (d : JobCreate) (w : World jobs store) where
  open jobs use {State, get}

  new_job_id : (new_job job_id now flushed_at d).job_id ≡ job_id
  unfolding new_job
  new_job_id = refl

  future_status :
      (at : Datetime)
      → d.scheduled_at ≡ some at
      → now < at.instant
      → (new_job job_id now flushed_at d).status ≡ scheduled
  unfolding new_job
  future_status at given later = ground arith

  not_enqueued :
      (q : Option RedisQueue) (st : JobStatus) (s : store.State)
      → st ≡ scheduled
      → redis_enqueued jobs store q (st == pending) job_id d.priority s ≡ s
  not_enqueued none st s h = refl
  not_enqueued (some q) st s h = rw h refl

  -- A job that is created for a time in the future starts as SCHEDULED and is not enqueued. No claim
  -- ever returns it, at any later time, unless something else brings it to PENDING.
  pub create_job_future :
      (at : Datetime) (c : Job) (ids : List ℕ) (u : State)
      → d.scheduled_at ≡ some at
      → now < at.instant
      → (create_job jobs store queue job_id now flushed_at others names_key d w).0 ≡ ok c
      → Trace jobs links
          (create_job jobs store queue job_id now flushed_at others names_key d w).1.db
          ids
          u
      → (c.status ≡ scheduled)
        × ((create_job jobs store queue job_id now flushed_at others names_key d w).1.redis
            ≡ w.redis)
        × ¬ IsIn c.job_id ids
  create_job_future at c ids u given later made trace =
      let (t, same, after, _, _, rows, _) =
        create_job-ok jobs store queue job_id now flushed_at others names_key d w c made in
      let waits : c.status ≡ scheduled = ap (λ r. r.status) same ∙ future_status at given later in
      let world : (create_job jobs store queue job_id now flushed_at others names_key d w).1
          ≡ record w { db = t } =
        after
        ∙ ap (λ r. record w { db = t; redis = r }) (not_enqueued queue c.status w.redis waits) in
      (
        waits,
        ap (λ x. x.redis) world,
        Trace-IsTaken jobs links c.job_id trace (record {
          row = c;
          held =
              ap (λ x. get c.job_id x.db) world
              ∙ rows c.job_id
              ∙ rw (ap (λ r. r.job_id) same ∙ new_job_id, eq_self job_id);
          busy = λ p. cc;
        }),
      )
