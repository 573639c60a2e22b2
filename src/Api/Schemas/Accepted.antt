-- ===== src/Api/Schemas/Accepted.antt =====
-- api/schemas/job.py, api/v1/jobs.py and models/job.py: a request that passes the checks meets the
-- constraints of the table.
use Prim.Native.String.{count}
use mathlib.Core.Path.{subst}
use schedora.Base.{
  ◌<◌, ltb, refl, ℕ, ◌≤◌, String, Bool, true, Option, none, some, ◌≡◌, ◌≢◌, ◌≤◌, arith, ap, leb,
  ◌&&◌, if◌then◌else◌, Bool-cases, inl, inr, ◌∙◌,
}
use schedora.Enums.{exponential}
use schedora.Models.{Job, JobTable, check_job, null_or, max_integer, fits_columns}
use schedora.Errors.{type_error, data_error}
use schedora.Store.{QueueStore}
use schedora.Queue.{RedisQueue}
use schedora.Models.{WorkerTable}
use schedora.Store.{PresenceStore}
use schedora.Heartbeat.{Service, Registration, new_worker}
use schedora.Heartbeat.Register.{register_worker_fresh}
use schedora.Api.Workers.{register_worker, register_answer}
use schedora.Jobs.{World, JobCreate, new_job, is_naive}
use schedora.Jobs.Create.{create_job_accepts, create_job_faulty}
use schedora.Api.{answer, uncaught}
use schedora.Api.Jobs.{created_answer, create_job}
use schedora.Api.Schemas.{
  JobRequest, Number, negative, ◌>>=◌, job_create, text_field, bounded_field, natural_field,
  positive_field, positive_or_refused, WorkerRegisterRequest, worker_register, default_to, natural,
}

-- What the columns of the table ask for.
abbrev pub Fits : JobCreate → Type 0
Fits d = (count d.type ≤ 100) × (count d.idempotency_key ≤ 255) × (d.priority ≤ 10)

-- The two numbers that the schema does not bound fit their columns.
abbrev pub in_range : JobCreate → Bool
in_range d = leb d.max_retries max_integer && null_or d.timeout_seconds (λ t. leb t max_integer)

bind-some :
    {A B : Type 0} (o : Option A) (f : A → Option B) (b : B)
    → o >>= f ≡ some b
    → (a : A) × (o ≡ some a) × (f a ≡ some b)
bind-some none f b h = absurd (ground (arith, h))
bind-some (some a) f b h = (a, refl, h)

text_field_lem : (n : ℕ) (o : Option String) (t : String) → text_field n o ≡ some t → count t ≤ n
text_field_lem n none t h = ground (arith, h)
text_field_lem n (some x) t h = ground (arith, h)

bounded_field_lem : (n : ℕ) (x : Number) (p : ℕ) → bounded_field n x ≡ some p → p ≤ n
bounded_field_lem n (natural k) p h = ground (arith, h)
bounded_field_lem n negative p h = ground (arith, h)

positive_field_lem :
    (o : Option Number) (l : Option ℕ) → positive_field o ≡ some l → null_or l (λ t. ltb 0 t) ≡ true
positive_field_lem none l h = ground (arith, h)
positive_field_lem (some (natural k)) l h = ground (arith, h)
positive_field_lem (some negative) l h = ground (arith, h)

job_create_lem :
    (r : JobRequest) (d : JobCreate) (job_id now flushed_at : ℕ)
    → job_create r ≡ some d
    → Fits d
      × (check_job (new_job job_id now flushed_at d) ≡ true)
      × (fits_columns (new_job job_id now flushed_at d) ≡ in_range d)
unfolding job_create new_job
job_create_lem r d job_id now flushed_at h =
    let (t, e1, h1) = bind-some (text_field 100 r.type) _ d h in
    let (p, e2, h2) = bind-some (bounded_field 10 (default_to (natural 5) r.priority)) _ d h1 in
    let (m, e3, h3) = bind-some (natural_field (default_to (natural 3) r.max_retries)) _ d h2 in
    let (l, e4, h4) = bind-some (positive_field r.timeout_seconds) _ d h3 in
    let (k, e5, h5) = bind-some (text_field 255 r.idempotency_key) _ d h4 in
    let b1 = text_field_lem 100 r.type t e1 in
    let b2 = bounded_field_lem 10 (default_to (natural 5) r.priority) p e2 in
    let b4 = positive_field_lem r.timeout_seconds l e4 in
    let b5 = text_field_lem 255 r.idempotency_key k e5 in
    let row : record {
      type = t;
      payload = default_to "{}" r.payload;
      priority = p;
      scheduled_at = r.scheduled_at;
      max_retries = m;
      retry_policy = default_to exponential r.retry_policy;
      timeout_seconds = l;
      idempotency_key = k;
      parent_job_id = r.parent_job_id;
    }
        ≡ d =
      cc h5 in
    subst
      (λ x.
        Fits x
        × (check_job (new_job job_id now flushed_at x) ≡ true)
        × (fits_columns (new_job job_id now flushed_at x) ≡ in_range x))
      row ((b1, b5, b2), ground (arith, b2, b4), ground (arith, b1, b2, b5))

module _ (jobs : JobTable) (store : QueueStore) (queue : Option RedisQueue) where
  open jobs use {get}

  -- A request for a job that passes the checks of its schema fits the columns for its type and its key and
  -- meets every CHECK constraint of the table. If also no row has its idempotency key or the new UUID, not
  -- even one that other sessions commit meanwhile: where its time has no timezone, a TypeError is not
  -- caught, which the client reads as 500; otherwise, where its number of retries or its timeout is over
  -- 2 ^ 31 - 1, a DataError is not caught, which is 500 too; and otherwise it is answered by 201 with the
  -- job.
  pub requested_job :
      (r : JobRequest) (d : JobCreate) (job_id now flushed_at : ℕ)
      (others : jobs.State → jobs.State) (names_key : Bool) (w : World jobs store)
      → job_create r ≡ some d
      → ((k : ℕ) (x : Job) → get k w.db ≡ some x → x.idempotency_key ≢ d.idempotency_key)
      → ((k : ℕ) (x : Job)
          → get k (others w.db) ≡ some x
          → (x.job_id ≢ job_id) × (x.idempotency_key ≢ d.idempotency_key))
      → Fits d
        × (check_job (new_job job_id now flushed_at d) ≡ true)
        × ((create_job jobs store queue job_id now flushed_at others names_key d w).0 ≡ (
            if is_naive d.scheduled_at
            then uncaught type_error
            else if in_range d
            then answer 201 (record {
              content = new_job job_id now flushed_at d;
              code = "JOB_0001";
              http_status = "CREATED";
            })
            else uncaught data_error))
  unfolding create_job
  requested_job r d job_id now flushed_at others names_key w valid free free_others =
      let (widths, checks, range) = job_create_lem r d job_id now flushed_at valid in
      let accepts =
        create_job_accepts jobs store queue job_id now flushed_at others names_key d w free
          free_others checks in
      let breaks =
        create_job_faulty jobs store queue job_id now flushed_at others names_key d w free in
      (
        widths,
        checks,
        elim (Bool-cases (is_naive d.scheduled_at)) [
          | inl naive ↦
              ap created_answer (breaks type_error (ground (arith, naive))) ∙ rw naive refl
          | inr fine ↦ elim (Bool-cases (in_range d)) [
            | inl fit ↦
                ap created_answer (accepts (ground (arith, fine, range, fit))) ∙ rw (fine, fit) refl
            | inr wide ↦
                ap created_answer (breaks data_error (ground (arith, fine, range, wide)))
                ∙ rw (fine, wide) refl
          ]
        ],
      )

positive_or_refused_lem : (o : Option Number) (n : ℕ) → positive_or_refused o ≡ some n → 0 < n
positive_or_refused_lem none n h = ground (arith, h)
positive_or_refused_lem (some (natural k)) n h = ground (arith, h)
positive_or_refused_lem (some negative) n h = ground (arith, h)

worker_register_lem :
    (r : WorkerRegisterRequest) (g : Registration)
    → worker_register r ≡ some g
    → 0 < g.max_concurrent_jobs
unfolding worker_register
worker_register_lem r g h =
    let (w, e1, h1) = bind-some r.worker_id _ g h in
    let (n, e2, h2) = bind-some r.hostname _ g h1 in
    let (p, e3, h3) = bind-some r.pid _ g h2 in
    let (m, e4, h4) = bind-some (positive_or_refused r.max_concurrent_jobs) _ g h3 in
    let row : record {
      worker_id = w;
      hostname = n;
      pid = p;
      version = default_to "1.0.0" r.version;
      max_concurrent_jobs = m;
      capabilities = r.capabilities;
      metadata = r.metadata;
    }
        ≡ g =
      cc h4 in
    subst (λ x. 0 < x.max_concurrent_jobs) row (positive_or_refused_lem r.max_concurrent_jobs m e4)

module _ (jobs : JobTable) (workers : WorkerTable) (presence : PresenceStore) (timeout : ℕ) where
  -- A request to register a worker that passes the checks of its schema, with a worker_id that no worker
  -- has, and whose values are taken to fit the columns of `workers`, is answered by 201 with the new worker.
  pub requested_worker :
      (r : WorkerRegisterRequest) (g : Registration) (now : ℕ)
      (s : Service jobs workers presence timeout)
      → worker_register r ≡ some g
      → workers.get g.worker_id s.worker_rows ≡ none
      → (register_worker jobs workers presence timeout now g s).0 ≡ answer 201 (new_worker now g)
  unfolding register_worker new_worker
  requested_worker r g now s valid new =
      let (u, run, _, _, _, _, _) =
        register_worker_fresh jobs workers presence timeout now g s new
          (worker_register_lem r g valid) in
      ap (λ x. register_answer x.0) run
