-- ===== src/Api/Jobs/Laws.antt =====
-- api/v1/jobs.py: the answers to the requests of a client.
use schedora.Base.{
  [], ◌∷◌, ◌&&◌, ◌↔◌, Bool-cases, true, inl, inr, ℕ, Bool, Option, none, some, ◌≡◌, ◌⊎◌, ◌==◌,
  if◌then◌else◌, nat_eq, eq_self, ap, ◌∙◌, sym, refl, arith,
}
use schedora.StateMachine.{member_of}
use schedora.Enums.{JobStatus, job_status_eq, pending, scheduled, running, canceled}
use schedora.Errors.{Result, ok, err}
use schedora.Models.{Job, JobTable}
use schedora.Store.{QueueStore}
use schedora.Queue.{RedisQueue}
use schedora.Jobs.{
  World, JobCreate, new_job, create_job as service_create_job, get_job as service_get_job,
}
use schedora.Jobs.Repository.{get_by_id-get}
use schedora.Jobs.Queueing.{redis_removed}
use schedora.Jobs.Create.{create_job-ok, create_job_known}
use schedora.Jobs.Transition.{cancel_job_open, cancel_job_closed}
use schedora.Api.{StandardResponse, answer, http_exception}
use schedora.Api.Jobs.{created_answer, create_job, get_job, cancel_job}

created_answer-answer :
    (r : Result Job) (n : ℕ) (b : StandardResponse Job)
    → created_answer r ≡ answer n b
    → (n ≡ 201) × (r ≡ ok b.content)
created_answer-answer (ok j) n b h = ground arith
created_answer-answer (err e) n b h = absurd (ground arith)

module _ (jobs : JobTable) (store : QueueStore) (queue : Option RedisQueue) where
  open jobs use {get, get_key}

  -- Looking a job up changes nothing.
  pub get_job_lem :
      (k : ℕ) (w : World jobs store)
      → ((j : Job)
          → get k w.db ≡ some j
          → get_job jobs store queue k w
            ≡ (answer 200 (record { content = j; code = "JOB_0002"; http_status = "OK" }), w))
        × (get k w.db ≡ none
            → get_job jobs store queue k w ≡ (
              http_exception 404 (some (record { code = "JOB_4001"; http_status = "NOT_FOUND" })),
              w,
            ))
  unfolding get_job service_get_job
  get_job_lem k w = (
    λ j found. ground (arith, get_by_id-get jobs k w.db),
    λ gone. ground (arith, get_by_id-get jobs k w.db),
  )

  -- If a request to create a job is answered, the status code is 201, and the content is the job with
  -- the new id and the values of the request. Then a request for this id is answered with the same job,
  -- and another request to create a job with the same idempotency key, whatever else it asks for and
  -- whatever other sessions do meanwhile, gets 409. Neither changes anything.
  pub create_job-get_job :
      (job_id now flushed_at : ℕ) (others : jobs.State → jobs.State) (names_key : Bool)
      (d : JobCreate) (w v : World jobs store) (n : ℕ) (b : StandardResponse Job)
      → create_job jobs store queue job_id now flushed_at others names_key d w ≡ (answer n b, v)
      → (n ≡ 201)
        × (b.content ≡ new_job job_id now flushed_at d)
        × (get_job jobs store queue job_id v ≡ (
          answer 200 (record { content = b.content; code = "JOB_0002"; http_status = "OK" }),
          v,
        ))
        × ((i later later_flush : ℕ) (more : jobs.State → jobs.State) (named : Bool) (e : JobCreate)
            → create_job jobs store queue i later later_flush more named
                (record e { idempotency_key = d.idempotency_key })
                v
              ≡ (
                http_exception 409 (some (record { code = "JOB_4002"; http_status = "CONFLICT" })),
                v,
              ))
  unfolding create_job new_job
  create_job-get_job job_id now flushed_at others names_key d w v n b h =
      let (status, result) =
        created_answer-answer
          (service_create_job jobs store queue job_id now flushed_at others names_key d w).0 n b
          (ap (λ r. r.0) h) in
      let (t, same, state, _, _, rows, _) =
        create_job-ok jobs store queue job_id now flushed_at others names_key d w b.content
          result in
      let db : v.db ≡ t = ap (λ r. r.1.db) (sym h) ∙ ap (λ u. u.db) state in
      let held : get job_id v.db ≡ some b.content =
        ap (get job_id) db ∙ rows job_id ∙ rw (eq_self job_id) refl in
      (
        status,
        same,
        (get_job_lem job_id v).0 b.content held,
        λ i later later_flush more named e.
            ap (λ r. (created_answer r.0, r.1))
              (create_job_known jobs store queue i later later_flush more named
                (record e { idempotency_key = d.idempotency_key }) v job_id b.content held
                (ap (λ j. j.idempotency_key) same)),
      )

  -- The answers to a cancellation, by the status of the job.
  cancel_job_cases :
      (k : ℕ) (w : World jobs store)
      → ((j : Job)
          → get k w.db ≡ some j
          → (j.status ≡ pending) ⊎ (j.status ≡ scheduled) ⊎ (j.status ≡ running)
          → (t : jobs.State) × (cancel_job jobs store queue k w ≡ (
            answer 200 (record {
              content = record { job_id = k; status = canceled };
              code = "JOB_0003";
              http_status = "OK";
            }),
            record { db = t; redis = redis_removed jobs store queue k w.redis },
          ))
            × ((i : ℕ)
                → get i t ≡ (if k == i then some (record j { status = canceled }) else get i w.db)))
        × ((j : Job)
            → get k w.db ≡ some j
            → ¬ ((j.status ≡ pending) ⊎ (j.status ≡ scheduled) ⊎ (j.status ≡ running))
            → cancel_job jobs store queue k w ≡ (
              http_exception 400 (some (record { code = "JOB_4003"; http_status = "BAD_REQUEST" })),
              w,
            ))
        × (get k w.db ≡ none
            → cancel_job jobs store queue k w ≡ (
              http_exception 404 (some (record { code = "JOB_4001"; http_status = "NOT_FOUND" })),
              w,
            ))
  unfolding cancel_job
  cancel_job_cases k w = (
    λ j found open_status.
        let (t, run, rows) = cancel_job_open jobs store queue k w j found open_status in
        (t, ground (arith, run, get_key k w.db j found), rows),
    λ j found closed.
        let run =
          cancel_job_closed jobs store queue k w
            (λ i hit. let same : j ≡ i = cc (found, hit) in rw (← same) closed) in
        ground (arith, run),
    λ gone.
        let run = cancel_job_closed jobs store queue k w (λ i hit. absurd (cc (gone, hit))) in
        ground (arith, run),
  )

  is_open_iff :
      (st : JobStatus)
      → (member_of st (pending ∷ scheduled ∷ running ∷ []) ≡ true)
        ↔ ((st ≡ pending) ⊎ (st ≡ scheduled) ⊎ (st ≡ running))
  is_open_iff st = ground arith

  -- A request to cancel a job that is PENDING, SCHEDULED or RUNNING gets 200 with the status CANCELED:
  -- its row is CANCELED, and it is out of the queue. A job in any other status gets 400, and its row and
  -- the queue stay. No other row changes.
  pub cancel_job_lem :
      (k : ℕ) (j : Job) (w : World jobs store)
      → get k w.db ≡ some j
      → (v : World jobs store) × (cancel_job jobs store queue k w ≡ (
        (if member_of j.status (pending ∷ scheduled ∷ running ∷ [])
            then answer 200 (record {
              content = record { job_id = k; status = canceled };
              code = "JOB_0003";
              http_status = "OK";
            })
            else http_exception 400
                (some (record { code = "JOB_4003"; http_status = "BAD_REQUEST" }))),
        v,
      ))
        × ((i : ℕ)
            → get i v.db ≡ (
                if member_of j.status (pending ∷ scheduled ∷ running ∷ []) && k == i
                then some (record j { status = canceled })
                else get i w.db))
        × (v.redis ≡ (
            if member_of j.status (pending ∷ scheduled ∷ running ∷ [])
            then redis_removed jobs store queue k w.redis
            else w.redis))
  cancel_job_lem k j w found =
      let (open_case, closed_case, _) = cancel_job_cases k w in
      let (out, back) = is_open_iff j.status in
      elim (Bool-cases (member_of j.status (pending ∷ scheduled ∷ running ∷ []))) [
        | inl is_open ↦
            let (t, run, rows) = open_case j found (out is_open) in
            (
              record { db = t; redis = redis_removed jobs store queue k w.redis },
              run ∙ rw is_open refl,
              λ i. rows i ∙ rw is_open refl,
              rw is_open refl,
            )
        | inr is_closed ↦
            let run = closed_case j found (λ h. cc (back h, is_closed)) in
            (w, run ∙ rw is_closed refl, λ i. rw is_closed refl, rw is_closed refl)
      ]
