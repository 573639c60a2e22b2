-- ===== src/Heartbeat/Recover.antt =====
-- services/heartbeat_service.py: the jobs of a worker, and `handle_stale_worker`.
use schedora.Base.{
  ap, eq→≡, ≡→eq, ℕ, String, true, false, none, some, List, [], ◌∷◌, ◌≡◌, ◌==◌, ◌&&◌, if◌then◌else◌,
  IsIn, ◌↔◌, sym, ◌∙◌, refl, arith, any, nat_eq, string_eq, Option-cases, inl, inr, Bool-cases,
  ne→eq_false,
}
use schedora.Enums.{pending, running, job_status_eq}
use schedora.Errors.{ok}
use schedora.Models.{Job, JobTable, WorkerTable}
use schedora.Store.{PresenceStore}
use schedora.Store.Laws.{flush_some}
use schedora.Jobs.Repository.{get_by_id-get}
use schedora.Heartbeat.{
  Service, heartbeat_key, jobs_key, reset_job, reset_jobs, handle_stale_worker, get_worker_jobs,
}
use schedora.Heartbeat.Keys.{keys-injective, heartbeat-ne-jobs}

-- The row of a job after the jobs `ks` were reset.
abbrev pub reset_row : List ℕ → Job → Job
reset_row ks j =
    if any (λ x. x == j.job_id) ks && j.status == running then record j { status = pending } else j

-- Two keys of sets of jobs are equal exactly when the workers are.
jobs_key-eq : (a b : String) → jobs_key a == jobs_key b ≡ (a == b)
jobs_key-eq a b = elim (Bool-cases (a == b)) [
  | inl same ↦ ≡→eq (jobs_key a) (jobs_key b) (ap jobs_key (eq→≡ a b same)) ∙ sym same
  | inr other ↦
      ne→eq_false (jobs_key a) (jobs_key b)
        (keys-injective a b (λ same. cc (≡→eq a b same, other))).1
      ∙ sym other
]

module _ (jobs : JobTable) (workers : WorkerTable) (presence : PresenceStore) (timeout : ℕ) where
  open jobs use {State, get, get_key, get_valid, get-flush, flush}
  open presence use {
    sismember, smembers, exists, delete, smembers_iff, sismember-sadd, sismember-srem,
    sismember-delete, exists-delete,
  }

  -- One turn of the loop.
  reset_job_lem :
      (k : ℕ) (s : State)
      → (t : State) × (reset_job jobs workers presence timeout k s ≡ some t)
        × ((i : ℕ) (j : Job) → get i s ≡ some j → get i t ≡ some (reset_row (k ∷ []) j))
  reset_job_lem k s = elim (Option-cases (get k s)) [
    | inl gone ↦ (
      s,
      ground (arith, get_by_id-get jobs k s),
      λ i j found. ground (arith, get_key i s j found),
    )
    | inr (j, found) ↦ elim (Bool-cases (j.status == running)) [
      | inl runs ↦
          let (t, done) =
            flush_some jobs (record j { status = pending }) s (get_valid k s j found) in
          (
            t,
            ground (arith, get_by_id-get jobs k s, done),
            λ i x held. ground (
              arith,
              get_key i s x held,
              get_key k s j found,
              get-flush i (record j { status = pending }) s t done,
            ),
          )
      | inr rests ↦ (
        s,
        ground (arith, get_by_id-get jobs k s),
        λ i x held. ground (arith, get_key i s x held),
      )
    ]
  ]

  -- The loop over any list of jobs.
  reset_jobs_lem :
      (ks : List ℕ) (s : State)
      → (t : State) × (reset_jobs jobs workers presence timeout ks s ≡ some t)
        × ((i : ℕ) (j : Job) → get i s ≡ some j → get i t ≡ some (reset_row ks j))
  unfolding reset_jobs
  reset_jobs_lem [] s = (s, refl, λ i j found. found)
  reset_jobs_lem (k ∷ ks) s =
      let (t, first_done, one) = reset_job_lem k s in
      let (u, rest, more) = reset_jobs_lem ks t in
      (
        u,
        rw (first_done, reset_jobs) rest,
        λ i j found. more i (reset_row (k ∷ []) j) (one i j found) ∙ ground arith,
      )

  any_iff : (k : ℕ) (l : List ℕ) → (any (λ x. x == k) l ≡ true) ↔ IsIn k l
  any_iff k [] = ground arith
  any_iff k (x ∷ l) = ground (arith, any_iff k l)

  has_iff :
      (w : String) (k : ℕ) (s : Service jobs workers presence timeout)
      → any (λ x. x == k) (get_worker_jobs jobs workers presence timeout w s)
        ≡ sismember (jobs_key w) k s.redis
  unfolding get_worker_jobs
  has_iff w k s =
      ground (arith, any_iff k (smembers (jobs_key w) s.redis), smembers_iff (jobs_key w) k s.redis)

  -- Handling a stale worker never raises. Each job in the worker's set that is RUNNING becomes PENDING,
  -- every other job row stays, and so do the workers. Afterwards the set of the worker is empty; the
  -- sets of all other workers, and all heartbeats, stay.
  pub handle_stale_worker_lem :
      (w : String) (s : Service jobs workers presence timeout)
      → (u : Service jobs workers presence timeout) × (handle_stale_worker jobs workers presence
            timeout w s
          ≡ (ok tt, u))
        × ((i : ℕ) (j : Job)
            → get i s.job_rows ≡ some j
            → get i u.job_rows
              ≡ some (
                  if sismember (jobs_key w) j.job_id s.redis && j.status == running
                  then record j { status = pending }
                  else j))
        × (u.worker_rows ≡ s.worker_rows)
        × ((v : String) (i : ℕ)
            → sismember (jobs_key v) i u.redis
              ≡ (if w == v then false else sismember (jobs_key v) i s.redis))
        × ((v : String) (now : ℕ)
            → exists (heartbeat_key v) now u.redis ≡ exists (heartbeat_key v) now s.redis)
  unfolding handle_stale_worker
  handle_stale_worker_lem w s =
      let (t, done, rows) =
        reset_jobs_lem (get_worker_jobs jobs workers presence timeout w s) s.job_rows in
      (
        record s { job_rows = t; redis = delete (jobs_key w) s.redis },
        ground (arith, done),
        λ i j found. rows i j found ∙ rw (has_iff w j.job_id s),
        refl,
        λ v i. sismember-delete (jobs_key v) (jobs_key w) i s.redis ∙ rw (jobs_key-eq w v),
        λ v now.
            exists-delete (heartbeat_key v) (jobs_key w) now s.redis
            ∙ rw (ne→eq_false (jobs_key w) (heartbeat_key v) (λ e. heartbeat-ne-jobs v w (sym e))),
      )

  -- A turn of the loop makes no row.
  reset_job_absent :
      (k i : ℕ) (s t : State)
      → reset_job jobs workers presence timeout k s ≡ some t
      → get i s ≡ none
      → get i t ≡ none
  reset_job_absent k i s t run gone = elim (Option-cases (get k s)) [
    | inl missing ↦ ground (arith, get_by_id-get jobs k s)
    | inr (j, found) ↦ elim (Bool-cases (j.status == running)) [
      | inr rests ↦ ground (arith, get_by_id-get jobs k s)
      | inl runs ↦
          let written : flush (record j { status = pending }) s ≡ some t =
            ground (arith, get_by_id-get jobs k s) in
          elim (Bool-cases (j.job_id == i)) [
            | inl hit ↦
                let same : k ≡ i = sym (get_key k s j found) ∙ eq→≡ j.job_id i hit in
                absurd (cc (found, gone, same))
            | inr miss ↦ get-flush i (record j { status = pending }) s t written ∙ rw miss gone
          ]
    ]
  ]

  reset_jobs_absent :
      (ks : List ℕ) (i : ℕ) (s t : State)
      → reset_jobs jobs workers presence timeout ks s ≡ some t
      → get i s ≡ none
      → get i t ≡ none
  unfolding reset_jobs
  reset_jobs_absent [] i s t run gone = ground (arith, run, gone)
  reset_jobs_absent (k ∷ ks) i s t run gone =
      elim (Option-cases (reset_job jobs workers presence timeout k s)) [
        | inl broken ↦ ground (arith, run, broken)
        | inr (u, one) ↦
            reset_jobs_absent ks i u t (ground (arith, run, one))
              (reset_job_absent k i s u one gone)
      ]

  -- Handling a stale worker makes no row.
  pub handle_stale_worker_absent :
      (w : String) (s : Service jobs workers presence timeout) (i : ℕ)
      → get i s.job_rows ≡ none
      → get i (handle_stale_worker jobs workers presence timeout w s).1.job_rows ≡ none
  unfolding handle_stale_worker
  handle_stale_worker_absent w s i gone =
      let ks = get_worker_jobs jobs workers presence timeout w s in
      elim (Option-cases (reset_jobs jobs workers presence timeout ks s.job_rows)) [
        | inl broken ↦ ground (arith, broken, gone)
        | inr (t, done) ↦ ground (arith, done, reset_jobs_absent ks i s.job_rows t done gone)
      ]
