-- ===== src/Heartbeat/Register.antt =====
-- services/heartbeat_service.py: registration.
use schedora.Base.{
  ℕ, ◌+◌, ◌*◌, ◌≤◌, ◌<◌, String, true, false, none, some, ◌≡◌, ◌==◌, if◌then◌else◌, is_some, sym,
  ◌∙◌, ap, refl, arith, eq_self, ne→eq_false, ≡→eq, ltb, Option-cases, inl, inr, string_eq,
}
use schedora.Enums.{active, stale, worker_status_eq}
use schedora.Errors.{ok, err, integrity_error}
use schedora.Models.{JobTable, Worker, WorkerTable, check_worker}
use schedora.Store.{PresenceStore}
use schedora.Heartbeat.{
  Service, Registration, heartbeat_key, new_worker, register_worker, detect_stale_workers,
}
use schedora.Heartbeat.Detect.{is_lost, detect_stale_workers_lem}

module _ (jobs : JobTable) (workers : WorkerTable) (presence : PresenceStore) (timeout : ℕ) where
  open workers use {
    State, get, insert, flush, get_key, get_valid, get-insert, get-flush, insert_unique,
    insert_accepts, select, delete_count, get-delete,
  }
  open presence use {
    delete, sismember, exists, setex, exists-setex, exists-delete, sismember-delete,
    sismember-setex,
  }

  fresh_id : (t0 : ℕ) (r : Registration) → (new_worker t0 r).worker_id ≡ r.worker_id
  unfolding new_worker
  fresh_id t0 r = refl

  fresh_row :
      (t0 : ℕ) (r : Registration)
      → ((new_worker t0 r).status ≡ active) × ((new_worker t0 r).started_at ≡ some t0)
  unfolding new_worker
  fresh_row t0 r = (refl, refl)

  fresh_valid :
      (t0 : ℕ) (r : Registration)
      → 0 < r.max_concurrent_jobs
      → check_worker (new_worker t0 r) ≡ true
  unfolding new_worker
  fresh_valid t0 r room = ground arith

  no_clash :
      (t0 : ℕ) (r : Registration) (s : Service jobs workers presence timeout)
      → get r.worker_id s.worker_rows ≡ none
      → (k : String) (x : Worker) → get k s.worker_rows ≡ some x
      → x.worker_id == (new_worker t0 r).worker_id ≡ false
  no_clash t0 r s free k x found =
      ne→eq_false x.worker_id (new_worker t0 r).worker_id
        λ same. cc (fresh_id t0 r, get_key k s.worker_rows x found)

  -- Registering a worker of an unused name, with room for at least one job, makes it ACTIVE, and its
  -- heartbeat lives exactly until the timeout has passed. Other workers and all jobs stay.
  pub register_worker_fresh :
      (t0 : ℕ) (r : Registration) (s : Service jobs workers presence timeout)
      → get r.worker_id s.worker_rows ≡ none
      → 0 < r.max_concurrent_jobs
      → (u : Service jobs workers presence timeout) × (register_worker jobs workers presence timeout
            t0 r s
          ≡ (ok (new_worker t0 r), u))
        × ((k : String)
            → get k u.worker_rows
              ≡ (if r.worker_id == k then some (new_worker t0 r) else get k s.worker_rows))
        × ((now : ℕ)
            → t0 ≤ now
            → exists (heartbeat_key r.worker_id) now u.redis ≡ ltb now (t0 + timeout * 1_000_000))
        × (u.job_rows ≡ s.job_rows)
        × ((new_worker t0 r).status ≡ active)
        × ((new_worker t0 r).started_at ≡ some t0)
  unfolding register_worker
  register_worker_fresh t0 r s free room =
      elim (Option-cases (insert (new_worker t0 r) s.worker_rows)) [
        | inl refused ↦ cc (
          insert_accepts (new_worker t0 r) s.worker_rows (fresh_valid t0 r room)
              (no_clash t0 r s free),
          ap (λ o. is_some o) refused,
        )
        | inr (t, done) ↦ (
          record s {
            worker_rows = t;
            redis = setex (heartbeat_key r.worker_id) timeout t0 s.redis;
          },
          ground (arith, done),
          λ k. get-insert k (new_worker t0 r) s.worker_rows t done ∙ rw (fresh_id t0 r),
          λ now later.
              exists-setex (heartbeat_key r.worker_id) (heartbeat_key r.worker_id) timeout t0 now
                s.redis later
              ∙ rw (eq_self (heartbeat_key r.worker_id)),
          refl,
          (fresh_row t0 r).0,
          (fresh_row t0 r).1,
        )
      ]

  -- Registering a name that is in use raises IntegrityError and changes nothing.
  pub register_worker_taken :
      (t0 : ℕ) (r : Registration) (s : Service jobs workers presence timeout) (w : Worker)
      → get r.worker_id s.worker_rows ≡ some w
      → register_worker jobs workers presence timeout t0 r s ≡ (err integrity_error, s)
  unfolding register_worker
  register_worker_taken t0 r s w found =
      elim (Option-cases (insert (new_worker t0 r) s.worker_rows)) [
        | inl refused ↦ ground (arith, refused)
        | inr (t, done) ↦ cc (
          insert_unique r.worker_id (new_worker t0 r) w s.worker_rows t done found,
          ≡→eq w.worker_id (new_worker t0 r).worker_id
              (get_key r.worker_id s.worker_rows w found ∙ sym (fresh_id t0 r)),
        )
      ]

  lost_by :
      (t0 now : ℕ) (r : Registration) (u : Service jobs workers presence timeout)
      → exists (heartbeat_key r.worker_id) now u.redis ≡ ltb now (t0 + timeout * 1_000_000)
      → (if is_lost jobs workers presence timeout now u (new_worker t0 r)
          then record (new_worker t0 r) { status = stale }
          else new_worker t0 r)
        ≡ (if ltb now (t0 + timeout * 1_000_000)
            then new_worker t0 r
            else record (new_worker t0 r) { status = stale })
  unfolding new_worker
  lost_by t0 now r u beats = rw beats (ground arith)

  -- A worker of an unused name, with room for at least one job, is registered at `t0`, and the next
  -- call is a detection at `now`, not before `t0`. The detection leaves the worker as it was
  -- registered if less than the timeout has passed since `t0`, and makes it STALE otherwise.
  pub register-detect :
      (t0 now : ℕ) (r : Registration) (s u : Service jobs workers presence timeout)
      → get r.worker_id s.worker_rows ≡ none
      → 0 < r.max_concurrent_jobs
      → t0 ≤ now
      → register_worker jobs workers presence timeout t0 r s ≡ (ok (new_worker t0 r), u)
      → (v : Service jobs workers presence timeout) × ((detect_stale_workers jobs workers presence
            timeout now u).1
          ≡ v)
        × (get r.worker_id v.worker_rows
            ≡ some (
                if ltb now (t0 + timeout * 1_000_000)
                then new_worker t0 r
                else record (new_worker t0 r) { status = stale }))
  register-detect t0 now r s u free room later made =
      let (u', e, rows, alive, _, _, _) = register_worker_fresh t0 r s free room in
      let same : u' ≡ u = ap (λ z. z.1) (sym e ∙ made) in
      let row : get r.worker_id u.worker_rows ≡ some (new_worker t0 r) =
        ap (λ z. get r.worker_id z.worker_rows) (sym same)
        ∙ rows r.worker_id
        ∙ rw (eq_self r.worker_id) in
      let beats : exists (heartbeat_key r.worker_id) now u.redis
          ≡ ltb now (t0 + timeout * 1_000_000) =
        ap (λ z. exists (heartbeat_key r.worker_id) now z.redis) (sym same) ∙ alive now later in
      let (found, t, found_eq, after, _, _) =
        detect_stale_workers_lem jobs workers presence timeout now u in
      (
        record u { worker_rows = t },
        ap (λ z. z.1) found_eq,
        after r.worker_id (new_worker t0 r) row ∙ ap some (lost_by t0 now r u beats),
      )
