-- ===== src/Api/Workers/Laws.antt =====
-- api/v1/workers.py: the answers to the requests of workers and clients.
use schedora.Base.{
  ℕ, ◌<◌, String, Bool, true, Option, none, some, List, [], ◌∷◌, ◌≡◌, ◌≢◌, ◌↔◌, ◌==◌, inl, inr,
  IsIn, length, string_eq, eq_self, eq→≡, ≡→eq, Bool-cases, Option-cases, ap, ◌∙◌, sym, refl, arith,
}
use schedora.Enums.{active, stale, worker_status_eq}
use schedora.Errors.{ok}
use schedora.Models.{JobTable, Worker, WorkerTable}
use schedora.Store.{PresenceStore}
use schedora.Store.Laws.{first-key}
use schedora.Heartbeat.{Service, Registration, new_worker, get_all_active, get_worker as get_by_id}
use schedora.Heartbeat.Register.{register_worker_fresh, register_worker_taken}
use schedora.Workers.{get_all, get_by_status}
use schedora.Api.{answer, http_exception}
use schedora.Api.Workers.{
  validate_all, filtered, register_worker, send_heartbeat, get_worker, list_workers,
  get_worker_jobs, deregister_worker,
}

validate_all-ok :
    (l : List Worker) → ((w : Worker) → IsIn w l → w.started_at ≢ none) → validate_all l ≡ ok l
validate_all-ok [] h = refl
validate_all-ok (w ∷ l) h =
    let rest = validate_all-ok l (λ x m. h x (inr m)) in
    elim (Option-cases w.started_at) [
      | inl never ↦ absurd (h w (inl refl) never)
      | inr (t, e) ↦ ground arith
    ]

module _ (jobs : JobTable) (workers : WorkerTable) (presence : PresenceStore) (timeout : ℕ)
    (s : Service jobs workers presence timeout) where
  open workers use {get, select_sound, select_complete, select}

  by_id : (k : String) → get_by_id workers k s.worker_rows ≡ get k s.worker_rows
  unfolding get_by_id
  by_id k = first-key workers k s.worker_rows

  -- Every request that names a worker without a row gets 404, and nothing changes: a heartbeat
  -- leaves no key in Redis, and a deregistration removes none.
  pub unknown_worker :
      (k : String) (now : ℕ) (cpu memory : Option ℕ)
      → get k s.worker_rows ≡ none
      → (send_heartbeat jobs workers presence timeout k now cpu memory s
          ≡ (http_exception 404 none, s))
        × (get_worker jobs workers presence timeout k s ≡ (http_exception 404 none, s))
        × (get_worker_jobs jobs workers presence timeout k s ≡ (http_exception 404 none, s))
        × (deregister_worker jobs workers presence timeout k now s ≡ (http_exception 404 none, s))
  unfolding send_heartbeat get_worker get_worker_jobs deregister_worker
  unknown_worker k now cpu memory gone = (
    ground (arith, by_id k),
    ground (arith, by_id k),
    ground (arith, by_id k),
    ground (arith, by_id k),
  )

  -- Registering a worker of an unused name with room for a job is answered by 201 with its row, which
  -- a request for the worker then gets with 200. A name that is in use gets 400, and nothing changes.
  pub register_worker-get_worker :
      (now : ℕ) (r : Registration)
      → (get r.worker_id s.worker_rows ≡ none
          → 0 < r.max_concurrent_jobs
          → (t : Service jobs workers presence timeout) × (register_worker jobs workers presence
                timeout now r s
              ≡ (answer 201 (new_worker now r), t))
            × (get_worker jobs workers presence timeout r.worker_id t
                ≡ (answer 200 (new_worker now r), t)))
        × ((w : Worker)
            → get r.worker_id s.worker_rows ≡ some w
            → register_worker jobs workers presence timeout now r s ≡ (http_exception 400 none, s))
  unfolding register_worker get_worker get_by_id new_worker
  register_worker-get_worker now r = (
    λ free room.
        let (t, run, rows, _, _, _, since) =
          register_worker_fresh jobs workers presence timeout now r s free room in
        let held : get r.worker_id t.worker_rows ≡ some (new_worker now r) =
          rows r.worker_id ∙ rw (eq_self r.worker_id) refl in
        (t, ground (arith, run), ground (arith, held, first-key workers r.worker_id t.worker_rows)),
    λ w found. ground (arith, register_worker_taken jobs workers presence timeout now r s w found),
  )

  -- The workers that the filter asks for.
  abbrev pub IsAskedFor : Option String → Worker → Type 0
  IsAskedFor status_filter w =
      (status_filter ≡ some "active" → w.status ≡ active)
      × (status_filter ≡ some "stale" → w.status ≡ stale)

  select_iff :
      (p : Worker → Bool) (w : Worker)
      → IsIn w (select p s.worker_rows) ↔ ((get w.worker_id s.worker_rows ≡ some w) × (p w ≡ true))
  select_iff p w = (
    select_sound p s.worker_rows w,
    λ (found, t). select_complete p s.worker_rows w.worker_id w found t,
  )

  active-ne-stale : (f : String) → f ≡ "active" → f ≢ "stale"
  active-ne-stale f a b = absurd (ground (arith, ap (λ x. x == "active") (sym a ∙ b)))

  filtered_iff :
      (f : Option String) (w : Worker)
      → IsIn w (filtered jobs workers presence timeout f s.worker_rows)
        ↔ ((get w.worker_id s.worker_rows ≡ some w) × IsAskedFor f w)
  unfolding get_all get_all_active get_by_status
  filtered_iff none w = ground (arith, select_iff (λ x. true) w)
  filtered_iff (some f) w = elim (Bool-cases (f == "active")) [
    | inl act ↦
        ground
          (arith, select_iff (λ x. x.status == active) w, eq→≡ f "active" act, active-ne-stale f)
    | inr other ↦ elim (Bool-cases (f == "stale")) [
      | inl old ↦
          ground
            (arith, select_iff (λ x. x.status == stale) w, eq→≡ f "stale" old, active-ne-stale f)
      | inr rest ↦ ground (arith, select_iff (λ x. true) w, ≡→eq f "active", ≡→eq f "stale")
    ]
  ]

  -- Where every worker has a time at which it started, a request for the list changes nothing and is
  -- answered by 200, with the number of the workers in it. With the filter "active" these are the
  -- workers that are ACTIVE, with "stale" those that are STALE, and with no filter or any other text
  -- all workers.
  pub list_workers_lem :
      (f : Option String)
      → ((k : String) (w : Worker) → get k s.worker_rows ≡ some w → w.started_at ≢ none)
      → (l : List Worker) × (list_workers jobs workers presence timeout f s
          ≡ (answer 200 (record { workers = l; total = length l }), s))
        × ((w : Worker)
            → IsIn w l ↔ (
                (get w.worker_id s.worker_rows ≡ some w)
                × ((f ≡ some "active" → w.status ≡ active)
                    × (f ≡ some "stale" → w.status ≡ stale))))
  unfolding list_workers
  list_workers_lem f started = (
    filtered jobs workers presence timeout f s.worker_rows,
    ground (
      arith,
      validate_all-ok (filtered jobs workers presence timeout f s.worker_rows)
          (λ w m. started w.worker_id w ((filtered_iff f w).0 m).0),
    ),
    λ w. filtered_iff f w,
  )
