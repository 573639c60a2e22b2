-- ===== src/Workers/Counts.antt =====
-- repositories/worker_repository.py: the count of a worker's jobs.
use schedora.Base.{
  plus-minus, ltb, ltb→lt, ◌&&◌, ℕ, ◌+◌, ◌-◌, ◌<◌, ◌≤◌, String, true, none, some, ◌≡◌, ◌==◌,
  if◌then◌else◌, string_eq, Option-cases, inl, inr, ap, ◌∙◌, sym, refl, arith, eq_self, is_some,
  Le-cases, false, Bool-cases, eq→≡,
}
use schedora.Errors.{ok, err, value_error, integrity_error}
use schedora.Models.{Worker, WorkerTable, check_worker}
use schedora.Store.Laws.{first-key, flush_some}
use schedora.Heartbeat.{get_worker}
use schedora.Workers.{one_less, bulk_update, increment_current_jobs, decrement_current_jobs}

module _ (workers : WorkerTable) where
  open workers use {State, get, flush, get_key, get_valid, get-flush, flush_iff}

  more_valid :
      (x : Worker)
      → check_worker x ≡ true
      → x.current_job_count < x.max_concurrent_jobs
      → check_worker (record x { current_job_count = x.current_job_count + 1 }) ≡ true
  more_valid x v room = ground arith

  less_valid :
      (x : Worker)
      → check_worker x ≡ true
      → check_worker (record x { current_job_count = one_less x.current_job_count }) ≡ true
  less_valid x v = ground arith

  more_invalid :
      (x : Worker)
      → x.max_concurrent_jobs ≤ x.current_job_count
      → check_worker (record x { current_job_count = x.current_job_count + 1 }) ≡ false
  more_invalid x crowded = ground arith

  one_less-minus : (n : ℕ) → one_less n ≡ n - 1
  one_less-minus n = ground arith

  get_worker-get : (k : String) (s : State) → get_worker workers k s ≡ get k s
  unfolding get_worker
  get_worker-get k s = first-key workers k s

  bulk_update_found :
      (k : String) (f : Worker → Worker) (x : Worker) (s : State)
      → get k s ≡ some x
      → (f x).worker_id ≡ x.worker_id
      → check_worker (f x) ≡ true
      → (t : State) × (bulk_update workers k f s ≡ (ok (some (f x)), t))
        × ((i : String) → get i t ≡ (if k == i then some (f x) else get i s))
  bulk_update_found k f x s found same v =
      let (t, done) = flush_some workers (f x) s v in
      let rows : (i : String) → get i t ≡ (if k == i then some (f x) else get i s) =
        λ i. get-flush i (f x) s t done ∙ rw (same ∙ get_key k s x found) refl in
      let again : get_worker workers k t ≡ some (f x) =
        get_worker-get k t ∙ rows k ∙ rw (eq_self k) refl in
      (t, ground (arith, found, done, again), rows)

  bulk_update_refused :
      (k : String) (f : Worker → Worker) (x : Worker) (s : State)
      → get k s ≡ some x
      → check_worker (f x) ≡ false
      → bulk_update workers k f s ≡ (err integrity_error, s)
  bulk_update_refused k f x s found v = elim (Option-cases (flush (f x) s)) [
    | inl failed ↦ ground (arith, found, failed)
    | inr (t, done) ↦ absurd (cc (flush_iff (f x) s, v, ap is_some done))
  ]

  increment_current_jobs_cases :
      (k : String) (s : State)
      → ((x : Worker)
          → get k s ≡ some x
          → x.current_job_count < x.max_concurrent_jobs
          → (t : State) × (increment_current_jobs workers k s
              ≡ (ok (some (record x { current_job_count = x.current_job_count + 1 })), t))
            × ((i : String)
                → get i t ≡ (
                    if k == i
                    then some (record x { current_job_count = x.current_job_count + 1 })
                    else get i s)))
        × ((x : Worker)
            → get k s ≡ some x
            → x.max_concurrent_jobs ≤ x.current_job_count
            → increment_current_jobs workers k s ≡ (err integrity_error, s))
        × (get k s ≡ none → increment_current_jobs workers k s ≡ (err value_error, s))
  unfolding increment_current_jobs
  increment_current_jobs_cases k s = (
    λ x found room.
        bulk_update_found k _ x s found refl (more_valid x (get_valid k s x found) room),
    λ x found crowded. bulk_update_refused k _ x s found (more_invalid x crowded),
    λ gone. ground arith,
  )

  -- An increment of a worker that exists adds one to its count, and changes no other row, if the count
  -- is below `max_concurrent_jobs`; otherwise it raises IntegrityError and changes nothing.
  pub increment_current_jobs_lem :
      (k : String) (x : Worker) (s : State)
      → get k s ≡ some x
      → (t : State) × (increment_current_jobs workers k s ≡ (
        (if ltb x.current_job_count x.max_concurrent_jobs
            then ok (some (record x { current_job_count = x.current_job_count + 1 }))
            else err integrity_error),
        t,
      ))
        × ((i : String)
            → get i t ≡ (
                if ltb x.current_job_count x.max_concurrent_jobs && k == i
                then some (record x { current_job_count = x.current_job_count + 1 })
                else get i s))
  increment_current_jobs_lem k x s found =
      let (room, full, _) = increment_current_jobs_cases k s in
      elim (Bool-cases (ltb x.current_job_count x.max_concurrent_jobs)) [
        | inl free ↦
            let (t, run, rows) = room x found (ltb→lt _ _ free) in
            (t, run ∙ rw free refl, λ i. rows i ∙ rw free refl)
        | inr crowded ↦
            let run = full x found (ground arith) in
            (s, run ∙ rw crowded refl, λ i. rw crowded refl)
      ]

  -- A decrement of a worker that exists never raises: its count is one less, or stays 0, and no other
  -- row changes.
  pub decrement_current_jobs_lem :
      (k : String) (x : Worker) (s : State)
      → get k s ≡ some x
      → (t : State) × (decrement_current_jobs workers k s
          ≡ (ok (some (record x { current_job_count = x.current_job_count - 1 })), t))
        × ((i : String)
            → get i t ≡ (
                if k == i
                then some (record x { current_job_count = x.current_job_count - 1 })
                else get i s))
  unfolding decrement_current_jobs
  decrement_current_jobs_lem k x s found = rw (← one_less-minus x.current_job_count) (
      bulk_update_found k (λ w. record w { current_job_count = one_less w.current_job_count }) x s
        found refl (less_valid x (get_valid k s x found)))

  -- An increment that succeeds and then a decrement leave every row as it was.
  pub increment-decrement :
      (k : String) (x y : Worker) (s t : State)
      → get k s ≡ some x
      → increment_current_jobs workers k s ≡ (ok (some y), t)
      → (u : State) × (decrement_current_jobs workers k t ≡ (ok (some x), u))
        × ((i : String) → get i u ≡ get i s)
  increment-decrement k x y s t found h =
      let (room, full, _) = increment_current_jobs_cases k s in
      elim (Le-cases x.max_concurrent_jobs x.current_job_count) [
        | inl crowded ↦ absurd (ground (arith, full x found crowded))
        | inr free ↦
            let (v, run, rows) = room x found free in
            let same : t ≡ v = ap (λ r. r.1) (sym h ∙ run) in
            let up : Worker = record x { current_job_count = x.current_job_count + 1 } in
            let held : get k t ≡ some up = ap (get k) same ∙ rows k ∙ rw (eq_self k) refl in
            let (u, back, more) = decrement_current_jobs_lem k up t held in
            let same_row =
              ap (λ n. some (record x { current_job_count = n }))
                (plus-minus x.current_job_count) in
            (
              u,
              back ∙ ap (λ o. (ok o, u)) same_row,
              λ i. elim (Bool-cases (k == i)) [
                | inl hit ↦
                    more i ∙ rw hit same_row ∙ sym (ap (λ j. get j s) (sym (eq→≡ k i hit)) ∙ found)
                | inr miss ↦ more i ∙ rw miss (ap (get i) same ∙ rows i ∙ rw miss refl)
              ],
            )
      ]
