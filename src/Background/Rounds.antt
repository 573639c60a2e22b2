-- ===== src/Background/Rounds.antt =====
-- services/background_tasks.py: what one turn of the detector does.
use schedora.Base.{
  ℕ, String, Bool, true, false, some, List, [], ◌∷◌, ◌≡◌, ◌≢◌, ◌==◌, ◌&&◌, inl, inr, ◌⊎◌,
  if◌then◌else◌, IsIn, any, any-true, any_of, nat_eq, string_eq, eq→≡, ≡→eq, Bool-cases, ap, ◌∙◌,
  sym, refl, arith,
}
use schedora.Enums.{pending, running, stale, job_status_eq}
use schedora.Models.{Job, JobTable, Worker, WorkerTable}
use schedora.Store.{PresenceStore}
use schedora.Heartbeat.{Service, jobs_key}
use schedora.Heartbeat.Detect.{is_lost, detect_stale_workers_lem}
use schedora.Heartbeat.Recover.{handle_stale_worker_lem}
use schedora.Background.{handle_each, detect_and_handle}

module _ (jobs : JobTable) (workers : WorkerTable) (presence : PresenceStore) (timeout : ℕ) where
  open jobs use {get, get_key}
  open presence use {sismember}

  -- One of the workers has the job in its set.
  abbrev is_held : List Worker → ℕ → Service jobs workers presence timeout → Bool
  is_held ws k s = any (λ w. sismember (jobs_key w.worker_id) k s.redis) ws

  abbrev is_among : List Worker → String → Bool
  is_among ws v = any (λ w. w.worker_id == v) ws

  held_later :
      (w : Worker) (k : ℕ) (ws : List Worker) (s t : Service jobs workers presence timeout)
      → ((v : String)
          → sismember (jobs_key v) k t.redis
            ≡ (if w.worker_id == v then false else sismember (jobs_key v) k s.redis))
      → sismember (jobs_key w.worker_id) k s.redis ≡ false
      → is_held ws k t ≡ is_held ws k s
  held_later w k [] s t sets free = refl
  held_later w k (x ∷ ws) s t sets free =
      let rest = held_later w k ws s t sets free in
      elim (Bool-cases (w.worker_id == x.worker_id)) [
        | inl hit ↦
            let same : sismember (jobs_key x.worker_id) k s.redis ≡ false =
              ap (λ v. sismember (jobs_key v) k s.redis) (sym (eq→≡ w.worker_id x.worker_id hit))
              ∙ free in
            ground (arith, sets x.worker_id)
        | inr miss ↦ ground (arith, sets x.worker_id)
      ]

  handle_each_lem :
      (ws : List Worker) (s : Service jobs workers presence timeout)
      → (u : Service jobs workers presence timeout) × (handle_each jobs workers presence timeout ws
            s
          ≡ u)
        × ((i : ℕ) (j : Job)
            → get i s.job_rows ≡ some j
            → get i u.job_rows
              ≡ some (
                  if is_held ws j.job_id s && j.status == running
                  then record j { status = pending }
                  else j))
        × (u.worker_rows ≡ s.worker_rows)
        × ((v : String) (i : ℕ)
            → sismember (jobs_key v) i u.redis
              ≡ (if is_among ws v then false else sismember (jobs_key v) i s.redis))
  unfolding handle_each
  handle_each_lem [] s = (s, refl, λ i j found. found, refl, λ v i. refl)
  handle_each_lem (w ∷ ws) s =
      let (t, run, rows, same, sets, _) =
        handle_stale_worker_lem jobs workers presence timeout w.worker_id s in
      let (u, rest, more_rows, more_same, more_sets) = handle_each_lem ws t in
      (
        u,
        ap (λ r. handle_each jobs workers presence timeout ws r.1) run ∙ rest,
        λ i j found. elim (Bool-cases (sismember (jobs_key w.worker_id) j.job_id s.redis)) [
          | inl held ↦ more_rows i _ (rows i j found) ∙ ground arith
          | inr free ↦
              more_rows i _ (rows i j found)
              ∙ ground (arith, held_later w j.job_id ws s t (λ v. sets v j.job_id) free)
        ],
        more_same ∙ same,
        λ v i. more_sets v i ∙ ground (arith, sets v i),
      )

  -- The workers that a detection found, as `detect_stale_workers_lem` describes them.
  module _ (now : ℕ) (s : Service jobs workers presence timeout) (found : List Worker)
      (sound : (r : Worker)
        → IsIn r found
        → (w : Worker) × (workers.get w.worker_id s.worker_rows ≡ some w)
          × (is_lost jobs workers presence timeout now s w ≡ true)
          × (r ≡ record w { status = stale }))
      (complete : (w : Worker)
        → workers.get w.worker_id s.worker_rows ≡ some w
        → is_lost jobs workers presence timeout now s w ≡ true
        → IsIn (record w { status = stale }) found) where
    found_lost :
        (k : String) (w : Worker)
        → workers.get k s.worker_rows ≡ some w
        → is_among found k ≡ is_lost jobs workers presence timeout now s w
    found_lost k w held =
        let id : w.worker_id ≡ k = workers.get_key k s.worker_rows w held in
        elim (Bool-cases (is_lost jobs workers presence timeout now s w)) [
          | inl lost ↦
              any_of (λ x. x.worker_id == k) (record w { status = stale }) found
                (complete w (ap (λ i. workers.get i s.worker_rows) id ∙ held) lost)
                (≡→eq w.worker_id k id)
              ∙ sym lost
          | inr well ↦ elim (Bool-cases (is_among found k)) [
            | inl hit ↦
                let (r, m, e) = any-true (λ x. x.worker_id == k) found hit in
                let (x, there, lost, same) = sound r m in
                let key : x.worker_id ≡ k =
                  ap (λ y. y.worker_id) (sym same) ∙ eq→≡ r.worker_id k e in
                let one : x ≡ w = cc (there, held, key) in
                absurd (cc (lost, well, ap (is_lost jobs workers presence timeout now s) one))
            | inr miss ↦ miss ∙ sym well
          ]
        ]

    held_by_lost :
        (i : ℕ) (w : Worker)
        → workers.get w.worker_id s.worker_rows ≡ some w
        → is_lost jobs workers presence timeout now s w ≡ true
        → sismember (jobs_key w.worker_id) i s.redis ≡ true
        → is_held found i s ≡ true
    held_by_lost i w known lost mine =
        any_of (λ x. sismember (jobs_key x.worker_id) i s.redis) (record w { status = stale }) found
          (complete w known lost) mine

    held_by_none :
        (i : ℕ)
        → ((w : Worker)
            → workers.get w.worker_id s.worker_rows ≡ some w
            → is_lost jobs workers presence timeout now s w ≡ true
            → sismember (jobs_key w.worker_id) i s.redis ≡ false)
        → is_held found i s ≡ false
    held_by_none i free = elim (Bool-cases (is_held found i s)) [
      | inl hit ↦
          let (r, m, e) = any-true (λ x. sismember (jobs_key x.worker_id) i s.redis) found hit in
          let (x, there, lost, same) = sound r m in
          let id : r.worker_id ≡ x.worker_id = ap (λ y. y.worker_id) same in
          absurd (cc (free x there lost, ap (λ v. sismember (jobs_key v) i s.redis) (sym id) ∙ e))
      | inr miss ↦ miss
    ]

  -- A turn of the detector at `now`. Every worker that is ACTIVE and whose heartbeat key has expired
  -- becomes STALE, and its set of jobs is empty; other workers keep their row and their set. A job
  -- that is RUNNING and in the set of such a worker becomes PENDING; a job that is not RUNNING, or in
  -- the set of no such worker, stays as it is.
  pub detect_and_handle_lem :
      (now : ℕ) (s : Service jobs workers presence timeout)
      → (u : Service jobs workers presence timeout) × (detect_and_handle jobs workers presence
            timeout now s
          ≡ u)
        × ((k : String) (w : Worker)
            → workers.get k s.worker_rows ≡ some w
            → (workers.get k u.worker_rows
                ≡ some (
                    if is_lost jobs workers presence timeout now s w
                    then record w { status = stale }
                    else w))
              × ((i : ℕ)
                  → sismember (jobs_key k) i u.redis ≡ (
                      if is_lost jobs workers presence timeout now s w
                      then false
                      else sismember (jobs_key k) i s.redis)))
        × ((i : ℕ) (j : Job) (w : Worker)
            → get i s.job_rows ≡ some j
            → j.status ≡ running
            → workers.get w.worker_id s.worker_rows ≡ some w
            → is_lost jobs workers presence timeout now s w ≡ true
            → sismember (jobs_key w.worker_id) i s.redis ≡ true
            → get i u.job_rows ≡ some (record j { status = pending }))
        × ((i : ℕ) (j : Job)
            → get i s.job_rows ≡ some j
            → (j.status ≢ running)
              ⊎ ((w : Worker)
                  → workers.get w.worker_id s.worker_rows ≡ some w
                  → is_lost jobs workers presence timeout now s w ≡ true
                  → sismember (jobs_key w.worker_id) i s.redis ≡ false)
            → get i u.job_rows ≡ some j)
  unfolding detect_and_handle
  detect_and_handle_lem now s =
      let (found, t, run, rows, sound, complete) =
        detect_stale_workers_lem jobs workers presence timeout now s in
      let (u, done, job_rows, same, sets) = handle_each_lem found (record s { worker_rows = t }) in
      (
        u,
        ground (arith, run, done),
        λ k w held. (
          ap (workers.get k) same ∙ rows k w held,
          λ i.
              sets k i
              ∙ ap (λ b. if b then false else sismember (jobs_key k) i s.redis)
                  (found_lost now s found sound complete k w held),
        ),
        λ i j w held runs known lost mine.
            let id : j.job_id ≡ i = get_key i s.job_rows j held in
            let busy : is_held found j.job_id s ≡ true =
              ap (λ x. is_held found x s) id
              ∙ (held_by_lost now s found sound complete i w known lost mine) in
            job_rows i j held ∙ ground (arith, busy),
        λ i j held free.
            let id : j.job_id ≡ i = get_key i s.job_rows j held in
            elim free [
              | inl rests ↦ job_rows i j held ∙ ground (arith, rests)
              | inr nobody ↦
                  let idle : is_held found j.job_id s ≡ false =
                    ap (λ x. is_held found x s) id
                    ∙ held_by_none now s found sound complete i nobody in
                  job_rows i j held ∙ ground (arith, idle)
            ],
      )
