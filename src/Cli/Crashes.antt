-- ===== src/Cli/Crashes.antt =====
-- cli/worker_cli.py with services/heartbeat_service.py and services/background_tasks.py: a worker
-- process that is started again, and one that is killed.
use schedora.Base.{
  ℕ, ◌≤◌, ◌<◌, String, false, Option, none, some, List, [], ◌∷◌, ◌≡◌, ◌==◌, inl, inr, if◌then◌else◌,
  string_eq, eq_self, Option-cases, ap, ◌∙◌, sym, refl, arith,
}
use schedora.Enums.{stopped}
use schedora.Models.{Job, JobTable, Worker, WorkerTable}
use schedora.Store.{PresenceStore}
use schedora.Heartbeat.{
  Service, Registration, heartbeat_key, jobs_key, new_worker, get_worker, beat, send_heartbeat,
  register_worker,
}
use schedora.Heartbeat.Keys.{heartbeat-ne-jobs}
use schedora.Heartbeat.Register.{register_worker_fresh, register_worker_taken}
use schedora.Heartbeat.Beats.{send_heartbeat_lem}
use schedora.Heartbeat.Leaving.{deregister_worker_lem}
use schedora.Background.{detect_and_handle}
use schedora.Background.Rounds.{detect_and_handle_lem}
use schedora.Cli.{Heartbeat, exit_failure, finished, killed, send_heartbeats, run_worker}

if_same : (k : String) (x y : Option Worker) → (if k == k then x else y) ≡ x
if_same k x y = rw (eq_self k) refl

module _ (jobs : JobTable) (workers : WorkerTable) (presence : PresenceStore) (timeout : ℕ) where
  open workers use {get}
  open presence use {sismember, sismember-setex, setex}

  -- A heartbeat writes no job, and no set of jobs.
  send_heartbeat_spares :
      (w : String) (now : ℕ) (cpu memory : Option ℕ) (s : Service jobs workers presence timeout)
      → ((send_heartbeat jobs workers presence timeout w now cpu memory s).1.job_rows ≡ s.job_rows)
        × ((v : String) (i : ℕ)
            → sismember
                (jobs_key v)
                i
                (send_heartbeat jobs workers presence timeout w now cpu memory s).1.redis
              ≡ sismember (jobs_key v) i s.redis)
  unfolding send_heartbeat
  send_heartbeat_spares w now cpu memory s =
      let untouched : (v : String) (i : ℕ)
          → sismember (jobs_key v) i (setex (heartbeat_key w) timeout now s.redis)
            ≡ sismember (jobs_key v) i s.redis =
        λ v i.
          sismember-setex (jobs_key v) (heartbeat_key w) i timeout now s.redis
            (heartbeat-ne-jobs w v) in
      elim (Option-cases (get_worker workers w s.worker_rows)) [
        | inl gone ↦ (ground arith, λ v i. ground (arith, untouched v i))
        | inr (x, found) ↦
            elim (Option-cases
              (workers.flush (beat jobs workers presence timeout now cpu memory x) s.worker_rows)) [
                | inl failed ↦ (ground arith, λ v i. ground (arith, untouched v i))
                | inr (t, done) ↦ (ground arith, λ v i. ground (arith, untouched v i))
              ]
      ]

  register_worker_spares :
      (now : ℕ) (r : Registration) (s : Service jobs workers presence timeout)
      → ((register_worker jobs workers presence timeout now r s).1.job_rows ≡ s.job_rows)
        × ((v : String) (i : ℕ)
            → sismember
                (jobs_key v)
                i
                (register_worker jobs workers presence timeout now r s).1.redis
              ≡ sismember (jobs_key v) i s.redis)
  unfolding register_worker
  register_worker_spares now r s =
      elim (Option-cases (workers.insert (new_worker now r) s.worker_rows)) [
        | inl failed ↦ (ground arith, λ v i. ground arith)
        | inr (t, done) ↦ (
          ground arith,
          λ v i. ground (
            arith,
            sismember-setex (jobs_key v) (heartbeat_key r.worker_id) i timeout now s.redis
                (heartbeat-ne-jobs r.worker_id v),
          ),
        )
      ]

  -- What happened to jobs during the heartbeats.
  abbrev pub worked : List (Heartbeat jobs workers presence timeout) → jobs.State → jobs.State
  worked [] t = t
  worked (b ∷ bs) t = worked bs (b.meanwhile t)

  send_heartbeats_lem :
      (w : String) (bs : List (Heartbeat jobs workers presence timeout))
      (s : Service jobs workers presence timeout)
      → (u : Service jobs workers presence timeout) × (send_heartbeats jobs workers presence timeout
            w bs s
          ≡ u)
        × (u.job_rows ≡ worked bs s.job_rows)
        × ((v : String) (i : ℕ)
            → sismember (jobs_key v) i u.redis ≡ sismember (jobs_key v) i s.redis)
        × ((x : Worker)
            → get w s.worker_rows ≡ some x
            → (y : Worker) × (get w u.worker_rows ≡ some y) × (y.started_at ≡ x.started_at))
  unfolding send_heartbeats
  send_heartbeats_lem w [] s = (s, refl, refl, λ v i. refl, λ x found. (x, found, refl))
  send_heartbeats_lem w (b ∷ bs) s =
      let worked_on : Service jobs workers presence timeout = record s {
        job_rows = b.meanwhile s.job_rows;
      } in
      let (t, run, _, rows) =
        send_heartbeat_lem jobs workers presence timeout w b.now b.cpu_percent b.memory_percent
          worked_on in
      let next : (send_heartbeat jobs workers presence timeout w b.now b.cpu_percent
            b.memory_percent worked_on).1
          ≡ t =
        ap (λ r. r.1) run in
      let (spared, sets) = send_heartbeat_spares w b.now b.cpu_percent b.memory_percent worked_on in
      let (u, rest, jobs_later, sets_later, row_later) = send_heartbeats_lem w bs t in
      (
        u,
        ap (send_heartbeats jobs workers presence timeout w bs) next ∙ rest,
        jobs_later ∙ ap (worked bs) (sym (ap (λ x. x.job_rows) next) ∙ spared),
        λ v i. sets_later v i ∙ sym (ap (λ x. sismember (jobs_key v) i x.redis) next) ∙ sets v i,
        λ x found.
            let (y, there, since) = row_later _ (rows w x found) in
            (y, there, since ∙ ground arith),
      )

  -- A process that registers a worker of an unused name, with room for a job, sends heartbeats and is
  -- stopped by a signal after it started ends, and leaves the worker STOPPED. A process that is then
  -- started with the same name exits with a failure, and changes nothing.
  pub run_worker-again :
      (started now : ℕ) (r : Registration) (bs : List (Heartbeat jobs workers presence timeout))
      (s : Service jobs workers presence timeout)
      → get r.worker_id s.worker_rows ≡ none
      → 0 < r.max_concurrent_jobs
      → started ≤ now
      → (u : Service jobs workers presence timeout) × (run_worker jobs workers presence timeout
            started r bs
            (some now)
            s
          ≡ (finished, u))
        × ((x : Worker) × (get r.worker_id u.worker_rows ≡ some x) × (x.status ≡ stopped))
        × ((later : ℕ) (again : Registration)
              (more : List (Heartbeat jobs workers presence timeout)) (stopped_at : Option ℕ)
            → run_worker jobs workers presence timeout later
                (record again { worker_id = r.worker_id })
                more
                stopped_at
                u
              ≡ (exit_failure, u))
  unfolding run_worker
  run_worker-again started now r bs s free room later =
      let (t, run, rows, _, _, _, since) =
        register_worker_fresh jobs workers presence timeout started r s free room in
      let held : get r.worker_id t.worker_rows ≡ some (new_worker started r) =
        rows r.worker_id ∙ if_same r.worker_id _ _ in
      let (v, beats, _, _, row_later) = send_heartbeats_lem r.worker_id bs t in
      let (y, there, same) = row_later (new_worker started r) held in
      let (u, left, left_rows, _) =
        deregister_worker_lem jobs workers presence timeout r.worker_id started now y v there
          (same ∙ since) later in
      let gone : get r.worker_id u.worker_rows
          ≡ some (record y { status = stopped; stopped_at = some now }) =
        left_rows r.worker_id ∙ if_same r.worker_id _ _ in
      (
        u,
        ground (arith, run, beats, left),
        (record y { status = stopped; stopped_at = some now }, gone, refl),
        λ again_at again more stopped_at. ground (
          arith,
          register_worker_taken jobs workers presence timeout again_at
              (record again { worker_id = r.worker_id }) u _ gone,
        ),
      )

  -- A process registers a worker of an unused name, with room for a job, sends heartbeats and is
  -- killed, and then the
  -- detector of stale workers has a turn. A job that no worker's set in Redis had at the start is as
  -- the processes left it that work on jobs, for instance RUNNING.
  pub detect_and_handle-run_worker :
      (started now : ℕ) (r : Registration) (bs : List (Heartbeat jobs workers presence timeout))
      (s : Service jobs workers presence timeout) (i : ℕ) (j : Job)
      → get r.worker_id s.worker_rows ≡ none
      → 0 < r.max_concurrent_jobs
      → ((v : String) → sismember (jobs_key v) i s.redis ≡ false)
      → jobs.get i (worked bs s.job_rows) ≡ some j
      → ((run_worker jobs workers presence timeout started r bs none s).0 ≡ killed)
        × (jobs.get i
              (detect_and_handle jobs workers presence timeout now
                (run_worker jobs workers presence timeout started r bs none s).1).job_rows
            ≡ some j)
  unfolding run_worker
  detect_and_handle-run_worker started now r bs s i j free room idle found =
      let (t, run, _, _, _, _, _) =
        register_worker_fresh jobs workers presence timeout started r s free room in
      let next : (register_worker jobs workers presence timeout started r s).1 ≡ t =
        ap (λ x. x.1) run in
      let (kept, sets) = register_worker_spares started r s in
      let (v, beats, worked_jobs, sets_later, _) = send_heartbeats_lem r.worker_id bs t in
      let ended : run_worker jobs workers presence timeout started r bs none s ≡ (killed, v) =
        ground (arith, run, beats) in
      let (u, turn, _, _, spared) = detect_and_handle_lem jobs workers presence timeout now v in
      (
        ap (λ x. x.0) ended,
        ap (λ x. jobs.get i (detect_and_handle jobs workers presence timeout now x.1).job_rows)
              ended
            ∙ ap (λ x. jobs.get i x.job_rows) turn
            ∙ spared i j
                (ap (jobs.get i)
                    (worked_jobs ∙ ap (worked bs) (sym (ap (λ x. x.job_rows) next) ∙ kept))
                  ∙ found)
                (inr (λ w known lost.
                  sets_later w.worker_id i
                  ∙ sym (ap (λ x. sismember (jobs_key w.worker_id) i x.redis) next)
                  ∙ sets w.worker_id i
                  ∙ idle w.worker_id)),
      )
