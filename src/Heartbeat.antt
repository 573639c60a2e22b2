-- ===== src/Heartbeat.antt =====
-- services/heartbeat_service.py over repositories/worker_repository.py. `timeout` and `cleanup_after`
-- are the settings, in seconds; times are in microseconds.
pub mod Keys
pub mod Detect
pub mod Recover
pub mod Register
pub mod Beats
pub mod Leaving
use Prim.Native.String.{◌++◌}
use schedora.Base.{
  ℕ, ◌+◌, ◌*◌, String, Bool, true, false, Option, none, some, List, [], ◌∷◌, ◌==◌, ◌&&◌, not, ltb,
  if◌then◌else◌, keep, map, nat_eq, string_eq,
}
use schedora.Enums.{
  JobStatus, WorkerStatus, pending, running, active, stale, stopped, job_status_eq,
  worker_status_eq,
}
use schedora.Errors.{Action, ok, err, integrity_error, commit}
use schedora.Models.{Job, JobTable, Worker, WorkerTable, null_or}
use schedora.Store.{PresenceStore}
use schedora.Store.Laws.{flush_all}
use schedora.Jobs.{get_by_id}

abbrev pub heartbeat_key : String → String
heartbeat_key worker_id = "worker:" ++ (worker_id ++ ":heartbeat")

abbrev pub jobs_key : String → String
jobs_key worker_id = "worker:" ++ (worker_id ++ ":jobs")

abbrev pub or_empty : Option String → Option String
or_empty none = some "{}"
or_empty (some x) = some x

-- The arguments of `register_worker`.
pub record Registration : Type 0 where
  pub worker_id : String
  pub hostname : String
  pub pid : ℕ
  pub version : String
  pub max_concurrent_jobs : ℕ
  pub capabilities : Option String
  pub metadata : Option String

unfoldable pub new_worker : ℕ → Registration → Worker
new_worker now r = record {
  worker_id = r.worker_id;
  hostname = r.hostname;
  pid = r.pid;
  version = r.version;
  status = active;
  last_heartbeat_at = none;
  started_at = some now;
  stopped_at = none;
  max_concurrent_jobs = r.max_concurrent_jobs;
  current_job_count = 0;
  total_jobs_processed = 0;
  total_jobs_succeeded = 0;
  total_jobs_failed = 0;
  cpu_percent = none;
  memory_percent = none;
  capabilities = or_empty r.capabilities;
  worker_metadata = or_empty r.metadata;
}

abbrev pub given_or : Option ℕ → Option ℕ → Option ℕ
given_or none old = old
given_or (some x) old = some x

-- `stopped_at < now - cleanup_after`, with no subtraction.
abbrev pub stopped_before : Option ℕ → ℕ → ℕ → Bool
stopped_before none cleanup_after now = false
stopped_before (some t) cleanup_after now = ltb (t + cleanup_after * 1_000_000) now

-- The filter of `delete_old_stopped_workers`.
abbrev pub is_old : ℕ → ℕ → Worker → Bool
is_old cleanup_after now w = w.status == stopped && stopped_before w.stopped_at cleanup_after now

module _ (workers : WorkerTable) where
  open workers use {State, first, select, delete}

  unfoldable pub get_worker : String → State → Option Worker
  get_worker worker_id s = first (λ w. w.worker_id == worker_id) s

  unfoldable pub get_all_active : State → List Worker
  get_all_active s = select (λ w. w.status == active) s

  unfoldable pub delete_old_stopped_workers : ℕ → ℕ → State → ℕ × State
  delete_old_stopped_workers cleanup_after now s = delete (is_old cleanup_after now) s

module _ (jobs : JobTable) (workers : WorkerTable) (presence : PresenceStore) (timeout : ℕ) where
  pub record Service : Type 0 where
    pub job_rows : jobs.State
    pub worker_rows : workers.State
    pub redis : presence.State

  open presence use {exists, setex, sadd, srem, smembers, delete}

  unfoldable pub register_worker : ℕ → Registration → Action Service Worker
  register_worker now r s = elim (workers.insert (new_worker now r) s.worker_rows) [
    | none ↦ (err integrity_error, s)
    | some t ↦ (
      ok (new_worker now r),
      record s { worker_rows = t; redis = setex (heartbeat_key r.worker_id) timeout now s.redis },
    )
  ]

  abbrev pub beat : ℕ → Option ℕ → Option ℕ → Worker → Worker
  beat now cpu memory w = record w {
    last_heartbeat_at = some now;
    cpu_percent = given_or cpu w.cpu_percent;
    memory_percent = given_or memory w.memory_percent;
  }

  -- The UPDATE of a worker that was loaded, if there is one.
  abbrev pub write_worker : Option Worker → (Worker → Worker) → Action Service (Unit {0})
  write_worker none f s = (ok tt, s)
  write_worker (some w) f s = elim (workers.flush (f w) s.worker_rows) [
    | none ↦ (err integrity_error, s)
    | some t ↦ (ok tt, record s { worker_rows = t })
  ]

  unfoldable pub send_heartbeat : String → ℕ → Option ℕ → Option ℕ → Action Service (Unit {0})
  send_heartbeat worker_id now cpu memory s =
      write_worker (get_worker workers worker_id s.worker_rows) (beat now cpu memory)
        (record s { redis = setex (heartbeat_key worker_id) timeout now s.redis })

  abbrev pub is_silent : ℕ → Service → Worker → Bool
  is_silent now s w = not (exists (heartbeat_key w.worker_id) now s.redis)

  abbrev pub as_stale : Worker → Worker
  as_stale w = record w { status = stale }

  unfoldable pub detect_stale_workers : ℕ → Action Service (List Worker)
  detect_stale_workers now s =
      let found = map as_stale (keep (is_silent now s) (get_all_active workers s.worker_rows)) in
      elim (flush_all workers found s.worker_rows) [
        | none ↦ (err integrity_error, s)
        | some t ↦ (ok found, record s { worker_rows = t })
      ]

  unfoldable pub get_worker_jobs : String → Service → List ℕ
  get_worker_jobs worker_id s = smembers (jobs_key worker_id) s.redis

  -- One turn of the loop of `handle_stale_worker`: RUNNING becomes PENDING.
  abbrev pub reset_job : ℕ → jobs.State → Option jobs.State
  reset_job job_id s = elim (get_by_id jobs job_id s) [
    | none ↦ some s
    | some j ↦ if j.status == running then jobs.flush (record j { status = pending }) s else some s
  ]

  unfoldable pub reset_jobs : List ℕ → jobs.State → Option jobs.State
  reset_jobs [] s = some s
  reset_jobs (k ∷ ks) s = elim (reset_job k s) [ none ↦ none | some t ↦ reset_jobs ks t ]

  unfoldable pub handle_stale_worker : String → Action Service (Unit {0})
  unfolding reset_jobs get_worker_jobs
  handle_stale_worker worker_id s = elim (reset_jobs (get_worker_jobs worker_id s) s.job_rows) [
    | none ↦ (err integrity_error, s)
    | some t ↦ (ok tt, record s { job_rows = t; redis = delete (jobs_key worker_id) s.redis })
  ]

  unfoldable pub assign_job_to_worker : String → ℕ → Service → Service
  assign_job_to_worker worker_id job_id s = record s {
    redis = sadd (jobs_key worker_id) job_id s.redis;
  }

  unfoldable pub remove_job_from_worker : String → ℕ → Service → Service
  remove_job_from_worker worker_id job_id s = record s {
    redis = srem (jobs_key worker_id) job_id s.redis;
  }

  unfoldable pub deregister_worker : String → ℕ → Action Service (Unit {0})
  deregister_worker worker_id now s =
      write_worker (get_worker workers worker_id s.worker_rows)
        (λ w. record w { status = stopped; stopped_at = some now })
        (record s {
          redis = delete (jobs_key worker_id) (delete (heartbeat_key worker_id) s.redis);
        })

  unfoldable pub cleanup_old_workers : ℕ → ℕ → Service → ℕ × Service
  cleanup_old_workers cleanup_after now s =
      let (deleted, t) = delete_old_stopped_workers workers cleanup_after now s.worker_rows in
      (deleted, record s { worker_rows = t })
