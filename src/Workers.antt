-- ===== src/Workers.antt =====
-- repositories/worker_repository.py: the methods that services/heartbeat_service.py does not call.
-- `update(**kwargs)` takes what the assignments do to the row; a bulk UPDATE is of the one row with the
-- primary key. `get_by_id` and the rest of the class are in Heartbeat.
pub mod Counts
use schedora.Base.{
  ℕ, ◌+◌, ◌*◌, ◌-◌, String, Bool, true, false, Option, none, some, List, ◌==◌, ◌&&◌, ltb,
  if◌then◌else◌,
}
use schedora.Enums.{WorkerStatus, active, worker_status_eq}
use schedora.Errors.{Action, ok, err, value_error, commit, ◌>>=◌}
use schedora.Models.{Worker, WorkerTable}
use schedora.Heartbeat.{get_worker}

-- `last_heartbeat_at < now - timeout`, with no subtraction; NULL fails the filter.
abbrev pub beaten_before : Option ℕ → ℕ → ℕ → Bool
beaten_before none timeout now = false
beaten_before (some t) timeout now = ltb (t + timeout * 1_000_000) now

-- `current_job_count - 1` where it is over 0, and otherwise 0.
abbrev pub one_less : ℕ → ℕ
one_less n = if ltb 0 n then n - 1 else 0

module _ (workers : WorkerTable) where
  open workers use {State, get, select, flush}

  -- The changed row of the worker is written and committed; without one, `ValueError` is raised.
  abbrev pub write_found : Option Worker → (Worker → Worker) → Action State Worker
  write_found none f s = (err value_error, s)
  write_found (some w) f s = commit (f w) (flush (f w) s) s

  unfoldable pub update : String → (Worker → Worker) → Action State Worker
  update worker_id kwargs s = write_found (get_worker workers worker_id s) kwargs s

  unfoldable pub get_all : State → List Worker
  get_all s = select (λ w. true) s

  unfoldable pub get_all_stale : ℕ → ℕ → State → List Worker
  get_all_stale timeout now s =
      select (λ w. w.status == active && beaten_before w.last_heartbeat_at timeout now) s

  unfoldable pub get_by_status : WorkerStatus → State → List Worker
  get_by_status status s = select (λ w. w.status == status) s

  abbrev pub read_back : String → Action State (Option Worker)
  read_back worker_id s = (ok (get_worker workers worker_id s), s)

  -- A bulk UPDATE and its commit, after which the row is read again.
  abbrev pub bulk_update : String → (Worker → Worker) → Action State (Option Worker)
  bulk_update worker_id f = (λ s. write_found (get worker_id s) f s) >>= λ _. read_back worker_id

  unfoldable pub increment_current_jobs : String → Action State (Option Worker)
  increment_current_jobs worker_id =
      bulk_update worker_id λ w. record w { current_job_count = w.current_job_count + 1 }

  unfoldable pub decrement_current_jobs : String → Action State (Option Worker)
  decrement_current_jobs worker_id =
      bulk_update worker_id λ w. record w { current_job_count = one_less w.current_job_count }
