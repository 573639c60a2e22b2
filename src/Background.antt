-- ===== src/Background.antt =====
-- services/background_tasks.py: the manager and the loops of its two tasks. A turn of a loop reads the
-- manager as it is then; what the turns wait for each other is the list of their times.
pub mod Rounds
pub mod Stopping
use schedora.Base.{ℕ, String, Bool, true, false, Option, List, [], ◌∷◌, ◌++◌, if◌then◌else◌}
use schedora.Errors.{Result, ok, err}
use schedora.Models.{JobTable, Worker, WorkerTable}
use schedora.Store.{PresenceStore}
use schedora.Heartbeat.{Service, detect_stale_workers, handle_stale_worker, cleanup_old_workers}

-- The coroutines that `start` makes tasks of.
pub data BackgroundTask : Type 0 where
  stale_worker_detector_task worker_cleanup_task : BackgroundTask

pub record BackgroundTaskManager : Type 0 where
  pub is_running : Bool
  pub tasks : List BackgroundTask
  pub stop_event : Bool

unfoldable pub new_manager : BackgroundTaskManager
new_manager = record { is_running = false; tasks = []; stop_event = false }

unfoldable pub start : BackgroundTaskManager → BackgroundTaskManager
start m = if m.is_running then m else record m {
  is_running = true;
  tasks = m.tasks ++ stale_worker_detector_task ∷ worker_cleanup_task ∷ [];
}

-- The tasks have ended or are cancelled when the call returns.
unfoldable pub stop : BackgroundTaskManager → BackgroundTaskManager
stop m = if m.is_running then record { is_running = false; tasks = []; stop_event = true } else m

-- One turn of a loop: the manager when the turn begins, and the time.
pub record Turn : Type 0 where
  pub manager : BackgroundTaskManager
  pub now : ℕ

module _ (jobs : JobTable) (workers : WorkerTable) (presence : PresenceStore) (timeout : ℕ) where
  -- `for worker in stale_workers`; an exception is logged.
  unfoldable pub handle_each :
      List Worker → Service jobs workers presence timeout → Service jobs workers presence timeout
  handle_each [] s = s
  handle_each (w ∷ ws) s =
      handle_each ws (handle_stale_worker jobs workers presence timeout w.worker_id s).1

  abbrev pub handle_found :
      Result (List Worker)
      → Service jobs workers presence timeout
      → Service jobs workers presence timeout
  handle_found (ok stale_workers) s = handle_each stale_workers s
  handle_found (err e) s = s

  -- The outer `try` of a turn.
  unfoldable pub detect_and_handle :
      ℕ → Service jobs workers presence timeout → Service jobs workers presence timeout
  detect_and_handle now s =
      let (r, t) = detect_stale_workers jobs workers presence timeout now s in handle_found r t

  unfoldable pub stale_worker_detector :
      List Turn → Service jobs workers presence timeout → Service jobs workers presence timeout
  unfolding detect_and_handle
  stale_worker_detector [] s = s
  stale_worker_detector (r ∷ rs) s = elim r.manager.stop_event [
    | true ↦ s
    | false ↦ stale_worker_detector rs (detect_and_handle r.now s)
  ]

  unfoldable pub worker_cleanup_loop :
      ℕ → List Turn → Service jobs workers presence timeout → Service jobs workers presence timeout
  worker_cleanup_loop cleanup_after [] s = s
  worker_cleanup_loop cleanup_after (r ∷ rs) s = elim r.manager.stop_event [
    | true ↦ s
    | false ↦
        worker_cleanup_loop cleanup_after rs
          (cleanup_old_workers jobs workers presence timeout cleanup_after r.now s).1
  ]
