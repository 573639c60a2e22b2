-- ===== src/Background/Stopping.antt =====
-- services/background_tasks.py: a manager that was stopped.
use schedora.Base.{ℕ, true, List, [], ◌∷◌, ◌≡◌, arith}
use schedora.Models.{JobTable, WorkerTable}
use schedora.Store.{PresenceStore}
use schedora.Heartbeat.{Service}
use schedora.Background.{
  BackgroundTaskManager, Turn, start, stop, stale_worker_detector, worker_cleanup_loop,
}

-- What is called on a manager.
pub data Call : Type 0 where
  call_start call_stop : Call

abbrev pub after : BackgroundTaskManager → List Call → BackgroundTaskManager
after m [] = m
after m (call_start ∷ cs) = after (start m) cs
after m (call_stop ∷ cs) = after (stop m) cs

-- The stop event is never cleared.
stop_event-after :
    (cs : List Call) (m : BackgroundTaskManager)
    → m.stop_event ≡ true
    → (after m cs).stop_event ≡ true
unfolding start stop
stop_event-after [] m set = set
stop_event-after (call_start ∷ cs) m set = stop_event-after cs (start m) (ground arith)
stop_event-after (call_stop ∷ cs) m set = stop_event-after cs (stop m) (ground arith)

stop_event-stop : (m : BackgroundTaskManager) → m.is_running ≡ true → (stop m).stop_event ≡ true
unfolding stop
stop_event-stop m runs = ground arith

module _ (jobs : JobTable) (workers : WorkerTable) (presence : PresenceStore) (timeout : ℕ) where
  -- A manager that was running and is stopped may be started again, and then says that it is running;
  -- but whatever is called on it, each later turn of either task ends its loop without any work.
  pub stop-start_idle :
      (m : BackgroundTaskManager) (cs : List Call) (cleanup_after now : ℕ) (rs : List Turn)
      (s : Service jobs workers presence timeout)
      → m.is_running ≡ true
      → ((start (stop m)).is_running ≡ true)
        × (stale_worker_detector jobs workers presence timeout
              (record { manager = after (stop m) cs; now = now } ∷ rs)
              s
            ≡ s)
        × (worker_cleanup_loop jobs workers presence timeout cleanup_after
              (record { manager = after (stop m) cs; now = now } ∷ rs)
              s
            ≡ s)
  unfolding start stop stale_worker_detector worker_cleanup_loop
  stop-start_idle m cs cleanup_after now rs s runs =
      let set = stop_event-after cs (stop m) (stop_event-stop m runs) in
      (ground arith, ground (arith, set), ground (arith, set))
