-- ===== src/Cli.antt =====
-- cli/worker_cli.py: the life of a worker process, as far as its row, its heartbeats and its jobs. What
-- the polling task of this process and all other processes do to jobs between two heartbeats is an
-- argument; neither calls anything that writes workers or their keys in Redis.
pub mod Crashes
use schedora.Base.{ℕ, String, Option, none, some, List, [], ◌∷◌}
use schedora.Errors.{Result, ok, err}
use schedora.Models.{JobTable, Worker, WorkerTable}
use schedora.Store.{PresenceStore}
use schedora.Heartbeat.{Service, Registration, register_worker, send_heartbeat, deregister_worker}
use schedora.Registry.{register_handler}

-- `sys.exit(1)` or the end of the coroutine, or a process that was killed meanwhile.
pub data Exit : Type 0 where
  exit_failure finished killed : Exit

abbrev pub and_register :
    {H : Type 0} → Result (List (String × H)) → String → H → Result (List (String × H))
and_register (err e) job_type handler = err e
and_register (ok l) job_type handler = register_handler job_type handler l

-- The three handlers of worker/handlers.
unfoldable pub setup_handlers :
    {H : Type 0} → H → H → H → List (String × H) → Result (List (String × H))
setup_handlers echo_handler sleep_handler fail_handler l =
    and_register (and_register (register_handler "echo" echo_handler l) "sleep" sleep_handler)
      "fail" fail_handler

module _ (jobs : JobTable) (workers : WorkerTable) (presence : PresenceStore) (timeout : ℕ) where
  -- A turn of the loop of `send_heartbeats`, and what happened to jobs since the last.
  pub record Heartbeat : Type 0 where
    pub meanwhile : jobs.State → jobs.State
    pub now : ℕ
    pub cpu_percent : Option ℕ
    pub memory_percent : Option ℕ

  -- An exception is logged, and the loop goes on.
  unfoldable pub send_heartbeats :
      String
      → List Heartbeat
      → Service jobs workers presence timeout
      → Service jobs workers presence timeout
  send_heartbeats worker_id [] s = s
  send_heartbeats worker_id (b ∷ bs) s =
      send_heartbeats worker_id bs
        (send_heartbeat jobs workers presence timeout worker_id b.now b.cpu_percent b.memory_percent
          (record s { job_rows = b.meanwhile s.job_rows })).1

  -- After the registration. Without a stop signal the process is killed after its last heartbeat.
  abbrev pub serve :
      Result Worker
      → String
      → List Heartbeat
      → Option ℕ
      → Service jobs workers presence timeout
      → Exit × Service jobs workers presence timeout
  serve (err e) worker_id bs stopped_at s = (exit_failure, s)
  serve (ok w) worker_id bs stopped_at s =
      let t = send_heartbeats worker_id bs s in
      elim stopped_at [
        | none ↦ (killed, t)
        | some now ↦ (finished, (deregister_worker jobs workers presence timeout worker_id now t).1)
      ]

  unfoldable pub run_worker :
      ℕ
      → Registration
      → List Heartbeat
      → Option ℕ
      → Service jobs workers presence timeout
      → Exit × Service jobs workers presence timeout
  run_worker started r bs stopped_at s =
      let (result, t) = register_worker jobs workers presence timeout started r s in
      serve result r.worker_id bs stopped_at t
