-- ===== src/Examples/Fleets.antt =====
-- repositories/worker_repository.py, services/background_tasks.py and cli/worker_cli.py on one worker.
use schedora.Base.{
  ℕ, String, true, false, Option, none, some, List, [], ◌∷◌, ◌≡◌, ◌≢◌, ◌⊎◌, refl, if◌then◌else◌,
  string_eq, arith,
}
use schedora.Enums.{scheduled, success, pending, running, stale, stopped}
use schedora.Errors.{ok}
use schedora.Models.{Job, Worker}
use schedora.Heartbeat.{Registration, jobs_key, new_worker}
use schedora.Heartbeat.Detect.{is_lost}
use schedora.Background.{
  BackgroundTaskManager, new_manager, start, stop, detect_and_handle, stale_worker_detector,
  worker_cleanup_loop,
}
use schedora.Background.Rounds.{detect_and_handle_lem}
use schedora.Background.Stopping.{call_start, after, stop-start_idle}
use schedora.Cli.{Heartbeat, exit_failure, finished, killed, run_worker}
use schedora.Cli.Crashes.{run_worker-again, detect_and_handle-run_worker}
use schedora.Scheduler.{claim_job}
use schedora.Registry.{get_handler}
use schedora.Executor.{run_handler, run_handler_with_timeout, returned, execute}
use schedora.Executor.Steps.{succeeded}
use schedora.Lifecycle.Recovery.{recovered_job_succeeds}
use schedora.Examples.Runs.{alone, texts, echo}
use schedora.Store.Sample.Keys.{map_presence}
use schedora.Examples.Data.{unlocked, job_table, worker_table, job_of, registration}
use schedora.Examples.Workers.{Fleet, one, nobody, held}

detect_and_handle_lem_example :
    (u : Fleet) × (detect_and_handle job_table worker_table map_presence 30 40_000_000 one ≡ u)
    × ((k : String) (w : Worker)
        → worker_table.get k one.worker_rows ≡ some w
        → (worker_table.get k u.worker_rows
            ≡ some (
                if is_lost job_table worker_table map_presence 30 40_000_000 one w
                then record w { status = stale }
                else w))
          × ((i : ℕ)
              → map_presence.sismember (jobs_key k) i u.redis ≡ (
                  if is_lost job_table worker_table map_presence 30 40_000_000 one w
                  then false
                  else map_presence.sismember (jobs_key k) i one.redis)))
    × ((i : ℕ) (j : Job) (w : Worker)
        → job_table.get i one.job_rows ≡ some j
        → j.status ≡ running
        → worker_table.get w.worker_id one.worker_rows ≡ some w
        → is_lost job_table worker_table map_presence 30 40_000_000 one w ≡ true
        → map_presence.sismember (jobs_key w.worker_id) i one.redis ≡ true
        → job_table.get i u.job_rows ≡ some (record j { status = pending }))
    × ((i : ℕ) (j : Job)
        → job_table.get i one.job_rows ≡ some j
        → (j.status ≢ running)
          ⊎ ((w : Worker)
              → worker_table.get w.worker_id one.worker_rows ≡ some w
              → is_lost job_table worker_table map_presence 30 40_000_000 one w ≡ true
              → map_presence.sismember (jobs_key w.worker_id) i one.redis ≡ false)
        → job_table.get i u.job_rows ≡ some j)
detect_and_handle_lem_example =
    detect_and_handle_lem job_table worker_table map_presence 30 40_000_000 one

abbrev started_manager : BackgroundTaskManager
started_manager = start new_manager

runs : started_manager.is_running ≡ true
unfolding start new_manager
runs = refl

stop-start_idle_example :
    ((start (stop started_manager)).is_running ≡ true)
    × (stale_worker_detector job_table worker_table map_presence 30
          (record { manager = after (stop started_manager) (call_start ∷ []); now = 40_000_000 }
            ∷ [])
          one
        ≡ one)
    × (worker_cleanup_loop job_table worker_table map_presence 30 60
          (record { manager = after (stop started_manager) (call_start ∷ []); now = 40_000_000 }
            ∷ [])
          one
        ≡ one)
stop-start_idle_example =
    stop-start_idle job_table worker_table map_presence 30 started_manager (call_start ∷ []) 60
      40_000_000 [] one runs

-- The process takes job 1 and runs it.
abbrev one_beat : List (Heartbeat job_table worker_table map_presence 30)
one_beat =
    record {
      meanwhile = λ s. job_of 1 "a" running ∷ s;
      now = 9;
      cpu_percent = some 40;
      memory_percent = none;
    }
    ∷ []

run_worker-again_example :
    (u : Fleet) × (run_worker job_table worker_table map_presence 30 5 registration one_beat
        (some 12)
        nobody
      ≡ (finished, u))
    × ((x : Worker) × (worker_table.get "w" u.worker_rows ≡ some x) × (x.status ≡ stopped))
    × ((later : ℕ) (again : Registration)
          (more : List (Heartbeat job_table worker_table map_presence 30)) (stopped_at : Option ℕ)
        → run_worker job_table worker_table map_presence 30 later
            (record again { worker_id = "w" })
            more
            stopped_at
            u
          ≡ (exit_failure, u))
run_worker-again_example =
    run_worker-again job_table worker_table map_presence 30 5 12 registration one_beat nobody refl
      (omega arith) (omega arith)

detect_and_handle-run_worker_example :
    ((run_worker job_table worker_table map_presence 30 5 registration one_beat none nobody).0
      ≡ killed)
    × (job_table.get 1
          (detect_and_handle job_table worker_table map_presence 30 90_000_000
            (run_worker job_table worker_table map_presence 30 5 registration one_beat none
              nobody).1).job_rows
        ≡ some (job_of 1 "a" running))
detect_and_handle-run_worker_example =
    detect_and_handle-run_worker job_table worker_table map_presence 30 5 90_000_000 registration
      one_beat nobody 1 (job_of 1 "a" running) refl (omega arith) (λ v. refl) refl

silent :
    is_lost job_table worker_table map_presence 30 40_000_000 one (new_worker 5 registration) ≡ true
unfolding new_worker
silent = refl

echoed_again :
    run_handler job_table alone texts echo
      (record (job_of 1 "a" running) { status = scheduled; worker_id = some "v" })
    ≡ returned "{}"
unfolding run_handler get_handler run_handler_with_timeout
echoed_again = refl

recovered_job_succeeds_example :
    (t : List Job) × (claim_job job_table [] "v" 50_000_000 unlocked
        (some 1)
        (detect_and_handle job_table worker_table map_presence 30 40_000_000 one).job_rows
      ≡ (ok (some (record (job_of 1 "a" running) { status = scheduled; worker_id = some "v" })), t))
    × (u : List Job) × (execute job_table alone texts echo
          (record (job_of 1 "a" running) { status = scheduled; worker_id = some "v" })
          60
          70
          80
          t
        ≡ (ok (succeeded job_table alone "{}"), u))
    × (job_table.get 1 u
        ≡ some (record (job_of 1 "a" running) {
          status = success;
          worker_id = some "v";
          started_at = some 60;
          completed_at = some 70;
          result = some "{}";
        }))
unfolding new_worker
recovered_job_succeeds_example =
    recovered_job_succeeds job_table worker_table map_presence 30 [] alone texts echo 40_000_000
      50_000_000 60 70 80 unlocked "v" "{}" one (job_of 1 "a" running) (new_worker 5 registration)
      refl refl held silent refl (λ l i. absurd i) refl (omega arith) refl (λ n s. refl)
      (omega arith) echoed_again
