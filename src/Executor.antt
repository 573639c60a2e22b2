-- ===== src/Executor.antt =====
-- worker/job_executor.py in its production mode, where each step opens a session of its own, and the
-- job is the copy that the worker claimed. What other processes commit before each step is an
-- argument, as are the clock and the handlers.
pub mod Steps
pub mod Outcome
use schedora.Base.{
  nat_eq, not, ◌&&◌, ℕ, ◌*◌, String, Bool, true, false, Option, none, some, List, ◌==◌, leb,
  if◌then◌else◌,
}
use schedora.Enums.{JobStatus, running, success, failed, job_status_eq}
use schedora.Errors.{Action, ok, err, Error, commit, pure, ◌>>◌}
use schedora.Models.{Job, JobTable}
use schedora.StateMachine.{validate_transition}
use schedora.Jobs.{get_by_id}
use schedora.Registry.{get_handler}

-- worker/models.py
pub record ExecutionResult : Type 0 where
  pub success : Bool
  pub result : Option String
  pub error_message : Option String
  pub error_details : Option String

-- How the awaited handler ends.
pub data Awaited : Type 0 where
  returned : String → Awaited
  raised : (message details : String) → Awaited
  timed_out : Awaited

pub record Run : Type 0 where
  -- In microseconds.
  pub duration : ℕ
  pub ending : Awaited

-- What the messages are made of: `str(e)` and the traceback of an exception, and the two texts of a
-- timeout.
pub record Texts : Type 0 where
  pub message : Error → String
  pub traceback : Error → String
  pub timeout_message : Option ℕ → String
  pub timeout_details : Option ℕ → String

-- `asyncio.wait_for`, where a timeout is given that is not 0.
unfoldable pub run_handler_with_timeout : Option ℕ → Run → Awaited
run_handler_with_timeout none run = run.ending
run_handler_with_timeout (some seconds) run =
    if not (seconds == 0) && leb (seconds * 1_000_000) run.duration then timed_out else run.ending

module _ (jobs : JobTable) (env : ℕ → jobs.State → jobs.State) where
  open jobs use {State, flush}

  -- The `n`th step in a thread: it runs on what the other processes have committed until then.
  abbrev pub to_thread : {A : Type 0} → ℕ → Action State A → Action State A
  to_thread n step s = step (env n s)

  -- A session that loads the job, writes it and commits, if there is such a job.
  abbrev pub write_found : (Job → Job) → Option Job → Action State (Unit {0})
  write_found f none s = pure tt s
  write_found f (some j) s = commit tt (flush (f j) s) s

  unfoldable pub write_job : ℕ → (Job → Job) → Action State (Unit {0})
  write_job job_id f s = write_found f (get_by_id jobs job_id s) s

  abbrev pub set_started : ℕ → Job → Job
  set_started now j = record j { started_at = some now }

  abbrev pub set_completed : ℕ → Job → Job
  set_completed now j = record j { completed_at = some now }

  abbrev pub set_result : String → Job → Job
  set_result r j = record j { result = some r }

  abbrev pub set_error : String → Option String → Job → Job
  set_error message details j = record j { error_message = some message; error_details = details }

  -- `transition_sync`
  abbrev pub transition_found : JobStatus → Option Job → Action State (Unit {0})
  transition_found st none = pure tt
  transition_found st (some j) = do
    validate_transition j.status st
    write_found (λ x. record x { status = st }) (some j)

  unfoldable pub transition_status : ℕ → JobStatus → Action State (Unit {0})
  unfolding validate_transition
  transition_status job_id st s = transition_found st (get_by_id jobs job_id s) s

  unfoldable pub handle_success : ℕ → ℕ → String → Action State ExecutionResult
  handle_success job_id now r = do
    to_thread 2 (write_job job_id (set_completed now))
    to_thread 3 (write_job job_id (set_result r))
    to_thread 4 (transition_status job_id success)
    pure (record { success = true; result = some r; error_message = none; error_details = none })

  unfoldable pub handle_failure : ℕ → ℕ → String → Option String → Action State ExecutionResult
  handle_failure job_id now message details = do
    to_thread 5 (write_job job_id (set_completed now))
    to_thread 6 (write_job job_id (set_error message details))
    to_thread 7 (transition_status job_id failed)
    pure (record {
      success = false;
      result = none;
      error_message = some message;
      error_details = details;
    })

  -- `try: m` / `except Exception as e: h e`
  abbrev pub try_except : {A : Type 0} → Action State A → (Error → Action State A) → Action State A
  try_except m h s = let (r, t) = m s in elim r [ ok a ↦ (ok a, t) | err e ↦ h e t ]

  -- What the `try` statement does with the awaited handler. `now` is read when the job has ended, and
  -- `later` when an error of `_handle_success` is handled.
  unfoldable pub settle : Texts → Job → ℕ → ℕ → Awaited → Action State ExecutionResult
  unfolding handle_success handle_failure
  settle texts job now later (returned r) =
      try_except (handle_success job.job_id now r)
        (λ e. handle_failure job.job_id later (texts.message e) (some (texts.traceback e)))
  settle texts job now later (raised message details) =
      handle_failure job.job_id now message (some details)
  settle texts job now later timed_out =
      handle_failure job.job_id now (texts.timeout_message job.timeout_seconds)
        (some (texts.timeout_details job.timeout_seconds))

  -- The handler of the job's type, run on its payload; a missing one is a KeyError.
  unfoldable pub run_handler : Texts → List (String × (String → Run)) → Job → Awaited
  unfolding run_handler_with_timeout
  run_handler texts registry job = elim (get_handler job.type registry) [
    | ok handler ↦ run_handler_with_timeout job.timeout_seconds (handler job.payload)
    | err e ↦ raised (texts.message e) (texts.traceback e)
  ]

  abbrev pub begin : Job → Action State (Unit {0})
  begin job =
      if job.status == running then pure tt else to_thread 0 (transition_status job.job_id running)

  unfoldable pub execute :
      Texts → List (String × (String → Run)) → Job → ℕ → ℕ → ℕ → Action State ExecutionResult
  unfolding settle run_handler
  execute texts registry job started now later = do
    begin job
    to_thread 1 (write_job job.job_id (set_started started))
    settle texts job now later (run_handler texts registry job)
