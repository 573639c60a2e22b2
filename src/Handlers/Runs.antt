-- ===== src/Handlers/Runs.antt =====
-- worker/handlers in a worker: a run of each handler that cli/worker_cli.py sets up, through
-- worker/handler_registry.py and worker/job_executor.py.
use schedora.Base.{
  ℕ, ◌≤◌, ◌*◌, String, Bool, false, Option, none, some, List, [], ◌∷◌, ◌≡◌, ◌≢◌, ◌∙◌, refl, ap,
  arith, leb, not, ◌==◌, ◌&&◌, nat_eq, string_eq, if◌then◌else◌, Bool-cases, inl, inr,
}
use schedora.Enums.{scheduled, success, failed}
use schedora.Errors.{ok}
use schedora.Models.{Job, JobTable}
use schedora.Registry.{has_handler, register_handler, get_handler}
use schedora.Executor.{
  Run, Texts, Awaited, returned, raised, timed_out, run_handler, run_handler_with_timeout, execute,
}
use schedora.Executor.Steps.{Leaves, succeeded, failed_with}
use schedora.Executor.Outcome.{execute-returned, execute-raised, execute-timed_out}
use schedora.Cli.{setup_handlers}
use schedora.Handlers.{
  number, text, Python, ExceptionClass, get_or, error_class, a_key_error, echo_handler,
  sleep_handler, fail_handler,
}

-- The registry of a worker.
abbrev pub registry_of : Python → List (String × (String → Run))
registry_of py =
    ("echo", echo_handler) ∷ ("sleep", sleep_handler py) ∷ ("fail", fail_handler py) ∷ []

-- `setup_handlers` fills an empty registry without an error.
pub setup_handlers_lem :
    (py : Python)
    → setup_handlers echo_handler (sleep_handler py) (fail_handler py) [] ≡ ok (registry_of py)
unfolding setup_handlers register_handler has_handler
setup_handlers_lem py = refl

-- The limit is set, is not 0, and is no longer than the duration: at equality the timer of `wait_for`
-- runs out first.
abbrev pub exceeds : Option ℕ → ℕ → Bool
exceeds none n = false
exceeds (some seconds) n = not (seconds == 0) && leb (seconds * 1_000_000) n

with_timeout :
    (limit : Option ℕ) (run : Run)
    → run_handler_with_timeout limit run
      ≡ (if exceeds limit run.duration then timed_out else run.ending)
unfolding run_handler_with_timeout
with_timeout none run = refl
with_timeout (some seconds) run = refl

at_once : (limit : Option ℕ) → exceeds limit 0 ≡ false
at_once none = refl
at_once (some seconds) = ground arith

module _ (py : Python) where
  abbrev slept : ℕ → String
  slept n = py.dumps (("status", text "completed") ∷ ("duration", number n) ∷ [])

  sleep_handler_lem :
      (payload : String) (n : ℕ)
      → get_or (py.get payload "duration") (number 1_000_000) ≡ number n
      → sleep_handler py payload ≡ record { duration = n; ending = returned (slept n) }
  unfolding sleep_handler
  sleep_handler_lem payload n asked = ground (arith, asked, py.sleep-number n)

  fail_handler_lem :
      (payload m : String) (c : ExceptionClass)
      → get_or (py.get payload "error_message") (text "Simulated job failure") ≡ text m
      → error_class (get_or (py.get payload "error_type") (text "Exception")) ≡ some c
      → c ≢ a_key_error
      → fail_handler py payload
        ≡ record { duration = 0; ending = raised m (py.traceback c (text m)) }
  unfolding fail_handler
  fail_handler_lem payload m c message class other =
      ground (arith, message, class, py.str-text c m other)

-- What a run with a timeout gives.
abbrev awaited : Option ℕ → Run → Awaited
awaited limit run = if exceeds limit run.duration then timed_out else run.ending

module _ (jobs : JobTable) (env : ℕ → jobs.State → jobs.State) (texts : Texts) (py : Python)
    (job : Job) (started now later : ℕ) (s : jobs.State) (registry : List (String × (String → Run)))
    (made : setup_handlers echo_handler (sleep_handler py) (fail_handler py) [] ≡ ok registry)
    (leaves : Leaves jobs env job.job_id) (found : jobs.get job.job_id s ≡ some job)
    (waits : job.status ≡ scheduled) (fresh : job.completed_at ≡ none) (clock : started ≤ now) where
  open jobs use {State, get}

  made_so : registry ≡ registry_of py
  made_so = cc (made, setup_handlers_lem py)

  -- The handler of a type is run with the job's timeout.
  handled :
      (h : String → Run)
      → get_handler job.type (registry_of py) ≡ ok h
      → run_handler jobs env texts registry job ≡ awaited job.timeout_seconds (h job.payload)
  unfolding run_handler
  handled h e = ground (arith, made_so, e, with_timeout job.timeout_seconds (h job.payload))

  -- The first run of a claimed job of the type echo, with any timeout, on a worker that the command line
  -- has set up: it succeeds, and its result in the row is its payload.
  pub echo_job :
      job.type ≡ "echo"
      → (t : State) × (execute jobs env texts registry job started now later s
          ≡ (ok (succeeded jobs env job.payload), t))
        × (get job.job_id t
            ≡ some (record job {
              status = success;
              started_at = some started;
              completed_at = some now;
              result = some job.payload;
            }))
  unfolding echo_handler get_handler
  echo_job kind =
      execute-returned jobs env texts registry job started now later job.payload s leaves found
        waits fresh clock
        (handled echo_handler (rw kind refl) ∙ rw (at_once job.timeout_seconds) refl)

  -- The first run of a claimed job of the type sleep on such a worker, whose payload has a number as its
  -- duration or has none and so sleeps for one second: if the timeout is set, is not 0 and is no longer
  -- than the sleep, the row is FAILED with the texts of a timeout; otherwise it is SUCCESS, with the duration in its result.
  pub sleep_job :
      (n : ℕ)
      → job.type ≡ "sleep"
      → get_or (py.get job.payload "duration") (number 1_000_000) ≡ number n
      → (t : State) × (get job.job_id t
          ≡ some (
              if exceeds job.timeout_seconds n
              then record job {
                status = failed;
                started_at = some started;
                completed_at = some now;
                error_message = some (texts.timeout_message job.timeout_seconds);
                error_details = some (texts.timeout_details job.timeout_seconds);
              }
              else record job {
                status = success;
                started_at = some started;
                completed_at = some now;
                result =
                    some (py.dumps (("status", text "completed") ∷ ("duration", number n) ∷ []));
              }))
        × ((execute jobs env texts registry job started now later s).1 ≡ t)
  unfolding get_handler
  sleep_job n kind asked =
      let run =
        handled (sleep_handler py) (rw kind refl)
        ∙ ap (awaited job.timeout_seconds) (sleep_handler_lem py job.payload n asked) in
      elim (Bool-cases (exceeds job.timeout_seconds n)) [
        | inl late ↦
            let (t, end, row) =
              execute-timed_out jobs env texts registry job started now later s leaves found waits
                fresh clock (run ∙ rw late refl) in
            (t, row ∙ rw late refl, ap (λ r. r.1) end)
        | inr early ↦
            let (t, end, row) =
              execute-returned jobs env texts registry job started now later (slept py n) s leaves
                found waits fresh clock (run ∙ rw early refl) in
            (t, row ∙ rw early refl, ap (λ r. r.1) end)
      ]

  -- The first run of a claimed job of the type fail on such a worker, with any timeout: with a text as
  -- its error message, or the default one, and an error type that is none or can be looked up and is not
  -- KeyError, the row is FAILED with that message.
  pub fail_job :
      (m : String) (c : ExceptionClass)
      → job.type ≡ "fail"
      → get_or (py.get job.payload "error_message") (text "Simulated job failure") ≡ text m
      → error_class (get_or (py.get job.payload "error_type") (text "Exception")) ≡ some c
      → c ≢ a_key_error
      → (t : State) × (execute jobs env texts registry job started now later s
          ≡ (ok (failed_with jobs env m (some (py.traceback c (text m)))), t))
        × (get job.job_id t
            ≡ some (record job {
              status = failed;
              started_at = some started;
              completed_at = some now;
              error_message = some m;
              error_details = some (py.traceback c (text m));
            }))
  unfolding get_handler
  fail_job m c kind message class other =
      execute-raised jobs env texts registry job started now later m (py.traceback c (text m)) s
        leaves found waits fresh clock
        (handled (fail_handler py) (rw kind refl)
          ∙ ap (awaited job.timeout_seconds)
              (fail_handler_lem py job.payload m c message class other)
          ∙ rw (at_once job.timeout_seconds) refl)
