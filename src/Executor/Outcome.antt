-- ===== src/Executor/Outcome.antt =====
-- worker/job_executor.py: what a run leaves in the row of its job.
use schedora.Base.{ℕ, ◌≤◌, ◌<◌, String, Option, none, some, List, ◌≡◌, nat_eq, ◌∙◌, refl, arith}
use schedora.Enums.{scheduled, running, success, failed, job_status_eq}
use schedora.Errors.{ok, err, integrity_error}
use schedora.Models.{Job, JobTable}
use schedora.Executor.{
  returned, raised, timed_out, Run, Texts, to_thread, begin, write_job, set_started, handle_success,
  handle_failure, settle, run_handler, execute,
}
use schedora.Executor.Steps.{
  then_ok, then_err, write_job_lem, write_job_refused, handle_success_lem, handle_failure_lem,
  try_ok, begin_lem, running_steps, succeeded, failed_with, Leaves,
}

module _ (jobs : JobTable) (env : ℕ → jobs.State → jobs.State) where
  open jobs use {State, get, get_valid}

  -- A first run of a claimed job whose handler returns in time ends in an ExecutionResult with the
  -- result; the row is SUCCESS, with the result and both times, and is otherwise that of the claim.
  -- Other processes leave the row alone meanwhile, and the clock does not run backwards.
  pub execute-returned :
      (texts : Texts) (registry : List (String × (String → Run))) (job : Job)
      (started now later : ℕ) (r : String) (s : State)
      → Leaves jobs env job.job_id
      → get job.job_id s ≡ some job
      → job.status ≡ scheduled
      → job.completed_at ≡ none
      → started ≤ now
      → run_handler jobs env texts registry job ≡ returned r
      → (t : State) × (execute jobs env texts registry job started now later s
          ≡ (ok (succeeded jobs env r), t))
        × (get job.job_id t
            ≡ some (record job {
              status = success;
              started_at = some started;
              completed_at = some now;
              result = some r;
            }))
  unfolding execute settle
  execute-returned texts registry job started now later r s leaves found waits fresh clock handled =
      let (t1, e1, row1) = begin_lem jobs env job started s leaves found waits in
      let (t2, e2, row2) =
        write_job_lem jobs env job.job_id (set_started jobs env started) (env 1 t1) _
          (leaves 1 t1 ∙ row1) refl (ground (arith, get_valid job.job_id s job found)) in
      let (t3, e3, row3) =
        handle_success_lem jobs env job.job_id started now r t2 _ leaves row2 refl refl clock in
      (
        t3,
        then_ok (begin jobs env job) (running_steps jobs env texts registry job started now later) s
              t1 e1
            ∙ then_ok
                (to_thread jobs env 1
                  (write_job jobs env job.job_id (set_started jobs env started)))
                (settle jobs env texts job now later (run_handler jobs env texts registry job)) t1
                t2 e2
            ∙ rw (handled, settle)
                (try_ok jobs env (handle_success jobs env job.job_id now r)
                  (λ x.
                    handle_failure jobs env job.job_id later (texts.message x)
                      (some (texts.traceback x)))
                  t2 t3 (succeeded jobs env r) e3),
        row3,
      )

  -- A first run of a claimed job, where the awaited handler is settled by `_handle_failure`.
  execute-handled :
      (texts : Texts) (registry : List (String × (String → Run))) (job : Job)
      (started now later : ℕ) (message : String) (details : Option String) (s : State)
      → Leaves jobs env job.job_id
      → get job.job_id s ≡ some job
      → job.status ≡ scheduled
      → job.completed_at ≡ none
      → started ≤ now
      → ((u : State)
          → settle jobs env texts job now later (run_handler jobs env texts registry job) u
            ≡ handle_failure jobs env job.job_id now message details u)
      → (t : State) × (execute jobs env texts registry job started now later s
          ≡ (ok (failed_with jobs env message details), t))
        × (get job.job_id t
            ≡ some (record job {
              status = failed;
              started_at = some started;
              completed_at = some now;
              error_message = some message;
              error_details = details;
            }))
  unfolding execute
  execute-handled texts registry job started now later message details s leaves found waits fresh
        clock settled =
      let (t1, e1, row1) = begin_lem jobs env job started s leaves found waits in
      let (t2, e2, row2) =
        write_job_lem jobs env job.job_id (set_started jobs env started) (env 1 t1) _
          (leaves 1 t1 ∙ row1) refl (ground (arith, get_valid job.job_id s job found)) in
      let (t3, e3, row3) =
        handle_failure_lem jobs env job.job_id started now message details t2 _ leaves row2 refl
          refl clock in
      (
        t3,
        then_ok (begin jobs env job) (running_steps jobs env texts registry job started now later) s
              t1 e1
            ∙ then_ok
                (to_thread jobs env 1
                  (write_job jobs env job.job_id (set_started jobs env started)))
                (settle jobs env texts job now later (run_handler jobs env texts registry job)) t1
                t2 e2
            ∙ settled t2
            ∙ e3,
        row3,
      )

  -- A first run of a claimed job whose handler raises, or has no handler, ends in an ExecutionResult
  -- with the error; the row is FAILED, with the error and both times, and is otherwise that of the
  -- claim. Other processes leave the row alone meanwhile, and the clock does not run backwards.
  pub execute-raised :
      (texts : Texts) (registry : List (String × (String → Run))) (job : Job)
      (started now later : ℕ) (message details : String) (s : State)
      → Leaves jobs env job.job_id
      → get job.job_id s ≡ some job
      → job.status ≡ scheduled
      → job.completed_at ≡ none
      → started ≤ now
      → run_handler jobs env texts registry job ≡ raised message details
      → (t : State) × (execute jobs env texts registry job started now later s
          ≡ (ok (failed_with jobs env message (some details)), t))
        × (get job.job_id t
            ≡ some (record job {
              status = failed;
              started_at = some started;
              completed_at = some now;
              error_message = some message;
              error_details = some details;
            }))
  unfolding settle
  execute-raised texts registry job started now later message details s leaves found waits fresh
        clock handled =
      execute-handled texts registry job started now later message (some details) s leaves found
        waits fresh clock (λ u. rw (handled, settle))

  -- A first run of a claimed job whose handler exceeds the job's timeout ends in an ExecutionResult with
  -- the texts of the timeout; the row is FAILED with them and both times, and is otherwise that of the
  -- claim. Other processes leave the row alone meanwhile, and the clock does not run backwards.
  pub execute-timed_out :
      (texts : Texts) (registry : List (String × (String → Run))) (job : Job)
      (started now later : ℕ) (s : State)
      → Leaves jobs env job.job_id
      → get job.job_id s ≡ some job
      → job.status ≡ scheduled
      → job.completed_at ≡ none
      → started ≤ now
      → run_handler jobs env texts registry job ≡ timed_out
      → (t : State) × (execute jobs env texts registry job started now later s ≡ (
        ok (
            failed_with jobs env
              (texts.timeout_message job.timeout_seconds)
              (some (texts.timeout_details job.timeout_seconds))),
        t,
      ))
        × (get job.job_id t
            ≡ some (record job {
              status = failed;
              started_at = some started;
              completed_at = some now;
              error_message = some (texts.timeout_message job.timeout_seconds);
              error_details = some (texts.timeout_details job.timeout_seconds);
            }))
  unfolding settle
  execute-timed_out texts registry job started now later s leaves found waits fresh clock handled =
      execute-handled texts registry job started now later
        (texts.timeout_message job.timeout_seconds)
        (some (texts.timeout_details job.timeout_seconds)) s leaves found waits fresh clock
        (λ u. rw (handled, settle))

  -- A job that has run before and was claimed again keeps its time of completion. If that lies before
  -- the new start, the run raises IntegrityError before the handler is called, and the row is left
  -- RUNNING, with the old times. Other processes leave the row alone meanwhile.
  pub execute_again :
      (texts : Texts) (registry : List (String × (String → Run))) (job : Job)
      (c started now later : ℕ) (s : State)
      → Leaves jobs env job.job_id
      → get job.job_id s ≡ some job
      → job.status ≡ scheduled
      → job.completed_at ≡ some c
      → c < started
      → (t : State) × (execute jobs env texts registry job started now later s
          ≡ (err integrity_error, t))
        × (get job.job_id t ≡ some (record job { status = running }))
  unfolding execute
  execute_again texts registry job c started now later s leaves found waits before late =
      let (t1, e1, row1) = begin_lem jobs env job started s leaves found waits in
      (
        env 1 t1,
        then_ok (begin jobs env job) (running_steps jobs env texts registry job started now later) s
              t1 e1
            ∙ then_err
                (to_thread jobs env 1
                  (write_job jobs env job.job_id (set_started jobs env started)))
                (settle jobs env texts job now later (run_handler jobs env texts registry job)) t1
                (env 1 t1)
                (write_job_refused jobs env job.job_id (set_started jobs env started) (env 1 t1) _
                  (leaves 1 t1 ∙ row1) (ground arith)),
        leaves 1 t1 ∙ row1,
      )
