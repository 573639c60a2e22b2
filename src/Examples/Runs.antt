-- ===== src/Examples/Runs.antt =====
-- worker/job_executor.py on one claimed job.
use schedora.Base.{ℕ, String, some, List, [], ◌∷◌, ◌≡◌, refl, arith, string_eq}
use schedora.Enums.{scheduled, running, success, failed, job_status_eq}
use schedora.Errors.{ok, err, integrity_error}
use schedora.Models.{Job}
use schedora.Registry.{get_handler}
use schedora.Executor.{returned, raised, Run, Texts, run_handler_with_timeout, run_handler, execute}
use schedora.Executor.Steps.{succeeded, failed_with}
use schedora.Executor.Outcome.{execute-returned, execute-raised, execute_again}
use schedora.Examples.Data.{job_table, job_of}

abbrev pub alone : ℕ → List Job → List Job
alone n s = s

abbrev pub texts : Texts
texts = record {
  message = λ e. "error";
  traceback = λ e. "trace";
  timeout_message = λ t. "timeout";
  timeout_details = λ t. "{}";
}

abbrev pub echo : List (String × (String → Run))
echo = ("echo", λ payload. record { duration = 3; ending = returned payload }) ∷ []

abbrev failing : List (String × (String → Run))
failing = ("echo", λ payload. record { duration = 3; ending = raised "boom" "trace" }) ∷ []

abbrev job : Job
job = job_of 2 "b" scheduled

abbrev once : Job
once = record job { started_at = some 30; completed_at = some 40; error_message = some "boom" }

echoed : run_handler job_table alone texts echo job ≡ returned "{}"
unfolding run_handler get_handler run_handler_with_timeout
echoed = refl

failed_run : run_handler job_table alone texts failing job ≡ raised "boom" "trace"
unfolding run_handler get_handler run_handler_with_timeout
failed_run = refl

execute-returned_example :
    (t : List Job) × (execute job_table alone texts echo job 50 60 70 (job ∷ [])
      ≡ (ok (succeeded job_table alone "{}"), t))
    × (job_table.get 2 t
        ≡ some (record job {
          status = success;
          started_at = some 50;
          completed_at = some 60;
          result = some "{}";
        }))
execute-returned_example =
    execute-returned job_table alone texts echo job 50 60 70 "{}" (job ∷ []) (λ n s. refl) refl refl
      refl (omega arith) echoed

execute-raised_example :
    (t : List Job) × (execute job_table alone texts failing job 50 60 70 (job ∷ [])
      ≡ (ok (failed_with job_table alone "boom" (some "trace")), t))
    × (job_table.get 2 t
        ≡ some (record job {
          status = failed;
          started_at = some 50;
          completed_at = some 60;
          error_message = some "boom";
          error_details = some "trace";
        }))
execute-raised_example =
    execute-raised job_table alone texts failing job 50 60 70 "boom" "trace" (job ∷ [])
      (λ n s. refl) refl refl refl (omega arith) failed_run

execute_again_example :
    (t : List Job) × (execute job_table alone texts echo once 50 60 70 (once ∷ [])
      ≡ (err integrity_error, t))
    × (job_table.get 2 t ≡ some (record once { status = running }))
execute_again_example =
    execute_again job_table alone texts echo once 40 50 60 70 (once ∷ []) (λ n s. refl) refl refl
      refl (omega arith)
