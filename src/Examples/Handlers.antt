-- ===== src/Examples/Handlers.antt =====
-- worker/handlers: a claimed job of each type, and a Python that knows a few payloads.
use schedora.Base.{
  ℕ, String, Option, none, some, List, [], ◌∷◌, ◌≡◌, ◌≢◌, ◌==◌, ◌&&◌, refl, arith, string_eq,
  if◌then◌else◌,
}
use schedora.Enums.{scheduled, success, failed}
use schedora.Errors.{ok}
use schedora.Models.{Job}
use schedora.Executor.{execute}
use schedora.Executor.Steps.{succeeded}
use schedora.Handlers.{
  Value, number, text, null_or_bool, list_or_dict, ExceptionClass, a_exception, a_value_error,
  a_runtime_error, a_key_error, Python,
}
use schedora.Handlers.Runs.{setup_handlers_lem, registry_of, exceeds, echo_job, sleep_job}
use schedora.Examples.Data.{job_table, job_of}
use schedora.Examples.Runs.{alone, texts}

abbrev two_seconds : String
two_seconds = "{\"duration\": 2}"

abbrev boom : String
boom = "{\"error_message\": \"boom\", \"error_type\": \"ValueError\"}"

abbrev sleep_of : Value → Option ℕ
sleep_of (number n) = some n
sleep_of (text t) = none
sleep_of (null_or_bool t) = none
sleep_of (list_or_dict t) = none

abbrev str_of : ExceptionClass → Value → String
str_of a_key_error v = "'...'"
str_of a_exception (text m) = m
str_of a_exception v = "..."
str_of a_value_error (text m) = m
str_of a_value_error v = "..."
str_of a_runtime_error (text m) = m
str_of a_runtime_error v = "..."

str_of-text : (c : ExceptionClass) (m : String) → c ≢ a_key_error → str_of c (text m) ≡ m
str_of-text a_key_error m other = absurd (other refl)
str_of-text a_exception m other = refl
str_of-text a_value_error m other = refl
str_of-text a_runtime_error m other = refl

abbrev python : Python
python = record {
  get = λ payload key.
      if payload == two_seconds && key == "duration"
      then some (number 2_000_000)
      else (if payload == boom && key == "error_message"
          then some (text "boom")
          else (if payload == boom && key == "error_type" then some (text "ValueError") else none));
  dumps = λ fields. "{...}";
  sleep = sleep_of;
  str = str_of;
  traceback = λ c v. "trace";
  type_error_message = λ v. "TypeError";
  type_error_traceback = λ v. "trace";
  sleep-number = λ n. refl;
  str-text = str_of-text;
}

abbrev job : String → String → Job
job kind payload = record (job_of 2 "b" scheduled) {
  type = kind;
  payload = payload;
  timeout_seconds = some 1;
}

echo_job_example :
    (t : List Job) × (execute job_table alone texts
        (registry_of python)
        (job "echo" boom)
        50
        60
        70
        (job "echo" boom ∷ [])
      ≡ (ok (succeeded job_table alone boom), t))
    × (job_table.get 2 t
        ≡ some (record (job "echo" boom) {
          status = success;
          started_at = some 50;
          completed_at = some 60;
          result = some boom;
        }))
echo_job_example =
    echo_job job_table alone texts python (job "echo" boom) 50 60 70 (job "echo" boom ∷ [])
      (registry_of python) (setup_handlers_lem python) (λ n s. refl) refl refl refl (omega arith)
      refl

sleep_job_example :
    (t : List Job) × (job_table.get 2 t
      ≡ some (
          if exceeds (some 1) 2_000_000
          then record (job "sleep" two_seconds) {
            status = failed;
            started_at = some 50;
            completed_at = some 60;
            error_message = some "timeout";
            error_details = some "{}";
          }
          else record (job "sleep" two_seconds) {
            status = success;
            started_at = some 50;
            completed_at = some 60;
            result = some "{...}";
          }))
    × ((execute job_table alone texts
          (registry_of python)
          (job "sleep" two_seconds)
          50
          60
          70
          (job "sleep" two_seconds ∷ [])).1
        ≡ t)
sleep_job_example =
    sleep_job job_table alone texts python (job "sleep" two_seconds) 50 60 70
      (job "sleep" two_seconds ∷ []) (registry_of python) (setup_handlers_lem python) (λ n s. refl)
      refl refl refl (omega arith) 2_000_000 refl refl
