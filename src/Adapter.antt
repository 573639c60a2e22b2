-- ===== src/Adapter.antt =====
-- worker/database_adapter.py. Each method of the adapter calls one method of a service by its name, with
-- keyword arguments, in a thread. Here a service is None or an object with the methods of its class.
pub mod Failing
use schedora.Base.{
  String, Bool, true, false, Option, none, some, List, [], ◌∷◌, ◌==◌, ◌&&◌, ◌||◌, not, any, all,
  head_of, keep, string_eq, if◌then◌else◌,
}

-- A parameter of a method, and whether it has a default.
pub record Parameter : Type 0 where
  pub name : String
  pub optional : Bool

pub record Method : Type 0 where
  pub name : String
  pub parameters : List Parameter

-- What a call comes to: Python's AttributeError or TypeError, or the method runs.
pub data Called : Type 0 where
  attribute_error type_error : Called
  runs : Method → Called

-- Each keyword is a parameter, and each parameter is given or has a default.
abbrev pub binds : List String → Method → Bool
binds keywords m =
    all (λ k. any (λ p. p.name == k) m.parameters) keywords
    && all (λ p. p.optional || any (λ k. k == p.name) keywords) m.parameters

abbrev pub call_found : Option Method → List String → Called
call_found none keywords = attribute_error
call_found (some m) keywords = if binds keywords m then runs m else type_error

-- `service.name(**keywords)`
abbrev pub call : Option (List Method) → String → List String → Called
call none name keywords = attribute_error
call (some methods) name keywords =
    call_found (head_of (keep (λ m. m.name == name) methods)) keywords

pub record DatabaseAdapter : Type 0 where
  pub scheduler : Option (List Method)
  pub state_machine : Option (List Method)
  pub job_service : Option (List Method)
  pub retry_service : Option (List Method)

unfoldable pub claim_job : DatabaseAdapter → Called
claim_job a = call a.scheduler "claim_job" ("worker_id" ∷ [])

unfoldable pub transition_job_status : DatabaseAdapter → Called
transition_job_status a = call a.state_machine "transition" ("job_id" ∷ "new_status" ∷ [])

unfoldable pub update_job_result : DatabaseAdapter → Called
update_job_result a = call a.job_service "update_job_result" ("job_id" ∷ "result" ∷ [])

unfoldable pub update_job_error : DatabaseAdapter → Called
update_job_error a =
    call a.job_service "update_job_error" ("job_id" ∷ "error_message" ∷ "error_details" ∷ [])

unfoldable pub update_job_timestamps : DatabaseAdapter → Called
update_job_timestamps a =
    call a.job_service "update_job_timestamps" ("job_id" ∷ "started_at" ∷ "completed_at" ∷ [])

unfoldable pub schedule_retry : DatabaseAdapter → Called
schedule_retry a = call a.retry_service "schedule_retry" ("job_id" ∷ "error_message" ∷ [])

abbrev required : String → Parameter
required n = record { name = n; optional = false }

abbrev with_default : String → Parameter
with_default n = record { name = n; optional = true }

-- The public methods of the classes of the four services.
unfoldable pub scheduler_methods : List Method
scheduler_methods =
    record { name = "claim_job"; parameters = with_default "job_id" ∷ [] }
    ∷ record { name = "claim_ready_jobs"; parameters = with_default "limit" ∷ [] }
    ∷ []

unfoldable pub state_machine_methods : List Method
state_machine_methods =
    record {
      name = "can_transition";
      parameters = required "from_state" ∷ required "to_state" ∷ [];
    }
    ∷ record {
      name = "validate_transition";
      parameters = required "from_state" ∷ required "to_state" ∷ [];
    }
    ∷ record { name = "is_terminal"; parameters = required "state" ∷ [] }
    ∷ record { name = "get_valid_transitions"; parameters = required "from_state" ∷ [] }
    ∷ []

unfoldable pub job_service_methods : List Method
job_service_methods =
    record { name = "create_job"; parameters = required "job_data" ∷ [] }
    ∷ record { name = "get_job"; parameters = required "job_id" ∷ [] }
    ∷ record { name = "cancel_job"; parameters = required "job_id" ∷ [] }
    ∷ record {
      name = "transition_status";
      parameters = required "job_id" ∷ required "new_status" ∷ [];
    }
    ∷ []

unfoldable pub retry_service_methods : List Method
retry_service_methods =
    record {
      name = "calculate_next_retry";
      parameters =
          required "retry_count"
          ∷ required "max_retries"
          ∷ required "retry_policy"
          ∷ with_default "base_delay"
          ∷ with_default "max_delay"
          ∷ [];
    }
    ∷ record {
      name = "should_retry";
      parameters = required "retry_count" ∷ required "max_retries" ∷ [];
    }
    ∷ []
