-- ===== src/Adapter/Failing.antt =====
-- worker/database_adapter.py with the services of the repository.
use schedora.Base.{Bool, Bool-cases, arith, Option, none, some, List, ◌≡◌, if◌then◌else◌}
use schedora.Adapter.{
  Method, DatabaseAdapter, attribute_error, type_error, claim_job, transition_job_status,
  update_job_result, update_job_error, update_job_timestamps, schedule_retry, scheduler_methods,
  state_machine_methods, job_service_methods, retry_service_methods,
}

abbrev pub given : Bool → List Method → Option (List Method)
given b methods = if b then some methods else none

-- The constructor, with each service left out or of its class.
abbrev pub repository_adapter :
    (scheduler state_machine job_service retry_service : Bool) → DatabaseAdapter
repository_adapter scheduler state_machine job_service retry_service = record {
  scheduler = given scheduler scheduler_methods;
  state_machine = given state_machine state_machine_methods;
  job_service = given job_service job_service_methods;
  retry_service = given retry_service retry_service_methods;
}

-- An adapter with any choice of the four services, each left out or of its class, can run none of its
-- six methods: claiming a job is a TypeError with a scheduler and an AttributeError without, and the
-- others are AttributeErrors in each case.
pub adapter_fails :
    (a b c d : Bool)
    → (claim_job (repository_adapter a b c d) ≡ (if a then type_error else attribute_error))
      × (transition_job_status (repository_adapter a b c d) ≡ attribute_error)
      × (update_job_result (repository_adapter a b c d) ≡ attribute_error)
      × (update_job_error (repository_adapter a b c d) ≡ attribute_error)
      × (update_job_timestamps (repository_adapter a b c d) ≡ attribute_error)
      × (schedule_retry (repository_adapter a b c d) ≡ attribute_error)
unfolding claim_job transition_job_status update_job_result update_job_error update_job_timestamps
    schedule_retry scheduler_methods state_machine_methods job_service_methods retry_service_methods
adapter_fails a b c d = (
  ground (arith, Bool-cases a),
  ground (arith, Bool-cases b),
  ground (arith, Bool-cases c),
  ground (arith, Bool-cases c),
  ground (arith, Bool-cases c),
  ground (arith, Bool-cases d),
)
