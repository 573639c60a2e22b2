-- ===== src/Examples/Edges.antt =====
-- worker/database_adapter.py, core/redis.py and observability/metrics.py.
use schedora.Base.{true, false, List, [], ◌∷◌, ◌≡◌}
use schedora.Adapter.{
  attribute_error, claim_job, transition_job_status, update_job_result, update_job_error,
  update_job_timestamps, schedule_retry,
}
use schedora.Adapter.Failing.{repository_adapter, adapter_fails}
use schedora.Connections.{no_clients}
use schedora.Connections.Singletons.{Call, get, get_async, close, calls, IsTidy, calls-IsTidy}

-- The adapter of a worker: of the services it has the job service alone.
adapter_fails_example :
    (claim_job (repository_adapter false false true false) ≡ attribute_error)
    × (transition_job_status (repository_adapter false false true false) ≡ attribute_error)
    × (update_job_result (repository_adapter false false true false) ≡ attribute_error)
    × (update_job_error (repository_adapter false false true false) ≡ attribute_error)
    × (update_job_timestamps (repository_adapter false false true false) ≡ attribute_error)
    × (schedule_retry (repository_adapter false false true false) ≡ attribute_error)
adapter_fails_example = adapter_fails false false true false

abbrev some_calls : List Call
some_calls = get ∷ get_async ∷ get ∷ close ∷ get ∷ []

calls-IsTidy_example : IsTidy (calls some_calls no_clients)
calls-IsTidy_example = calls-IsTidy some_calls
