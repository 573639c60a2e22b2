-- ===== src/Api/Workers.antt =====
-- api/v1/workers.py and the schemas of api/schemas/worker.py that it answers by.
pub mod Laws
use schedora.Base.{
  ℕ, String, Bool, true, false, Option, none, some, List, [], ◌∷◌, ◌==◌, if◌then◌else◌, length,
  string_eq,
}
use schedora.Enums.{WorkerStatus, stale}
use schedora.Errors.{Result, Action, ok, err, value_error}
use schedora.Models.{JobTable, Worker, WorkerTable}
use schedora.Store.{PresenceStore}
use schedora.Heartbeat.{
  Service, Registration, get_all_active, get_worker as get_by_id,
  register_worker as service_register_worker, send_heartbeat as service_send_heartbeat,
  deregister_worker as service_deregister_worker, get_worker_jobs as service_get_worker_jobs,
}
use schedora.Workers.{get_all, get_by_status}
use schedora.Api.{Response, Handler, answer, http_exception, uncaught}

pub record WorkerListResponse : Type 0 where
  pub workers : List Worker
  pub total : ℕ

pub record WorkerJobsResponse : Type 0 where
  pub worker_id : String
  pub job_ids : List ℕ
  pub count : ℕ

-- `WorkerResponse.model_validate`: `started_at` may be NULL in the table, but not in an answer.
-- ValidationError is a ValueError.
abbrev pub model_validate : Worker → Result Worker
model_validate w = elim w.started_at [ none ↦ err value_error | some t ↦ ok w ]

-- The worker in front of the validated rest.
abbrev pub and_then : Result Worker → Result (List Worker) → Result (List Worker)
and_then (err e) rest = err e
and_then (ok w) (err e) = err e
and_then (ok w) (ok ws) = ok (w ∷ ws)

abbrev pub validate_all : List Worker → Result (List Worker)
validate_all [] = ok []
validate_all (w ∷ ws) = and_then (model_validate w) (validate_all ws)

-- `return WorkerResponse.model_validate(worker)` outside a `try`.
abbrev pub worker_answer : Result Worker → Response Worker
worker_answer (ok w) = answer 200 w
worker_answer (err e) = uncaught e

abbrev pub list_answer : Result (List Worker) → Response WorkerListResponse
list_answer (ok ws) = answer 200 (record { workers = ws; total = length ws })
list_answer (err e) = uncaught e

abbrev pub no_content : Result (Unit {0}) → Response (Unit {0})
no_content (ok u) = answer 204 u
no_content (err e) = uncaught e

-- The `try` of `register_worker`, which catches every exception, also one of the validation.
abbrev pub register_answer : Result Worker → Response Worker
register_answer (err e) = http_exception 400 none
register_answer (ok w) = elim (model_validate w) [
  | ok body ↦ answer 201 body
  | err e ↦ http_exception 400 none
]

module _ (jobs : JobTable) (workers : WorkerTable) (presence : PresenceStore) (timeout : ℕ) where
  -- `if not worker: raise HTTPException(404)`, and then the rest of the handler.
  abbrev pub if_known :
      {T : Type 0}
      → String
      → (Worker → Handler (Service jobs workers presence timeout) T)
      → Handler (Service jobs workers presence timeout) T
  if_known worker_id rest s = elim (get_by_id workers worker_id s.worker_rows) [
    | none ↦ (http_exception 404 none, s)
    | some w ↦ rest w s
  ]

  unfoldable pub register_worker :
      ℕ → Registration → Handler (Service jobs workers presence timeout) Worker
  register_worker now request s =
      let (r, t) = service_register_worker jobs workers presence timeout now request s in
      (register_answer r, t)

  unfoldable pub send_heartbeat :
      String → ℕ → Option ℕ → Option ℕ → Handler (Service jobs workers presence timeout) (Unit {0})
  send_heartbeat worker_id now cpu_percent memory_percent = if_known worker_id λ _ s.
      let (r, t) =
        service_send_heartbeat jobs workers presence timeout worker_id now cpu_percent
          memory_percent s in
      (no_content r, t)

  unfoldable pub get_worker : String → Handler (Service jobs workers presence timeout) Worker
  get_worker worker_id = if_known worker_id λ w s. (worker_answer (model_validate w), s)

  -- The query of `list_workers`.
  abbrev pub filtered : Option String → workers.State → List Worker
  filtered none t = get_all workers t
  filtered (some status_filter) t =
      if status_filter == "active"
      then get_all_active workers t
      else if status_filter == "stale"
      then get_by_status workers stale t
      else get_all workers t

  unfoldable pub list_workers :
      Option String → Handler (Service jobs workers presence timeout) WorkerListResponse
  list_workers status_filter s =
      (list_answer (validate_all (filtered status_filter s.worker_rows)), s)

  unfoldable pub get_worker_jobs :
      String → Handler (Service jobs workers presence timeout) WorkerJobsResponse
  get_worker_jobs worker_id = if_known worker_id λ _ s.
      let job_ids = service_get_worker_jobs jobs workers presence timeout worker_id s in
      (answer 200 (record { worker_id = worker_id; job_ids = job_ids; count = length job_ids }), s)

  unfoldable pub deregister_worker :
      String → ℕ → Handler (Service jobs workers presence timeout) (Unit {0})
  deregister_worker worker_id now = if_known worker_id λ _ s.
      let (r, t) = service_deregister_worker jobs workers presence timeout worker_id now s in
      (no_content r, t)
