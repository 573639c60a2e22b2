-- ===== src/Api/Workflows.antt =====
-- api/v1/workflows.py
pub mod Laws
use schedora.Base.{ℕ, String, Option, some}
use schedora.Errors.{Result, ok, err, workflow_not_found, duplicate_workflow}
use schedora.Models.{JobTable, Workflow, WorkflowTable}
use schedora.Store.{Memberships}
use schedora.Workflows.{
  Db, WorkflowSummary, create_workflow as service_create_workflow,
  get_workflow as service_get_workflow, add_job_to_workflow as service_add_job_to_workflow,
  get_workflow_status as service_get_workflow_status,
}
use schedora.Api.{StandardResponse, Response, Handler, answer, http_exception, uncaught}

abbrev pub created_answer : Result Workflow → Response (StandardResponse Workflow)
created_answer (ok workflow) =
    answer 201 (record { content = workflow; code = "WF_0001"; http_status = "CREATED" })
created_answer (err duplicate_workflow) =
    http_exception 409 (some (record { code = "WF_4002"; http_status = "CONFLICT" }))
created_answer (err e) = uncaught e

-- The three other handlers differ in their code of success.
abbrev pub found_answer : {T : Type 0} → String → Result T → Response (StandardResponse T)
found_answer code (ok x) = answer 200 (record { content = x; code = code; http_status = "OK" })
found_answer code (err workflow_not_found) =
    http_exception 404 (some (record { code = "WF_4001"; http_status = "NOT_FOUND" }))
found_answer code (err e) = uncaught e

module _ (jobs : JobTable) (workflows : WorkflowTable) (members : Memberships) where
  unfoldable pub create_workflow :
      ℕ
      → (Db jobs workflows members → Db jobs workflows members)
      → String
      → Option String
      → Option String
      → Handler (Db jobs workflows members) (StandardResponse Workflow)
  create_workflow workflow_id others name description config s =
      let (r, t) =
        service_create_workflow jobs workflows members workflow_id others name description config
          s in
      (created_answer r, t)

  unfoldable pub get_workflow : ℕ → Handler (Db jobs workflows members) (StandardResponse Workflow)
  get_workflow workflow_id s =
      let (r, t) = service_get_workflow jobs workflows members workflow_id s in
      (found_answer "WF_0002" r, t)

  unfoldable pub add_job_to_workflow :
      ℕ → ℕ → Handler (Db jobs workflows members) (StandardResponse (Unit {0}))
  add_job_to_workflow workflow_id job_id s =
      let (r, t) = service_add_job_to_workflow jobs workflows members workflow_id job_id s in
      (found_answer "WF_0004" r, t)

  unfoldable pub get_workflow_status :
      ℕ → Handler (Db jobs workflows members) (StandardResponse WorkflowSummary)
  get_workflow_status workflow_id s =
      let (r, t) = service_get_workflow_status jobs workflows members workflow_id s in
      (found_answer "WF_0003" r, t)
