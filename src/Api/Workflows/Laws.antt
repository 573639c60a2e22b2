-- ===== src/Api/Workflows/Laws.antt =====
-- api/v1/workflows.py: the answers to the requests of a client.
use schedora.Base.{ℕ, String, Option, none, some, ◌≡◌, ap, ◌∙◌, arith}
use schedora.Errors.{Result, ok, err}
use schedora.Models.{JobTable, Workflow, WorkflowTable}
use schedora.Store.{Memberships}
use schedora.Workflows.{
  Db, create_workflow as service_create_workflow,
  add_job_to_workflow as service_add_job_to_workflow,
  get_workflow_status as service_get_workflow_status,
}
use schedora.Workflows.Service.{create_workflow-get_workflow, get_workflow_missing}
use schedora.Api.{StandardResponse, answer, http_exception}
use schedora.Api.Workflows.{
  created_answer, create_workflow, get_workflow, add_job_to_workflow, get_workflow_status,
}

created_answer-answer :
    (r : Result Workflow) (n : ℕ) (b : StandardResponse Workflow)
    → created_answer r ≡ answer n b
    → (n ≡ 201) × (r ≡ ok b.content)
created_answer-answer (ok j) n b h = ground arith
created_answer-answer (err e) n b h = absurd (ground arith)

module _ (jobs : JobTable) (workflows : WorkflowTable) (members : Memberships) where
  open workflows use {get}

  -- Each request for a workflow that does not exist gets 404 and changes nothing.
  pub unknown_workflow :
      (k job_id : ℕ) (s : Db jobs workflows members)
      → get k s.workflow_rows ≡ none
      → (get_workflow jobs workflows members k s
          ≡ (http_exception 404 (some (record { code = "WF_4001"; http_status = "NOT_FOUND" })), s))
        × (add_job_to_workflow jobs workflows members k job_id s ≡ (
          http_exception 404 (some (record { code = "WF_4001"; http_status = "NOT_FOUND" })),
          s,
        ))
        × (get_workflow_status jobs workflows members k s ≡ (
          http_exception 404 (some (record { code = "WF_4001"; http_status = "NOT_FOUND" })),
          s,
        ))
  unfolding get_workflow add_job_to_workflow get_workflow_status service_add_job_to_workflow
      service_get_workflow_status
  unknown_workflow k job_id s gone =
      let missing = get_workflow_missing jobs workflows members k s gone in
      (ground (arith, missing), ground (arith, missing), ground (arith, missing))

  -- If a request to create a workflow is answered, the status code is 201. Then a request for its id is
  -- answered with the same workflow, and another request for its name gets 409. Neither changes
  -- anything.
  pub create_workflow-answer :
      (workflow_id : ℕ) (others : Db jobs workflows members → Db jobs workflows members)
      (name : String) (description config : Option String) (s t : Db jobs workflows members) (n : ℕ)
      (b : StandardResponse Workflow)
      → create_workflow jobs workflows members workflow_id others name description config s
        ≡ (answer n b, t)
      → (n ≡ 201)
        × (get_workflow jobs workflows members workflow_id t ≡ (
          answer 200 (record { content = b.content; code = "WF_0002"; http_status = "OK" }),
          t,
        ))
        × ((i : ℕ) (more : Db jobs workflows members → Db jobs workflows members)
              (text more_config : Option String)
            → create_workflow jobs workflows members i more name text more_config t ≡ (
              http_exception 409 (some (record { code = "WF_4002"; http_status = "CONFLICT" })),
              t,
            ))
  unfolding create_workflow get_workflow
  create_workflow-answer workflow_id others name description config s t n b h =
      let call =
        service_create_workflow jobs workflows members workflow_id others name description config
          s in
      let (status, result) = created_answer-answer call.0 n b (ap (λ r. r.0) h) in
      let (_, back, _, _, _, again) =
        create_workflow-get_workflow jobs workflows members workflow_id others name description
          config s b.content t (ap (λ r. (r, call.1)) result ∙ ap (λ r. (ok b.content, r.1)) h) in
      (
        status,
        ground (arith, back),
        λ i more text more_config. ground (arith, again i more text more_config),
      )
