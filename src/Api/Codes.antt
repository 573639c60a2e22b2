-- ===== src/Api/Codes.antt =====
-- api/v1/jobs.py and api/v1/workflows.py: the status codes of the answers.
use schedora.Base.{
  ℕ, String, Bool, Option, [], ◌∷◌, ◌≡◌, inl, inr, IsIn, ap, arith, Option-cases, Bool-cases,
  if◌then◌else◌, is_some,
}
use schedora.Models.{JobTable, WorkflowTable}
use schedora.Store.{QueueStore, Memberships}
use schedora.Queue.{RedisQueue}
use schedora.StateMachine.{can_transition}
use schedora.Enums.{canceled}
use schedora.Jobs.{World, JobCreate, new_job, fault, get_job as service_get_job}
use schedora.Jobs.Repository.{get_by_id-get}
use schedora.Jobs.Create.{create_job-Created, known, refused, broken, added}
use schedora.Jobs.Transition.{cancel_job_open, cancel_job_closed}
use schedora.StateMachine.Paths.{can_transition-canceled_iff}
use schedora.Workflows.{
  Db, get_by_workflow_id, create_workflow as service_create_workflow,
  get_workflow as service_get_workflow, add_job_to_workflow as service_add_job_to_workflow,
  get_workflow_status as service_get_workflow_status,
}
use schedora.Api.{Response, answer, http_exception, uncaught}
use schedora.Api.Jobs.{create_job, get_job, cancel_job}
use schedora.Api.Workflows.{create_workflow, get_workflow, add_job_to_workflow, get_workflow_status}

-- What a client reads: an exception that is not caught is a 500.
abbrev pub status_code : {T : Type 0} → Response T → ℕ
status_code (answer n b) = n
status_code (http_exception n d) = n
status_code (uncaught e) = 500

module _ (jobs : JobTable) (store : QueueStore) (queue : Option RedisQueue) where
  open jobs use {get}

  get_code :
      (k : ℕ) (w : World jobs store)
      → IsIn (status_code (get_job jobs store queue k w).0) (200 ∷ 404 ∷ [])
  unfolding get_job service_get_job
  get_code k w = elim (Option-cases (get k w.db)) [
    | inl gone ↦ ground (arith, get_by_id-get jobs k w.db)
    | inr (j, found) ↦ ground (arith, get_by_id-get jobs k w.db)
  ]

  cancel_code :
      (k : ℕ) (w : World jobs store)
      → IsIn (status_code (cancel_job jobs store queue k w).0) (200 ∷ 400 ∷ 404 ∷ [])
  unfolding cancel_job
  cancel_code k w = elim (Option-cases (get k w.db)) [
    | inl gone ↦
        let run = cancel_job_closed jobs store queue k w (λ j found. absurd (cc (gone, found))) in
        ground (arith, run)
    | inr (j, found) ↦ elim (Bool-cases (can_transition j.status canceled)) [
      | inl allowed ↦
          let (t, run, _) =
            cancel_job_open jobs store queue k w j found
              ((can_transition-canceled_iff j.status).0 allowed) in
          ground (arith, run)
      | inr denied ↦
          let run = cancel_job_closed jobs store queue k w (λ x hit o.
            let one : j ≡ x = cc (found, hit) in
            cc (
              ap (λ r. can_transition r.status canceled) one,
              (can_transition-canceled_iff x.status).1 o,
              denied,
            )) in
          ground (arith, run)
    ]
  ]

  create_code :
      (job_id now flushed_at : ℕ) (others : jobs.State → jobs.State) (names_key : Bool)
      (d : JobCreate) (w : World jobs store)
      → IsIn
          (status_code (create_job jobs store queue job_id now flushed_at others names_key d w).0)
          (if is_some (fault d.scheduled_at (new_job job_id now flushed_at d))
            then 409 ∷ 500 ∷ []
            else 201 ∷ 409 ∷ (if names_key then [] else 500 ∷ []))
  unfolding create_job
  create_code job_id now flushed_at others names_key d w =
      elim (create_job-Created jobs store queue job_id now flushed_at others names_key d w) [
        | known x _ e ↦ ground (arith, e)
        | refused clean _ _ e ↦ ground (arith, clean, e)
        | broken _ _ wrong (inl kind) e ↦ ground (arith, wrong, kind, e)
        | broken _ _ wrong (inr kind) e ↦ ground (arith, wrong, kind, e)
        | added t clean _ _ e ↦ ground (arith, clean, e)
      ]

  -- The status codes of the three endpoints for jobs, whatever the state is and whatever is asked: a job
  -- is read with 200 or 404; it is canceled with 200, 400 or 404. A request to create a job whose time has
  -- no timezone, or whose values do not fit the columns of the table, gets 409 or 500; any other gets 201
  -- or 409, or also 500 if an IntegrityError does not name the column of the idempotency key.
  pub job_codes :
      (k job_id now flushed_at : ℕ) (others : jobs.State → jobs.State) (names_key : Bool)
      (d : JobCreate) (w : World jobs store)
      → IsIn (status_code (get_job jobs store queue k w).0) (200 ∷ 404 ∷ [])
        × IsIn (status_code (cancel_job jobs store queue k w).0) (200 ∷ 400 ∷ 404 ∷ [])
        × IsIn
            (status_code (create_job jobs store queue job_id now flushed_at others names_key d w).0)
            (if is_some (fault d.scheduled_at (new_job job_id now flushed_at d))
              then 409 ∷ 500 ∷ []
              else 201 ∷ 409 ∷ (if names_key then [] else 500 ∷ []))
  job_codes k job_id now flushed_at others names_key d w =
      (get_code k w, cancel_code k w, create_code job_id now flushed_at others names_key d w)

module _ (jobs : JobTable) (workflows : WorkflowTable) (members : Memberships) where
  -- The status codes of the four endpoints for workflows, whatever the state is and whatever is asked: a
  -- workflow is created with 201 or 409; it is read, is given a job, and its status is read with 200 or
  -- 404.
  pub workflow_codes :
      (k job_id : ℕ) (others : Db jobs workflows members → Db jobs workflows members)
      (name : String) (description config : Option String) (s : Db jobs workflows members)
      → IsIn
          (status_code
            (create_workflow jobs workflows members k others name description config s).0)
          (201 ∷ 409 ∷ [])
        × IsIn (status_code (get_workflow jobs workflows members k s).0) (200 ∷ 404 ∷ [])
        × IsIn
            (status_code (add_job_to_workflow jobs workflows members k job_id s).0)
            (200 ∷ 404 ∷ [])
        × IsIn (status_code (get_workflow_status jobs workflows members k s).0) (200 ∷ 404 ∷ [])
  unfolding create_workflow get_workflow add_job_to_workflow get_workflow_status
      service_create_workflow service_get_workflow service_add_job_to_workflow
      service_get_workflow_status
  workflow_codes k job_id others name description config s =
      elim (Option-cases (get_by_workflow_id jobs workflows members k s)) [
        | inl gone ↦ (ground arith, ground arith, ground arith, ground arith)
        | inr (x, found) ↦ (ground arith, ground arith, ground arith, ground arith)
      ]
