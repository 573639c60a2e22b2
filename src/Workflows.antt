-- ===== src/Workflows.antt =====
-- repositories/workflow_repository.py and services/workflow_service.py. The new UUID and what other
-- sessions commit between the check and the INSERT are arguments.
pub mod Status
pub mod Service
pub mod Linking
use schedora.Base.{
  ℕ, ◌+◌, String, Bool, true, false, Option, none, some, List, [], ◌∷◌, ◌==◌, ◌&&◌, nat_eq,
  string_eq, ltb, if◌then◌else◌, length, count, take,
}
use schedora.Enums.{JobStatus, WorkflowStatus, job_status_eq}
use schedora.Errors.{
  Action, ok, err, workflow_not_found, duplicate_workflow, gets, modify, or_raise, pure, ◌>>=◌,
  ◌>>◌,
}
use schedora.StateMachine.{member_of}
use schedora.Models.{Job, JobTable, Workflow, WorkflowTable}
use schedora.Store.{Memberships}
use schedora.Jobs.{get_by_id}

-- `workflow.jobs`: the rows of the linked jobs.
abbrev pub rows_of : (ℕ → Option Job) → List ℕ → List Job
rows_of find [] = []
rows_of find (k ∷ ks) =
    let rest = rows_of find ks in elim (find k) [ none ↦ rest | some j ↦ j ∷ rest ]

-- The three sums of `get_workflow_status`.
abbrev pub completed_count : List Job → ℕ
completed_count = count (λ j. j.status == JobStatus.success)

abbrev pub failed_count : List Job → ℕ
failed_count =
    count λ j. member_of j.status (JobStatus.failed ∷ JobStatus.dead ∷ JobStatus.canceled ∷ [])

abbrev pub running_count : List Job → ℕ
running_count = count (λ j. member_of j.status (JobStatus.running ∷ JobStatus.scheduled ∷ []))

-- `overall_status`
unfoldable pub overall_status : List Job → WorkflowStatus
overall_status jobs =
    if ltb 0 (failed_count jobs)
    then WorkflowStatus.failed
    else if (completed_count jobs == length jobs) && ltb 0 (length jobs)
    then WorkflowStatus.completed
    else if ltb 0 (running_count jobs)
    then WorkflowStatus.running
    else WorkflowStatus.pending

-- The dictionary that `get_workflow_status` returns.
pub record WorkflowSummary : Type 0 where
  pub workflow_id : ℕ
  pub workflow_name : String
  pub total_jobs : ℕ
  pub completed_jobs : ℕ
  pub failed_jobs : ℕ
  pub running_jobs : ℕ
  pub status : WorkflowStatus

abbrev pub summary : Workflow → List Job → WorkflowSummary
summary w jobs = record {
  workflow_id = w.workflow_id;
  workflow_name = w.name;
  total_jobs = length jobs;
  completed_jobs = completed_count jobs;
  failed_jobs = failed_count jobs;
  running_jobs = running_count jobs;
  status = overall_status jobs;
}

module _ (jobs : JobTable) (workflows : WorkflowTable) (members : Memberships) where
  pub record Db : Type 0 where
    pub job_rows : jobs.State
    pub workflow_rows : workflows.State
    pub links : members.State

  -- `WorkflowRepository.create`, in the transaction that the service ends; `none` is IntegrityError.
  unfoldable pub create : ℕ → String → Option String → Option String → Db → Option Db
  create workflow_id name description config s =
      let row : Workflow = record {
        workflow_id = workflow_id;
        name = name;
        description = description;
        config = config;
      } in
      elim (workflows.insert row s.workflow_rows) [
        | none ↦ none
        | some t ↦ some (record s { workflow_rows = t })
      ]

  unfoldable pub get_by_workflow_id : ℕ → Db → Option Workflow
  get_by_workflow_id workflow_id s =
      workflows.first (λ w. w.workflow_id == workflow_id) s.workflow_rows

  unfoldable pub get_by_name : String → Db → Option Workflow
  get_by_name name s = workflows.first (λ w. w.name == name) s.workflow_rows

  -- `if workflow and job: workflow.jobs.append(job)`
  abbrev pub append_found : Option Workflow → Option Job → Db → Db
  append_found none job s = s
  append_found (some w) none s = s
  append_found (some w) (some j) s = record s {
    links = members.append w.workflow_id j.job_id s.links;
  }

  unfoldable pub add_job : ℕ → ℕ → Db → Db
  add_job workflow_id job_id s =
      append_found (get_by_workflow_id workflow_id s) (get_by_id jobs job_id s.job_rows) s

  -- The relationship `Workflow.jobs`.
  unfoldable pub workflow_jobs : Workflow → Db → List Job
  workflow_jobs w s = rows_of (λ k. jobs.get k s.job_rows) (members.linked w.workflow_id s.links)

  unfoldable pub get_workflow_jobs : ℕ → Db → List Job
  unfolding workflow_jobs
  get_workflow_jobs workflow_id s = elim (get_by_workflow_id workflow_id s) [
    | none ↦ []
    | some w ↦ workflow_jobs w s
  ]

  -- The names that `WorkflowService` gives these. The `rollback` leaves what the others committed.
  unfoldable pub create_workflow :
      ℕ → (Db → Db) → String → Option String → Option String → Action Db Workflow
  unfolding create
  create_workflow workflow_id others name description config s = elim (get_by_name name s) [
    | some existing ↦ (err duplicate_workflow, s)
    | none ↦ elim (create workflow_id name description config (others s)) [
      | none ↦ (err duplicate_workflow, others s)
      | some t ↦ (
        ok (record {
          workflow_id = workflow_id;
          name = name;
          description = description;
          config = config;
        }),
        t,
      )
    ]
  ]

  unfoldable pub get_workflow : ℕ → Action Db Workflow
  get_workflow workflow_id s = or_raise (get_by_workflow_id workflow_id s) workflow_not_found s

  unfoldable pub add_job_to_workflow : ℕ → ℕ → Action Db (Unit {0})
  unfolding get_workflow
  add_job_to_workflow workflow_id job_id = do
    workflow ← get_workflow workflow_id
    modify (add_job workflow_id job_id)

  unfoldable pub get_workflow_status : ℕ → Action Db WorkflowSummary
  unfolding get_workflow
  get_workflow_status workflow_id = do
    workflow ← get_workflow workflow_id
    linked ← gets (workflow_jobs workflow)
    pure (summary workflow linked)

  -- `list_all` of the repository; without ORDER BY the order is open.
  unfoldable pub list_workflows : ℕ → Db → List Workflow
  list_workflows limit s = take limit (workflows.select (λ w. true) s.workflow_rows)
