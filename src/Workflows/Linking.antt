-- ===== src/Workflows/Linking.antt =====
-- services/workflow_service.py: linking jobs to a workflow.
use schedora.Base.{
  ℕ, true, some, ◌≡◌, ◌⊎◌, ◌↔◌, inl, inr, IsIn, is_some, nat_eq, string_eq, Option-cases, refl,
  arith,
}
use schedora.Errors.{ok}
use schedora.Models.{JobTable, Workflow, WorkflowTable}
use schedora.Store.{Memberships}
use schedora.Store.Laws.{first-key}
use schedora.Jobs.Repository.{get_by_id-get}
use schedora.Workflows.{Db, get_by_workflow_id, add_job, get_workflow, add_job_to_workflow}

module _ (jobs : JobTable) (workflows : WorkflowTable) (members : Memberships) where
  open workflows use {get, get_key}

  -- Linking a job to a workflow that exists never raises, and writes no row. If the job exists, the
  -- workflow has it and what it had before, and every other workflow has what it had. For a job that
  -- does not exist no link changes, and there is no error.
  pub add_job_to_workflow_lem :
      (workflow_id job_id : ℕ) (x : Workflow) (s : Db jobs workflows members)
      → get workflow_id s.workflow_rows ≡ some x
      → (u : members.State) × (add_job_to_workflow jobs workflows members workflow_id job_id s
          ≡ (ok tt, record s { links = u }))
        × ((w k : ℕ)
            → IsIn k (members.linked w u) ↔ (
                IsIn k (members.linked w s.links)
                ⊎ ((workflow_id ≡ w)
                    × (job_id ≡ k)
                    × (is_some (jobs.get job_id s.job_rows) ≡ true))))
        × ((is_some (jobs.get job_id s.job_rows) ≡ true) ⊎ (u ≡ s.links))
  unfolding add_job_to_workflow get_workflow get_by_workflow_id add_job
  add_job_to_workflow_lem workflow_id job_id x s found =
      elim (Option-cases (jobs.get job_id s.job_rows)) [
        | inl gone ↦ (
          s.links,
          ground (
            arith,
            first-key workflows workflow_id s.workflow_rows,
            get_by_id-get jobs job_id s.job_rows,
          ),
          λ w k. ground arith,
          inr refl,
        )
        | inr (j, held) ↦ (
          members.append workflow_id job_id s.links,
          ground (
            arith,
            first-key workflows workflow_id s.workflow_rows,
            get_by_id-get jobs job_id s.job_rows,
            get_key workflow_id s.workflow_rows x found,
            jobs.get_key job_id s.job_rows j held,
          ),
          λ w k. ground (arith, members.linked-append w workflow_id job_id k s.links),
          inl (ground arith),
        )
      ]
