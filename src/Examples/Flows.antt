-- ===== src/Examples/Flows.antt =====
-- services/workflow_service.py on one workflow.
use schedora.Base.{
  ℕ, ◌+◌, ◌≤◌, String, true, Option, none, some, List, [], ◌∷◌, ◌≡◌, ◌⊎◌, ◌↔◌, ◌==◌, ◌||◌, nat_eq,
  string_eq, refl, IsIn, if◌then◌else◌, is_some,
}
use schedora.Enums.{WorkflowStatus, success}
use schedora.Errors.{ok, err, duplicate_workflow}
use schedora.Models.{Job, Workflow, WorkflowTable}
use schedora.Store.Sample.{list_table}
use schedora.Store.Sample.Links.{map_links}
use schedora.Workflows.{
  Db, WorkflowSummary, create, get_by_name, create_workflow, get_workflow, add_job_to_workflow,
  get_workflow_status,
}
use schedora.Workflows.Status.{IsBad, IsBusy, IsLinked, get_workflow_status_lem}
use schedora.Workflows.Service.{create_workflow-get_workflow}
use schedora.Workflows.Linking.{add_job_to_workflow_lem}
use schedora.Examples.Data.{job_table, rows}

abbrev pub workflow_table : WorkflowTable
workflow_table =
    list_table (λ w. w.workflow_id) (λ a b. a.workflow_id == b.workflow_id || a.name == b.name)
      (λ w. true)

abbrev pub Flows : Type 0
Flows = Db job_table workflow_table map_links

abbrev pub nightly : Workflow
nightly = record { workflow_id = 50; name = "nightly"; description = none; config = none }

-- The workflow has job 1, which succeeded, and job 2, which is PENDING.
abbrev pub flows : Flows
flows = record { job_rows = rows; workflow_rows = nightly ∷ []; links = λ w. 1 ∷ 2 ∷ [] }

abbrev weekly : Workflow
weekly = record { workflow_id = 51; name = "weekly"; description = some "backups"; config = none }

abbrev with_weekly : Flows
with_weekly = record flows { workflow_rows = weekly ∷ nightly ∷ [] }

abbrev pub alone : Flows → Flows
alone s = s

created :
    create_workflow job_table workflow_table map_links 51 alone "weekly" (some "backups") none flows
    ≡ (ok weekly, with_weekly)
unfolding create_workflow create get_by_name
created = refl

create_workflow-get_workflow_example :
    (weekly
      ≡ record { workflow_id = 51; name = "weekly"; description = some "backups"; config = none })
    × (get_workflow job_table workflow_table map_links 51 with_weekly ≡ (ok weekly, with_weekly))
    × ((k : ℕ)
        → workflow_table.get k with_weekly.workflow_rows
          ≡ (if 51 == k then some weekly else workflow_table.get k flows.workflow_rows))
    × (rows ≡ rows)
    × (with_weekly.links ≡ flows.links)
    × ((i : ℕ) (more : Flows → Flows) (text more_config : Option String)
        → create_workflow job_table workflow_table map_links i more "weekly" text more_config
            with_weekly
          ≡ (err duplicate_workflow, with_weekly))
create_workflow-get_workflow_example =
    create_workflow-get_workflow job_table workflow_table map_links 51 alone "weekly"
      (some "backups") none flows weekly with_weekly created

add_job_to_workflow_lem_example :
    (u : ℕ → List ℕ) × (add_job_to_workflow job_table workflow_table map_links 50 3 flows
      ≡ (ok tt, record flows { links = u }))
    × ((w k : ℕ)
        → IsIn k (map_links.linked w u) ↔ (
            IsIn k (map_links.linked w flows.links)
            ⊎ ((50 ≡ w) × (3 ≡ k) × (is_some (job_table.get 3 rows) ≡ true))))
    × ((is_some (job_table.get 3 rows) ≡ true) ⊎ (u ≡ flows.links))
add_job_to_workflow_lem_example =
    add_job_to_workflow_lem job_table workflow_table map_links 50 3 nightly flows refl

get_workflow_status_lem_example :
    (r : WorkflowSummary) × (get_workflow_status job_table workflow_table map_links 50 flows
      ≡ (ok r, flows))
    × ((r.status ≡ WorkflowStatus.failed)
        ↔ ((j : Job) × IsLinked job_table workflow_table map_links 50 flows j × IsBad j))
    × ((r.status ≡ WorkflowStatus.completed) ↔ (
        ((j : Job) × IsLinked job_table workflow_table map_links 50 flows j)
        × ((j : Job)
            → IsLinked job_table workflow_table map_links 50 flows j
            → j.status ≡ success)))
    × ((r.status ≡ WorkflowStatus.running) ↔ (
        ((j : Job) × IsLinked job_table workflow_table map_links 50 flows j × IsBusy j)
        × ((j : Job) → IsLinked job_table workflow_table map_links 50 flows j → ¬ IsBad j)))
    × (r.completed_jobs + r.failed_jobs + r.running_jobs ≤ r.total_jobs)
get_workflow_status_lem_example =
    get_workflow_status_lem job_table workflow_table map_links 50 flows nightly refl
