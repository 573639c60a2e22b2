-- ===== src/Dependencies.antt =====
-- services/dependency_resolver.py, and the subquery that services/scheduler.py repeats. The table
-- `job_dependencies` is the list `links`; nothing in the repository changes it.
pub mod Queries
pub mod Stable
use schedora.Base.{
  ℕ, Bool, true, Option, none, some, List, [], ◌∷◌, ◌==◌, ◌&&◌, not, if◌then◌else◌, any, all, take,
  nat_eq,
}
use schedora.Enums.{JobStatus, pending, success, failed, dead, canceled, job_status_eq}
use schedora.StateMachine.{member_of}
use schedora.Models.{Job, Dependency, JobTable}

abbrev pub failed_states : List JobStatus
failed_states = failed ∷ dead ∷ canceled ∷ []

-- `Job.job_id.in_(subquery)`
abbrev pub in_ids : ℕ → List ℕ → Bool
in_ids k l = any (λ x. x == k) l

abbrev pub all_success : List Job → Bool
all_success [] = true
all_success deps = all (λ d. d.status == success) deps

module _ (jobs : JobTable) (links : List Dependency) where
  open jobs use {State, get, select}

  -- `select(job_dependencies.c.job_id).join(Job, ...).where(p(Job.status))`
  abbrev pub linked_ids : (JobStatus → Bool) → State → List Dependency → List ℕ
  linked_ids p s [] = []
  linked_ids p s (l ∷ ls) =
      let rest = linked_ids p s ls in
      elim (get l.depends_on_job_id s) [
        | none ↦ rest
        | some j ↦ if p j.status then l.job_id ∷ rest else rest
      ]

  unfoldable pub unmet_deps_subquery : State → List ℕ
  unmet_deps_subquery s = linked_ids (λ st. not (st == success)) s links

  unfoldable pub failed_deps_subquery : State → List ℕ
  failed_deps_subquery s = linked_ids (λ st. member_of st failed_states) s links

  -- The relationship `Job.dependencies` of models/job.py.
  abbrev pub joined : ℕ → State → List Dependency → List Job
  joined k s [] = []
  joined k s (l ∷ ls) =
      let rest = joined k s ls in
      elim (get l.depends_on_job_id s) [
        | none ↦ rest
        | some j ↦ if l.job_id == k then j ∷ rest else rest
      ]

  unfoldable pub dependencies : State → Job → List Job
  dependencies s job = joined job.job_id s links

  unfoldable pub are_dependencies_met : State → Job → Bool
  unfolding dependencies
  are_dependencies_met s job = all_success (dependencies s job)

  unfoldable pub has_failed_dependencies : State → Job → Bool
  unfolding dependencies
  has_failed_dependencies s job = any (λ d. member_of d.status failed_states) (dependencies s job)

  unfoldable pub is_ready : State → Job → Bool
  is_ready s j = j.status == pending && not (in_ids j.job_id (unmet_deps_subquery s))

  unfoldable pub get_ready_jobs : ℕ → State → List Job
  get_ready_jobs limit s = take limit (select (is_ready s) s)

  unfoldable pub is_blocked : State → Job → Bool
  is_blocked s j = j.status == pending && in_ids j.job_id (failed_deps_subquery s)

  unfoldable pub get_blocked_jobs : State → List Job
  get_blocked_jobs s = select (is_blocked s) s
