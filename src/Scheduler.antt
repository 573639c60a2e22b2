-- ===== src/Scheduler.antt =====
-- services/scheduler.py: claiming. Time and the rows that other transactions hold locked at the moment
-- of the query are arguments; SKIP LOCKED leaves the locked rows out of the result. `claim_job` takes the id
-- of the worker to have at most the 100 characters of the column `jobs.worker_id`, as one of the command
-- line has, which is a host name and a pid.
pub mod Claim
pub mod Batch
pub mod Asked
pub mod Exclusive
use schedora.Base.{
  ℕ, String, Bool, true, Option, none, some, List, [], ◌∷◌, ◌==◌, ◌&&◌, not, take, map, all,
  if◌then◌else◌, leb, nat_eq,
}
use schedora.Enums.{pending, scheduled, job_status_eq}
use schedora.Errors.{Action, ok, err, data_error, commit}
use schedora.Store.Laws.{flush_all}
use schedora.Models.{Job, Dependency, JobTable, fits_worker_id}
use schedora.Dependencies.{in_ids, unmet_deps_subquery}

-- The optional filter on the job id.
abbrev pub wanted : Option ℕ → ℕ → Bool
wanted none k = true
wanted (some job_id) k = k == job_id

-- `job.status = SCHEDULED; job.worker_id = self.worker_id`
abbrev pub claimed_by : String → Job → Job
claimed_by worker_id job = record job { status = scheduled; worker_id = some worker_id }

module _ (jobs : JobTable) (links : List Dependency) where
  open jobs use {State, first, select, flush}

  -- The list `filters`.
  unfoldable pub claimable : ℕ → Option ℕ → State → Job → Bool
  claimable now job_id s j =
      (j.status == pending
        && (leb j.scheduled_at now && not (in_ids j.job_id (unmet_deps_subquery jobs links s))))
      && wanted job_id j.job_id

  unfoldable pub claim_job : String → ℕ → (ℕ → Bool) → Option ℕ → Action State (Option Job)
  claim_job worker_id now locked job_id s =
      elim (first (λ j. claimable now job_id s j && not (locked j.job_id)) s) [
        | none ↦ (ok none, s)
        | some job ↦ commit (some (claimed_by worker_id job)) (flush (claimed_by worker_id job) s) s
      ]

  -- The query of `claim_ready_jobs`.
  abbrev pub candidates : ℕ → (ℕ → Bool) → ℕ → State → List Job
  candidates now locked limit s =
      take limit (select (λ j. claimable now none s j && not (locked j.job_id)) s)

  -- The loop writes every candidate, and one commit flushes them: a DataError where the id of the worker
  -- does not fit the column.
  unfoldable pub claim_ready_jobs : String → ℕ → (ℕ → Bool) → ℕ → Action State (List Job)
  claim_ready_jobs worker_id now locked limit s =
      let claimed = map (claimed_by worker_id) (candidates now locked limit s) in
      if all (λ j. fits_worker_id j.worker_id) claimed
      then commit claimed (flush_all jobs claimed s) s
      else (err data_error, s)
