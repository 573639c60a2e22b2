-- ===== src/Examples/Scheduling.antt =====
-- services/scheduler.py and services/dependency_resolver.py on a few rows.
use schedora.Base.{
  ◌⊎◌, arith, ℕ, ◌≤◌, ap, ◌≢◌, true, none, some, List, [], ◌∷◌, ◌≡◌, ◌==◌, nat_eq, refl, IsIn,
  if◌then◌else◌, length, not,
}
use schedora.Enums.{pending, scheduled, running}
use schedora.Errors.{ok}
use schedora.Models.{Job}
use schedora.Store.{Distinct}
use schedora.StateMachine.{can_transition}
use schedora.Dependencies.{
  unmet_deps_subquery, in_ids, are_dependencies_met, has_failed_dependencies, failed_deps_subquery,
}
use schedora.Dependencies.Queries.{checks-subqueries}
use schedora.Scheduler.{claimable, claim_job, claimed_by, claim_ready_jobs}
use schedora.Scheduler.Claim.{IsClaimable, claim_job-some}
use schedora.Scheduler.Batch.{claim_ready_jobs_lem}
use schedora.Store.Laws.{flush_all}
use schedora.Jobs.{get_by_id}
use schedora.Executor.{transition_status}
use schedora.StateMachine.{transitions, validate_transition}
use schedora.Lifecycle.Steps.{transitioning, to_running}
use schedora.Lifecycle.Claims.{nothing_more, one, batch, other, Claims-Distinct}
use schedora.Store.Sample.Keys.{map_queues, map_presence}
use schedora.Examples.Runs.{alone}
use schedora.Examples.Data.{worker_table, job_table, job_of, links, rows, unlocked}

abbrev after_first : List Job
after_first = claimed_by "w" (job_of 2 "b" pending) ∷ rows

-- Job 2 runs, and then a batch takes job 3.
abbrev running_two : List Job
running_two = (transition_status job_table alone 2 running after_first).1

abbrev batched : List Job
batched = (claim_ready_jobs job_table links "v" 20 unlocked 5 running_two).1

first_claim :
    claim_job job_table links "w" 20 unlocked none rows
    ≡ (ok (some (claimed_by "w" (job_of 2 "b" pending))), after_first)
unfolding claim_job claimable unmet_deps_subquery
first_claim = refl

batch_claim :
    claim_ready_jobs job_table links "v" 20 unlocked 5 running_two
    ≡ (ok (claimed_by "v" (job_of 3 "c" pending) ∷ []), batched)
unfolding claim_ready_jobs claimable unmet_deps_subquery transition_status can_transition
    transitions validate_transition get_by_id flush_all
batch_claim = refl

Claims-Distinct_example : Distinct (λ (k : ℕ). k) (2 ∷ 3 ∷ [])
Claims-Distinct_example =
    Claims-Distinct job_table worker_table map_presence 30 map_queues alone links (
      one "w" 20 unlocked none (claimed_by "w" (job_of 2 "b" pending)) first_claim (
        other (transitioning 2 after_first to_running) refl (
          batch "v" 20 unlocked 5 (claimed_by "v" (job_of 3 "c" pending) ∷ []) batch_claim
            nothing_more)))

claim_job-some_example :
    (j : Job) × IsClaimable job_table links 20 unlocked none rows j
    × (claimed_by "w" (job_of 2 "b" pending)
        ≡ record j { status = scheduled; worker_id = some "w" })
    × (can_transition j.status scheduled ≡ true)
    × ((k : ℕ)
        → job_table.get k (claim_job job_table links "w" 20 unlocked none rows).1 ≡ (
            if j.job_id == k
            then some (claimed_by "w" (job_of 2 "b" pending))
            else job_table.get k rows))
claim_job-some_example =
    claim_job-some job_table links "w" 20 unlocked none rows (claimed_by "w" (job_of 2 "b" pending))
      (ap (λ r. r.0) first_claim)

claim_ready_jobs_lem_example :
    (claimed : List Job) × ((claim_ready_jobs job_table links "w" 20 unlocked 2 rows).0
      ≡ ok claimed)
    × (length claimed ≤ 2)
    × ((length claimed ≡ 2)
        ⊎ ((j : Job)
            → IsClaimable job_table links 20 unlocked none rows j
            → IsIn (record j { status = scheduled; worker_id = some "w" }) claimed))
    × ((c : Job)
        → IsIn c claimed
        → (job_table.get c.job_id (claim_ready_jobs job_table links "w" 20 unlocked 2 rows).1
            ≡ some c)
          × ((j : Job) × IsClaimable job_table links 20 unlocked none rows j
              × (c ≡ record j { status = scheduled; worker_id = some "w" })))
    × ((k : ℕ)
        → ((c : Job) → IsIn c claimed → c.job_id ≢ k)
        → job_table.get k (claim_ready_jobs job_table links "w" 20 unlocked 2 rows).1
          ≡ job_table.get k rows)
claim_ready_jobs_lem_example =
    claim_ready_jobs_lem job_table links "w" 20 unlocked 2 rows (omega arith)

checks-subqueries_example :
    (are_dependencies_met job_table links rows (job_of 2 "b" pending)
      ≡ not (in_ids 2 (unmet_deps_subquery job_table links rows)))
    × (has_failed_dependencies job_table links rows (job_of 2 "b" pending)
        ≡ in_ids 2 (failed_deps_subquery job_table links rows))
checks-subqueries_example = checks-subqueries job_table links rows (job_of 2 "b" pending)
