-- ===== src/Examples/Histories.antt =====
-- A job that fails: calls of services/job_service.py, services/scheduler.py and worker/job_executor.py on
-- an empty table, and what comes after.
use schedora.Base.{true, false, none, some, List, [], ◌≡◌, inr, refl}
use schedora.Enums.{scheduled, running, failed}
use schedora.Models.{Job}
use schedora.Jobs.{World, new_job, create_job, get_by_id, get_by_idempotency_key, cancel_job}
use schedora.Scheduler.{claim_job, claimable}
use schedora.Dependencies.{unmet_deps_subquery}
use schedora.Executor.{write_job, transition_status, set_completed}
use schedora.StateMachine.{can_transition, transitions, validate_transition}
use schedora.Lifecycle.Steps.{
  Step, creating, canceling, claiming, writing, transitioning, to_running, to_failed,
  completion_time, Steps, done, next,
}
use schedora.Lifecycle.Rows.{SameRequest}
use schedora.Lifecycle.History.{PathOf, Steps-row, Steps-ended}
use schedora.Store.Sample.Keys.{map_queues, map_presence}
use schedora.Examples.Data.{job_table, worker_table, links, unlocked, request, no_queues}
use schedora.Examples.Runs.{alone}

abbrev Table : Type 0
Table = List Job

abbrev Calls : Table → Table → Type 0
Calls = Steps job_table worker_table map_presence 30 map_queues alone false

abbrev Call : Table → Table → Type 0
Call = Step job_table worker_table map_presence 30 map_queues alone

abbrev world : Table → World job_table map_queues
world t = record { db = t; redis = no_queues }

abbrev created : Table
created =
    (create_job job_table map_queues none 7 20 21 (λ s. s) true (request none) (world [])).1.db

abbrev claimed : Table
claimed = (claim_job job_table links "w" 25 unlocked none created).1

abbrev started : Table
started = (transition_status job_table alone 7 running claimed).1

abbrev completed : Table
completed = (write_job job_table alone 7 (set_completed job_table alone 40) started).1

abbrev lost : Table
lost = (transition_status job_table alone 7 failed completed).1

abbrev asked : Table
asked = (cancel_job job_table map_queues none 7 (world lost)).1.db

abbrev again : Table
again = (claim_job job_table links "v" 50 unlocked none asked).1

create_seven : Call [] created
create_seven = creating none 7 20 21 true (request none) (world [])

cancel_seven : Call lost asked
cancel_seven = canceling none 7 (world lost)

calls_after : Calls lost again
unfolding cancel_seven
calls_after = next cancel_seven refl (next (claiming links "v" 50 unlocked none asked) refl done)

calls_from_claim : Calls claimed again
calls_from_claim = next (transitioning 7 claimed to_running) refl (
    next (writing 7 started (completion_time 40)) refl
      (next (transitioning 7 completed to_failed) refl calls_after))

abbrev row : Job
row = new_job 7 20 21 (request none)

claimed_row :
    job_table.get 7 claimed ≡ some (record row { status = scheduled; worker_id = some "w" })
unfolding create_job claim_job claimable unmet_deps_subquery get_by_idempotency_key new_job
claimed_row = refl

lost_row :
    job_table.get 7 lost
    ≡ some (record row { status = failed; worker_id = some "w"; completed_at = some 40 })
unfolding create_job claim_job claimable unmet_deps_subquery get_by_idempotency_key
    transition_status write_job get_by_id can_transition transitions validate_transition new_job
lost_row = refl

Steps-row_example :
    (j' : Job) × (job_table.get 7 again ≡ some j')
    × SameRequest (record row { status = scheduled; worker_id = some "w" }) j'
    × PathOf false scheduled j'.status
Steps-row_example =
    Steps-row job_table worker_table map_presence 30 map_queues alone false 7
      (record row { status = scheduled; worker_id = some "w" }) calls_from_claim claimed_row

Steps-ended_example : (j' : Job) × (job_table.get 7 again ≡ some j') × (j'.status ≡ failed)
Steps-ended_example =
    Steps-ended job_table worker_table map_presence 30 map_queues alone false 7
      (record row { status = failed; worker_id = some "w"; completed_at = some 40 }) calls_after
      lost_row (inr (inr (inr (refl, refl))))
