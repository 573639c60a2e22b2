-- ===== src/Lifecycle/Rows.antt =====
-- What one step of the program does to a row of `jobs`.
pub mod Calls
pub mod Sessions
use schedora.Base.{
  ℕ, String, Bool, true, false, Option, none, some, List, [], ◌∷◌, ◌≡◌, ◌≢◌, ◌⊎◌, inl, inr, refl,
  sym, ap, ◌∙◌, arith, any, ◌==◌, nat_eq, if◌then◌else◌, Option-cases, Bool-cases, IsIn, eq→≡,
  any-true, any-false,
}
use schedora.Enums.{
  JobStatus, pending, scheduled, running, success, failed, canceled, retrying, dead, job_status_eq,
}
use schedora.Errors.{ok}
use schedora.Models.{Job, JobTable, WorkerTable, Dependency}
use schedora.Store.{QueueStore, PresenceStore}
use schedora.StateMachine.{can_transition, transitions, validate_transition}
use schedora.StateMachine.Paths.{can_transition-canceled_iff}
use schedora.Queue.{RedisQueue}
use schedora.Jobs.Create.{create_job-Created, known, refused, added}
use schedora.Jobs.Transition.{cancel_job_open, cancel_job_closed}
use schedora.Scheduler.{claim_job, claim_ready_jobs}
use schedora.Scheduler.Claim.{claim_job-ok, claim_job-some, claim_job-none}
use schedora.Scheduler.Batch.{claim_ready_jobs_lem}
use schedora.Executor.{write_job, transition_status}
use schedora.Jobs.Repository.{get_by_id-get}
use schedora.Jobs.{World, JobCreate, new_job, create_job, cancel_job}
use schedora.Lifecycle.Steps.{
  Kind, ordinary, recovery, service, Target, to_running, to_success, to_failed, Write, start_time,
  completion_time, the_result, the_error,
}

-- Where a call of each kind takes the status of a job.
abbrev pub next_statuses : Kind → JobStatus → List JobStatus
next_statuses kind pending = scheduled ∷ running ∷ canceled ∷ []
next_statuses service scheduled = pending ∷ running ∷ canceled ∷ []
next_statuses ordinary scheduled = running ∷ canceled ∷ []
next_statuses recovery scheduled = running ∷ canceled ∷ []
next_statuses ordinary running = success ∷ failed ∷ canceled ∷ []
next_statuses recovery running = success ∷ failed ∷ canceled ∷ pending ∷ []
next_statuses service running = success ∷ failed ∷ retrying ∷ canceled ∷ pending ∷ []
next_statuses kind success = []
next_statuses ordinary failed = []
next_statuses recovery failed = []
next_statuses service failed = retrying ∷ dead ∷ []
next_statuses kind canceled = []
next_statuses ordinary retrying = []
next_statuses recovery retrying = []
next_statuses service retrying = scheduled ∷ []
next_statuses kind dead = []

abbrev pub moves : Kind → JobStatus → JobStatus → Bool
moves kind a b = any (λ x. x == b) (next_statuses kind a)

-- The row `j'` is the row `j` with another status, worker, times, error or result.
abbrev pub SameRequest : Job → Job → Type 0
SameRequest j j' = j' ≡ record j {
  status = j'.status;
  worker_id = j'.worker_id;
  started_at = j'.started_at;
  completed_at = j'.completed_at;
  error_message = j'.error_message;
  error_details = j'.error_details;
  result = j'.result;
}

pub record Follows (kind : Kind) (j j' : Job) : Type 0 where
  pub request : SameRequest j j'
  pub move : (j'.status ≡ j.status) ⊎ (moves kind j.status j'.status ≡ true)

-- A row before and after a step: it is as it was, or a job was made, or it follows.
pub data Change (kind : Kind) (k : ℕ) : Option Job → Option Job → Type 0 where
  kept : {a b : Option Job} → b ≡ a → Change kind k a b
  made :
      {a b : Option Job} (now flushed_at : ℕ) (d : JobCreate)
      → a ≡ none
      → b ≡ some (new_job k now flushed_at d)
      → Change kind k a b
  moved :
      {a b : Option Job} (j j' : Job)
      → a ≡ some j
      → b ≡ some j'
      → Follows kind j j'
      → Change kind k a b

module _ (jobs : JobTable) where
  open jobs use {State, get, get_key, get_valid, flush, get-flush}

  abbrev pub Changes : (kind : Kind) → State → State → Type 0
  Changes kind s t = (k : ℕ) → Change kind k (get k s) (get k t)

  -- One row is written.
  pub row-Changes :
      {kind : Kind} (j j' : Job) (s t : State)
      → get j.job_id s ≡ some j
      → ((k : ℕ) → get k t ≡ (if j.job_id == k then some j' else get k s))
      → Follows kind j j'
      → Changes kind s t
  row-Changes j j' s t found frame follows k = elim (Bool-cases (j.job_id == k)) [
    | inl hit ↦
        let id : j.job_id ≡ k = eq→≡ j.job_id k hit in
        moved j j' (sym (ap (λ i. get i s) id) ∙ found) (frame k ∙ rw hit refl) follows
    | inr miss ↦ kept (frame k ∙ rw miss refl)
  ]

  pub nothing-Changes : {kind : Kind} (s t : State) → t ≡ s → Changes kind s t
  nothing-Changes s t e k = kept (ap (get k) e)

  -- The row `k` was loaded, and its object is flushed.
  pub flush-Changes :
      {kind : Kind} (k : ℕ) (j j' : Job) (s t u : State)
      → get k s ≡ some j
      → flush j' s ≡ some t
      → u ≡ t
      → Follows kind j j'
      → Changes kind s u
  flush-Changes k j j' s t u found done last follows =
      let id : j.job_id ≡ k = get_key k s j found in
      row-Changes j j' s u (ap (λ i. get i s) id ∙ found)
        (λ i.
          ap (get i) last
          ∙ get-flush i j' s t done
          ∙ ap (λ x. if x == i then some j' else get i s) (ap (λ r. r.job_id) follows.request))
        follows
