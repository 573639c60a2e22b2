-- ===== src/Lifecycle/History.antt =====
-- What can have become of a job after any of the calls in Lifecycle/Steps, in any order:
-- services/job_service.py, services/scheduler.py, services/heartbeat_service.py and
-- worker/job_executor.py together.
use mathlib.Core.Path.{subst}
use schedora.Base.{
  ltb, Option, ℕ, Bool, true, false, none, some, [], ◌≡◌, ◌⊎◌, inl, inr, refl, ap, ◌∙◌, arith, any,
  ◌==◌, nat_eq, if◌then◌else◌,
}
use schedora.Enums.{JobStatus, success, failed, canceled, dead, job_status_eq}
use schedora.Models.{Job, JobTable, WorkerTable}
use schedora.Store.{QueueStore, PresenceStore}
use schedora.Jobs.{Datetime}
use schedora.Lifecycle.Steps.{
  Kind, ordinary, recovery, service, fits, Step, kind_of, transitioning_by_service, creating,
  canceling, claiming, claiming_batch, writing, transitioning, recovering, Steps, done, next,
}
use schedora.Lifecycle.Rows.{
  Change, next_statuses, Follows, moves, SameRequest, kept, made, moved, Changes,
}
use schedora.Lifecycle.Rows.Calls.{
  transitioning_by_service-Changes, creating-Changes, canceling-Changes, claiming-Changes,
  claiming_batch-Changes, recovering-Changes,
}
use schedora.Lifecycle.Rows.Sessions.{writing-Changes, transitioning-Changes}

-- The kind of call that moves a status furthest, with or without `transition_status` of the service.
abbrev pub widest : (by_service : Bool) → Kind
widest by_service = if by_service then service else recovery

-- From one status to another by any number of moves.
pub data PathOf (by_service : Bool) : JobStatus → JobStatus → Type 0 where
  here : {a : JobStatus} → PathOf by_service a a
  via :
      {a b c : JobStatus}
      → moves (widest by_service) a b ≡ true
      → PathOf by_service b c
      → PathOf by_service a c

SameRequest-trans : (i j k : Job) → SameRequest i j → SameRequest j k → SameRequest i k
SameRequest-trans i j k e f = f ∙ rw e refl

path_ended :
    {by_service : Bool} {a b : JobStatus}
    → PathOf by_service a b
    → next_statuses (widest by_service) a ≡ []
    → b ≡ a
path_ended here none_next = refl
path_ended (via {a} {b} move path) none_next =
    absurd (cc (move, ap (λ l. any (λ x. x == b) l) none_next))

-- The statuses that are left by no call, FAILED only where the service is not asked to move it.
abbrev pub IsEnded : Bool → JobStatus → Type 0
IsEnded by_service a =
    (a ≡ success) ⊎ (a ≡ canceled) ⊎ (a ≡ dead) ⊎ ((a ≡ failed) × (by_service ≡ false))

ends_there :
    (by_service : Bool) (a : JobStatus)
    → IsEnded by_service a
    → next_statuses (widest by_service) a ≡ []
ends_there true a over = ground (arith, over)
ends_there false a over = ground (arith, over)

-- A time was given, and it is in the future.
abbrev pub is_future : ℕ → Option Datetime → Bool
is_future now none = false
is_future now (some at) = ltb now at.instant

wider_moves :
    (by_service : Bool) (kind : Kind) (a b : JobStatus)
    → fits by_service kind ≡ true
    → moves kind a b ≡ true
    → moves (widest by_service) a b ≡ true
wider_moves true ordinary a b fit move = ground (arith, move)
wider_moves true recovery a b fit move = ground (arith, move)
wider_moves true service a b fit move = move
wider_moves false ordinary a b fit move = ground (arith, move)
wider_moves false recovery a b fit move = move
wider_moves false service a b fit move = absurd (ground (arith, fit))

-- What one call does is possible with all of them.
any_change :
    {a b : Option Job} (k : ℕ) (by_service : Bool) (kind : Kind)
    → fits by_service kind ≡ true
    → Change kind k a b
    → Change (widest by_service) k a b
any_change k by_service kind fit (kept e) = kept e
any_change k by_service kind fit (made now at d e f) = made now at d e f
any_change k by_service kind fit (moved j j' e f follows) = moved j j' e f (record {
  request = follows.request;
  move = elim follows.move [
    | inl stays ↦ inl stays
    | inr move ↦ inr (wider_moves by_service kind j.status j'.status fit move)
  ];
})

module _ (jobs : JobTable) (workers : WorkerTable) (presence : PresenceStore) (timeout : ℕ)
    (store : QueueStore) (env : ℕ → jobs.State → jobs.State) where
  open jobs use {State, get}

  pub Step-Changes :
      {s t : State} (step : Step jobs workers presence timeout store env s t)
      → Changes jobs (kind_of jobs workers presence timeout store env step) s t
  Step-Changes (creating queue k now at names d w) =
      creating-Changes jobs store queue k now at names d w
  Step-Changes (canceling queue k w) = canceling-Changes jobs store queue k w
  Step-Changes (claiming links w now locked k s) = claiming-Changes jobs links w now locked k s
  Step-Changes (claiming_batch links w now locked limit s) =
      claiming_batch-Changes jobs links w now locked limit s
  Step-Changes (writing k s f) = writing-Changes jobs env k s f
  Step-Changes (transitioning k s to) = transitioning-Changes jobs env k s to
  Step-Changes (recovering w v) = recovering-Changes jobs workers presence timeout w v
  Step-Changes (transitioning_by_service queue k st w) =
      transitioning_by_service-Changes jobs store queue k st w

  -- After any calls of `create_job`, `cancel_job`, `claim_job`, `claim_ready_jobs`,
  -- `handle_stale_worker`, the sessions of the executor and, if `by_service`, `transition_status` of the
  -- job service, in any order and by any processes, where no other session commits between the reading
  -- and the writing of one call: a row that was there is there still, it is the same request with the same
  -- number of retries, and its status has gone from move to move. The moves are PENDING to SCHEDULED,
  -- RUNNING or CANCELED; SCHEDULED to RUNNING or CANCELED; RUNNING to SUCCESS, FAILED, CANCELED or back
  -- to PENDING; and, if `by_service`, also SCHEDULED to PENDING, RUNNING to RETRYING, FAILED to RETRYING or
  -- DEAD, and RETRYING to SCHEDULED.
  pub Steps-row :
      (by_service : Bool) {s t : State} (k : ℕ) (j : Job)
      → Steps jobs workers presence timeout store env by_service s t
      → get k s ≡ some j
      → (j' : Job) × (get k t ≡ some j') × SameRequest j j' × PathOf by_service j.status j'.status
  Steps-row by_service k j done found = (j, found, refl, here)
  Steps-row by_service k j (next step fit rest) found =
      elim (any_change k by_service _ fit (Step-Changes step k)) [
        | kept e ↦ Steps-row by_service k j rest (e ∙ found)
        | made now at d gone _ ↦ absurd (cc (gone, found))
        | moved i i' was is follows ↦
            let one : i ≡ j = cc (was, found) in
            let (j', there, request, path) = Steps-row by_service k i' rest is in
            let goes = subst (λ x. Follows (widest by_service) x i') one follows in
            (
              j',
              there,
              SameRequest-trans j i' j' goes.request request,
              elim goes.move [
                | inl stays ↦ subst (λ a. PathOf by_service a j'.status) stays path
                | inr move ↦ via move path
              ],
            )
      ]

  -- After any calls of `create_job`, `cancel_job`, `claim_job`, `claim_ready_jobs`,
  -- `handle_stale_worker`, the sessions of the executor and, if `by_service`, `transition_status` of the
  -- job service, in any order, where no other session commits between the reading and the writing of one
  -- call: a job that was SUCCESS, CANCELED or DEAD is there still with that status, and so is one that was
  -- FAILED if `transition_status` of the service is not called. So a job that failed is not retried unless
  -- that method is called.
  pub Steps-ended :
      (by_service : Bool) {s t : State} (k : ℕ) (j : Job)
      → Steps jobs workers presence timeout store env by_service s t
      → get k s ≡ some j
      → (j.status ≡ success)
        ⊎ (j.status ≡ canceled)
        ⊎ (j.status ≡ dead)
        ⊎ ((j.status ≡ failed) × (by_service ≡ false))
      → (j' : Job) × (get k t ≡ some j') × (j'.status ≡ j.status)
  Steps-ended by_service k j steps found over =
      let (j', there, _, path) = Steps-row by_service k j steps found in
      (j', there, path_ended path (ends_there by_service j.status over))
