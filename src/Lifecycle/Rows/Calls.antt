-- ===== src/Lifecycle/Rows/Calls.antt =====
-- services/job_service.py, services/scheduler.py and services/heartbeat_service.py: what a call does to
-- the rows of `jobs`.
use schedora.Base.{
  and_true, ≡→eq, ◌&&◌, ℕ, String, Bool, true, Option, none, some, List, ◌≡◌, ◌⊎◌, inl, inr, refl,
  sym, ap, ◌∙◌, arith, any, ◌==◌, nat_eq, Option-cases, Bool-cases, eq→≡, any-true, any-false,
}
use schedora.Enums.{JobStatus, pending, scheduled, running, canceled, job_status_eq}
use schedora.Errors.{ok}
use schedora.Models.{Job, JobTable, WorkerTable, Dependency}
use schedora.Store.{QueueStore, PresenceStore}
use schedora.StateMachine.{can_transition, transitions}
use schedora.StateMachine.Paths.{can_transition-canceled_iff}
use schedora.Queue.{RedisQueue}
use schedora.Jobs.Create.{create_job-Created, known, refused, broken, added}
use schedora.Jobs.Transition.{
  cancel_job_open, cancel_job_closed, transition_status_allowed, transition_status_refused,
}
use schedora.Scheduler.{claim_job, claim_ready_jobs}
use schedora.Scheduler.Claim.{claim_job-ok, claim_job-some, claim_job-none}
use schedora.Scheduler.Batch.{claim_ready_jobs-IsBatch}
use schedora.Jobs.{World, JobCreate, new_job, create_job, cancel_job, transition_status}
use schedora.Heartbeat.{Service, handle_stale_worker, jobs_key}
use schedora.Heartbeat.Recover.{handle_stale_worker_lem, handle_stale_worker_absent}
use schedora.Jobs.{initial_status}
use schedora.Jobs.Queueing.{enqueue_if_pending_lem}
use schedora.Lifecycle.Steps.{ordinary, recovery, service}
use schedora.Lifecycle.Rows.{
  Follows, kept, made, moved, moves, Changes, nothing-Changes, row-Changes,
}

module _ (jobs : JobTable) where
  open jobs use {State, get, get_key, insert, get-insert, insert_unique}

  cancel_moves :
      (a : JobStatus)
      → (a ≡ pending) ⊎ (a ≡ scheduled) ⊎ (a ≡ running)
      → moves ordinary a canceled ≡ true
  cancel_moves a e = ground (arith, e)

  -- An INSERT that is accepted is of a job that was not there.
  unknown :
      (job : Job) (k : ℕ) (s t : State) → insert job s ≡ some t → job.job_id ≡ k → get k s ≡ none
  unknown job k s t put id = elim (Option-cases (get k s)) [
    | inl gone ↦ gone
    | inr (x, found) ↦
        let same_id : x.job_id == job.job_id ≡ true =
          ≡→eq x.job_id job.job_id (get_key k s x found ∙ sym id) in
        absurd (ground (arith, insert_unique k job x s t put found, same_id))
  ]

  pub creating-Changes :
      (store : QueueStore) (queue : Option RedisQueue) (job_id now flushed_at : ℕ)
      (names_key : Bool) (d : JobCreate) (w : World jobs store)
      → Changes jobs ordinary w.db
          (create_job jobs store queue job_id now flushed_at (λ s. s) names_key d w).1.db
  unfolding new_job
  creating-Changes store queue job_id now flushed_at names_key d w =
      elim (create_job-Created jobs store queue job_id now flushed_at (λ s. s) names_key d w) [
        | known x _ e ↦ nothing-Changes jobs w.db _ (ap (λ r. r.1.db) e)
        | refused _ _ _ e ↦ nothing-Changes jobs w.db _ (ap (λ r. r.1.db) e)
        | broken _ _ _ _ e ↦ nothing-Changes jobs w.db _ (ap (λ r. r.1.db) e)
        | added t _ _ put e ↦
            let job = new_job job_id now flushed_at d in
            let table =
              ap (λ r. r.1.db) e
              ∙ ap (λ v. v.db)
                  (enqueue_if_pending_lem jobs store queue (initial_status now d.scheduled_at) job
                    (record w { db = t })) in
            λ k.
              let row = ap (get k) table ∙ get-insert k job w.db t put in
              elim (Bool-cases (job_id == k)) [
                | inl hit ↦
                    let id : job_id ≡ k = eq→≡ job_id k hit in
                    made now flushed_at d (unknown job k w.db t put id)
                      (row ∙ rw hit (ap (λ i. some (new_job i now flushed_at d)) id))
                | inr miss ↦ kept (row ∙ rw miss refl)
              ]
      ]

  pub canceling-Changes :
      (store : QueueStore) (queue : Option RedisQueue) (k : ℕ) (w : World jobs store)
      → Changes jobs ordinary w.db (cancel_job jobs store queue k w).1.db
  canceling-Changes store queue k w = elim (Option-cases (get k w.db)) [
    | inl gone ↦ nothing-Changes jobs w.db _ (
        ap (λ r. r.1.db)
          (cancel_job_closed jobs store queue k w (λ j found. absurd (cc (gone, found)))))
    | inr (j, found) ↦ elim (Bool-cases (can_transition j.status canceled)) [
      | inl allowed ↦
          let open_status = (can_transition-canceled_iff j.status).0 allowed in
          let (t, done, frame) = cancel_job_open jobs store queue k w j found open_status in
          let id : j.job_id ≡ k = get_key k w.db j found in
          row-Changes jobs j (record j { status = canceled }) w.db _
            (ap (λ i. get i w.db) id ∙ found)
            (λ i. ap (λ r. get i r.1.db) done ∙ frame i ∙ rw id refl)
            (record { request = refl; move = inr (cancel_moves j.status open_status) })
      | inr denied ↦ nothing-Changes jobs w.db _ (
          ap (λ r. r.1.db)
            (cancel_job_closed jobs store queue k w (λ x found2. λ o.
              let one : j ≡ x = cc (found, found2) in
              cc (
                ap (λ r. can_transition r.status canceled) one,
                (can_transition-canceled_iff x.status).1 o,
                denied,
              ))))
    ]
  ]

  claim-Follows :
      (w : String) (j c : Job)
      → j.status ≡ pending
      → c ≡ record j { status = scheduled; worker_id = some w }
      → Follows ordinary j c
  claim-Follows w j c waits same = record {
    request = rw same refl;
    move = inr (rw (same, waits) refl);
  }

  pub claiming-Changes :
      (links : List Dependency) (w : String) (now : ℕ) (locked : ℕ → Bool) (job_id : Option ℕ)
      (s : State)
      → Changes jobs ordinary s (claim_job jobs links w now locked job_id s).1
  claiming-Changes links w now locked job_id s =
      let (o, e) = claim_job-ok jobs links w now locked job_id s in
      elim (Option-cases o) [
        | inl missed ↦
            nothing-Changes jobs s _
              (claim_job-none jobs links w now locked job_id s (e ∙ ap (λ x. ok x) missed)).0
        | inr (c, got) ↦
            let (j, able, same, _, frame) =
              claim_job-some jobs links w now locked job_id s c (e ∙ ap (λ x. ok x) got) in
            row-Changes jobs j c s _ able.found frame (claim-Follows w j c able.waits same)
      ]

  pub claiming_batch-Changes :
      (links : List Dependency) (w : String) (now : ℕ) (locked : ℕ → Bool) (limit : ℕ) (s : State)
      → Changes jobs ordinary s (claim_ready_jobs jobs links w now locked limit s).1
  claiming_batch-Changes links w now locked limit s k =
      elim (claim_ready_jobs-IsBatch jobs links w now locked limit s) [
        | inl wide ↦ kept (ap (λ r. get k r.1) wide)
        | inr (claimed, _, _, _, each, others) ↦
            elim (Bool-cases (any (λ c. c.job_id == k) claimed)) [
              | inl hit ↦
                  let (c, m, e) = any-true (λ c. c.job_id == k) claimed hit in
                  let (held, (j, able, same)) = each c m in
                  let id : c.job_id ≡ k = eq→≡ c.job_id k e in
                  let key : j.job_id ≡ k = sym (ap (λ r. r.job_id) same) ∙ id in
                  let after = (claim_ready_jobs jobs links w now locked limit s).1 in
                  moved j c (ap (λ i. get i s) (sym key) ∙ able.found)
                    (ap (λ i. get i after) (sym id) ∙ held) (claim-Follows w j c able.waits same)
              | inr miss ↦ kept (
                  others k (λ c m id.
                    cc (any-false (λ c. c.job_id == k) c claimed miss m, ≡→eq c.job_id k id)))
            ]
      ]

  runs_back : (a : JobStatus) → a == running ≡ true → moves recovery a pending ≡ true
  runs_back a e = ground (arith, e)

  pub recovering-Changes :
      (workers : WorkerTable) (presence : PresenceStore) (timeout : ℕ) (w : String)
      (v : Service jobs workers presence timeout)
      → Changes jobs recovery v.job_rows
          (handle_stale_worker jobs workers presence timeout w v).1.job_rows
  recovering-Changes workers presence timeout w v k =
      let (u, run, rows, _, _, _) = handle_stale_worker_lem jobs workers presence timeout w v in
      elim (Option-cases (get k v.job_rows)) [
        | inl gone ↦
            kept (handle_stale_worker_absent jobs workers presence timeout w v k gone ∙ sym gone)
        | inr (j, found) ↦
            let after = ap (λ r. get k r.1.job_rows) run ∙ rows k j found in
            elim (Bool-cases
              (presence.sismember (jobs_key w) j.job_id v.redis && j.status == running)) [
                | inl reset ↦
                    moved j (record j { status = pending }) found (after ∙ rw reset refl)
                      (record {
                        request = refl;
                        move = inr (runs_back j.status (and_true _ _ reset).1);
                      })
                | inr stays ↦ kept (after ∙ rw stays (sym found))
              ]
      ]

  service_moves : (a st : JobStatus) → can_transition a st ≡ true → moves service a st ≡ true
  unfolding can_transition transitions
  service_moves a st h = ground (arith, h)

  pub transitioning_by_service-Changes :
      (store : QueueStore) (queue : Option RedisQueue) (k : ℕ) (st : JobStatus)
      (w : World jobs store)
      → Changes jobs service w.db (transition_status jobs store queue k st w).1.db
  transitioning_by_service-Changes store queue k st w = elim (Option-cases (get k w.db)) [
    | inl gone ↦ nothing-Changes jobs w.db _ (
        ap (λ r. r.1.db)
          (transition_status_refused jobs store queue k st w
            (λ j found. absurd (cc (gone, found)))))
    | inr (j, found) ↦ elim (Bool-cases (can_transition j.status st)) [
      | inl allowed ↦
          let (t, done, frame) =
            transition_status_allowed jobs store queue k st w j found allowed in
          let id : j.job_id ≡ k = get_key k w.db j found in
          row-Changes jobs j (record j { status = st }) w.db _ (ap (λ i. get i w.db) id ∙ found)
            (λ i. ap (λ r. get i r.1.db) done ∙ frame i ∙ rw id refl)
            (record { request = refl; move = inr (service_moves j.status st allowed) })
      | inr denied ↦ nothing-Changes jobs w.db _ (
          ap (λ r. r.1.db)
            (transition_status_refused jobs store queue k st w (λ x found2.
              let one : j ≡ x = cc (found, found2) in
              cc (ap (λ r. can_transition r.status st) one, denied))))
    ]
  ]
