-- ===== src/Lifecycle/Recovery.antt =====
-- A job whose worker went silent, on its way through services/background_tasks.py,
-- services/heartbeat_service.py, services/scheduler.py and worker/job_executor.py.
use schedora.Base.{
  ℕ, ◌≤◌, String, Bool, true, false, none, some, List, ◌≡◌, ◌≢◌, ◌∙◌, ap, refl, sym, IsIn, nat_eq,
  eq_self,
}
use schedora.Enums.{pending, running, scheduled, success}
use schedora.Errors.{ok}
use schedora.Models.{Job, JobTable, Dependency, Worker, WorkerTable}
use schedora.Store.{PresenceStore}
use schedora.Heartbeat.{Service, jobs_key}
use schedora.Heartbeat.Detect.{is_lost}
use schedora.Background.{detect_and_handle}
use schedora.Background.Rounds.{detect_and_handle_lem}
use schedora.Scheduler.{claim_job, claimed_by}
use schedora.Scheduler.Claim.{IsClaimable, claim_job-some}
use schedora.Scheduler.Asked.{claim_job-asked}
use schedora.Executor.{Run, Texts, returned, run_handler, execute}
use schedora.Executor.Steps.{Leaves, succeeded}
use schedora.Executor.Outcome.{execute-returned}
use schedora.Lifecycle.{unlinked_met}

module _ (jobs : JobTable) (workers : WorkerTable) (presence : PresenceStore) (timeout : ℕ)
    (links : List Dependency) (env : ℕ → jobs.State → jobs.State) (texts : Texts)
    (registry : List (String × (String → Run))) where
  open jobs use {get, get_key}
  open presence use {sismember}

  -- The row of a recovered job that the worker `v` has claimed.
  abbrev pub reclaimed_row : String → Job → Job
  reclaimed_row v j = record j { status = scheduled; worker_id = some v }

  -- A job is RUNNING and stands in the set of a worker that is ACTIVE and whose heartbeat has expired;
  -- it depends on no job and has not ended before. After a turn of the detector, any worker that claims
  -- the job by its id, at a time when it is due and its row is not locked, gets it, and its execution by
  -- a handler that returns in time succeeds: the row is SUCCESS with that worker, the new times and the
  -- result, and is otherwise what it was. Meanwhile no other process touches the row, and the clock does
  -- not run backwards.
  pub recovered_job_succeeds :
      (now claimed_at started finished later : ℕ) (locked : ℕ → Bool) (v res : String)
      (s : Service jobs workers presence timeout) (j : Job) (w : Worker)
      → get j.job_id s.job_rows ≡ some j
      → j.status ≡ running
      → workers.get w.worker_id s.worker_rows ≡ some w
      → is_lost jobs workers presence timeout now s w ≡ true
      → sismember (jobs_key w.worker_id) j.job_id s.redis ≡ true
      → ((l : Dependency) → IsIn l links → l.job_id ≢ j.job_id)
      → j.completed_at ≡ none
      → j.scheduled_at ≤ claimed_at
      → locked j.job_id ≡ false
      → Leaves jobs env j.job_id
      → started ≤ finished
      → run_handler jobs env texts registry (reclaimed_row v j) ≡ returned res
      → (t : jobs.State) × (claim_job jobs links v claimed_at locked
            (some j.job_id)
            (detect_and_handle jobs workers presence timeout now s).job_rows
          ≡ (ok (some (reclaimed_row v j)), t))
        × (u : jobs.State) × (execute jobs env texts registry
              (reclaimed_row v j)
              started
              finished
              later
              t
            ≡ (ok (succeeded jobs env res), u))
        × (get j.job_id u
            ≡ some (record j {
              status = success;
              worker_id = some v;
              started_at = some started;
              completed_at = some finished;
              result = some res;
            }))
  recovered_job_succeeds now claimed_at started finished later locked v res s j w found runs known
        lost mine apart fresh due free leaves clock handled =
      let (d, turn, _, reset, _) = detect_and_handle_lem jobs workers presence timeout now s in
      let rows : (detect_and_handle jobs workers presence timeout now s).job_rows ≡ d.job_rows =
        ap (λ x. x.job_rows) turn in
      let back : Job = record j { status = pending } in
      let able : IsClaimable jobs links claimed_at locked (some j.job_id) d.job_rows back = record {
        found = reset j.job_id j w found runs known lost mine;
        waits = refl;
        due = due;
        met = unlinked_met jobs links d.job_rows back apart;
        free = free;
        asked = eq_self j.job_id;
      } in
      let hit = claim_job-asked jobs links v claimed_at locked d.job_rows back able in
      let (i, other, same, _, table) =
        claim_job-some jobs links v claimed_at locked (some j.job_id) d.job_rows (claimed_by v back)
          hit in
      let id : i.job_id ≡ j.job_id = sym (ap (λ x. x.job_id) same) in
      let t = (claim_job jobs links v claimed_at locked (some j.job_id) d.job_rows).1 in
      let held : get j.job_id t ≡ some (reclaimed_row v j) =
        table j.job_id ∙ rw id (rw (eq_self j.job_id) refl) in
      let (u, ran, final) =
        execute-returned jobs env texts registry (reclaimed_row v j) started finished later res t
          leaves held refl fresh clock handled in
      (t, rw rows (ap (λ r. (r, t)) hit), u, ran, final)
