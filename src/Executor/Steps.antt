-- ===== src/Executor/Steps.antt =====
-- worker/job_executor.py: the sessions of a run, one by one.
use schedora.Base.{
  Option-cases, inl, inr, is_some, ℕ, ◌≤◌, String, true, false, Option, none, some, List, ◌≡◌,
  nat_eq, ◌∙◌, ap, refl, arith, eq_self,
}
use schedora.Enums.{JobStatus, scheduled, running, success, failed, job_status_eq}
use schedora.Errors.{Error, pure, Action, ◌>>◌, ok, err, integrity_error}
use schedora.Models.{Job, JobTable, check_job}
use schedora.StateMachine.{can_transition}
use schedora.Store.Laws.{flush_some}
use schedora.Jobs.Repository.{get_by_id-get}
use schedora.Executor.{
  try_except, ExecutionResult, Run, Texts, to_thread, begin, write_job, transition_status,
  set_started, set_completed, set_result, set_error, handle_success, handle_failure, settle,
  run_handler,
}

-- A step that returns hands its state on to the next.
pub then_ok :
    {S B : Type 0} (m : Action S (Unit {0})) (k : Action S B) (s t : S)
    → m s ≡ (ok tt, t)
    → (m >> k) s ≡ k t
then_ok m k s t e = ap (λ z. elim z.0 [ ok a ↦ k z.1 | err x ↦ (err x, z.1) ]) e

pub then_err :
    {S B : Type 0} (m : Action S (Unit {0})) (k : Action S B) (s t : S)
    → m s ≡ (err integrity_error, t)
    → (m >> k) s ≡ (err integrity_error, t)
then_err m k s t e = ap (λ z. elim z.0 [ ok a ↦ k z.1 | err x ↦ (err x, z.1) ]) e

-- Three steps that return, and the result.
pub three_ok :
    {S B : Type 0} (l m n : Action S (Unit {0})) (b : B) (s t u v : S)
    → l s ≡ (ok tt, t)
    → m t ≡ (ok tt, u)
    → n u ≡ (ok tt, v)
    → (l >> (m >> (n >> pure b))) s ≡ (ok b, v)
three_ok l m n b s t u v e f g =
    then_ok l (m >> (n >> pure b)) s t e ∙ then_ok m (n >> pure b) t u f ∙ then_ok n (pure b) u v g

module _ (jobs : JobTable) (env : ℕ → jobs.State → jobs.State) where
  open jobs use {State, get, get_key, get_valid, get-flush}

  -- A session that writes a row that is there and stays valid.
  pub write_job_lem :
      (k : ℕ) (f : Job → Job) (s : State) (j : Job)
      → get k s ≡ some j
      → (f j).job_id ≡ k
      → check_job (f j) ≡ true
      → (t : State) × (write_job jobs env k f s ≡ (ok tt, t)) × (get k t ≡ some (f j))
  unfolding write_job
  write_job_lem k f s j found id valid =
      let (t, done) = flush_some jobs (f j) s valid in
      (
        t,
        ground (arith, get_by_id-get jobs k s, done),
        get-flush k (f j) s t done ∙ rw (id, eq_self k),
      )

  -- A session that would break a CHECK constraint raises IntegrityError and writes nothing.
  pub write_job_refused :
      (k : ℕ) (f : Job → Job) (s : State) (j : Job)
      → get k s ≡ some j
      → check_job (f j) ≡ false
      → write_job jobs env k f s ≡ (err integrity_error, s)
  unfolding write_job
  write_job_refused k f s j found broken = elim (Option-cases (jobs.flush (f j) s)) [
    | inl refused ↦ ground (arith, get_by_id-get jobs k s, refused)
    | inr (t, done) ↦ cc (ap (λ o. is_some o) done, jobs.flush_iff (f j) s, broken)
  ]

  -- A transition of a row that is there.
  transition_status_moves :
      (k : ℕ) (st : JobStatus) (s : State) (j : Job)
      → get k s ≡ some j
      → can_transition j.status st ≡ true
      → (t : State) × (transition_status jobs env k st s ≡ (ok tt, t))
        × (get k t ≡ some (record j { status = st }))
  unfolding transition_status
  transition_status_moves k st s j found allowed =
      let (t, done) = flush_some jobs (record j { status = st }) s (get_valid k s j found) in
      (
        t,
        ground (arith, get_by_id-get jobs k s, done),
        get-flush k (record j { status = st }) s t done ∙ rw (get_key k s j found, eq_self k),
      )

  completes :
      (j : Job) (a now : ℕ)
      → check_job j ≡ true
      → j.started_at ≡ some a
      → a ≤ now
      → check_job (set_completed jobs env now j) ≡ true
  completes j a now v started later = ground arith

  ends : (can_transition running success ≡ true) × (can_transition running failed ≡ true)
  unfolding can_transition
  ends = (refl, refl)

  starts : can_transition scheduled running ≡ true
  unfolding can_transition
  starts = refl

  abbrev pub succeeded : String → ExecutionResult
  succeeded r = record {
    success = true;
    result = some r;
    error_message = none;
    error_details = none;
  }

  abbrev pub failed_with : String → Option String → ExecutionResult
  failed_with message details = record {
    success = false;
    result = none;
    error_message = some message;
    error_details = details;
  }

  -- The body of `execute` from the time of the start on.
  abbrev pub running_steps :
      Texts → List (String × (String → Run)) → Job → ℕ → ℕ → ℕ → Action State ExecutionResult
  running_steps texts registry job started now later = do
    to_thread jobs env 1 (write_job jobs env job.job_id (set_started jobs env started))
    settle jobs env texts job now later (run_handler jobs env texts registry job)

  -- What other processes commit leaves the row of the job `k` alone.
  abbrev pub Leaves : ℕ → Type 0
  Leaves k = (n : ℕ) (s : State) → get k (env n s) ≡ get k s

  pub handle_success_lem :
      (k : ℕ) (a now : ℕ) (r : String) (s : State) (j : Job)
      → Leaves k
      → get k s ≡ some j
      → j.status ≡ running
      → j.started_at ≡ some a
      → a ≤ now
      → (t : State) × (handle_success jobs env k now r s ≡ (ok (succeeded r), t))
        × (get k t ≡ some (record j { status = success; completed_at = some now; result = some r }))
  unfolding handle_success
  handle_success_lem k a now r s j leaves found runs started later =
      let valid = completes j a now (get_valid k s j found) started later in
      let id = get_key k s j found in
      let (t1, e1, row1) =
        write_job_lem k (set_completed jobs env now) (env 2 s) j (leaves 2 s ∙ found) id valid in
      let (t2, e2, row2) =
        write_job_lem k (set_result jobs env r) (env 3 t1) _ (leaves 3 t1 ∙ row1) id valid in
      let (t3, e3, row3) =
        transition_status_moves k success (env 4 t2) _ (leaves 4 t2 ∙ row2) (rw runs ends.0) in
      (
        t3,
        three_ok (to_thread jobs env 2 (write_job jobs env k (set_completed jobs env now)))
            (to_thread jobs env 3 (write_job jobs env k (set_result jobs env r)))
            (to_thread jobs env 4 (transition_status jobs env k success)) (succeeded r) s t1 t2 t3
            e1 e2 e3,
        row3,
      )

  pub handle_failure_lem :
      (k : ℕ) (a now : ℕ) (message : String) (details : Option String) (s : State) (j : Job)
      → Leaves k
      → get k s ≡ some j
      → j.status ≡ running
      → j.started_at ≡ some a
      → a ≤ now
      → (t : State) × (handle_failure jobs env k now message details s
          ≡ (ok (failed_with message details), t))
        × (get k t
            ≡ some (record j {
              status = failed;
              completed_at = some now;
              error_message = some message;
              error_details = details;
            }))
  unfolding handle_failure
  handle_failure_lem k a now message details s j leaves found runs started later =
      let valid = completes j a now (get_valid k s j found) started later in
      let id = get_key k s j found in
      let (t1, e1, row1) =
        write_job_lem k (set_completed jobs env now) (env 5 s) j (leaves 5 s ∙ found) id valid in
      let (t2, e2, row2) =
        write_job_lem k (set_error jobs env message details) (env 6 t1) _ (leaves 6 t1 ∙ row1) id
          valid in
      let (t3, e3, row3) =
        transition_status_moves k failed (env 7 t2) _ (leaves 7 t2 ∙ row2) (rw runs ends.1) in
      (
        t3,
        three_ok (to_thread jobs env 5 (write_job jobs env k (set_completed jobs env now)))
            (to_thread jobs env 6 (write_job jobs env k (set_error jobs env message details)))
            (to_thread jobs env 7 (transition_status jobs env k failed))
            (failed_with message details) s t1 t2 t3 e1 e2 e3,
        row3,
      )

  pub try_ok :
      {A : Type 0} (m : Action State A) (h : Error → Action State A) (s t : State) (a : A)
      → m s ≡ (ok a, t)
      → try_except jobs env m h s ≡ (ok a, t)
  try_ok m h s t a e = ap (λ z. elim z.0 [ ok b ↦ (ok b, z.1) | err x ↦ h x z.1 ]) e

  -- A claimed job that has been marked RUNNING, with the time of its start.
  pub begin_lem :
      (job : Job) (started : ℕ) (s : State)
      → Leaves job.job_id
      → get job.job_id s ≡ some job
      → job.status ≡ scheduled
      → (t : State) × (begin jobs env job s ≡ (ok tt, t))
        × (get job.job_id t ≡ some (record job { status = running }))
  begin_lem job started s leaves found waits =
      let (t, e, row) =
        transition_status_moves job.job_id running (env 0 s) job (leaves 0 s ∙ found)
          (rw waits starts) in
      (t, rw waits e, row)
