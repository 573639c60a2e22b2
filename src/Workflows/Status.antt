-- ===== src/Workflows/Status.antt =====
-- services/workflow_service.py: `get_workflow_status`, read off the statuses of the linked jobs.
use schedora.Base.{
  ℕ, ◌+◌, ◌≤◌, ◌<◌, true, some, List, [], ◌∷◌, ◌≡◌, ◌⊎◌, ◌↔◌, ◌==◌, inl, inr, IsIn, length,
  count-positive, count-full, Nat-cases, Option-cases, sym, refl, arith, nat_eq,
}
use schedora.Enums.{JobStatus, WorkflowStatus, success, dead, canceled, scheduled, job_status_eq}
use schedora.Errors.{ok}
use schedora.StateMachine.{member_of}
use schedora.Models.{Job, JobTable, Workflow, WorkflowTable}
use schedora.Store.{Memberships}
use schedora.Store.Laws.{first-key}
use schedora.Workflows.{
  Db, WorkflowSummary, rows_of, completed_count, failed_count, running_count, overall_status,
  summary, workflow_jobs, get_workflow_status, get_workflow, get_by_workflow_id,
}

abbrev pub IsBad : Job → Type 0
IsBad j = (j.status ≡ JobStatus.failed) ⊎ (j.status ≡ dead) ⊎ (j.status ≡ canceled)

abbrev pub IsBusy : Job → Type 0
IsBusy j = (j.status ≡ JobStatus.running) ⊎ (j.status ≡ scheduled)

member_of-failed :
    (j : Job) → (member_of j.status (JobStatus.failed ∷ dead ∷ canceled ∷ []) ≡ true) ↔ IsBad j
member_of-failed j = ground arith

member_of-running :
    (j : Job) → (member_of j.status (JobStatus.running ∷ scheduled ∷ []) ≡ true) ↔ IsBusy j
member_of-running j = ground arith

is_done_iff : (j : Job) → (j.status == success ≡ true) ↔ (j.status ≡ success)
is_done_iff j = ground arith

module _ (l : List Job) where
  failed_count_iff : (0 < failed_count l) ↔ ((j : Job) × IsIn j l × IsBad j)
  failed_count_iff =
      let (out, back) =
        count-positive (λ (j : Job). member_of j.status (JobStatus.failed ∷ dead ∷ canceled ∷ []))
          l in
      (
        λ h. let (j, m, t) = out h in (j, m, (member_of-failed j).0 t),
        λ (j, m, b). back (j, m, (member_of-failed j).1 b),
      )

  running_count_iff : (0 < running_count l) ↔ ((j : Job) × IsIn j l × IsBusy j)
  running_count_iff =
      let (out, back) =
        count-positive (λ (j : Job). member_of j.status (JobStatus.running ∷ scheduled ∷ [])) l in
      (
        λ h. let (j, m, t) = out h in (j, m, (member_of-running j).0 t),
        λ (j, m, b). back (j, m, (member_of-running j).1 b),
      )

  completed_count_iff : (completed_count l ≡ length l) ↔ ((j : Job) → IsIn j l → j.status ≡ success)
  completed_count_iff =
      let (out, back) = count-full (λ (j : Job). j.status == success) l in
      (λ h j m. (is_done_iff j).0 (out h j m), λ h. back (λ j m. (is_done_iff j).1 (h j m)))

-- No job is counted twice.
counts_apart : (l : List Job) → completed_count l + failed_count l + running_count l ≤ length l
counts_apart [] = omega arith
counts_apart (j ∷ l) = ground (arith, counts_apart l)

length-positive : (l : List Job) → (0 < length l) ↔ ((j : Job) × IsIn j l)
length-positive [] = (λ h. absurd (omega (arith, h)), λ (j, m). elim m [ ])
length-positive (j ∷ l) = (λ h. (j, inl refl), λ h. omega arith)

overall_failed : (l : List Job) → (overall_status l ≡ WorkflowStatus.failed) ↔ (0 < failed_count l)
unfolding overall_status
overall_failed l = ground arith

overall_completed :
    (l : List Job)
    → (overall_status l ≡ WorkflowStatus.completed)
      ↔ ((completed_count l ≡ length l) × (0 < length l))
unfolding overall_status
overall_completed l = ground (arith, counts_apart l)

overall_running :
    (l : List Job)
    → (overall_status l ≡ WorkflowStatus.running) ↔ ((0 < running_count l) × (failed_count l ≡ 0))
unfolding overall_status
overall_running l = ground (arith, counts_apart l)

-- The status of the jobs of `l`, which are those that satisfy `P`.
module _ (l : List Job) (P : Job → Type 0) (same : (j : Job) → IsIn j l ↔ P j) where
  status_failed : (overall_status l ≡ WorkflowStatus.failed) ↔ ((j : Job) × P j × IsBad j)
  status_failed =
      let (out, back) = failed_count_iff l in
      let (over, under) = overall_failed l in
      (
        λ h. let (j, m, b) = out (over h) in (j, (same j).0 m, b),
        λ (j, p, b). under (back (j, (same j).1 p, b)),
      )

  status_completed :
      (overall_status l ≡ WorkflowStatus.completed)
      ↔ (((j : Job) × P j) × ((j : Job) → P j → j.status ≡ success))
  status_completed =
      let (out, back) = completed_count_iff l in
      let (filled, fill) = length-positive l in
      let (over, under) = overall_completed l in
      (
        λ h.
            let (full, some_job) = over h in
            let (j, m) = filled some_job in ((j, (same j).0 m), λ i p. out full i ((same i).1 p)),
        λ ((j, p), every). under (back (λ i m. every i ((same i).0 m)), fill (j, (same j).1 p)),
      )

  status_running :
      (overall_status l ≡ WorkflowStatus.running)
      ↔ (((j : Job) × P j × IsBusy j) × ((j : Job) → P j → ¬ IsBad j))
  status_running =
      let (out, back) = running_count_iff l in
      let (bad, worse) = failed_count_iff l in
      let (over, under) = overall_running l in
      (
        λ h.
            let (busy, fine) = over h in
            let (j, m, b) = out busy in
            ((j, (same j).0 m, b), λ i p b. omega (arith, fine, worse (i, (same i).1 p, b))),
        λ ((j, p, b), fine). under (
          back (j, (same j).1 p, b),
          elim (Nat-cases (failed_count l)) [
            | inl none_bad ↦ none_bad
            | inr some_bad ↦ let (i, m, b) = bad some_bad in absurd (fine i ((same i).0 m) b)
          ],
        ),
      )

module _ (jobs : JobTable) (workflows : WorkflowTable) (members : Memberships) where
  open jobs use {get, get_key}

  rows_of_iff :
      (j : Job) (ks : List ℕ) (s : jobs.State)
      → IsIn j (rows_of (λ k. get k s) ks) ↔ (IsIn j.job_id ks × (get j.job_id s ≡ some j))
  rows_of_iff j [] s = (λ m. elim m [ ], λ (m, e). elim m [ ])
  rows_of_iff j (k ∷ ks) s = elim (Option-cases (get k s)) [
    | inl gone ↦ ground (arith, rows_of_iff j ks s)
    | inr (x, found) ↦ ground (arith, rows_of_iff j ks s, get_key k s x found)
  ]

  -- The job is linked to the workflow `w`, and it has a row.
  abbrev pub IsLinked : ℕ → Db jobs workflows members → Job → Type 0
  IsLinked w s j = IsIn j.job_id (members.linked w s.links) × (get j.job_id s.job_rows ≡ some j)

  pub workflow_jobs_iff :
      (w : Workflow) (s : Db jobs workflows members) (j : Job)
      → IsIn j (workflow_jobs jobs workflows members w s) ↔ IsLinked w.workflow_id s j
  unfolding workflow_jobs
  workflow_jobs_iff w s j = rows_of_iff j (members.linked w.workflow_id s.links) s.job_rows

  get_workflow_status_found :
      (k : ℕ) (s : Db jobs workflows members) (x : Workflow)
      → workflows.get k s.workflow_rows ≡ some x
      → get_workflow_status jobs workflows members k s
        ≡ (ok (summary x (workflow_jobs jobs workflows members x s)), s)
  unfolding get_workflow_status get_by_workflow_id get_workflow
  get_workflow_status_found k s x found = ground (arith, first-key workflows k s.workflow_rows)

  -- A workflow that exists has a status, and asking for it changes nothing. It is FAILED exactly when a
  -- linked job is FAILED, DEAD or CANCELED; COMPLETED exactly when it has jobs and each is SUCCESS; and
  -- RUNNING exactly when a linked job is RUNNING or SCHEDULED and none is FAILED, DEAD or CANCELED. The
  -- three numbers of jobs add up to at most their total.
  pub get_workflow_status_lem :
      (k : ℕ) (s : Db jobs workflows members) (x : Workflow)
      → workflows.get k s.workflow_rows ≡ some x
      → (r : WorkflowSummary) × (get_workflow_status jobs workflows members k s ≡ (ok r, s))
        × ((r.status ≡ WorkflowStatus.failed) ↔ ((j : Job) × IsLinked k s j × IsBad j))
        × ((r.status ≡ WorkflowStatus.completed)
            ↔ (((j : Job) × IsLinked k s j) × ((j : Job) → IsLinked k s j → j.status ≡ success)))
        × ((r.status ≡ WorkflowStatus.running)
            ↔ (((j : Job) × IsLinked k s j × IsBusy j) × ((j : Job) → IsLinked k s j → ¬ IsBad j)))
        × (r.completed_jobs + r.failed_jobs + r.running_jobs ≤ r.total_jobs)
  get_workflow_status_lem k s x found =
      let l = workflow_jobs jobs workflows members x s in
      let id : x.workflow_id ≡ k = workflows.get_key k s.workflow_rows x found in
      let same : (j : Job) → IsIn j l ↔ IsLinked k s j =
        λ j. rw (sym id) (workflow_jobs_iff x s j) in
      (
        summary x l,
        get_workflow_status_found k s x found,
        status_failed l (IsLinked k s) same,
        status_completed l (IsLinked k s) same,
        status_running l (IsLinked k s) same,
        counts_apart l,
      )
