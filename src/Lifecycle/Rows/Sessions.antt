-- ===== src/Lifecycle/Rows/Sessions.antt =====
-- worker/job_executor.py: what a session does to the rows of `jobs`.
use schedora.Base.{ℕ, true, ◌≡◌, inl, inr, refl, arith, nat_eq, Option-cases, Bool-cases}
use schedora.Enums.{JobStatus, job_status_eq}
use schedora.Models.{Job, JobTable}
use schedora.StateMachine.{can_transition, transitions, validate_transition}
use schedora.Executor.{write_job, transition_status}
use schedora.Jobs.Repository.{get_by_id-get}
use schedora.Lifecycle.Steps.{
  ordinary, Target, to_running, to_success, to_failed, Write, start_time, completion_time,
  the_result, the_error,
}
use schedora.Lifecycle.Rows.{Follows, moves, Changes, nothing-Changes, flush-Changes}

module _ (jobs : JobTable) (env : ℕ → jobs.State → jobs.State) where
  open jobs use {State, get, flush}

  writes-Follows : (f : Job → Job) (j : Job) → Write jobs env f → Follows ordinary j (f j)
  writes-Follows f j (start_time now) = record { request = refl; move = inl refl }
  writes-Follows f j (completion_time now) = record { request = refl; move = inl refl }
  writes-Follows f j (the_result r) = record { request = refl; move = inl refl }
  writes-Follows f j (the_error m d) = record { request = refl; move = inl refl }

  pub writing-Changes :
      {f : Job → Job} (k : ℕ) (s : State)
      → Write jobs env f
      → Changes jobs ordinary s (write_job jobs env k f s).1
  unfolding write_job
  writing-Changes {f} k s w = elim (Option-cases (get k s)) [
    | inl gone ↦ nothing-Changes jobs s _ (ground (arith, get_by_id-get jobs k s))
    | inr (j, found) ↦ elim (Option-cases (flush (f j) s)) [
      | inl broken ↦ nothing-Changes jobs s _ (ground (arith, get_by_id-get jobs k s))
      | inr (t, done) ↦
          flush-Changes jobs k j (f j) s t _ found done (ground (arith, get_by_id-get jobs k s))
            (writes-Follows f j w)
    ]
  ]

  Target-moves :
      {st : JobStatus} (a : JobStatus)
      → Target st
      → can_transition a st ≡ true
      → moves ordinary a st ≡ true
  unfolding can_transition transitions
  Target-moves a to_running h = ground arith
  Target-moves a to_success h = ground arith
  Target-moves a to_failed h = ground arith

  pub transitioning-Changes :
      {st : JobStatus} (k : ℕ) (s : State)
      → Target st
      → Changes jobs ordinary s (transition_status jobs env k st s).1
  unfolding transition_status validate_transition
  transitioning-Changes {st} k s to = elim (Option-cases (get k s)) [
    | inl gone ↦ nothing-Changes jobs s _ (ground (arith, get_by_id-get jobs k s))
    | inr (j, found) ↦ elim (Bool-cases (can_transition j.status st)) [
      | inr denied ↦ nothing-Changes jobs s _ (ground (arith, get_by_id-get jobs k s))
      | inl allowed ↦ elim (Option-cases (flush (record j { status = st }) s)) [
        | inl broken ↦ nothing-Changes jobs s _ (ground (arith, get_by_id-get jobs k s))
        | inr (t, done) ↦
            flush-Changes jobs k j (record j { status = st }) s t _ found done
              (ground (arith, get_by_id-get jobs k s))
              (record { request = refl; move = inr (Target-moves j.status to allowed) })
      ]
    ]
  ]
