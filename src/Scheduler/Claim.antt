-- ===== src/Scheduler/Claim.antt =====
-- services/scheduler.py: what one call of `claim_job` does.
use schedora.Base.{
  ℕ, ◌≤◌, String, Bool, true, false, Option, none, some, List, ◌≡◌, ◌==◌, ◌&&◌, not, if◌then◌else◌,
  nat_eq, arith, and_true, eq→≡, leb→le, ◌∙◌, ap, Option-cases, inl, inr, refl,
}
use schedora.Enums.{pending, scheduled, job_status_eq}
use schedora.Models.{Job, Dependency, JobTable}
use schedora.StateMachine.{can_transition}
use schedora.Errors.{ok}
use schedora.Store.Laws.{flush_some}
use schedora.Dependencies.{are_dependencies_met}
use schedora.Dependencies.Queries.{checks-subqueries}
use schedora.Scheduler.{wanted, claimed_by, claimable, claim_job}

module _ (jobs : JobTable) (links : List Dependency) where
  open jobs use {State, get, first, flush, get-flush, get_valid, first_sound, first_complete}

  -- A row that may be claimed: it is in the table, PENDING, due, with its dependencies met, free of
  -- other transactions' locks, and the one asked for if one is.
  pub record IsClaimable (now : ℕ) (locked : ℕ → Bool) (job_id : Option ℕ) (s : State) (j : Job)
      : Type 0 where
    pub found : get j.job_id s ≡ some j
    pub waits : j.status ≡ pending
    pub due : j.scheduled_at ≤ now
    pub met : are_dependencies_met jobs links s j ≡ true
    pub free : locked j.job_id ≡ false
    pub asked : wanted job_id j.job_id ≡ true

  pub claimable-IsClaimable :
      (now : ℕ) (locked : ℕ → Bool) (job_id : Option ℕ) (s : State) (j : Job)
      → get j.job_id s ≡ some j
      → claimable jobs links now job_id s j && not (locked j.job_id) ≡ true
      → IsClaimable now locked job_id s j
  unfolding claimable
  claimable-IsClaimable now locked job_id s j found passed =
      let (test, free) = and_true _ _ passed in
      let (row, asked) = and_true _ _ test in
      let (waits, rest) = and_true _ _ row in
      let (due, met) = and_true _ _ rest in
      record {
        found = found;
        waits = eq→≡ _ _ waits;
        due = leb→le _ _ due;
        met = (checks-subqueries jobs links s j).0 ∙ met;
        free = ground arith;
        asked = asked;
      }

  pub IsClaimable-claimable :
      (now : ℕ) (locked : ℕ → Bool) (job_id : Option ℕ) (s : State) (j : Job)
      → IsClaimable now locked job_id s j
      → claimable jobs links now job_id s j && not (locked j.job_id) ≡ true
  unfolding claimable
  IsClaimable-claimable now locked job_id s j c =
      ground (arith, c.waits, c.due, c.met, c.free, c.asked, (checks-subqueries jobs links s j).0)

  -- What a call does, by the row that the query gave.
  data Claimed (w : String) (now : ℕ) (locked : ℕ → Bool) (job_id : Option ℕ) (s : State)
      : Type 0 where
    nothing :
        first (λ r. claimable jobs links now job_id s r && not (locked r.job_id)) s ≡ none
        → claim_job jobs links w now locked job_id s ≡ (ok none, s)
        → Claimed w now locked job_id s
    taken :
        (j : Job) (t : State)
        → IsClaimable now locked job_id s j
        → flush (claimed_by w j) s ≡ some t
        → claim_job jobs links w now locked job_id s ≡ (ok (some (claimed_by w j)), t)
        → Claimed w now locked job_id s

  claim_job-Claimed :
      (w : String) (now : ℕ) (locked : ℕ → Bool) (job_id : Option ℕ) (s : State)
      → Claimed w now locked job_id s
  unfolding claim_job
  claim_job-Claimed w now locked job_id s =
      elim (Option-cases
        (first (λ r. claimable jobs links now job_id s r && not (locked r.job_id)) s)) [
          | inl e ↦ nothing e (rw (e, claim_job))
          | inr (j, e) ↦
              let (held, passed) = first_sound _ s j e in
              let (t, done) = flush_some jobs (claimed_by w j) s (get_valid j.job_id s j held) in
              taken j t (claimable-IsClaimable now locked job_id s j held passed) done
                (rw (e, claim_job) (rw done))
        ]

  -- A claim never raises, where the id of the worker is taken to fit its column: the row that it writes
  -- meets the CHECK constraints.
  pub claim_job-ok :
      (w : String) (now : ℕ) (locked : ℕ → Bool) (job_id : Option ℕ) (s : State)
      → (c : Option Job) × ((claim_job jobs links w now locked job_id s).0 ≡ ok c)
  claim_job-ok w now locked job_id s = elim (claim_job-Claimed w now locked job_id s) [
    | nothing _ e ↦ (none, ap (λ r. r.0) e)
    | taken j t _ _ e ↦ (some (claimed_by w j), ap (λ r. r.0) e)
  ]

  -- A claim that returns a job took a claimable row, by a transition that the state machine allows,
  -- and changed in it the status and the worker alone; every other row is as before.
  pub claim_job-some :
      (w : String) (now : ℕ) (locked : ℕ → Bool) (job_id : Option ℕ) (s : State) (c : Job)
      → (claim_job jobs links w now locked job_id s).0 ≡ ok (some c)
      → (j : Job) × IsClaimable now locked job_id s j
        × (c ≡ record j { status = scheduled; worker_id = some w })
        × (can_transition j.status c.status ≡ true)
        × ((k : ℕ)
            → get k (claim_job jobs links w now locked job_id s).1
              ≡ (if j.job_id == k then some c else get k s))
  unfolding can_transition
  claim_job-some w now locked job_id s c h = elim (claim_job-Claimed w now locked job_id s) [
    | nothing _ e ↦ absurd (cc (ap (λ r. r.0) e))
    | taken j t able done e ↦
        let same : c ≡ claimed_by w j = cc (ap (λ r. r.0) e) in
        (
          j,
          able,
          same,
          rw (same, able.waits) refl,
          λ k. ap (λ r. get k r.1) e ∙ get-flush k (claimed_by w j) s t done ∙ rw same refl,
        )
  ]

  -- A claim that returns None changes nothing, and there was no claimable row.
  pub claim_job-none :
      (w : String) (now : ℕ) (locked : ℕ → Bool) (job_id : Option ℕ) (s : State)
      → (claim_job jobs links w now locked job_id s).0 ≡ ok none
      → ((claim_job jobs links w now locked job_id s).1 ≡ s)
        × ((j : Job) → ¬ IsClaimable now locked job_id s j)
  claim_job-none w now locked job_id s h = elim (claim_job-Claimed w now locked job_id s) [
    | nothing missed e ↦ (
      ap (λ r. r.1) e,
      λ j able. cc (
        first_complete _ s j.job_id j missed able.found,
        IsClaimable-claimable now locked job_id s j able,
      ),
    )
    | taken j t able done e ↦ absurd (cc (ap (λ r. r.0) e))
  ]
