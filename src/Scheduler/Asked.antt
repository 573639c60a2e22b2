-- ===== src/Scheduler/Asked.antt =====
-- services/scheduler.py: claiming one job by its id, and what a claim leaves to the other jobs.
use schedora.Base.{
  ℕ, ◌≤◌, String, Bool, Option, none, some, List, ◌≡◌, ◌≢◌, ◌==◌, ◌⊎◌, inl, inr, nat_eq, refl, sym,
  ◌∙◌, ap, arith, eq→≡, ne→eq_false, Bool-cases,
}
use schedora.Enums.{success, job_status_eq}
use schedora.Errors.{ok}
use schedora.Models.{Job, Dependency, JobTable}
use schedora.Dependencies.Stable.{SparesSuccess, are_dependencies_met_stable}
use schedora.Scheduler.{claimed_by, claim_job}
use schedora.Scheduler.Claim.{IsClaimable, claim_job-ok, claim_job-some, claim_job-none}

module _ (jobs : JobTable) (links : List Dependency) where
  open jobs use {State, get}

  -- A claimable job that is asked for by its id is claimed.
  pub claim_job-asked :
      (w : String) (now : ℕ) (locked : ℕ → Bool) (s : State) (j : Job)
      → IsClaimable jobs links now locked (some j.job_id) s j
      → (claim_job jobs links w now locked (some j.job_id) s).0 ≡ ok (some (claimed_by w j))
  claim_job-asked w now locked s j able =
      go (claim_job-ok jobs links w now locked (some j.job_id) s)
    where
      go :
          (c : Option Job) × ((claim_job jobs links w now locked (some j.job_id) s).0 ≡ ok c)
          → (claim_job jobs links w now locked (some j.job_id) s).0 ≡ ok (some (claimed_by w j))
      go (none, e) = absurd ((claim_job-none jobs links w now locked (some j.job_id) s e).1 j able)
      go (some c, e) =
          let (i, other, same, _, _) =
            claim_job-some jobs links w now locked (some j.job_id) s c e in
          let id : i.job_id ≡ j.job_id = eq→≡ i.job_id j.job_id other.asked in
          let one : i ≡ j = cc (other.found, able.found, id) in
          e ∙ ap (λ x. ok (some x)) (same ∙ ap (claimed_by w) one)

  -- A claim changes no row that is SUCCESS.
  pub claim_job-SparesSuccess :
      (w : String) (now : ℕ) (locked : ℕ → Bool) (job_id : Option ℕ) (s : State)
      → SparesSuccess jobs links s (claim_job jobs links w now locked job_id s).1
  claim_job-SparesSuccess w now locked job_id s k =
      go (claim_job-ok jobs links w now locked job_id s)
    where
      go :
          (c : Option Job) × ((claim_job jobs links w now locked job_id s).0 ≡ ok c)
          → (get k (claim_job jobs links w now locked job_id s).1 ≡ get k s)
            ⊎ ((j : Job) × (get k s ≡ some j) × (j.status ≢ success))
      go (none, e) = inl (ap (λ t. get k t) (claim_job-none jobs links w now locked job_id s e).0)
      go (some c, e) =
          let (i, able, same, _, frame) = claim_job-some jobs links w now locked job_id s c e in
          elim (Bool-cases (i.job_id == k)) [
            | inl hit ↦ inr (
              i,
              ap (λ x. get x s) (sym (eq→≡ i.job_id k hit)) ∙ able.found,
              λ h. cc (able.waits),
            )
            | inr miss ↦ inl (frame k ∙ rw miss refl)
          ]

  -- A claim that does not return the job leaves it claimable, also later.
  pub claim_job-IsClaimable :
      (w : String) (now later : ℕ) (locked free : ℕ → Bool) (job_id asked : Option ℕ) (s : State)
      (j : Job)
      → now ≤ later
      → ((c : Job)
          → (claim_job jobs links w later locked job_id s).0 ≡ ok (some c)
          → c.job_id ≢ j.job_id)
      → IsClaimable jobs links now free asked s j
      → IsClaimable jobs links later free asked (claim_job jobs links w later locked job_id s).1 j
  claim_job-IsClaimable w now later locked free job_id asked s j order others able = record {
    found = go (claim_job-ok jobs links w later locked job_id s);
    waits = able.waits;
    due = omega (arith, able.due);
    met =
        are_dependencies_met_stable jobs links s (claim_job jobs links w later locked job_id s).1 j
          (claim_job-SparesSuccess w later locked job_id s) able.met;
    free = able.free;
    asked = able.asked;
  }
    where
      go :
          (c : Option Job) × ((claim_job jobs links w later locked job_id s).0 ≡ ok c)
          → get j.job_id (claim_job jobs links w later locked job_id s).1 ≡ some j
      go (none, e) =
          ap (λ t. get j.job_id t) (claim_job-none jobs links w later locked job_id s e).0
          ∙ able.found
      go (some c, e) =
          let (i, _, same, _, frame) = claim_job-some jobs links w later locked job_id s c e in
          let apart : i.job_id ≢ j.job_id = λ h. others c e (ap (λ x. x.job_id) same ∙ h) in
          frame j.job_id ∙ rw (ne→eq_false i.job_id j.job_id apart) able.found
