-- ===== src/Scheduler/Exclusive.antt =====
-- services/scheduler.py: no job is claimed twice, however the workers' calls are interleaved.
use schedora.Base.{
  ℕ, String, Bool, Option, some, List, [], ◌∷◌, ◌≡◌, ◌≢◌, ◌==◌, inl, inr, IsIn, sym, ◌∙◌, ap,
  nat_eq, arith, nat_beq_iff, Bool-cases,
}
use mathlib.Core.Path.{subst}
use schedora.Enums.{pending}
use schedora.Models.{Job, Dependency, JobTable}
use schedora.Store.{Distinct}
use schedora.Errors.{ok}
use schedora.Scheduler.{claim_job}
use schedora.Scheduler.Claim.{claim_job-some}

module _ (jobs : JobTable) (links : List Dependency) where
  open jobs use {State, get}

  -- The row of `k` is there, and is not PENDING.
  pub record IsTaken (k : ℕ) (s : State) : Type 0 where
    pub row : Job
    pub held : get k s ≡ some row
    pub busy : row.status ≢ pending

  -- What the rest of the program does between two claims: any change that brings no job back to
  -- PENDING. It may add jobs.
  abbrev pub NeverReopens : State → State → Type 0
  NeverReopens s t = (k : ℕ) → IsTaken k s → IsTaken k t

  -- Calls of `claim_job` by any workers, with the ids of the jobs that they returned.
  pub data Trace : State → List ℕ → State → Type 0 where
    stop : {s : State} → Trace s [] s
    claim :
        {s t u : State} {ids : List ℕ} (w : String) (now : ℕ) (locked : ℕ → Bool)
        (job_id : Option ℕ) (c : Job)
        → claim_job jobs links w now locked job_id s ≡ (ok (some c), t)
        → Trace t ids u
        → Trace s (c.job_id ∷ ids) u
    other : {s t u : State} {ids : List ℕ} → NeverReopens s t → Trace t ids u → Trace s ids u

  pub claim-NeverReopens :
      (w : String) (now : ℕ) (locked : ℕ → Bool) (job_id : Option ℕ) (c : Job) (s t : State)
      → claim_job jobs links w now locked job_id s ≡ (ok (some c), t)
      → NeverReopens s t
  claim-NeverReopens w now locked job_id c s t e k taken =
      let (j, able, same, _, frame) =
        claim_job-some jobs links w now locked job_id s c (ap (λ r. r.0) e) in
      let after = sym (ap (λ r. get k r.1) e) ∙ frame k in
      elim (Bool-cases (j.job_id == k)) [
        | inl hit ↦ record {
          row = c;
          held = after ∙ rw hit;
          busy = λ p. cc (ap (λ r. r.status) same);
        }
        | inr miss ↦ record {
          row = taken.row;
          held = after ∙ rw miss taken.held;
          busy = taken.busy;
        }
      ]

  pub claim-IsTaken :
      (w : String) (now : ℕ) (locked : ℕ → Bool) (job_id : Option ℕ) (c : Job) (s t : State)
      → claim_job jobs links w now locked job_id s ≡ (ok (some c), t)
      → IsTaken c.job_id t × ¬ IsTaken c.job_id s
  claim-IsTaken w now locked job_id c s t e =
      let (j, able, same, _, frame) =
        claim_job-some jobs links w now locked job_id s c (ap (λ r. r.0) e) in
      let id : c.job_id ≡ j.job_id = ap (λ r. r.job_id) same in
      (
        record {
          row = c;
          held =
              sym (ap (λ r. get c.job_id r.1) e)
              ∙ frame c.job_id
              ∙ ground (arith, nat_beq_iff j.job_id c.job_id);
          busy = λ p. cc (ap (λ r. r.status) same);
        },
        λ taken. taken.busy (cc (able.waits, able.found, taken.held, id)),
      )

  pub Trace-IsTaken :
      {s u : State} {ids : List ℕ} (k : ℕ) → Trace s ids u → IsTaken k s → ¬ IsIn k ids
  Trace-IsTaken k stop taken m = m
  Trace-IsTaken k (claim {s} {t} w now locked job_id c e rest) taken (inl same) =
      (claim-IsTaken w now locked job_id c s t e).1 (subst (λ i. IsTaken i s) same taken)
  Trace-IsTaken k (claim {s} {t} w now locked job_id c e rest) taken (inr m) =
      Trace-IsTaken k rest (claim-NeverReopens w now locked job_id c s t e k taken) m
  Trace-IsTaken k (other keeps rest) taken m = Trace-IsTaken k rest (keeps k taken) m

  -- In any interleaving of claims with changes that bring no job back to PENDING, no job is returned
  -- by two claims.
  pub Trace-Distinct : {s u : State} {ids : List ℕ} → Trace s ids u → Distinct (λ (k : ℕ). k) ids
  Trace-Distinct stop = tt
  Trace-Distinct (claim {s} {t} w now locked job_id c e rest) = (
    λ k m same.
        Trace-IsTaken k rest
          (subst (λ i. IsTaken i t) (sym same) (claim-IsTaken w now locked job_id c s t e).0) m,
    Trace-Distinct rest,
  )
  Trace-Distinct (other keeps rest) = Trace-Distinct rest
