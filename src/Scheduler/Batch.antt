-- ===== src/Scheduler/Batch.antt =====
-- services/scheduler.py: what one call of `claim_ready_jobs` does.
use Prim.Native.String.{count}
use mathlib.Core.Path.{subst}
use schedora.Base.{
  sym, ap, ◌∙◌, Option-cases, inl, inr, arith, ℕ, ◌≤◌, String, Bool, true, none, some, List, ◌≡◌,
  ◌≢◌, ◌&&◌, not, nat_eq, IsIn, IsIn-map, length-map, map, take_sound, take-cases, IsIn-map_of, all,
  Bool-cases, ◌⊎◌, [], ◌∷◌, length, length-take-le, refl,
}
use schedora.Models.{Job, check_job, fits_worker_id, Dependency, JobTable}
use schedora.Store.{Distinct}
use schedora.Enums.{scheduled}
use schedora.Errors.{ok, err, data_error}
use schedora.Store.Laws.{
  flush_all, take-Distinct, map-Distinct, flush_all-some, flush_all_other, flush_all_self,
}
use schedora.Scheduler.{claimed_by, claimable, candidates, claim_ready_jobs}
use schedora.Scheduler.Claim.{IsClaimable, claimable-IsClaimable, IsClaimable-claimable}

module _ (jobs : JobTable) (links : List Dependency) where
  open jobs use {State, get, get_valid, select, select_sound, select_complete, select_distinct}

  -- No job stands twice among the candidates.
  candidates-Distinct :
      (w : String) (now : ℕ) (locked : ℕ → Bool) (limit : ℕ) (s : State)
      → Distinct
          (λ (j : Job). j.job_id)
          (map (claimed_by w) (candidates jobs links now locked limit s))
  candidates-Distinct w now locked limit s =
      map-Distinct (λ j. j.job_id) (claimed_by w) _ (λ x. refl)
        (take-Distinct (λ j. j.job_id) limit _ (select_distinct _ s))

  module _ (w : String) (now : ℕ) (locked : ℕ → Bool) (limit : ℕ) (s : State) where
    abbrev written : List Job
    written = map (claimed_by w) (candidates jobs links now locked limit s)

    -- What a batch is that is committed.
    abbrev pub IsBatch : Type 0
    IsBatch =
        (claimed : List Job) × ((claim_ready_jobs jobs links w now locked limit s).0 ≡ ok claimed)
        × (length claimed ≤ limit)
        × ((length claimed ≡ limit)
            ⊎ ((j : Job)
                → IsClaimable jobs links now locked none s j
                → IsIn (record j { status = scheduled; worker_id = some w }) claimed))
        × ((c : Job)
            → IsIn c claimed
            → (get c.job_id (claim_ready_jobs jobs links w now locked limit s).1 ≡ some c)
              × ((j : Job) × IsClaimable jobs links now locked none s j
                  × (c ≡ record j { status = scheduled; worker_id = some w })))
        × ((k : ℕ)
            → ((c : Job) → IsIn c claimed → c.job_id ≢ k)
            → get k (claim_ready_jobs jobs links w now locked limit s).1 ≡ get k s)

    test : Job → Bool
    test j = claimable jobs links now none s j && not (locked j.job_id)

    able :
        (j : Job)
        → IsIn j (candidates jobs links now locked limit s)
        → IsClaimable jobs links now locked none s j
    unfolding test
    able j i =
        let (held, passed) = select_sound test s j (take_sound j limit (select test s) i) in
        claimable-IsClaimable jobs links now locked none s j held passed

    all_valid : (r : Job) → IsIn r written → check_job r ≡ true
    all_valid r m =
        let (j, i, same) = IsIn-map (claimed_by w) r _ m in
        rw same (get_valid j.job_id s j (able j i).found)

    -- A batch that is not full misses no claimable row.
    complete :
        (length written ≡ limit)
        ⊎ ((j : Job) → IsClaimable jobs links now locked none s j → IsIn (claimed_by w j) written)
    unfolding test
    complete = elim (take-cases limit (select test s)) [
      | inl full ↦ inl (length-map (claimed_by w) (candidates jobs links now locked limit s) ∙ full)
      | inr whole ↦ inr (λ j able_so.
          let row : IsIn j (select test s) =
            select_complete test s j.job_id j able_so.found
              (IsClaimable-claimable jobs links now locked none s j able_so) in
          IsIn-map_of (claimed_by w) j (candidates jobs links now locked limit s)
            (subst (λ l. IsIn j l) (sym whole) row))
    ]

    fitting_batch : all (λ j. fits_worker_id j.worker_id) written ≡ true → IsBatch
    unfolding claim_ready_jobs test
    fitting_batch fit =
        let (t, done) = flush_all-some jobs written s all_valid in
        let run : claim_ready_jobs jobs links w now locked limit s ≡ (ok written, t) =
          rw fit (rw done refl) in
        (
          written,
          ap (λ r. r.0) run,
          rw (length-map (claimed_by w) (candidates jobs links now locked limit s))
              (length-take-le limit (select test s)),
          complete,
          λ c m.
              let (j, i, same) =
                IsIn-map (claimed_by w) c (candidates jobs links now locked limit s) m in
              (
                ap (λ r. get c.job_id r.1) run
                    ∙ flush_all_self jobs c written s t (candidates-Distinct w now locked limit s) m
                        done,
                (j, able j i, same),
              ),
          λ k none_of. ap (λ r. get k r.1) run ∙ flush_all_other jobs k written s t done none_of,
        )

    -- A call raises and leaves the table alone, or its batch is committed.
    pub claim_ready_jobs-IsBatch :
        (claim_ready_jobs jobs links w now locked limit s ≡ (err data_error, s)) ⊎ IsBatch
    unfolding claim_ready_jobs
    claim_ready_jobs-IsBatch = elim (Bool-cases (all (λ j. fits_worker_id j.worker_id) written)) [
      | inl fit ↦ inr (fitting_batch fit)
      | inr wide ↦ inl (rw wide refl)
    ]

  all_fit :
      (w : String) (l : List Job)
      → count w ≤ 100
      → all (λ j. fits_worker_id j.worker_id) (map (claimed_by w) l) ≡ true
  all_fit w [] short = refl
  all_fit w (j ∷ l) short = ground (arith, short, all_fit w l short)

  -- With a worker id of at most 100 characters, a batch never raises. It holds at most `limit` jobs, and
  -- either exactly so many or every claimable row. Each job of it was a claimable row, the batch has it
  -- SCHEDULED for the worker, and so has the table afterwards. Every row that is not in the batch is as
  -- before.
  pub claim_ready_jobs_lem :
      (w : String) (now : ℕ) (locked : ℕ → Bool) (limit : ℕ) (s : State)
      → count w ≤ 100
      → (claimed : List Job) × ((claim_ready_jobs jobs links w now locked limit s).0 ≡ ok claimed)
        × (length claimed ≤ limit)
        × ((length claimed ≡ limit)
            ⊎ ((j : Job)
                → IsClaimable jobs links now locked none s j
                → IsIn (record j { status = scheduled; worker_id = some w }) claimed))
        × ((c : Job)
            → IsIn c claimed
            → (get c.job_id (claim_ready_jobs jobs links w now locked limit s).1 ≡ some c)
              × ((j : Job) × IsClaimable jobs links now locked none s j
                  × (c ≡ record j { status = scheduled; worker_id = some w })))
        × ((k : ℕ)
            → ((c : Job) → IsIn c claimed → c.job_id ≢ k)
            → get k (claim_ready_jobs jobs links w now locked limit s).1 ≡ get k s)
  claim_ready_jobs_lem w now locked limit s short =
      fitting_batch w now locked limit s
        (all_fit w (candidates jobs links now locked limit s) short)

  -- No job stands twice in a batch.
  pub claim_ready_jobs-Distinct :
      (w : String) (now : ℕ) (locked : ℕ → Bool) (limit : ℕ) (s : State) (claimed : List Job)
      → (claim_ready_jobs jobs links w now locked limit s).0 ≡ ok claimed
      → Distinct (λ (j : Job). j.job_id) claimed
  unfolding claim_ready_jobs
  claim_ready_jobs-Distinct w now locked limit s claimed h =
      let batch = map (claimed_by w) (candidates jobs links now locked limit s) in
      let same : batch ≡ claimed = elim (Bool-cases (all (λ j. fits_worker_id j.worker_id) batch)) [
        | inl fit ↦ elim (Option-cases (flush_all jobs batch s)) [
          | inl broken ↦ absurd (ground (arith, h, fit, broken))
          | inr (t, done) ↦ ground (arith, h, fit, done)
        ]
        | inr wide ↦ absurd (ground (arith, h, wide))
      ] in
      subst (λ l. Distinct (λ (j : Job). j.job_id) l) same
        (candidates-Distinct w now locked limit s)
