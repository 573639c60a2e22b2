-- ===== src/Dependencies/Queries.antt =====
-- services/dependency_resolver.py: the queries agree with the checks on one job.
use schedora.Base.{
  ℕ, ◌≤◌, Bool, true, false, some, List, [], ◌∷◌, ◌≡◌, ◌↔◌, ◌==◌, not, any, all, nat_eq, arith,
  IsIn, length, refl, and_true, eq→≡, length-take-le, take_sound, sym, ◌∙◌, ap,
}
use schedora.Enums.{JobStatus, pending, success, job_status_eq}
use schedora.StateMachine.{member_of}
use schedora.Models.{Job, Dependency, JobTable}
use schedora.Dependencies.{
  failed_states, linked_ids, unmet_deps_subquery, failed_deps_subquery, in_ids, joined,
  dependencies, all_success, are_dependencies_met, has_failed_dependencies, is_ready,
  get_ready_jobs, is_blocked, get_blocked_jobs,
}

all_success-any :
    (deps : List Job) → all_success deps ≡ not (any (λ d. not (d.status == success)) deps)
all_success-any [] = refl
all_success-any (d ∷ ds) = go (d ∷ ds)
  where
    go :
        (l : List Job)
        → all (λ x. x.status == success) l ≡ not (any (λ x. not (x.status == success)) l)
    go [] = refl
    go (x ∷ xs) = ground (arith, go xs)

met_not_failed :
    (l : List Job) → all_success l ≡ true → any (λ d. member_of d.status failed_states) l ≡ false
met_not_failed [] h = refl
met_not_failed (d ∷ ds) h = go (d ∷ ds) h
  where
    go :
        (l : List Job)
        → all (λ x. x.status == success) l ≡ true
        → any (λ x. member_of x.status failed_states) l ≡ false
    go [] e = refl
    go (x ∷ xs) e = ground (arith, go xs)

module _ (jobs : JobTable) (links : List Dependency) where
  open jobs use {State, get, select, select_sound, select_complete, get_key}

  in-linked_ids :
      (p : JobStatus → Bool) (k : ℕ) (s : State) (ls : List Dependency)
      → in_ids k (linked_ids jobs links p s ls) ≡ any (λ d. p d.status) (joined jobs links k s ls)
  in-linked_ids p k s [] = refl
  in-linked_ids p k s (l ∷ ls) = ground (arith, in-linked_ids p k s ls)

  -- The checks on one job and the subqueries agree: the dependencies of a job are met exactly when
  -- its id is not among the unmet ones, and one has failed exactly when its id is among the failed.
  pub checks-subqueries :
      (s : State) (j : Job)
      → (are_dependencies_met jobs links s j
          ≡ not (in_ids j.job_id (unmet_deps_subquery jobs links s)))
        × (has_failed_dependencies jobs links s j
            ≡ in_ids j.job_id (failed_deps_subquery jobs links s))
  unfolding are_dependencies_met has_failed_dependencies unmet_deps_subquery failed_deps_subquery
  checks-subqueries s j = (
    all_success-any (joined jobs links j.job_id s links)
        ∙ ap not (sym (in-linked_ids (λ st. not (st == success)) j.job_id s links)),
    sym (in-linked_ids (λ st. member_of st failed_states) j.job_id s links),
  )

  -- A job whose dependencies are all met has none that failed.
  pub are_dependencies_met-not_failed :
      (s : State) (j : Job)
      → are_dependencies_met jobs links s j ≡ true
      → has_failed_dependencies jobs links s j ≡ false
  unfolding are_dependencies_met has_failed_dependencies
  are_dependencies_met-not_failed s j h = met_not_failed (dependencies jobs links s j) h

  -- The ready jobs are rows of the table that are PENDING with their dependencies met, at most
  -- `limit` of them.
  pub get_ready_jobs_sound :
      (limit : ℕ) (s : State)
      → (length (get_ready_jobs jobs links limit s) ≤ limit)
        × ((j : Job)
            → IsIn j (get_ready_jobs jobs links limit s)
            → (get j.job_id s ≡ some j)
              × (j.status ≡ pending)
              × (are_dependencies_met jobs links s j ≡ true))
  unfolding get_ready_jobs is_ready
  get_ready_jobs_sound limit s = (
    length-take-le limit (select (is_ready jobs links s) s),
    λ j m.
        let (found, passed) = select_sound (is_ready jobs links s) s j (take_sound j limit _ m) in
        let (waits, met) = and_true _ _ passed in
        (found, eq→≡ _ _ waits, (checks-subqueries s j).0 ∙ met),
  )

  -- The blocked jobs are exactly the rows that are PENDING with a failed dependency.
  pub get_blocked_jobs_iff :
      (s : State) (j : Job)
      → IsIn j (get_blocked_jobs jobs links s) ↔ (
          (get j.job_id s ≡ some j)
          × (j.status ≡ pending)
          × (has_failed_dependencies jobs links s j ≡ true))
  unfolding get_blocked_jobs is_blocked
  get_blocked_jobs_iff s j = (
    λ m.
        let (found, passed) = select_sound (is_blocked jobs links s) s j m in
        let (waits, bad) = and_true _ _ passed in
        (found, eq→≡ _ _ waits, (checks-subqueries s j).1 ∙ bad),
    λ (found, waits, bad).
        select_complete (is_blocked jobs links s) s j.job_id j found
          (ground (arith, (checks-subqueries s j).1)),
  )

  -- No job is both ready and blocked.
  pub ready-not-blocked :
      (limit : ℕ) (s : State) (j : Job)
      → IsIn j (get_ready_jobs jobs links limit s)
      → ¬ IsIn j (get_blocked_jobs jobs links s)
  ready-not-blocked limit s j ready blocked =
      let (_, _, met) = (get_ready_jobs_sound limit s).1 j ready in
      let (_, _, bad) = (get_blocked_jobs_iff s j).0 blocked in
      cc (are_dependencies_met-not_failed s j met)
