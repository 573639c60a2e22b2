-- ===== src/Dependencies/Stable.antt =====
-- services/dependency_resolver.py: which changes of the table keep the dependencies of a job met.
use schedora.Base.{
  ℕ, Bool, true, false, Option, none, some, List, [], ◌∷◌, ◌≡◌, ◌≢◌, ◌==◌, ◌⊎◌, inl, inr, all,
  nat_eq, refl, sym, ◌∙◌, arith, Option-cases, if◌then◌else◌, ne→eq_false,
}
use schedora.Enums.{success, job_status_eq}
use schedora.Models.{Job, Dependency, JobTable}
use schedora.Dependencies.{all_success, joined, dependencies, are_dependencies_met}

all_success-all : (l : List Job) → all_success l ≡ all (λ d. d.status == success) l
all_success-all [] = refl
all_success-all (d ∷ ds) = refl

module _ (jobs : JobTable) (links : List Dependency) where
  open jobs use {State, get}

  -- Every row that changes was there, and was not SUCCESS.
  abbrev pub SparesSuccess : State → State → Type 0
  SparesSuccess s t =
      (k : ℕ) → (get k t ≡ get k s) ⊎ ((j : Job) × (get k s ≡ some j) × (j.status ≢ success))

  -- What a row adds to the dependencies of a job.
  abbrev pub added : Bool → Option Job → List Job → List Job
  added b none rest = rest
  added b (some j) rest = if b then j ∷ rest else rest

  joined-added :
      (k : ℕ) (s : State) (l : Dependency) (ls : List Dependency)
      → joined jobs links k s (l ∷ ls)
        ≡ added (l.job_id == k) (get l.depends_on_job_id s) (joined jobs links k s ls)
  joined-added k s l ls = elim (Option-cases (get l.depends_on_job_id s)) [
    | inl gone ↦ ground (arith, gone)
    | inr (j, found) ↦ ground (arith, found)
  ]

  abbrev succeeded : List Job → Bool
  succeeded l = all (λ d. d.status == success) l

  added-succeeded :
      (b : Bool) (x y : Option Job) (l m : List Job)
      → (y ≡ x) ⊎ ((j : Job) × (x ≡ some j) × (j.status ≢ success))
      → (succeeded l ≡ true → succeeded m ≡ true)
      → succeeded (added b x l) ≡ true
      → succeeded (added b y m) ≡ true
  added-succeeded b none y l m (inl same) rest h = rw same (rest h)
  added-succeeded true (some j) y l m (inl same) rest h = rw same (ground (arith, rest))
  added-succeeded false (some j) y l m (inl same) rest h = rw same (rest h)
  added-succeeded true x y l m (inr (j, was, other)) rest h =
      absurd (ground (arith, ne→eq_false j.status success other))
  added-succeeded false x none l m (inr (j, was, other)) rest h = rest (ground arith)
  added-succeeded false x (some i) l m (inr (j, was, other)) rest h = rest (ground arith)

  joined-succeeded :
      (k : ℕ) (s t : State)
      → SparesSuccess s t
      → (ls : List Dependency) → succeeded (joined jobs links k s ls) ≡ true
      → succeeded (joined jobs links k t ls) ≡ true
  joined-succeeded k s t spares [] h = refl
  joined-succeeded k s t spares (l ∷ ls) h = rw (joined-added k t l ls) (
      added-succeeded (l.job_id == k) (get l.depends_on_job_id s) (get l.depends_on_job_id t) _ _
        (spares l.depends_on_job_id) (joined-succeeded k s t spares ls)
        (rw (joined-added k s l ls) at h))

  -- Dependencies that are met stay met while no SUCCESS row changes.
  pub are_dependencies_met_stable :
      (s t : State) (j : Job)
      → SparesSuccess s t
      → are_dependencies_met jobs links s j ≡ true
      → are_dependencies_met jobs links t j ≡ true
  unfolding are_dependencies_met dependencies
  are_dependencies_met_stable s t j spares h =
      all_success-all (joined jobs links j.job_id t links)
      ∙ joined-succeeded j.job_id s t spares links
          (sym (all_success-all (joined jobs links j.job_id s links)) ∙ h)
