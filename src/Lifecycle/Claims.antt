-- ===== src/Lifecycle/Claims.antt =====
-- services/scheduler.py among the other calls of the program: no job is claimed twice.
use mathlib.Core.Path.{subst}
use schedora.Base.{
  ℕ, String, Bool, true, false, Option, some, List, [], ◌∷◌, ◌++◌, ◌≡◌, ◌≢◌, ◌∙◌, sym, ap, arith,
  map, IsIn, IsIn-map, ◌⊎◌, inl, inr, refl, nat_eq,
}
use schedora.Enums.{JobStatus, pending, job_status_eq}
use schedora.Errors.{ok}
use schedora.Models.{Job, JobTable, WorkerTable, Dependency}
use schedora.Store.{QueueStore, PresenceStore, Distinct}
use schedora.Scheduler.{claim_job, claim_ready_jobs}
use schedora.Scheduler.Batch.{IsBatch, claim_ready_jobs-IsBatch, claim_ready_jobs-Distinct}
use schedora.Scheduler.Exclusive.{IsTaken, NeverReopens, claim-IsTaken, claim-NeverReopens}
use schedora.Lifecycle.Steps.{
  Step, creating, canceling, claiming, claiming_batch, writing, transitioning, recovering,
  transitioning_by_service, is_other, kind_of,
}
use schedora.Lifecycle.Steps.{ordinary}
use schedora.Lifecycle.Rows.{moves, kept, made, moved, Changes}
use schedora.Lifecycle.Rows.Calls.{claiming_batch-Changes}
use schedora.Lifecycle.History.{Step-Changes}

IsIn-append : (k : ℕ) (l m : List ℕ) → IsIn k (l ++ m) → IsIn k l ⊎ IsIn k m
IsIn-append k [] m i = inr i
IsIn-append k (x ∷ l) m (inl e) = inl (inl e)
IsIn-append k (x ∷ l) m (inr i) = elim (IsIn-append k l m i) [ inl j ↦ inl (inr j) | inr j ↦ inr j ]

abbrev ids_of : List Job → List ℕ
ids_of = map (λ j. j.job_id)

append-Distinct :
    (claimed : List Job) (ids : List ℕ)
    → Distinct (λ (j : Job). j.job_id) claimed
    → ((c : Job) → IsIn c claimed → ¬ IsIn c.job_id ids)
    → Distinct (λ (k : ℕ). k) ids
    → Distinct (λ (k : ℕ). k) (ids_of claimed ++ ids)
append-Distinct [] ids once apart rest = rest
append-Distinct (c ∷ cs) ids once apart rest = (
  λ k m same. elim (IsIn-append k (ids_of cs) ids m) [
    | inl i ↦ let (x, there, e) = IsIn-map (λ j. j.job_id) k cs i in once.0 x there (sym e ∙ same)
    | inr i ↦ apart c (inl refl) (subst (λ x. IsIn x ids) same i)
  ],
  append-Distinct cs ids once.1 (λ x i. apart x (inr i)) rest,
)

none_back : (a : JobStatus) → moves ordinary a pending ≡ false
none_back a = ground arith

moves_on : (a b : JobStatus) → a ≢ pending → (b ≡ a) ⊎ (moves ordinary a b ≡ true) → b ≢ pending
moves_on a b busy (inl stays) back = busy (sym stays ∙ back)
moves_on a b busy (inr move) back = cc (move, none_back a, ap (moves ordinary a) back)

module _ (jobs : JobTable) (links : List Dependency) where
  open jobs use {State, get}

  Changes-NeverReopens : (s t : State) → Changes jobs ordinary s t → NeverReopens jobs links s t
  Changes-NeverReopens s t changes k taken = elim (changes k) [
    | kept e ↦ record { row = taken.row; held = e ∙ taken.held; busy = taken.busy }
    | made now at d gone _ ↦ absurd (cc (gone, taken.held))
    | moved j j' was is follows ↦ record {
      row = j';
      held = is;
      busy =
          let same : j ≡ taken.row = cc (was, taken.held) in
          moves_on j.status j'.status (λ p. taken.busy (ap (λ r. r.status) (sym same) ∙ p))
            follows.move;
    }
  ]

module _ (jobs : JobTable) (workers : WorkerTable) (presence : PresenceStore) (timeout : ℕ)
    (store : QueueStore) (env : ℕ → jobs.State → jobs.State) (links : List Dependency) where
  open jobs use {State, get}

  -- Calls of the program, with the ids of the jobs that the claims among them returned. No call is a
  -- recovery.
  pub data Claims : State → List ℕ → State → Type 0 where
    nothing_more : {s : State} → Claims s [] s
    one :
        {s t u : State} {ids : List ℕ} (w : String) (now : ℕ) (locked : ℕ → Bool)
        (job_id : Option ℕ) (c : Job)
        → claim_job jobs links w now locked job_id s ≡ (ok (some c), t)
        → Claims t ids u
        → Claims s (c.job_id ∷ ids) u
    batch :
        {s t u : State} {ids : List ℕ} (w : String) (now : ℕ) (locked : ℕ → Bool) (limit : ℕ)
        (claimed : List Job)
        → claim_ready_jobs jobs links w now locked limit s ≡ (ok claimed, t)
        → Claims t ids u
        → Claims s (ids_of claimed ++ ids) u
    other :
        {s t u : State} {ids : List ℕ} (step : Step jobs workers presence timeout store env s t)
        → is_other jobs workers presence timeout store env step ≡ true
        → Claims t ids u
        → Claims s ids u

  other-NeverReopens :
      {s t : State} (step : Step jobs workers presence timeout store env s t)
      → is_other jobs workers presence timeout store env step ≡ true
      → NeverReopens jobs links s t
  other-NeverReopens {s} {t} step is = Changes-NeverReopens jobs links s t (
      subst (λ b. Changes jobs b s t) (is_ordinary step is)
        (Step-Changes jobs workers presence timeout store env step))
    where
      is_ordinary :
          {s t : State} (step : Step jobs workers presence timeout store env s t)
          → is_other jobs workers presence timeout store env step ≡ true
          → kind_of jobs workers presence timeout store env step ≡ ordinary
      is_ordinary (creating queue k now at names d w) is = refl
      is_ordinary (canceling queue k w) is = refl
      is_ordinary (claiming links w now locked k s) is = refl
      is_ordinary (claiming_batch links w now locked limit s) is = refl
      is_ordinary (writing k s f) is = refl
      is_ordinary (transitioning k s to) is = refl
      is_ordinary (recovering w v) is = absurd (ground (arith, is))
      is_ordinary (transitioning_by_service queue k st w) is = absurd (ground (arith, is))

  -- A batch brings no row back, takes its jobs, and takes only what was not taken.
  batch-IsTaken :
      (w : String) (now : ℕ) (locked : ℕ → Bool) (limit : ℕ) (claimed : List Job) (s t : State)
      → claim_ready_jobs jobs links w now locked limit s ≡ (ok claimed, t)
      → NeverReopens jobs links s t
        × ((c : Job)
            → IsIn c claimed
            → IsTaken jobs links c.job_id t × ¬ IsTaken jobs links c.job_id s)
  batch-IsTaken w now locked limit claimed s t e =
      let (cs, result, _, _, each, _) = committed in
      let same : cs ≡ claimed = cc (result, ap (λ r. r.0) e) in
      (
        Changes-NeverReopens jobs links s t (
            subst (λ x. Changes jobs ordinary s x) (ap (λ r. r.1) e)
              (claiming_batch-Changes jobs links w now locked limit s)),
        λ c i.
            let (held, (j, able, row)) = each c (subst (λ l. IsIn c l) (sym same) i) in
            let id : c.job_id ≡ j.job_id = ap (λ r. r.job_id) row in
            (
              record {
                row = c;
                held = sym (ap (λ r. get c.job_id r.1) e) ∙ held;
                busy = λ p. cc (ap (λ r. r.status) row);
              },
              λ taken. taken.busy (cc (able.waits, able.found, taken.held, id)),
            ),
      )
    where
      committed : IsBatch jobs links w now locked limit s
      committed = elim (claim_ready_jobs-IsBatch jobs links w now locked limit s) [
        | inl wide ↦ absurd (ground (arith, ap (λ r. r.0) (sym wide ∙ e)))
        | inr whole ↦ whole
      ]

  Claims-IsTaken :
      {s u : State} {ids : List ℕ} (k : ℕ) → Claims s ids u → IsTaken jobs links k s → ¬ IsIn k ids
  Claims-IsTaken k nothing_more taken i = i
  Claims-IsTaken k (one {s} {t} w now locked job_id c e rest) taken (inl same) =
      (claim-IsTaken jobs links w now locked job_id c s t e).1
        (subst (λ x. IsTaken jobs links x s) same taken)
  Claims-IsTaken k (one {s} {t} w now locked job_id c e rest) taken (inr i) =
      Claims-IsTaken k rest (claim-NeverReopens jobs links w now locked job_id c s t e k taken) i
  Claims-IsTaken k (batch {s} {t} {u} {ids} w now locked limit claimed e rest) taken i =
      let (kept_so, each) = batch-IsTaken w now locked limit claimed s t e in
      elim (IsIn-append k (ids_of claimed) ids i) [
        | inl m ↦
            let (c, there, same) = IsIn-map (λ j. j.job_id) k claimed m in
            (each c there).1 (subst (λ x. IsTaken jobs links x s) same taken)
        | inr m ↦ Claims-IsTaken k rest (kept_so k taken) m
      ]
  Claims-IsTaken k (other step is rest) taken i =
      Claims-IsTaken k rest (other-NeverReopens step is k taken) i

  -- In any interleaving of claims, one by one and in batches, by any workers, with calls that create,
  -- cancel and execute jobs, no job is returned twice. No other session commits between the reading and
  -- the writing of one call, and no silent worker is handled meanwhile.
  pub Claims-Distinct : {s u : State} {ids : List ℕ} → Claims s ids u → Distinct (λ (k : ℕ). k) ids
  Claims-Distinct nothing_more = tt
  Claims-Distinct (one {s} {t} w now locked job_id c e rest) = (
    λ k m same.
        Claims-IsTaken k rest
          (subst (λ i. IsTaken jobs links i t) (sym same)
            (claim-IsTaken jobs links w now locked job_id c s t e).0)
          m,
    Claims-Distinct rest,
  )
  Claims-Distinct (batch {s} {t} {u} {ids} w now locked limit claimed e rest) =
      append-Distinct claimed ids
        (claim_ready_jobs-Distinct jobs links w now locked limit s claimed (ap (λ r. r.0) e))
        (λ c i.
          Claims-IsTaken c.job_id rest ((batch-IsTaken w now locked limit claimed s t e).1 c i).0)
        (Claims-Distinct rest)
  Claims-Distinct (other step is rest) = Claims-Distinct rest
