-- ===== src/AsyncWorker/Accounts.antt =====
-- worker/async_worker.py: no job is lost between the tasks, and the counters count what they say.
use mathlib.Core.Path.{subst}
use schedora.Base.{
  ℕ, ◌+◌, ◌-◌, ◌<◌, Bool, true, false, List, [], ◌∷◌, ◌++◌, ◌≡◌, ◌==◌, ◌∙◌, nat_eq, ap, refl, count,
  length, arith, if◌then◌else◌, ltb, Bool-cases, inl, inr,
}
use schedora.Errors.{ok, err}
use schedora.Models.{Job}
use schedora.AsyncWorker.{Counters, count_result}
use schedora.AsyncWorker.Tasks.{
  Task, Phase, testing, claiming, sleeping, over, Loop, new_loop, add_task, Ending, ended,
  cancelled, count_ending, Event, with_claims, with_ends, Step, polls, works, begin, claim, nothing,
  wake, leave, break_claim, break_sleep, acquire, finish, give_up, set_stop, Run, start, later,
}

count-append {ℓ} :
    {A : Type ℓ} (p : A → Bool) (xs ys : List A) → count p (xs ++ ys) ≡ count p xs + count p ys
count-append p [] ys = omega arith
count-append p (x ∷ xs) ys = omega (arith, count-append p xs ys)

-- How a task ended: with a success, with a failure, or with an exception of `execute`.
abbrev pub returned_as : Bool → Ending → Bool
returned_as b (ended (ok r)) = if b then r.success else (if r.success then false else true)
returned_as b (ended (err e)) = false
returned_as b cancelled = false

abbrev pub has_raised : Ending → Bool
has_raised (ended (err e)) = true
has_raised (ended (ok r)) = false
has_raised cancelled = false

-- The occurrences of the job `k` among jobs, tasks and ended tasks.
abbrev pub among : ℕ → List Job → ℕ
among k = count (λ j. j.job_id == k)

abbrev pub tasks_of : ℕ → List Task → ℕ
tasks_of k = count (λ t. t.job.job_id == k)

abbrev pub endings_of : ℕ → List (Job × Ending) → ℕ
endings_of k = count (λ e. e.0.job_id == k)

pub record IsAccounted (max : ℕ) (s : Loop) (js : List Job) (es : List (Job × Ending))
    : Type 0 where
  pub slots : s.free + count (λ t. t.executing) s.running_tasks ≡ max
  pub each : (k : ℕ) → among k js ≡ tasks_of k s.running_tasks + endings_of k es
  pub successes : s.counters.jobs_succeeded ≡ count (λ e. returned_as true e.1) es
  pub failures :
      s.counters.jobs_failed
      ≡ count (λ e. returned_as false e.1) es + count (λ e. has_raised e.1) es
  pub processed :
      s.counters.jobs_processed
      ≡ count (λ e. returned_as true e.1) es + count (λ e. returned_as false e.1) es

count_ending_lem :
    (j : Job) (e : Ending) (es : List (Job × Ending)) (c : Counters)
    → c.jobs_succeeded ≡ count (λ x. returned_as true x.1) es
    → c.jobs_failed ≡ count (λ x. returned_as false x.1) es + count (λ x. has_raised x.1) es
    → c.jobs_processed
      ≡ count (λ x. returned_as true x.1) es + count (λ x. returned_as false x.1) es
    → ((count_ending e c).jobs_succeeded ≡ count (λ x. returned_as true x.1) ((j, e) ∷ es))
      × ((count_ending e c).jobs_failed
          ≡ count (λ x. returned_as false x.1) ((j, e) ∷ es)
            + count (λ x. has_raised x.1) ((j, e) ∷ es))
      × ((count_ending e c).jobs_processed
          ≡ count (λ x. returned_as true x.1) ((j, e) ∷ es)
            + count (λ x. returned_as false x.1) ((j, e) ∷ es))
unfolding count_result
count_ending_lem j (ended (ok r)) es c a b d = ground (arith, a, b, d)
count_ending_lem j (ended (err x)) es c a b d = ground (arith, a, b, d)
count_ending_lem j cancelled es c a b d = omega (arith, a, b, d)

-- One task in the middle.
pub split-count :
    (p : Task → Bool) (ts l m : List Task) (t : Task)
    → ts ≡ l ++ t ∷ m
    → count p ts ≡ (if p t then 1 else 0) + count p (l ++ m)
split-count p ts l m t e =
    ap (count p) e ∙ omega (arith, count-append p l (t ∷ m), count-append p l m)

abbrev pub waiting : Job → Task
waiting j = record { job = j; executing = false }

abbrev pub inside : Job → Task
inside j = record { job = j; executing = true }

module _ {max : ℕ} {s : Loop} {js : List Job} {es : List (Job × Ending)}
    (a : IsAccounted max s js es) (l m : List Task) where
  -- A task that leaves gives its slot back.
  withdraw :
      (t : Task) (e : Ending) (free : ℕ)
      → s.running_tasks ≡ l ++ t ∷ m
      → free ≡ s.free + (if t.executing then 1 else 0)
      → IsAccounted max
          (record s { running_tasks = l ++ m; free = free; counters = count_ending e s.counters })
          js
          ((t.job, e) ∷ es)
  withdraw t e free split back =
      let (wins, losses, all) =
        count_ending_lem t.job e es s.counters a.successes a.failures a.processed in
      record {
        slots =
            omega
              (arith, a.slots, back, split-count (λ x. x.executing) s.running_tasks l m t split);
        each = λ k.
            omega
              (arith, a.each k, split-count (λ x. x.job.job_id == k) s.running_tasks l m t split);
        successes = wins;
        failures = losses;
        processed = all;
      }

  enter :
      (j : Job)
      → s.running_tasks ≡ l ++ waiting j ∷ m
      → 0 < s.free
      → IsAccounted max (record s { running_tasks = l ++ inside j ∷ m; free = s.free - 1 }) js es
  enter j split room = record {
    slots = omega (
      arith,
      a.slots,
      split-count (λ x. x.executing) s.running_tasks l m (waiting j) split,
      split-count (λ x. x.executing) (l ++ inside j ∷ m) l m (inside j) refl,
    );
    each = λ k. omega (
      arith,
      a.each k,
      split-count (λ x. x.job.job_id == k) s.running_tasks l m (waiting j) split,
      split-count (λ x. x.job.job_id == k) (l ++ inside j ∷ m) l m (inside j) refl,
    );
    successes = a.successes;
    failures = a.failures;
    processed = a.processed;
  }

-- A step that leaves the tasks, the slots and the counters alone.
keep :
    {max : ℕ} {s : Loop} {js : List Job} {es : List (Job × Ending)} (p : Phase) (b : Bool)
    → IsAccounted max s js es
    → IsAccounted max (record s { phase = p; stopped = b }) js es
keep p b a = record {
  slots = a.slots;
  each = a.each;
  successes = a.successes;
  failures = a.failures;
  processed = a.processed;
}

pub Step-IsAccounted :
    {max : ℕ} {s t : Loop} {js : List Job} {es : List (Job × Ending)} {v : Event}
    → IsAccounted max s js es
    → Step s v t
    → IsAccounted max t (with_claims v js) (with_ends v es)
Step-IsAccounted {s} a (polls (begin at going)) = keep claiming s.stopped a
Step-IsAccounted {s} {js} {es} a (polls (claim j at)) = record {
  slots = omega (arith, a.slots);
  each = λ k. omega (arith, a.each k);
  successes = a.successes;
  failures = a.failures;
  processed = a.processed;
}
Step-IsAccounted {s} a (polls (nothing at)) = keep sleeping s.stopped a
Step-IsAccounted {s} a (polls (wake at)) = keep testing s.stopped a
Step-IsAccounted {s} a (polls (leave at stop)) = keep over s.stopped a
Step-IsAccounted {s} a (polls (break_claim at)) = keep over s.stopped a
Step-IsAccounted {s} a (polls (break_sleep at)) = keep over s.stopped a
Step-IsAccounted a (works (acquire l m j e room)) = enter a l m j e room
Step-IsAccounted {s} a (works (finish l m j x e)) = withdraw a l m (inside j) x (s.free + 1) e refl
Step-IsAccounted {s} a (works (give_up l m j e)) =
    withdraw a l m (waiting j) cancelled s.free e (omega arith)
Step-IsAccounted {s} a (set_stop going) = keep s.phase true a

-- Whatever happens to a worker: its free slots and the tasks inside the semaphore are
-- `max_concurrent_jobs` together; each job for which a task was created stands once, for each time
-- that it was, among the tasks or the ended ones; and the counters are the numbers of the successes,
-- of the failures with the exceptions of `execute`, and of the successes with the failures.
pub Run-IsAccounted :
    {max : ℕ} {s : Loop} {js : List Job} {es : List (Job × Ending)}
    → Run max s js es
    → IsAccounted max s js es
Run-IsAccounted start = omega arith
Run-IsAccounted (later step run) = Step-IsAccounted (Run-IsAccounted run) step

-- A turn with a job: its task is created, the loop goes on to the next claim, and while that runs in
-- its thread the task takes its first step, which is into the semaphore if a slot is free.
abbrev pub first_step : Job → List Task → Loop → Loop
first_step j ts s =
    if ltb 0 s.free then record s { running_tasks = inside j ∷ ts; free = s.free - 1 } else s

abbrev pub claiming_turn : Job → Loop → Loop
claiming_turn j s = first_step j s.running_tasks (record (add_task j s) { phase = claiming })

-- The worker after these jobs were claimed, the latest first, before any of them is through.
unfoldable pub after_claims : ℕ → List Job → Loop
after_claims max [] = record (new_loop max) { phase = claiming }
after_claims max (j ∷ js) = claiming_turn j (after_claims max js)

claiming_turn_lem :
    {max : ℕ} {js : List Job} (j : Job) (s : Loop)
    → s.phase ≡ claiming
    → s.stopped ≡ false
    → Run max s js []
    → Run max (claiming_turn j s) (j ∷ js) []
claiming_turn_lem {max} {js} j s at going run =
    let created : Run max (record (add_task j s) { phase = claiming }) (j ∷ js) [] =
      later (polls (begin refl going)) (later (polls (claim j at)) run) in
    elim (Bool-cases (ltb 0 s.free)) [
      | inl room ↦
          subst (λ x. Run max x (j ∷ js) []) (rw room refl)
            (later (works (acquire [] s.running_tasks j refl (ground (arith, room)))) created)
      | inr full ↦ subst (λ x. Run max x (j ∷ js) []) (rw full refl) created
    ]

-- Polling does not wait for a free slot. For any list of jobs, the worker reaches the state in which it
-- has claimed them all, each new task having taken its first step before the next claim was over, and
-- none is through: it holds a task for every one of them and waits for a further claim, and of these
-- tasks only as many are inside the semaphore as `max_concurrent_jobs` allows.
pub poll_unbounded :
    (max : ℕ) (js : List Job)
    → Run max (after_claims max js) js []
      × ((after_claims max js).phase ≡ claiming)
      × ((after_claims max js).stopped ≡ false)
      × ((after_claims max js).free ≡ max - length js)
      × (length (after_claims max js).running_tasks ≡ length js)
      × (count (λ t. t.executing) (after_claims max js).running_tasks + (max - length js) ≡ max)
unfolding after_claims
poll_unbounded max [] =
    (later (polls (begin refl refl)) start, refl, refl, omega arith, refl, omega arith)
poll_unbounded max (j ∷ js) =
    let s = after_claims max js in
    let (run, at, going, free, all, idle) = poll_unbounded max js in
    elim (Bool-cases (ltb 0 s.free)) [
      | inl room ↦ (
        claiming_turn_lem j s at going run,
        ground (arith, room),
        ground (arith, room, going),
        ground (arith, room, free),
        ground (arith, room, all),
        ground (arith, room, idle, free),
      )
      | inr full ↦ (
        claiming_turn_lem j s at going run,
        ground (arith, full),
        ground (arith, full, going),
        ground (arith, full, free),
        ground (arith, full, all),
        ground (arith, full, idle, free),
      )
    ]
