-- ===== src/AsyncWorker/Halting.antt =====
-- worker/async_worker.py: what `stop` reaches. Once the stop event is set, the worker comes to rest.
use schedora.Base.{
  ℕ, ◌+◌, ◌*◌, ◌≤◌, ◌<◌, Bool, true, false, List, [], ◌∷◌, ◌++◌, ◌≡◌, ◌⊎◌, inl, inr, refl, ap,
  count, length, arith, if◌then◌else◌, Bool-cases,
}
use schedora.Errors.{Result}
use schedora.Models.{Job}
use schedora.Executor.{ExecutionResult}
use schedora.AsyncWorker.Tasks.{
  Task, Phase, testing, claiming, sleeping, over, Loop, Ending, ended, cancelled, Event, claims,
  ends, silent, Step, polls, works, begin, claim, nothing, wake, leave, break_claim, break_sleep,
  acquire, finish, give_up, set_stop, Run, start, later, Steps, none_left, first,
}
use schedora.AsyncWorker.Accounts.{
  waiting, inside, IsAccounted, Run-IsAccounted, split-count, among, tasks_of, endings_of,
}

-- The steps left to the polling loop, counted with those of the task of its claim.
abbrev phase_steps : Phase → ℕ
phase_steps claiming = 4
phase_steps sleeping = 2
phase_steps testing = 1
phase_steps over = 0

-- A waiting task has two steps left, a task inside the semaphore has one.
abbrev steps_left : Loop → ℕ
steps_left s =
    phase_steps s.phase
    + (count (λ t. true) s.running_tasks
        + count (λ t. if t.executing then false else true) s.running_tasks)

abbrev claims_left : Loop → ℕ
claims_left s = elim s.phase [ Phase.claiming ↦ 1 | _ ↦ 0 ]

abbrev pub is_claim : Event → Bool
is_claim (claims j) = true
is_claim (ends j e) = false
is_claim silent = false

-- The steps left to tasks with one in the middle.
abbrev task_steps : List Task → ℕ
task_steps ts = count (λ t. true) ts + count (λ t. if t.executing then false else true) ts

split-steps :
    (ts l m : List Task) (t : Task)
    → ts ≡ l ++ t ∷ m
    → task_steps ts ≡ task_steps (l ++ m) + (if t.executing then 1 else 2)
split-steps ts l m t e = ground (
  arith,
  split-count (λ x. true) ts l m t e,
  split-count (λ x. if x.executing then false else true) ts l m t e,
)

-- After `stop`, each step uses up what is left.
Step-decreases :
    {s t : Loop} {v : Event}
    → Step s v t
    → s.stopped ≡ true
    → (t.stopped ≡ true)
      × (steps_left t < steps_left s)
      × ((if is_claim v then 1 else 0) + claims_left t ≤ claims_left s)
Step-decreases {s} (polls (begin at going)) stop = ground (arith, going, stop)
Step-decreases {s} (polls (claim j at)) stop = ground (arith, at, stop)
Step-decreases {s} (polls (nothing at)) stop = ground (arith, at, stop)
Step-decreases {s} (polls (wake at)) stop = ground (arith, at, stop)
Step-decreases {s} (polls (leave at st)) stop = ground (arith, at, stop)
Step-decreases {s} (polls (break_claim at)) stop = ground (arith, at, stop)
Step-decreases {s} (polls (break_sleep at)) stop = ground (arith, at, stop)
Step-decreases {s} (works (acquire l m j e room)) stop = (
  stop,
  omega (
    arith,
    split-steps s.running_tasks l m (waiting j) e,
    split-steps (l ++ inside j ∷ m) l m (inside j) refl,
  ),
  omega arith,
)
Step-decreases {s} (works (finish l m j x e)) stop =
    (stop, omega (arith, split-steps s.running_tasks l m (inside j) e), omega arith)
Step-decreases {s} (works (give_up l m j e)) stop =
    (stop, omega (arith, split-steps s.running_tasks l m (waiting j) e), omega arith)
Step-decreases {s} (set_stop going) stop = ground (arith, going, stop)

Steps-decrease :
    {s t : Loop} {vs : List Event}
    → Steps s vs t
    → s.stopped ≡ true
    → (length vs + steps_left t ≤ steps_left s)
      × (count is_claim vs + claims_left t ≤ claims_left s)
Steps-decrease none_left stop = (omega arith, omega arith)
Steps-decrease (first step rest) stop =
    let (still, less, fewer) = Step-decreases step stop in
    let (short, few) = Steps-decrease rest still in
    (omega (arith, less, short), omega (arith, fewer, few))

count-all : (p : Task → Bool) (ts : List Task) → count p ts ≤ length ts
count-all p [] = omega arith
count-all p (t ∷ ts) = let rest = count-all p ts in ground (arith, rest)

-- Once the stop event is set, a worker takes at most two steps for each of its tasks and four more,
-- whatever these steps are and in whatever order; and they create a task for at most one more job.
pub stopped_bound :
    {s t : Loop} {vs : List Event}
    → Steps s vs t
    → s.stopped ≡ true
    → (length vs ≤ 4 + 2 * length s.running_tasks) × (count is_claim vs ≤ 1)
stopped_bound {s} {t} {vs} steps stop =
    let (short, few) = Steps-decrease steps stop in
    let phase : phase_steps s.phase ≤ 4 = ground arith in
    let last : claims_left s ≤ 1 = ground arith in
    (
      omega (
        arith,
        short,
        phase,
        count-all (λ x. true) s.running_tasks,
        count-all (λ x. if x.executing then false else true) s.running_tasks,
      ),
      omega (arith, few, last),
    )

-- A task is inside the semaphore, or none is and one waits, or there is no task.
some_task :
    (ts : List Task)
    → ((l : List Task) × (m : List Task) × (j : Job) × (ts ≡ l ++ inside j ∷ m))
      ⊎ (((l : List Task) × (m : List Task) × (j : Job) × (ts ≡ l ++ waiting j ∷ m)
            × (count (λ t. t.executing) ts ≡ 0))
          ⊎ (ts ≡ []))
some_task [] = inr (inr refl)
some_task (t ∷ ts) = elim (Bool-cases t.executing) [
  | inl on ↦ inl ([], ts, t.job, ap (λ b. record { job = t.job; executing = b } ∷ ts) on)
  | inr off ↦ elim (some_task ts) [
    | inl (l, m, j, e) ↦ inl (t ∷ l, m, j, ap (λ x. t ∷ x) e)
    | inr (inl (l, m, j, e, idle)) ↦
        inr (inl (t ∷ l, m, j, ap (λ x. t ∷ x) e, ground (arith, off, idle)))
    | inr (inr e) ↦ inr (
        inl (
          [],
          ts,
          t.job,
          ap (λ b. record { job = t.job; executing = b } ∷ ts) off,
          rw e (ground (arith, off)),
        ))
  ]
]

abbrev pub is_cancellation : Event → Bool
is_cancellation (ends j cancelled) = true
is_cancellation (ends j (ended r)) = false
is_cancellation (claims j) = false
is_cancellation silent = false

-- The next step of the tasks.
task_step :
    {max : ℕ} {s : Loop} {js : List Job} {es : List (Job × Ending)}
    → Result ExecutionResult
    → 0 < max
    → IsAccounted max s js es
    → (s.running_tasks ≡ []) ⊎ ((v : Event) × (t : Loop) × Step s v t × (is_cancellation v ≡ false))
task_step {max} {s} r room a = elim (some_task s.running_tasks) [
  | inl (l, m, j, e) ↦ inr (_, _, works (finish l m j (ended r) e), refl)
  | inr (inl (l, m, j, e, idle)) ↦
      inr (silent, _, works (acquire l m j e (omega (arith, a.slots, idle, room))), refl)
  | inr (inr e) ↦ inl e
]

-- The next step of the polling loop.
loop_step :
    (s : Loop) (p : Phase)
    → s.phase ≡ p
    → s.stopped ≡ true
    → (s.phase ≡ over) ⊎ ((t : Loop) × Step s silent t)
loop_step s testing at stop = inr (_, polls (leave at stop))
loop_step s claiming at stop = inr (_, polls (nothing at))
loop_step s sleeping at stop = inr (_, polls (wake at))
loop_step s over at stop = inl at

-- In every state that a worker with room for a job can reach, once the stop event is set: either a
-- further step is possible without that a task is cancelled; or the polling loop is over, no task is
-- left, and every job for which a task was created has ended as often as a task was created for it.
-- The result stands for one that `execute` can give.
pub stopped_rests :
    {max : ℕ} {s : Loop} {js : List Job} {es : List (Job × Ending)}
    → Result ExecutionResult
    → 0 < max
    → Run max s js es
    → s.stopped ≡ true
    → ((v : Event) × (t : Loop) × Step s v t × (is_cancellation v ≡ false))
      ⊎ ((s.phase ≡ over) × (s.running_tasks ≡ []) × ((k : ℕ) → among k js ≡ endings_of k es))
stopped_rests {max} {s} r room run stop =
    let a = Run-IsAccounted run in
    elim (task_step r room a) [
      | inr next ↦ inl next
      | inl idle ↦ elim (loop_step s s.phase refl stop) [
        | inr (t, step) ↦ inl (silent, t, step, refl)
        | inl out ↦ inr (out, idle, λ k. ground (arith, a.each k, ap (tasks_of k) idle))
      ]
    ]

-- A worker of which `stop` is called while the polling loop waits for a claim can still create a task,
-- for the job of that claim, when `stop` has already gathered the tasks that it waits for: there are none
-- here, and `stop` returns at once.
pub late_task :
    (max : ℕ) (j : Job)
    → (s : Loop) × (t : Loop) × Run max s [] []
      × (s.stopped ≡ true)
      × (s.running_tasks ≡ [])
      × Steps s (claims j ∷ []) t
      × (t.running_tasks ≡ waiting j ∷ [])
late_task max j = (
  _,
  _,
  later (set_stop refl) (later (polls (begin refl refl)) start),
  refl,
  refl,
  first (polls (claim j refl)) none_left,
  refl,
)
