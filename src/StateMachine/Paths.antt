-- ===== src/StateMachine/Paths.antt =====
-- services/state_machine.py: what chains of allowed transitions can do.
use schedora.Base.{
  true, false, List, [], ◌∷◌, ◌≡◌, ◌≢◌, ◌↔◌, ◌⊎◌, inl, inr, refl, sym, IsIn, arith, ≡→eq, eq→≡,
  Bool-cases, ◌==◌, length, ◌≤◌,
}
use schedora.Enums.{
  JobStatus, pending, scheduled, running, success, failed, retrying, dead, canceled, job_status_eq,
}
use schedora.StateMachine.{can_transition, is_terminal, get_valid_transitions}

-- A chain of allowed transitions, with the states that it leaves.
pub data PathOf : JobStatus → List JobStatus → JobStatus → Type 0 where
  here : {s : JobStatus} → PathOf s [] s
  next :
      {s u : JobStatus} {l : List JobStatus} (t : JobStatus)
      → can_transition s t ≡ true
      → PathOf t l u
      → PathOf s (s ∷ l) u

-- A state is terminal exactly when no transition leaves it.
pub is_terminal_iff :
    (s : JobStatus) → (is_terminal s ≡ true) ↔ ((t : JobStatus) → can_transition s t ≡ false)
unfolding is_terminal can_transition
is_terminal_iff s =
    (λ h t. ground arith, λ h. ground (arith, h pending, h scheduled, h success, h dead))

-- `get_valid_transitions` lists exactly the states that `can_transition` allows.
pub get_valid_transitions_iff :
    (s t : JobStatus) → IsIn t (get_valid_transitions s) ↔ (can_transition s t ≡ true)
unfolding get_valid_transitions can_transition
get_valid_transitions_iff s t = ground arith

-- A job can be canceled exactly from PENDING, SCHEDULED and RUNNING.
pub can_transition-canceled_iff :
    (s : JobStatus)
    → (can_transition s canceled ≡ true) ↔ ((s ≡ pending) ⊎ (s ≡ scheduled) ⊎ (s ≡ running))
unfolding can_transition
can_transition-canceled_iff s = ground arith

-- A chain that starts in a terminal state is empty.
pub PathOf-terminal :
    {s t : JobStatus} {l : List JobStatus}
    → PathOf s l t
    → is_terminal s ≡ true
    → (l ≡ []) × (t ≡ s)
PathOf-terminal here h = (refl, refl)
PathOf-terminal {s} (next t allowed p) h = cc ((is_terminal_iff s).0 h t)

-- A job succeeds or fails only out of RUNNING.
ends_from_running :
    (s t : JobStatus) → can_transition s t ≡ true → (t ≡ success) ⊎ (t ≡ failed) → s ≡ running
unfolding can_transition
ends_from_running s t allowed done = ground arith

-- A chain into SUCCESS or FAILED from any other state leaves RUNNING on its way.
pub PathOf-running :
    {s t : JobStatus} {l : List JobStatus}
    → PathOf s l t
    → (t ≡ success) ⊎ (t ≡ failed)
    → s ≢ t
    → IsIn running l
PathOf-running here done ne = absurd (ne refl)
PathOf-running {s} {t} (next u allowed p) done ne = elim (Bool-cases (u == t)) [
  | inl last ↦ inl (sym (ends_from_running s t (rw (eq→≡ u t last) at allowed) done))
  | inr more ↦ inr (PathOf-running p done (λ e. cc (≡→eq u t e)))
]

-- From every state a chain of at most two transitions leads to a terminal state.
pub reaches_end :
    (s : JobStatus)
    → (t : JobStatus) × (l : List JobStatus) × PathOf s l t
      × (is_terminal t ≡ true)
      × (length l ≤ 2)
unfolding can_transition is_terminal
reaches_end pending = (canceled, _, next canceled refl here, refl, omega arith)
reaches_end scheduled = (canceled, _, next canceled refl here, refl, omega arith)
reaches_end running = (success, _, next success refl here, refl, omega arith)
reaches_end failed = (dead, _, next dead refl here, refl, omega arith)
reaches_end retrying =
    (canceled, _, next scheduled refl (next canceled refl here), refl, omega arith)
reaches_end success = (success, _, here, refl, omega arith)
reaches_end dead = (dead, _, here, refl, omega arith)
reaches_end canceled = (canceled, _, here, refl, omega arith)
