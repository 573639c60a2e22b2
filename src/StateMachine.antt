-- ===== src/StateMachine.antt =====
-- services/state_machine.py: the table of the allowed transitions and its four class methods.
pub mod Paths
use schedora.Base.{Bool, List, [], ◌∷◌, ◌==◌, not, any}
use schedora.Enums.{
  JobStatus, pending, scheduled, running, success, failed, retrying, dead, canceled, job_status_eq,
}
use schedora.Errors.{Action, invalid_state_transition, raise_if}

-- `x in set`
abbrev pub member_of : JobStatus → List JobStatus → Bool
member_of x l = any (λ s. s == x) l

unfoldable pub transitions : JobStatus → List JobStatus
transitions pending = scheduled ∷ running ∷ canceled ∷ []
transitions scheduled = pending ∷ running ∷ canceled ∷ []
transitions running = success ∷ failed ∷ retrying ∷ canceled ∷ []
transitions failed = retrying ∷ dead ∷ []
transitions retrying = scheduled ∷ []
transitions success = []
transitions dead = []
transitions canceled = []

abbrev pub terminal_states : List JobStatus
terminal_states = success ∷ dead ∷ canceled ∷ []

unfoldable pub can_transition : JobStatus → JobStatus → Bool
unfolding transitions
can_transition from_state to_state = member_of to_state (transitions from_state)

unfoldable pub validate_transition : {S : Type 0} → JobStatus → JobStatus → Action S (Unit {0})
validate_transition from_state to_state =
    raise_if (not (can_transition from_state to_state)) invalid_state_transition

unfoldable pub is_terminal : JobStatus → Bool
is_terminal state = member_of state terminal_states

unfoldable pub get_valid_transitions : JobStatus → List JobStatus
unfolding transitions
get_valid_transitions from_state = transitions from_state
