-- ===== src/Errors.antt =====
-- schedora/core/exceptions.py, and how a method that raises is read: a result beside the state, which
-- keeps what was written before the exception.
use schedora.Base.{Bool, true, false, Option, none, some}

-- `value_error`, `key_error` and `type_error` are Python's; `integrity_error` and `data_error` are
-- SQLAlchemy's.
pub data Error : Type 0 where
  invalid_state_transition job_not_found duplicate_idempotency_key : Error
  workflow_not_found duplicate_workflow worker_not_found : Error
  value_error key_error type_error : Error
  integrity_error data_error : Error

pub data Result (A : Type 0) : Type 0 where
  ok : A → Result A
  err : Error → Result A

-- A method over the state `S`.
abbrev pub Action : Type 0 → Type 0 → Type 0
Action S A = S → Result A × S

module _ {S A : Type 0} where
  abbrev pub pure : A → Action S A
  pure a s = (ok a, s)

  abbrev pub raise : Error → Action S A
  raise e s = (err e, s)

  abbrev pub or_raise : Option A → Error → Action S A
  or_raise none e = raise e
  or_raise (some a) e = pure a

module _ {S : Type 0} where
  abbrev pub gets : {A : Type 0} → (S → A) → Action S A
  gets f s = (ok (f s), s)

  abbrev pub modify : (S → S) → Action S (Unit {0})
  modify f s = (ok tt, f s)

  abbrev pub raise_if : Bool → Error → Action S (Unit {0})
  raise_if true e = raise e
  raise_if false e = pure tt

infixl 5 ◌>>=◌ ◌>>◌
abbrev pub ◌>>=◌ : {S A B : Type 0} → Action S A → (A → Action S B) → Action S B
◌>>=◌ m f s = let (r, s') = m s in elim r [ ok a ↦ f a s' | err e ↦ raise e s' ]

abbrev pub ◌>>◌ : {S B : Type 0} → Action S (Unit {0}) → Action S B → Action S B
m >> k = m >>= λ _. k

-- The end of a transaction that returns `a`: what was flushed is committed, or an IntegrityError
-- leaves the database as it was.
abbrev pub commit : {S A : Type 0} → A → Option S → Action S A
commit a none s = (err integrity_error, s)
commit a (some t) s = (ok a, t)
