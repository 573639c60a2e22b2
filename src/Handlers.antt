-- ===== src/Handlers.antt =====
-- worker/handlers: the three handlers that a worker of the command line sets up. A payload is the text
-- of its JSON object.
pub mod Runs
use schedora.Base.{
  ℕ, String, Option, none, some, List, [], ◌∷◌, ◌≡◌, ◌≢◌, if◌then◌else◌, ◌==◌, string_eq,
}
use schedora.Executor.{Run, returned, raised}

-- A value of a payload: a number that is not negative, a text, or the text of another value, which is
-- hashable or is a list or an object.
pub data Value : Type 0 where
  number : (microseconds : ℕ) → Value
  text null_or_bool list_or_dict : String → Value

-- The classes of the table `error_classes`.
pub data ExceptionClass : Type 0 where
  a_exception a_value_error a_runtime_error a_key_error : ExceptionClass

-- What the handlers use of Python: reading and writing JSON, `asyncio.sleep`, and the texts of an
-- exception that was raised with a value.
pub record Python : Type 0 where
  pub get : String → String → Option Value
  pub dumps : List (String × Value) → String
  -- How long `asyncio.sleep` waits, in microseconds, or none for a TypeError.
  pub sleep : Value → Option ℕ
  pub str : ExceptionClass → Value → String
  pub traceback : ExceptionClass → Value → String
  pub sleep-number : (n : ℕ) → sleep (number n) ≡ some n
  -- The texts of the TypeError for a value that is not a number or not hashable.
  pub type_error_message : Value → String
  pub type_error_traceback : Value → String
  -- The text of an exception with a text is that text; that of a KeyError is the text in quotes.
  pub str-text : (c : ExceptionClass) (m : String) → c ≢ a_key_error → str c (text m) ≡ m

-- `payload.get(key, default)`
abbrev pub get_or : Option Value → Value → Value
get_or none default = default
get_or (some v) default = v

-- `error_classes.get(error_type, Exception)`, or none for a TypeError.
unfoldable pub error_class : Value → Option ExceptionClass
error_class (text t) = some (
    if t == "ValueError"
    then a_value_error
    else (if t == "RuntimeError"
        then a_runtime_error
        else (if t == "KeyError" then a_key_error else a_exception)))
error_class (list_or_dict t) = none
error_class (number n) = some a_exception
error_class (null_or_bool t) = some a_exception

unfoldable pub echo_handler : String → Run
echo_handler payload = record { duration = 0; ending = returned payload }

module _ (py : Python) where
  -- A handler that raises at once.
  abbrev raising : String → String → Run
  raising message details = record { duration = 0; ending = raised message details }

  abbrev type_error : Value → Run
  type_error v = raising (py.type_error_message v) (py.type_error_traceback v)

  unfoldable pub sleep_handler : String → Run
  sleep_handler payload =
      let duration = get_or (py.get payload "duration") (number 1_000_000) in
      elim (py.sleep duration) [
        | none ↦ type_error duration
        | some n ↦ record {
          duration = n;
          ending = returned (py.dumps (("status", text "completed") ∷ ("duration", duration) ∷ []));
        }
      ]

  unfoldable pub fail_handler : String → Run
  unfolding error_class
  fail_handler payload =
      let error_message = get_or (py.get payload "error_message") (text "Simulated job failure") in
      let error_type = get_or (py.get payload "error_type") (text "Exception") in
      elim (error_class error_type) [
        | none ↦ type_error error_type
        | some c ↦ raising (py.str c error_message) (py.traceback c error_message)
      ]
