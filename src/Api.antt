-- ===== src/Api.antt =====
-- api/v1 and api/schemas/response.py: how a request is answered. The texts that are meant for people
-- (`description`, `message`, and the `detail` of the workers' errors) are left out.
pub mod Jobs
pub mod Workers
pub mod Workflows
pub mod Queues
pub mod Health
pub mod Codes
pub mod Schemas
use schedora.Base.{ℕ, String, Option}
use schedora.Errors.{Error}

-- `StandardResponse`
pub record StandardResponse (T : Type 0) : Type 0 where
  pub content : T
  pub code : String
  pub http_status : String

-- The `detail` of an HTTPException: its `code` and `httpStatus`, with `data` None (a reserved word here: `content`).
pub record ErrorDetail : Type 0 where
  pub code : String
  pub http_status : String

-- What a request gets: an answer with its status code, an HTTPException with its status code, or an
-- exception that the handler does not catch, which the framework answers by 500.
pub data Response (T : Type 0) : Type 0 where
  answer : ℕ → T → Response T
  http_exception : ℕ → Option ErrorDetail → Response T
  uncaught : Error → Response T

-- A handler over the state `S`.
abbrev pub Handler : Type 0 → Type 0 → Type 0
Handler S T = S → Response T × S
