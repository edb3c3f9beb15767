-- ===== src/Errors/AppError.antt =====
-- backend/internal/errors/errors.go: AppError, its categories and the tests on an error.
use open_music_player.Prelude.{ℕ, Bool, true, false, not, Option, none, Text, codes, text_eq}

pub data ErrorCategory : Type 0 where
  client server external : ErrorCategory
  unknown_category : Text → ErrorCategory

abbrev pub code_database_error : Text
code_database_error = codes "DATABASE_ERROR"

abbrev pub code_internal_error : Text
code_internal_error = codes "INTERNAL_ERROR"

abbrev pub code_external_timeout : Text
code_external_timeout = codes "EXTERNAL_TIMEOUT"

-- `cause` is the text of the wrapped error.
pub record AppError : Type 0 where
  pub code : Text
  pub message : Text
  pub category : ErrorCategory
  pub http_status : ℕ
  pub cause : Option Text

-- The errors that the package tells apart: an AppError, the two of a context, a net.Error with its
-- Timeout(), and any other by its text.
pub data AnyError : Type 0 where
  app : AppError → AnyError
  canceled deadline_exceeded : AnyError
  net : Bool → Text → AnyError
  other : Text → AnyError

-- New
abbrev pub new : Text → Text → ErrorCategory → ℕ → AppError
new code message category status = record {
  code = code;
  message = message;
  category = category;
  http_status = status;
  cause = none;
}

abbrev pub internal_error : Text → AppError
internal_error message = new code_internal_error message server 500

abbrev pub database_error : Text → AppError
database_error message = new code_database_error message server 500

abbrev pub external_timeout : Text → AppError
external_timeout message = new code_external_timeout message external 504

unfoldable pub is_retryable : AnyError → Bool
is_retryable (app e) = elim e.category [
  | external ↦ true
  | server ↦ not (text_eq e.code code_database_error)
  | _ ↦ false
]
is_retryable _ = false

unfoldable pub is_client_error : AnyError → Bool
is_client_error (app e) = elim e.category [ client ↦ true | _ ↦ false ]
is_client_error _ = false

unfoldable pub is_server_error : AnyError → Bool
is_server_error (app e) = elim e.category [ server ↦ true | _ ↦ false ]
is_server_error _ = false

unfoldable pub is_external_error : AnyError → Bool
is_external_error (app e) = elim e.category [ external ↦ true | _ ↦ false ]
is_external_error _ = false
