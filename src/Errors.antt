-- ===== src/Errors.antt =====
-- The error types of src/domain.rs, src/db/mod.rs and src/intake.rs. A message is a literal of the
-- source, or a literal behind the name of a field (`format!("{field} is invalid")`).
use Prim.Native.String.{String}
use centaur_context.Common.{ℕ}
use centaur_context.Text.{Text}

pub data Message : Type 0 where
  plain : String → Message
  about : String → String → Message

pub data ValidationError : Type 0 where
  required : String → ValidationError
  too_long : String → ℕ → ValidationError
  unsupported : String → Text → ValidationError
  provenance_object : ValidationError
  self_connection : ValidationError
  weak_description : String → ValidationError

-- `sqlx` is an error of the database, such as a violated constraint.
pub data DbError : Type 0 where
  not_found : DbError
  conflict : DbError
  memory_review_conflict : Message → DbError
  invalid : Message → DbError
  validation : ValidationError → DbError
  sqlx : DbError

-- A message that an error of another type is printed to.
pub data IntakeError : Type 0 where
  bad_request : Message → IntakeError
  bad_value : ValidationError → IntakeError
  unauthorized : IntakeError
  forbidden : Message → IntakeError
  conflict_with : Message → IntakeError
  internal : Message → IntakeError
  database : IntakeError

-- `From<DbError> for IntakeError`
unfoldable pub intake_error : DbError → IntakeError
intake_error not_found = bad_request (plain "record not found")
intake_error conflict = conflict_with (plain "record conflict")
intake_error (memory_review_conflict message) = conflict_with message
intake_error (invalid message) = bad_request message
intake_error (validation error) = bad_value error
intake_error sqlx = database
