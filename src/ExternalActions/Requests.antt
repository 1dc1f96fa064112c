-- ===== src/ExternalActions/Requests.antt =====
-- src/external_actions.rs: the requests, and the checks of their texts.
use Prim.Native.String.{String}
use centaur_context.Common.{
  ℕ, ◌==◌, Bool, not, ◌&&◌, ◌||◌, List, Option, ltb, any, all, if◌then◌else◌, Result, ok, err,
  reject_if,
}
use centaur_context.Errors.{about, IntakeError, bad_request}
use centaur_context.Text.{Text, lit, len, trim, is_empty, text_eq, is_ascii_alphanumeric}
use centaur_context.Json.{Value, Fields}
use centaur_context.Runs.{Run, has_id}

abbrev contract_version : Text
contract_version = lit "centaur-context-external-action-v2"

pub record ExternalAction : Type 0 where
  pub id : ℕ
  pub provider : Text
  pub action_kind : Text
  pub external_key : Text
  pub state : Text
  pub metadata : Value
  pub trace : List Value
  pub created_at : ℕ
  pub updated_at : ℕ

pub record ReserveRequest : Type 0 where
  pub version : Text
  pub idempotency_key : Text
  pub provider : Text
  pub action_kind : Text
  pub external_key : Text
  pub title : Text
  pub summary : Text
  pub metadata : Fields

pub record EventRequest : Type 0 where
  pub version : Text
  pub idempotency_key : Text
  pub event_type : Text
  pub expected_state : Option Text
  pub metadata : Fields

-- The fields of `ActorContext` that the ledger stores.
pub record Actor : Type 0 where
  pub actor_type : Text
  pub actor_id : Text
  pub centaur_thread_key : Value
  pub centaur_execution_id : Value

unfoldable pub version : Text → Result IntakeError (Unit {0})
version value =
    reject_if (not (text_eq (trim value) contract_version))
      (bad_request (about "version must be" "centaur-context-external-action-v2"))

-- The characters of an ASCII token are its bytes, and no byte of another character is allowed.
abbrev pub is_token_byte : ℕ → Bool
is_token_byte c = is_ascii_alphanumeric c || any (λ d. c == d) (lit "-_.:")

unfoldable pub bounded_token : Text → String → ℕ → Result IntakeError Text
bounded_token value name limit =
    let value' = trim value in
    if is_empty value' || ltb limit (len value') || not (all is_token_byte value')
    then err (bad_request (about name "is invalid"))
    else ok value'

unfoldable pub bounded_text : Text → String → ℕ → Result IntakeError Text
bounded_text value name limit =
    let value' = trim value in
    if is_empty value' || ltb limit (len value')
    then err (bad_request (about name "is invalid"))
    else ok value'

abbrev pub is_external : Run → Bool
is_external r = text_eq r.kind (lit "external_action")

abbrev pub is_action : ℕ → Run → Bool
is_action id r = has_id id r && is_external r

abbrev pub Answer : Type 0
Answer = ExternalAction × Bool

-- The checked texts of a request.
pub record Reservation : Type 0 where
  pub key : Text
  pub provider : Text
  pub action_kind : Text
  pub external_key : Text
  pub title : Text
  pub summary : Text
  pub metadata : Value

pub record Event : Type 0 where
  pub key : Text
  pub event_type : Text
  pub expected_state : Option Text
  pub metadata : Value
