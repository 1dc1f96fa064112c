-- ===== src/Curator.antt =====
-- src/curator.rs: reconciliation plans and `validate_plan`, which returns the plan that the source
-- leaves in place. A time is the number of nanoseconds since the epoch; `max` is
-- `object_description_max_characters()`.
pub mod Plans
pub mod Evidence
pub mod Commit
pub mod Accepted
pub mod Again
pub mod Allowed
pub mod Dropped
pub mod Filter
pub mod Grounds
mod Tests
use Prim.Native.String.{String}
use centaur_context.Common.{
  ℕ, ◌+◌, ◌==◌, Bool, true, false, not, ◌&&◌, ◌||◌, List, [], ◌∷◌, map, Option, none, some, ltb,
  length, any, all, is_none, is_some, has, same_number, Result, ok, err, ◌>>=◌, ◌>>◌, reject_if,
  map_err,
}
use centaur_context.Common.Integer.{ℤ}
use centaur_context.Errors.{Message, plain, ValidationError}
use centaur_context.Text.{Text, lit, text_eq, contains}
use centaur_context.Json.{Value}
use centaur_context.Domain.{Unicode, required_text, allowed, object_description}
use centaur_context.Curator.Plans.{
  CreateConnection, CreateObject, CuratorError, ObjectRef, ReconciliationPlan, created, existing,
  invalid, invalid_value, unknown_client,
}

-- `Err(CuratorError::Invalid(message.into()))`
abbrev pub refusal : String → CuratorError
refusal message = invalid (plain message)

-- `CURATOR_CONNECTION_KINDS`
abbrev pub connection_kinds : List Text
connection_kinds =
    lit "involves" ∷ lit "about" ∷ lit "themed" ∷ lit "related_to" ∷ lit "derived_from" ∷ []

abbrev pub is_nil : {A : Type 0} → List A → Bool
is_nil [] = true
is_nil (_ ∷ _) = false

-- Equal lengths and equal sets.
abbrev pub same_message_ids : List ℕ → List ℕ → Bool
same_message_ids left right =
    length left == length right
    && all (λ id. has same_number id right) left
    && all (λ id. has same_number id left) right

abbrev pub is_created_as : Text → ObjectRef → Bool
is_created_as client_id (created c) = text_eq c client_id
is_created_as client_id (existing _) = false

abbrev pub is_existing : ObjectRef → Bool
is_existing (existing _) = true
is_existing (created _) = false

-- The connection that a new Memory needs.
abbrev pub is_provenance : CreateObject → CreateConnection → Bool
is_provenance memory connection =
    text_eq connection.kind (lit "derived_from")
    && is_created_as memory.client_id connection.source
    && is_existing connection.target
    && same_message_ids connection.supporting_message_ids memory.supporting_message_ids

abbrev pub has_provenance : List CreateConnection → CreateObject → Bool
has_provenance connections memory = any (is_provenance memory) connections

abbrev pub operations : ReconciliationPlan → ℕ
operations plan =
    length plan.create_objects
    + length plan.update_objects
    + length plan.create_connections
    + length plan.update_connections

unfoldable pub validate_reference : List Text → ObjectRef → Result CuratorError ObjectRef
validate_reference clients (existing id) = ok (existing id)
validate_reference clients (created c) = do
  c' ← map_err invalid_value (required_text c "client_id" 100)
  reject_if (not (has text_eq c' clients)) (unknown_client c')
  ok (created c')

abbrev pub other_fields : CreateObject → Bool
other_fields item =
    is_some item.entity_kind || is_none item.memory || is_some item.task || is_some item.source

abbrev only_memories : ValidationError → CuratorError
only_memories e = refusal "the curator may create only Memory Objects"

module _ (u : Unicode) (max : ℕ) where
  -- The body of the loop over `create_objects`.
  unfoldable pub validate_object : List Text → CreateObject → Result CuratorError CreateObject
  validate_object taken item = do
    client_id ← map_err invalid_value (required_text item.client_id "client_id" 100)
    reject_if (has text_eq client_id taken) (refusal "client_id values must be unique")
    kind ← map_err only_memories (allowed u item.kind "kind" (lit "memory" ∷ []))
    title ← map_err invalid_value (required_text item.title "title" 300)
    description ← map_err invalid_value (object_description u max title item.description)
    reject_if (other_fields item) (refusal "Memory creation requires only memory fields")
    ok record item { client_id = client_id; kind = kind; title = title; description = description }

  unfoldable pub validate_objects :
      List Text → List CreateObject → Result CuratorError (List CreateObject)
  validate_objects taken [] = ok []
  validate_objects taken (item ∷ items) = validate_object taken item >>= λ item'.
      validate_objects (item'.client_id ∷ taken) items >>= λ items'. ok (item' ∷ items')

module _ (u : Unicode) where
  -- The body of the loop over `create_connections`.
  unfoldable pub validate_connection :
      List Text → CreateConnection → Result CuratorError CreateConnection
  validate_connection clients item = do
    source ← validate_reference clients item.source
    target ← validate_reference clients item.target
    kind ← map_err invalid_value (allowed u item.kind "connection kind" connection_kinds)
    description ←
        map_err invalid_value (required_text item.description "connection description" 1000)
    ok record item { source = source; target = target; kind = kind; description = description }

  unfoldable pub validate_connections :
      List Text → List CreateConnection → Result CuratorError (List CreateConnection)
  validate_connections clients [] = ok []
  validate_connections clients (item ∷ items) = validate_connection clients item >>= λ item'.
      validate_connections clients items >>= λ items'. ok (item' ∷ items')

module _ (u : Unicode) (max : ℕ) where
  -- `clients` is the set of the ids that the first loop has left.
  unfoldable pub validate_plan : ReconciliationPlan → Result CuratorError ReconciliationPlan
  validate_plan plan = do
    reject_if (ltb 100 (operations plan))
        (refusal "a reconciliation plan must contain at most 100 operations")
    reject_if (not (is_nil plan.update_objects))
        (refusal "the curator cannot update or delete Objects, including Memories")
    reject_if (not (is_nil plan.update_connections))
        (refusal "the curator cannot update or delete connections")
    objects ← validate_objects u max [] plan.create_objects
    connections ←
        validate_connections u (map (λ item. item.client_id) objects) plan.create_connections
    reject_if (not (all (has_provenance connections) objects)) (
        refusal
          "every new Memory must propose a derived_from connection to its originating Chat with the same exact supporting message IDs")
    ok record plan { create_objects = objects; create_connections = connections }
