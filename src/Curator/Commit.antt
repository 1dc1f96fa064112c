-- ===== src/Curator/Commit.antt =====
-- src/curator.rs: the checks of `reconcile_owned` before it writes. `View` is what the transaction
-- reads of the run's Chat, of the Objects that the run consulted, and of the kinds of live Objects.
use centaur_context.Common.{
  ℕ, ◌==◌, Bool, false, not, ◌&&◌, ◌||◌, List, [], ◌∷◌, Option, none, some, any, all, has,
  same_number, if◌then◌else◌, Result, ok, ◌>>=◌, ◌>>◌, reject_if, ok_or,
}
use centaur_context.Text.{Text, lit, text_eq, contains}
use centaur_context.Domain.{Unicode}
use centaur_context.Curator.{
  refusal, connection_kinds, is_nil, is_created_as, same_message_ids, validate_plan,
}
use centaur_context.Curator.Plans.{
  CuratorError, not_found, unknown_client, CreateObject, CreateConnection, ObjectRef, existing,
  created, ReconciliationPlan,
}
use centaur_context.Curator.Evidence.{
  MessageEvidence, validate_human_grounded_objects, validate_message_refs,
}

pub record View : Type 0 where
  pub chat : ℕ
  pub consulted : List ℕ
  pub kind_of : ℕ → Option Text

-- Of two objects with one client id, the map holds the later.
abbrev pub kind_created : List CreateObject → Text → Option Text
kind_created [] c = none
kind_created (item ∷ items) c = elim (kind_created items c) [
  | none ↦ if text_eq c item.client_id then some item.kind else none
  | some kind ↦ some kind
]

unfoldable pub commit_endpoint_kind :
    View → List CreateObject → ObjectRef → Result CuratorError Text
commit_endpoint_kind view items (created c) = ok_or (kind_created items c) (unknown_client c)
commit_endpoint_kind view items (existing id) = do
  reject_if (not (id == view.chat) && not (has same_number id view.consulted))
      (refusal "existing connection endpoints must be unambiguous retrieved candidates")
  ok_or (view.kind_of id) not_found

abbrev pub is_memory_kind : Text → Bool
is_memory_kind kind = text_eq kind (lit "memory")

unfoldable pub validate_endpoints :
    View → List CreateObject → CreateConnection → Result CuratorError (Unit {0})
validate_endpoints view items connection = do
  reject_if (not (contains connection_kinds connection.kind))
      (refusal "the Curator commit layer rejected an unsupported connection kind")
  source ← commit_endpoint_kind view items connection.source
  target ← commit_endpoint_kind view items connection.target
  reject_if (not (is_memory_kind source) && not (is_memory_kind target))
      (refusal "every Curator-created connection must have at least one Memory endpoint")

unfoldable pub validate_all_endpoints :
    View → List CreateObject → List CreateConnection → Result CuratorError (Unit {0})
validate_all_endpoints view items [] = ok tt
validate_all_endpoints view items (connection ∷ connections) =
    validate_endpoints view items connection >> validate_all_endpoints view items connections

abbrev pub is_chat : ℕ → ObjectRef → Bool
is_chat chat (existing id) = id == chat
is_chat chat (created c) = false

-- The connection of a new Memory to the Chat of the run.
abbrev pub is_origin : ℕ → CreateObject → CreateConnection → Bool
is_origin chat memory connection =
    text_eq connection.kind (lit "derived_from")
    && is_created_as memory.client_id connection.source
    && is_chat chat connection.target
    && same_message_ids connection.supporting_message_ids memory.supporting_message_ids

unfoldable pub validate_commit_policy : View → ReconciliationPlan → Result CuratorError (Unit {0})
validate_commit_policy view plan = do
  reject_if (not (is_nil plan.update_objects) || not (is_nil plan.update_connections))
      (refusal "append-only Curator plans cannot contain update or delete operations")
  reject_if (any (λ item. not (is_memory_kind item.kind)) plan.create_objects)
      (refusal "the Curator commit layer may create only Memory Objects")
  validate_all_endpoints view plan.create_objects plan.create_connections
  reject_if
      (not (
        all (λ memory. any (is_origin view.chat memory) plan.create_connections)
          plan.create_objects))
      (refusal
        "every new Memory must have a derived_from connection to the originating Chat with the same exact supporting message IDs")

-- `resolve_ref`: the ids of the Objects that were made, by their client ids.
unfoldable pub resolve_ref : ObjectRef → (Text → Option ℕ) → Result CuratorError ℕ
resolve_ref (existing id) made = ok id
resolve_ref (created c) made = ok_or (made c) (unknown_client c)

module _ (u : Unicode) (max : ℕ) (capture : Bool) where
  -- The checks in the transaction that commits the plan.
  unfoldable pub validate_commit :
      (ℕ → Option MessageEvidence)
      → List ℕ
      → View
      → ReconciliationPlan
      → Result CuratorError ReconciliationPlan
  validate_commit messages message_ids view plan = do
    proposed ← validate_plan u max plan
    plan' ← validate_plan u max proposed
    validate_message_refs plan' message_ids
    validate_human_grounded_objects u capture messages plan'.create_objects
    validate_commit_policy view plan'
    ok plan'
