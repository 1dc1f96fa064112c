-- ===== src/Curator/Plans.antt =====
-- src/curator.rs: the errors and the reconciliation plans.
use centaur_context.Common.{ℕ, Bool, List, Option}
use centaur_context.Common.Integer.{ℤ}
use centaur_context.Errors.{Message, ValidationError}
use centaur_context.Text.{Text}
use centaur_context.Json.{Value}

-- `invalid_value` is `Invalid` of a printed error, and `unknown_client` of the message on an id.
pub data CuratorError : Type 0 where
  not_found : CuratorError
  invalid : Message → CuratorError
  invalid_value : ValidationError → CuratorError
  unknown_client : Text → CuratorError
  conflict : CuratorError
  sqlx : CuratorError

pub record TaskFields : Type 0 where
  pub confirmed : Bool
  pub status : Text
  pub priority : Text
  pub owner_object_id : Option ℕ
  pub agent_suitable : Bool
  pub blocked_reason : Option Text
  pub due_at : Option ℤ
  pub github_issue_url : Option Text
  pub brief_markdown : Option Text

pub record TaskPatch : Type 0 where
  pub confirmed : Bool
  pub status : Option Text
  pub priority : Option Text
  pub owner_object_id : Option ℕ
  pub clear_owner : Bool
  pub agent_suitable : Option Bool
  pub blocked_reason : Option Text
  pub clear_blocked_reason : Bool
  pub due_at : Option ℤ
  pub clear_due_at : Bool
  pub github_issue_url : Option Text
  pub clear_github_issue_url : Bool
  pub brief_markdown : Option Text
  pub clear_brief_markdown : Bool

pub record MemoryFields : Type 0 where
  pub primary_event : Bool
  pub happened_at : ℤ

pub record ArtifactFields : Type 0 where
  pub kind : Text
  pub title : Option Text
  pub content : Text
  pub uri : Option Text
  pub media_type : Option Text
  pub language : Option Text
  pub captured_at : Option ℤ
  pub metadata : Value

pub record SourceFields : Type 0 where
  pub source_kind : Text
  pub canonical_uri : Option Text
  pub byline : Option Text
  pub publisher : Option Text
  pub published_at : Option ℤ
  pub published_at_precision : Option Text
  pub last_accessed_at : Option ℤ
  pub original_language : Option Text
  pub original_media_type : Option Text
  pub original_artifact_reference : Option Text
  pub content : Option ArtifactFields

pub record CreateObject : Type 0 where
  pub client_id : Text
  pub kind : Text
  pub title : Text
  pub description : Text
  pub supporting_message_ids : List ℕ
  pub entity_kind : Option Text
  pub task : Option TaskFields
  pub memory : Option MemoryFields
  pub source : Option SourceFields

pub record UpdateObject : Type 0 where
  pub object_id : ℕ
  pub expected_revision : ℤ
  pub title : Option Text
  pub description : Option Text
  pub supporting_message_ids : List ℕ
  pub task : Option TaskPatch

pub data ObjectRef : Type 0 where
  existing : ℕ → ObjectRef
  created : Text → ObjectRef

pub record CreateConnection : Type 0 where
  pub source : ObjectRef
  pub kind : Text
  pub target : ObjectRef
  pub description : Text
  pub supporting_message_ids : List ℕ

pub record UpdateConnection : Type 0 where
  pub connection_id : ℕ
  pub expected_revision : ℤ
  pub kind : Option Text
  pub description : Option Text
  pub supporting_message_ids : List ℕ

pub record ReconciliationPlan : Type 0 where
  pub create_objects : List CreateObject
  pub update_objects : List UpdateObject
  pub create_connections : List CreateConnection
  pub update_connections : List UpdateConnection
