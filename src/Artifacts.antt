-- ===== src/Artifacts.antt =====
-- src/db/artifacts.rs: the windows of an artifact's text. The offset and the limit are those that
-- src/api.rs has checked, which are not negative.
pub mod Windows
mod Tests
use centaur_context.Common.{
  ℕ, ◌+◌, Bool, List, Option, none, some, ltb, length, take, drop, if◌then◌else◌, Result, ok, err,
  ◌>>=◌, ◌>>◌, reject_if, ok_or,
}
use centaur_context.Common.Integer.{ℤ}
use centaur_context.Errors.{unsupported, DbError, not_found, validation}
use centaur_context.Text.{Text, lit}
use centaur_context.Json.{Value}

pub record Artifact : Type 0 where
  pub id : ℕ
  pub object_id : ℕ
  pub kind : Text
  pub title : Option Text
  pub content : Option Text
  pub uri : Option Text
  pub media_type : Option Text
  pub language : Option Text
  pub sha256 : Text
  pub size_bytes : ℤ
  pub capture_outcome : Text
  pub capture_reason : Option Text
  pub expected_size_bytes : Option ℤ
  pub semantic_indexing_enabled : Bool
  pub metadata : Value
  pub supersedes_artifact_id : Option ℕ
  pub captured_at : Option ℤ
  pub created_at : ℤ

pub record ArtifactWindow : Type 0 where
  pub correction : Option Value
  pub content : Artifact
  pub text : Text
  pub offset : ℕ
  pub next_offset : Option ℕ

-- `print` is `i64::to_string`.
unfoldable pub artifact_window : (ℕ → Text) → Artifact → ℕ → ℕ → Result DbError ArtifactWindow
artifact_window print artifact offset limit = do
  body ← ok_or artifact.content not_found
  let total = length body
  reject_if (ltb total offset) (validation (unsupported "offset" (print offset)))
  let text = take limit (drop offset body)
  let end = offset + length text
  ok record {
    correction = none;
    content = artifact;
    text = text;
    offset = offset;
    next_offset = if ltb end total then some end else none;
  }
