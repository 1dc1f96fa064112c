-- ===== src/Artifacts/Tests.antt =====
-- src/db/artifacts.rs: a text of five characters in windows of two.
use centaur_context.Common.{◌≡◌, refl, true, suc, [], none, some, length, arith, ok}
use centaur_context.Common.Integer.{pos}
use centaur_context.Text.{lit}
use centaur_context.Json.{null}
use centaur_context.Artifacts.{Artifact}
use centaur_context.Artifacts.Windows.{reads, reads_lem}

abbrev note : Artifact
note = record {
  id = 1;
  object_id = 2;
  kind = lit "text";
  title = none;
  content = some (lit "Hello");
  uri = none;
  media_type = none;
  language = none;
  sha256 = lit "00";
  size_bytes = pos 5;
  capture_outcome = lit "complete";
  capture_reason = none;
  expected_size_bytes = none;
  semantic_indexing_enabled = true;
  metadata = null;
  supersedes_artifact_id = none;
  captured_at = none;
  created_at = pos 0;
}

reads_lem_example : reads (λ n. []) note 2 (suc (length (lit "Hello"))) 0 ≡ ok (lit "Hello")
reads_lem_example = reads_lem (λ n. []) note 2 (lit "Hello") refl (omega arith)
