-- ===== src/EventMemory/Tests.antt =====
-- src/event_memory.rs: a plan that updates one Memory and one that updates one Event.
use centaur_context.Common.{
  ℕ, ◌==◌, ◌≤◌, ◌≡◌, refl, true, [], ◌∷◌, Option, none, some, length, All, transpose_map,
  same_number, Distinct, if◌then◌else◌, ok, ◌>>=◌, ◌>>◌,
}
use centaur_context.Common.Integer.{pos}
use centaur_context.Text.{
  lit, text_eq, trim, trim_start, is_whitespace, contains, starts_with, has_substring,
  to_ascii_lowercase, ascii_lower, is_ascii_alphanumeric,
}
use centaur_context.Json.{Value, Fields, object, field, end, string, int, null, get}
use centaur_context.Domain.{
  Unicode, required_text, split_word, split_whitespace, join_words, comparable_chars,
  comparable_text, validate_object_description, object_description,
}
use centaur_context.EventTime.{Calendar, validate_time, endpoint}
use centaur_context.EventMemory.{
  text, refs, revision, editable_memory, validate_memory, validate_memories, validate_memory_plan,
  validate_link, validate_links, validate_event, validate_events, validate_event_plan,
}
use centaur_context.EventMemory.Proposals.{EventProposal, MemoryProposal, update}
use centaur_context.EventMemory.Candidates.{targets}
use centaur_context.EventMemory.Memories.{IsJustified, validate_memory_plan-IsJustified}
use centaur_context.EventMemory.Events.{IsGrounded, validate_event_plan-IsGrounded}

plan_code : Unit {0}
unfolding required_text split_word split_whitespace join_words comparable_chars comparable_text
    validate_object_description object_description transpose_map ◌>>=◌ ◌>>◌ text_eq trim trim_start
    is_whitespace contains starts_with has_substring to_ascii_lowercase get text refs revision
    editable_memory validate_memory validate_memories validate_memory_plan validate_link
    validate_links validate_event validate_events validate_event_plan validate_time endpoint
plan_code = tt

abbrev ascii : Unicode
ascii = record {
  to_lowercase = to_ascii_lowercase;
  char_lowercase = λ c. ascii_lower c ∷ [];
  is_alphanumeric = is_ascii_alphanumeric;
}

abbrev timeless : Calendar
timeless = record {
  parse_zone = λ s. none;
  parse_from_rfc3339 = λ s. none;
  offset_in = λ tz t. pos 0;
  is_date = λ y m d. true;
}

abbrev memory_fields : Fields
memory_fields = field (lit "archived_at") null (
    field (lit "created_by_id") (string (lit "context-curator")) (
      field (lit "created_by_type") (string (lit "system")) (
        field (lit "kind") (string (lit "memory")) (
          field (lit "revision") (int (pos 4)) (
            field (lit "updated_by_id") (string (lit "context-memory-dream"))
              (field (lit "updated_by_type") (string (lit "system")) end))))))

abbrev event_fields : Fields
event_fields = field (lit "kind") (string (lit "event")) (field (lit "revision") (int (pos 2)) end)

abbrev store : ℕ → Option Value
store id =
    if id == 8
    then some (object memory_fields)
    else if id == 5
    then some (object event_fields)
    else none

abbrev merged : MemoryProposal
merged = record {
  action = update;
  object_id = some 8;
  expected_revision = some (pos 4);
  title = lit "Reports";
  description = lit "Ana wants weekly reports";
  event_ids = 5 ∷ 6 ∷ [];
  reason = lit "She said so";
}

abbrev meeting : EventProposal
meeting = record {
  object_id = some 5;
  expected_revision = some (pos 2);
  title = lit "Kickoff";
  description = lit "The team met Ana";
  starts_at = none;
  starts_at_precision = none;
  ends_at = none;
  ends_at_precision = none;
  timezone = none;
  evidence_ids = 1 ∷ 2 ∷ [];
  connections = record { target_id = 8; kind = lit "about"; description = lit "Its subject" } ∷ [];
}

memory_accepted : validate_memory_plan ascii 600 (5 ∷ 6 ∷ []) (6 ∷ []) store (merged ∷ []) ≡ ok tt
unfolding plan_code
memory_accepted = refl

event_accepted : validate_event_plan ascii 600 timeless (1 ∷ 2 ∷ []) store (meeting ∷ []) ≡ ok tt
unfolding plan_code
event_accepted = refl

validate_memory_plan-IsJustified_example :
    (length (merged ∷ []) ≤ 20)
    × All (IsJustified (5 ∷ 6 ∷ []) (6 ∷ []) store) (merged ∷ [])
    × Distinct same_number (targets (λ m. m.object_id) (merged ∷ []))
validate_memory_plan-IsJustified_example =
    validate_memory_plan-IsJustified ascii 600 (5 ∷ 6 ∷ []) (6 ∷ []) store (merged ∷ [])
      memory_accepted

validate_event_plan-IsGrounded_example :
    (length (meeting ∷ []) ≤ 20)
    × All (IsGrounded timeless (1 ∷ 2 ∷ []) store) (meeting ∷ [])
    × Distinct same_number (targets (λ e. e.object_id) (meeting ∷ []))
validate_event_plan-IsGrounded_example =
    validate_event_plan-IsGrounded ascii 600 store timeless (1 ∷ 2 ∷ []) (meeting ∷ [])
      event_accepted
