-- ===== src/Curator/Tests.antt =====
-- src/curator.rs: a plan of one Memory, through the filter and the checks.
use centaur_context.Common.{
  ℕ, ◌==◌, ◌≡◌, refl, true, false, List, [], ◌∷◌, Option, none, some, All, if◌then◌else◌, ok, ◌>>=◌,
  ◌>>◌,
}
use centaur_context.Common.Integer.{pos}
use centaur_context.Text.{
  Text, lit, text_eq, trim, trim_start, is_whitespace, contains, starts_with, ends_with,
  has_substring, to_ascii_lowercase, ascii_lower, is_ascii_alphanumeric,
}
use centaur_context.Json.{text_lt}
use centaur_context.Domain.{
  Unicode, required_text, allowed, split_word, split_whitespace, join_words, comparable_chars,
  comparable_text, validate_object_description, object_description,
}
use centaur_context.Domain.Choice.{IsSettled}
use centaur_context.Curator.{
  connection_kinds, validate_reference, validate_object, validate_objects, validate_connection,
  validate_connections, validate_plan,
}
use centaur_context.Curator.Plans.{
  CreateObject, CreateConnection, existing, created, ReconciliationPlan,
}
use centaur_context.Curator.Evidence.{
  MessageEvidence, split_words, is_request_framed_memory, is_object_creation_report,
  is_memory_noise, is_workflow_request, evidence_of, validate_grounds,
  validate_human_grounded_objects, insert_sorted, drop_disallowed_worker_creates,
  validate_message_refs,
}
use centaur_context.Curator.Commit.{
  View, commit_endpoint_kind, validate_endpoints, validate_all_endpoints, validate_commit_policy,
  validate_commit,
}
use centaur_context.Curator.Accepted.{IsAppendOnly, validate_plan-IsAppendOnly}
use centaur_context.Curator.Again.{validate_plan_idem}
use centaur_context.Curator.Filter.{IsFiltered, left_by, drop_disallowed_worker_creates_lem}
use centaur_context.Curator.Grounds.{IsCommittable, validate_commit-IsCommittable}

curator_code : Unit {0}
unfolding required_text allowed split_word split_whitespace join_words comparable_chars
    comparable_text validate_object_description object_description ◌>>=◌ ◌>>◌ text_eq trim
    trim_start is_whitespace contains starts_with ends_with has_substring to_ascii_lowercase text_lt
    validate_reference validate_object validate_objects validate_connection validate_connections
    validate_plan split_words is_request_framed_memory is_object_creation_report is_memory_noise
    is_workflow_request evidence_of validate_grounds validate_human_grounded_objects insert_sorted
    drop_disallowed_worker_creates validate_message_refs commit_endpoint_kind validate_endpoints
    validate_all_endpoints validate_commit_policy validate_commit
curator_code = tt

abbrev ascii : Unicode
ascii = record {
  to_lowercase = to_ascii_lowercase;
  char_lowercase = λ c. ascii_lower c ∷ [];
  is_alphanumeric = is_ascii_alphanumeric;
}

abbrev choice : Text → Text → List ℕ → CreateObject
choice client title ids = record {
  client_id = client;
  kind = lit "memory";
  title = title;
  description = lit "Ana prefers weekly reports";
  supporting_message_ids = ids;
  entity_kind = none;
  task = none;
  memory = some record { primary_event = true; happened_at = pos 5 };
  source = none;
}

abbrev origin : Text → List ℕ → CreateConnection
origin client ids = record {
  source = created client;
  kind = lit "Derived_From";
  target = existing 7;
  description = lit "Said in the chat";
  supporting_message_ids = ids;
}

abbrev proposed : ReconciliationPlan
proposed = record {
  create_objects = choice (lit " m1 ") (lit "Reports") (1 ∷ []) ∷ [];
  update_objects = [];
  create_connections = origin (lit "m1") (1 ∷ []) ∷ [];
  update_connections = [];
}

abbrev normal : ReconciliationPlan
normal = record proposed {
  create_objects = choice (lit "m1") (lit "Reports") (1 ∷ []) ∷ [];
  create_connections = record (origin (lit "m1") (1 ∷ [])) { kind = lit "derived_from" } ∷ [];
}

abbrev said : MessageEvidence
said = record { id = 1; sender_kind = lit "human"; content = lit "I prefer weekly reports" }

abbrev answered : MessageEvidence
answered = record { id = 2; sender_kind = lit "agent"; content = lit "Noted" }

abbrev window : ℕ → Option MessageEvidence
window id = if id == 1 then some said else if id == 2 then some answered else none

abbrev view : View
view = record {
  chat = 7;
  consulted = [];
  kind_of = λ id. if id == 7 then some (lit "chat") else none;
}

-- A plan with a second Memory, which only an agent's message supports.
abbrev mixed : ReconciliationPlan
mixed = record proposed {
  create_objects =
      choice (lit "m1") (lit "Reports") (1 ∷ [])
      ∷ choice (lit "m2") (lit "Notes") (1 ∷ 2 ∷ [])
      ∷ [];
  create_connections = origin (lit "m1") (1 ∷ []) ∷ origin (lit "m2") (1 ∷ 2 ∷ []) ∷ [];
}

abbrev left : ReconciliationPlan
left = record mixed {
  create_objects = choice (lit "m1") (lit "Reports") (1 ∷ []) ∷ [];
  create_connections = origin (lit "m1") (1 ∷ []) ∷ [];
}

plan_accepted : validate_plan ascii 600 proposed ≡ ok normal
unfolding curator_code
plan_accepted = refl

commit_accepted : validate_commit ascii 600 false window (1 ∷ 2 ∷ []) view proposed ≡ ok normal
unfolding curator_code
commit_accepted = refl

drops_second :
    drop_disallowed_worker_creates ascii false (said ∷ answered ∷ []) mixed ≡ (left, lit "m2" ∷ [])
unfolding curator_code
drops_second = refl

kinds-IsSettled : All (IsSettled ascii) (lit "memory" ∷ connection_kinds)
unfolding curator_code
kinds-IsSettled = (refl, (refl, (refl, (refl, (refl, (refl, tt))))))

validate_plan-IsAppendOnly_example : IsAppendOnly normal
validate_plan-IsAppendOnly_example =
    validate_plan-IsAppendOnly ascii 600 proposed normal plan_accepted

validate_plan_idem_example : validate_plan ascii 600 normal ≡ ok normal
validate_plan_idem_example =
    validate_plan_idem ascii 600 kinds-IsSettled proposed normal plan_accepted

validate_commit-IsCommittable_example : IsCommittable ascii false window (1 ∷ 2 ∷ []) view normal
validate_commit-IsCommittable_example =
    validate_commit-IsCommittable ascii 600 false window (1 ∷ 2 ∷ []) view proposed normal
      commit_accepted

drop_disallowed_worker_creates_lem_example :
    IsFiltered ascii false
      (said ∷ answered ∷ [])
      mixed
      (left_by ascii false (said ∷ answered ∷ []) mixed)
      (drop_disallowed_worker_creates ascii false (said ∷ answered ∷ []) mixed).1
drop_disallowed_worker_creates_lem_example =
    drop_disallowed_worker_creates_lem ascii false (said ∷ answered ∷ []) mixed
