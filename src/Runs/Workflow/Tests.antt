-- ===== src/Runs/Workflow/Tests.antt =====
-- A workflow run from its start to its finish, and the theorems at these tables.
use centaur_context.Common.{
  ℕ, ◌≡◌, refl, ◌++◌, Bool, true, false, [], ◌∷◌, none, some, Result, ok, err,
}
use centaur_context.Common.Integer.{pos}
use centaur_context.Errors.{DbError, conflict}
use centaur_context.Text.{Text, lit, text_eq}
use centaur_context.Json.{float, string, object, end, field, get, insert, merge, value_eq, text_lt}
use centaur_context.Runs.{
  Run, Printer, Table, ◌>>=◌, ◌>>◌, update, update_rows, insert_run, insert_if_new, arrow_text,
}
use centaur_context.Runs.History.{Grows}
use centaur_context.Runs.Validation.{WorkflowRunStart, WorkflowRunFinish, WorkflowTraceEntry}
use centaur_context.Runs.Workflow.{
  run_input, start_workflow_run, append_entry, append_workflow_trace, link_child, detail, close_run,
  finish_row, finish_tx, finish_workflow_run,
}
use centaur_context.Runs.Workflow.Life.{workflow-Grows}
use centaur_context.Runs.Workflow.Finish.{finish_again}
use centaur_context.Runs.Workflow.Append.{append_again}

workflow : Unit {0}
unfolding start_workflow_run append_workflow_trace finish_workflow_run run_input append_entry
    link_child detail close_run finish_row finish_tx ◌>>=◌ ◌>>◌ update update_rows insert_run
    insert_if_new arrow_text get insert merge value_eq text_lt text_eq
workflow = tt

abbrev printer : Printer
printer = record {
  uuid_text = λ n. n ∷ [];
  json_text = λ v. [];
  to_value = λ e. object (field (lit "id") (string (e.id ∷ [])) end);
  jsonb_float = float;
}

abbrev anything : Run → Bool
anything r = true

abbrev start : WorkflowRunStart
start = record {
  run_id = 7;
  workflow_name = lit "ingest";
  source_kind = lit "url";
  source_locator = none;
  requested_title = none;
  chat_object_id = none;
}

abbrev entry : WorkflowTraceEntry
entry = record {
  id = 5;
  parent_id = none;
  entry_type = lit "tool_call";
  name = lit "capture";
  status = lit "completed";
  started_at = 1;
  completed_at = 2;
  duration_ms = pos 1;
  component = lit "agent";
  provider = none;
  model_id = none;
  reasoning_effort = none;
  source_execution_id = none;
  input_tokens = none;
  output_tokens = none;
  cache_read_tokens = none;
  reasoning_tokens = none;
  total_tokens = none;
  facts = object end;
}

abbrev ended : Text → WorkflowRunFinish
ended status = record {
  status = status;
  primary_object_id = none;
  child_run_id = none;
  result = object end;
  error = none;
}

abbrev started : Table × Result DbError Run
started = start_workflow_run printer anything 1 (lit "system") (lit "agent") start []

abbrev traced : Table × Result DbError ℕ
traced = append_workflow_trace printer anything 2 7 entry started.0

abbrev finished : Table × Result DbError Run
finished = finish_workflow_run printer anything 3 7 (ended (lit "completed")) traced.0

traced_ok : traced.1 ≡ ok 5
unfolding workflow
traced_ok = refl

restart_conflicts :
    (start_workflow_run printer anything 4 (lit "human") (lit "agent") start started.0).1
    ≡ err conflict
unfolding workflow
restart_conflicts = refl

abbrev row : Run
row = record {
  id = 7;
  parent_run_id = none;
  kind = lit "workflow";
  status = lit "completed";
  actor_type = lit "system";
  actor_id = lit "agent";
  chat_object_id = none;
  primary_object_id = none;
  idempotency_key = lit "workflow:" ++ 7 ∷ [];
  input = run_input start;
  trace = printer.to_value entry ∷ [];
  result = field (lit "summary") (string (lit "Source ingestion is running.")) end;
  consulted_object_ids = [];
  error = none;
  verdict = lit "unreviewed";
  review_notes = none;
  pinned = false;
  reviewed_by = none;
  reviewed_at = none;
  available_at = some 1;
  started_at = some 1;
  completed_at = some 3;
  created_at = 1;
  updated_at = 3;
}

written_row : finished ≡ (row ∷ [], ok row)
unfolding workflow
written_row = refl

finish_again_example :
    (finish_workflow_run printer anything 9 7 (ended (lit "completed")) (row ∷ [])
      ≡ (row ∷ [], ok row))
    × (finish_workflow_run printer anything 9 7 (ended (lit "failed")) (row ∷ [])
        ≡ (row ∷ [], err conflict))
unfolding text_eq
finish_again_example =
    finish_again printer anything 3 9 7 (ended (lit "completed")) (ended (lit "failed")) traced.0
      (row ∷ []) row written_row refl refl

append_again_example : append_workflow_trace printer anything 9 7 entry traced.0 ≡ (traced.0, ok 5)
append_again_example = append_again printer anything 2 7 entry 9 started.0 traced.0 5 named once
  where
    named : arrow_text printer (printer.to_value entry) (lit "id") ≡ some (5 ∷ [])
    named = unfold workflow in refl

    once : append_workflow_trace printer anything 2 7 entry started.0 ≡ (traced.0, ok 5)
    once = unfold workflow in refl

workflow-Grows_example :
    Grows
      (row ∷ [])
      (start_workflow_run printer anything 9 (lit "system") (lit "agent") start (row ∷ [])).0
    × Grows (row ∷ []) (append_workflow_trace printer anything 9 7 entry (row ∷ [])).0
    × Grows
        (row ∷ [])
        (finish_workflow_run printer anything 9 7 (ended (lit "failed")) (row ∷ [])).0
workflow-Grows_example =
    workflow-Grows printer anything 9 (lit "system") (lit "agent") start 7 entry
      (ended (lit "failed")) (row ∷ [])
