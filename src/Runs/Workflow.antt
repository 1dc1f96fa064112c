-- ===== src/Runs/Workflow.antt =====
-- src/runs.rs: the life of a workflow run: `start_workflow_run`, `append_workflow_trace` and
-- `finish_workflow_run`, with requests that `validate` has accepted.
pub mod Life
pub mod Finish
pub mod Append
mod Tests
use centaur_context.Common.{
  ℕ, zero, suc, ◌≡◌, ◌++◌, Bool, true, false, not, ◌&&◌, ◌||◌, Option, none, some, ◌==◌,
  if◌then◌else◌, is_some, find, Result, ok, err, ok_or,
}
use centaur_context.Errors.{DbError, not_found, conflict, sqlx}
use centaur_context.Text.{Text, lit, text_eq}
use centaur_context.Json.{Value, null, string, object, Fields, end, field, insert, merge, value_eq}
use centaur_context.Runs.{
  Run, Printer, arrow_text, sql_eq, same_id, Table, Tx, ◌>>=◌, ◌>>◌, return, fail, ensure, settle,
  commit, select, has_id, update, insert_if_new, new_run, push_trace, has_entry,
}
use centaur_context.Runs.Validation.{WorkflowRunStart, WorkflowRunFinish, WorkflowTraceEntry}

abbrev pub is_workflow : Run → Bool
is_workflow r = text_eq r.kind (lit "workflow")

-- `json!(option)`
abbrev json_option : Option Text → Value
json_option none = null
json_option (some s) = string s

unfoldable pub run_input : WorkflowRunStart → Value
unfolding insert
run_input i = object (
    insert (lit "requested_title") (json_option i.requested_title) (
      insert (lit "source_locator") (json_option i.source_locator) (
        insert (lit "source_kind") (string i.source_kind)
          (insert (lit "workflow_name") (string i.workflow_name) end))))

abbrev same_option : Option ℕ → Option ℕ → Bool
same_option none none = true
same_option (some m) (some n) = m == n
same_option _ _ = false

-- The detail of a run: the row, or `NotFound`.
abbrev pub detail_of : Option Run → Result DbError Run
detail_of row = ok_or row not_found

module _ (p : Printer) (allowed : Run → Bool) (now : ℕ) where
  abbrev workflow_key : ℕ → Text
  workflow_key id = lit "workflow:" ++ p.uuid_text id

  abbrev started_run : Text → Text → WorkflowRunStart → Run
  started_run actor_type actor_id i =
      let fresh =
        new_run i.run_id (lit "workflow") (lit "running") actor_type actor_id
          (workflow_key i.run_id) (run_input i)
          (field (lit "summary") (string (lit "Source ingestion is running.")) end) now in
      record fresh { chat_object_id = i.chat_object_id; started_at = some now }

  -- The row that is there is the one that this caller asked for.
  abbrev is_same_start : Text → Text → WorkflowRunStart → Run → Bool
  is_same_start actor_type actor_id i r =
      is_workflow r
      && text_eq r.actor_type actor_type
      && text_eq r.actor_id actor_id
      && value_eq r.input (run_input i)
      && same_option r.chat_object_id i.chat_object_id

  abbrev check_start : Text → Text → WorkflowRunStart → Option Run → Result DbError Run
  check_start actor_type actor_id i none = err not_found
  check_start actor_type actor_id i (some r) =
      if is_same_start actor_type actor_id i r then ok r else err conflict

  -- The insertion stays, whatever the check says.
  abbrev read_back :
      Text
      → Text
      → WorkflowRunStart
      → Table × Result DbError (Unit {0})
      → Table × Result DbError Run
  read_back actor_type actor_id i (runs, err e) = (runs, err e)
  read_back actor_type actor_id i (runs, ok _) =
      (runs, check_start actor_type actor_id i (find (has_id i.run_id) runs))

  unfoldable pub start_workflow_run :
      Text → Text → WorkflowRunStart → Table → Table × Result DbError Run
  unfolding run_input
  start_workflow_run actor_type actor_id i runs =
      read_back actor_type actor_id i
        (commit (insert_if_new allowed (started_run actor_type actor_id i)) runs)

  abbrev pub is_workflow_run : ℕ → Run → Bool
  is_workflow_run id r = has_id id r && is_workflow r

  -- The answer if no row took the entry.
  abbrev pub entry_status : WorkflowTraceEntry → Option Run → Tx ℕ
  entry_status entry none = fail not_found
  entry_status entry (some r) =
      if has_entry p (p.uuid_text entry.id) r then return entry.id else fail conflict

  abbrev pub after_update : ℕ → WorkflowTraceEntry → ℕ → Tx ℕ
  after_update run_id entry zero = do row ← select (is_workflow_run run_id); entry_status entry row
  after_update run_id entry (suc _) = return entry.id

  unfoldable pub append_entry : ℕ → WorkflowTraceEntry → Tx ℕ
  append_entry run_id entry = do
    changed ←
        update allowed (λ r. is_workflow_run run_id r && not (has_entry p (p.uuid_text entry.id) r))
          (push_trace (p.to_value entry) now)
    after_update run_id entry changed

  unfoldable pub append_workflow_trace : ℕ → WorkflowTraceEntry → Table → Table × Result DbError ℕ
  append_workflow_trace run_id entry runs = commit (append_entry run_id entry) runs

  abbrev is_unclaimed : ℕ → Option ℕ → Bool
  is_unclaimed run_id none = true
  is_unclaimed run_id (some parent) = parent == run_id

  -- The child run that a finish may claim.
  abbrev pub is_claimable : ℕ → ℕ → Run → Bool
  is_claimable run_id child r =
      has_id child r
      && text_eq r.kind (lit "intake")
      && sql_eq (arrow_text p r.input (lit "batch_id")) (workflow_key run_id)
      && is_unclaimed run_id r.parent_run_id

  unfoldable pub link_child : ℕ → Option ℕ → Tx (Unit {0})
  link_child run_id none = return tt
  link_child run_id (some child) = do
    linked ←
        update allowed (is_claimable run_id child)
          (λ r. record r { parent_run_id = some run_id; updated_at = now })
    ensure (linked == 1) conflict

  -- `as_object_mut().expect(…)`: `validate` has seen an object.
  abbrev fields_of : Value → Fields
  fields_of (object fs) = fs
  fields_of _ = end

  abbrev with_child : Option ℕ → Fields → Fields
  with_child none fs = fs
  with_child (some child) fs = insert (lit "child_run_id") (string (p.uuid_text child)) fs

  abbrev pub finished : WorkflowRunFinish → Run → Run
  finished i r = record r {
    status = i.status;
    primary_object_id = i.primary_object_id;
    result = merge r.result (with_child i.child_run_id (fields_of i.result));
    error = i.error;
    completed_at = some now;
    updated_at = now;
  }

  abbrev pub read_run : ℕ → Option Run → Tx Run
  read_run run_id none = fail not_found
  read_run run_id (some r) = return r

  unfoldable pub detail : ℕ → Tx Run
  detail run_id = do row ← select (has_id run_id); read_run run_id row

  unfoldable pub close_run : ℕ → WorkflowRunFinish → Tx Run
  close_run run_id i = do
    link_child run_id i.child_run_id
    update allowed (has_id run_id) (finished i)
    detail run_id

  -- The row that the finish locks decides what is done.
  unfoldable pub finish_row : ℕ → WorkflowRunFinish → Option Run → Tx Run
  finish_row run_id i none = fail not_found
  finish_row run_id i (some r) =
      if not (is_workflow r)
      then fail conflict
      else if text_eq r.status (lit "running")
      then close_run run_id i
      else if text_eq r.status i.status
      then detail run_id
      else fail conflict

  unfoldable pub finish_tx : ℕ → WorkflowRunFinish → Tx Run
  finish_tx run_id i = do row ← select (has_id run_id); finish_row run_id i row

  unfoldable pub finish_workflow_run : ℕ → WorkflowRunFinish → Table → Table × Result DbError Run
  finish_workflow_run run_id i runs = commit (finish_tx run_id i) runs
