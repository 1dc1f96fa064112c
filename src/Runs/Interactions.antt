-- ===== src/Runs/Interactions.antt =====
-- src/runs.rs: traces, links, Slack interactions and the curator's runs. Fresh ids and times that the
-- code draws are arguments, and a JSON time is a value.
pub mod Curation
pub mod Values
pub mod Growth
pub mod Review
pub mod Stale
mod Tests
use centaur_context.Common.{
  ℕ, ◌==◌, ◌++◌, Bool, true, false, not, ◌&&◌, ◌||◌, List, [], ◌∷◌, Option, none, some, is_none,
  ltb, leb, take, find, any, map, if◌then◌else◌, Result, ok, err, ok_or,
}
use centaur_context.Common.Integer.{ℤ, pos, ◌+ℤ◌, checked, i64_bound, eq_ℤ}
use centaur_context.Errors.{DbError, sqlx, not_found, conflict, validation, required}
use centaur_context.Text.{Text, lit, len, trim, is_empty, text_eq}
use centaur_context.Json.{
  Value, int, string, array, object, Fields, end, field, get, insert, merge, as_str, is_null,
  as_object, Items, to_items,
}
use centaur_context.Runs.{
  Run, Printer, arrow_text, sql_eq, same_id, Table, Tx, ◌>>=◌, ◌>>◌, return, fail, ensure, commit,
  select, has_id, update, insert_run, new_run, push_trace, has_entry,
}
use centaur_context.Runs.Workflow.{detail}
use centaur_context.Runs.Interactions.Values.{
  SlackInteractionOpen, affected_key, consult, is_slack, latest, with_element,
}

module _ (p : Printer) (allowed : Run → Bool) (now : ℕ) where
  unfoldable pub set_context : ℕ → Tx (Unit {0})
  set_context run_id runs = if any (has_id run_id) runs then ok (tt, runs) else err not_found

  unfoldable pub link_consulted : ℕ → ℕ → Tx (Unit {0})
  link_consulted run_id object_id = do
    update allowed (has_id run_id) (λ r. record (consult object_id r) { updated_at = now })
    return tt

  unfoldable pub link_affected : ℕ → ℕ → Tx (Unit {0})
  link_affected run_id object_id = do
    update allowed (has_id run_id) (λ r. record r {
      result =
          insert affected_key
            (with_element (string (p.uuid_text object_id)) (get affected_key r.result)) r.result;
      updated_at = now;
    })
    return tt

  abbrev pub is_consulted : Text → Bool
  is_consulted role = text_eq role (lit "consulted") || text_eq role (lit "participant")

  unfoldable pub link_object : ℕ → ℕ → Text → Tx (Unit {0})
  link_object run_id object_id role =
      if is_consulted role then link_consulted run_id object_id else link_affected run_id object_id

  abbrev pub trace_entry : Value → Value → Text → Value → Value
  trace_entry entry_id created_at entry_type facts = object (
      field (lit "created_at") created_at (
        field (lit "entry_type") (string entry_type)
          (field (lit "facts") facts (field (lit "id") entry_id end))))

  unfoldable pub append_trace : Value → Value → ℕ → Text → Value → Tx (Unit {0})
  append_trace entry_id created_at run_id entry_type facts = do
    updated ←
        update allowed (has_id run_id)
          (push_trace (trace_entry entry_id created_at entry_type facts) now)
    ensure (updated == 1) not_found

  abbrev pub get_str : Option Fields → Option Text
  get_str none = none
  get_str (some fs) = text_of (get (lit "id") fs)
    where
      text_of : Option Value → Option Text
      text_of none = none
      text_of (some v) = as_str v

  abbrev pub is_entry_id : Text → Bool
  is_entry_id id = not (is_empty (trim id)) && leb (len id) 500

  unfoldable pub push_named : ℕ → Value → Text → Tx (Unit {0})
  push_named run_id entry id = do
    update allowed (λ r. has_id run_id r && not (has_entry p id r)) (push_trace entry now)
    return tt

  abbrev pub push_new : ℕ → Value → Option Text → Tx (Unit {0})
  push_new run_id entry none = fail (validation (required "run.trace.id"))
  push_new run_id entry (some id) =
      if is_entry_id id
      then push_named run_id entry id
      else fail (validation (required "run.trace.id"))

  unfoldable pub append_external_trace : ℕ → Value → Tx (Unit {0})
  append_external_trace run_id entry = push_new run_id entry (get_str (as_object entry))

  abbrev pub interaction_entry : Text → Text → Text → Text → Value
  interaction_entry id name status description = object (
      field (lit "component") (string (lit "slackbotv2")) (
        field (lit "entry_type") (string (lit "interaction")) (
          field (lit "facts") (object (field (lit "description") (string description) end)) (
            field (lit "id") (string id)
              (field (lit "name") (string name) (field (lit "status") (string status) end))))))

  abbrev pub slack_key : SlackInteractionOpen → Text
  slack_key i =
      lit "slack-turn:"
      ++ i.workspace_id
      ++ lit ":"
      ++ i.channel_id
      ++ lit ":"
      ++ i.thread_id
      ++ lit ":"
      ++ i.interaction_id

  abbrev with_request : Option Value → Fields → Fields
  with_request none fs = fs
  with_request (some message) fs = insert (lit "request_message") message fs

  abbrev pub slack_run : ℕ → SlackInteractionOpen → Run
  slack_run id i =
      let input = with_request i.request_message (
        field (lit "channel_id") (string i.channel_id) (
          field (lit "interaction_id") (string i.interaction_id) (
            field (lit "thread_id") (string i.thread_id) (
              field (lit "title") (string i.title)
                (field (lit "workspace_id") (string i.workspace_id) end))))) in
      let fresh =
        new_run id (lit "slack_interaction") (lit "running") (lit "system") (lit "chat-ingestor")
          (slack_key i) (object input)
          (field (lit "summary") (string (lit "The bot interaction is running.")) end) now in
      record fresh { started_at = some i.started_at }

  abbrev pub open_row : ℕ → SlackInteractionOpen → Option Run → Tx (ℕ × Bool)
  open_row new_id i (some r) = return (r.id, false)
  open_row new_id i none = do
    insert_run allowed (slack_run new_id i)
    append_external_trace new_id (
        interaction_entry (p.uuid_text new_id ++ lit ":interaction-started")
          (lit "interaction started") (lit "completed") (lit "The bot accepted the message."))
    return (new_id, true)

  unfoldable pub open_slack_interaction : ℕ → SlackInteractionOpen → Tx (ℕ × Bool)
  open_slack_interaction new_id i = do
    row ← select (λ r. is_slack r && text_eq r.idempotency_key (slack_key i))
    open_row new_id i row

  unfoldable pub attach_slack_chat : ℕ → ℕ → Tx (Unit {0})
  attach_slack_chat run_id chat_object_id = do
    update allowed (has_id run_id) (λ r. record (consult chat_object_id r) {
      chat_object_id = some chat_object_id;
      updated_at = now;
    })
    return tt

  abbrev pub has_response : Option Value → Bool
  has_response none = false
  has_response (some v) = true

  unfoldable pub record_slack_response_evidence : ℕ → Option Value → Tx (Unit {0})
  record_slack_response_evidence run_id none = return tt
  record_slack_response_evidence run_id (some response) = do
    update allowed
        (λ r. has_id run_id r && not (has_response (get (lit "response_message") r.result)))
        (λ r. record r {
          result = insert (lit "response_message") response r.result;
          updated_at = now;
        })
    return tt

  abbrev or_else : Option ℕ → Option ℕ → Option ℕ
  or_else (some n) m = some n
  or_else none m = m

  abbrev pub first_of : List ℕ → Option ℕ
  first_of [] = none
  first_of (n ∷ ns) = some n

  abbrev pub slack_summary : Text → List ℕ → Text
  slack_summary status affected =
      if text_eq status (lit "failed")
      then lit "The bot interaction failed."
      else if is_none (first_of affected)
      then lit "The bot replied without changing a Context Object."
      else lit "The bot completed the interaction and changed Context Objects."

  abbrev pub ended_slack : Text → Option ℕ → Option Text → List ℕ → Run → Run
  ended_slack status completed_at error affected r = record r {
    status = status;
    primary_object_id = or_else r.primary_object_id (first_of affected);
    error = error;
    result = merge r.result (
        field affected_key (array (to_items (map (λ n. string (p.uuid_text n)) affected)))
          (field (lit "summary") (string (slack_summary status affected)) end));
    completed_at = or_else completed_at (some now);
    updated_at = now;
  }

  unfoldable pub end_slack : ℕ → Text → Option ℕ → Option Text → List ℕ → Tx (Unit {0})
  end_slack run_id status completed_at error affected = do
    update allowed (λ r. has_id run_id r && is_slack r && text_eq r.status (lit "running"))
        (ended_slack status completed_at error affected)
    append_external_trace run_id (
        interaction_entry (p.uuid_text run_id ++ lit ":interaction-finished")
          (lit "interaction finished") status (slack_summary status affected))

  unfoldable pub finish_slack_interaction :
      ℕ → Text → Option ℕ → Option Text → List ℕ → Tx (Unit {0})
  finish_slack_interaction run_id status completed_at error affected =
      if text_eq status (lit "running")
      then return tt
      else end_slack run_id status completed_at error affected

  unfoldable pub latest_slack_run : ℕ → Tx (Option ℕ)
  latest_slack_run chat_object_id runs = ok (
    map_id (
        latest
          (λ r. is_slack r && same_id r.chat_object_id chat_object_id && is_top r.parent_run_id)
          runs),
    runs,
  )
    where
      map_id : Option Run → Option ℕ
      map_id none = none
      map_id (some r) = some r.id

      is_top : Option ℕ → Bool
      is_top none = true
      is_top (some n) = false

  unfoldable pub link_all : ℕ → List ℕ → Tx (Unit {0})
  link_all run_id [] = return tt
  link_all run_id (o ∷ os) = link_object run_id o (lit "consulted") >> link_all run_id os

  unfoldable pub link_curator_candidates : ℕ → List ℕ → Table → Table × Result DbError (Unit {0})
  link_curator_candidates run_id object_ids runs = commit (link_all run_id object_ids) runs
