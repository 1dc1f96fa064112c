-- ===== src/ExternalActions.antt =====
-- src/external_actions.rs: the ledger of actions on outside providers. An action is a row of `runs`
-- whose status is its state and whose trace holds its events. The advisory locks of the handlers
-- make each of them one step on the table; `actor` is what the authentication left.
pub mod Reservations
pub mod Requests
pub mod States
pub mod Metadata
pub mod Ledger
pub mod Audit
pub mod Reach
pub mod Rows
pub mod Reserve
pub mod Retry
mod Tests
use Prim.Native.String.{String}
use centaur_context.Common.{
  ℕ, ◌+◌, ◌==◌, ◌++◌, Bool, true, false, not, ◌&&◌, ◌||◌, List, [], ◌∷◌, Option, none, some, ltb,
  find, any, all, if◌then◌else◌, Result, ok, err, ◌>>=◌, ◌>>◌, reject_if, ok_or,
}
use centaur_context.Errors.{
  Message, plain, about, IntakeError, bad_request, conflict_with, internal, database, DbError,
  intake_error,
}
use centaur_context.Text.{Text, lit, len, trim, is_empty, text_eq, is_ascii_alphanumeric}
use centaur_context.Json.{
  Value, null, string, object, Fields, end, field, get, as_object, merge, value_eq, jsonb,
}
use centaur_context.Runs.{
  Run, Printer, arrow_text, sql_eq, Table, insert_run, update, new_run, has_id,
}
use centaur_context.ExternalActions.States.{transition}
use centaur_context.ExternalActions.Metadata.{safe_metadata}
use centaur_context.ExternalActions.Requests.{
  Actor, Answer, Event, EventRequest, ExternalAction, Reservation, ReserveRequest, bounded_text,
  bounded_token, is_action, is_external, version,
}

module _ (p : Printer) (encoded_len : Value → ℕ) where
  -- `query_as` fails on a NULL column.
  unfoldable pub action_of : Run → Result IntakeError ExternalAction
  unfolding arrow_text get
  action_of r = do
    provider ← ok_or (arrow_text p r.input (lit "provider")) database
    action_kind ← ok_or (arrow_text p r.input (lit "action_kind")) database
    external_key ← ok_or (arrow_text p r.input (lit "external_key")) database
    fields ← ok_or (as_object r.input) database
    metadata ← ok_or (get (lit "metadata") fields) database
    ok (record {
      id = r.id;
      provider = provider;
      action_kind = action_kind;
      external_key = external_key;
      state = r.status;
      metadata = metadata;
      trace = r.trace;
      created_at = r.created_at;
      updated_at = r.updated_at;
    })

  unfoldable pub get_action : ℕ → Table → Result IntakeError ExternalAction
  get_action id runs = do
    row ← ok_or (find (is_action id) runs) (bad_request (plain "External action not found"))
    action_of row

  -- The reply of a handler that leaves this table.
  abbrev pub reply : ℕ → Bool → Table → Table × Result IntakeError Answer
  reply id idempotent runs = (runs, get_action id runs >>= λ action. ok (action, idempotent))

  abbrev pub refuse : IntakeError → Table → Table × Result IntakeError Answer
  refuse e runs = (runs, err e)

  abbrev pub is_actor : Actor → Run → Bool
  is_actor actor r = text_eq r.actor_type actor.actor_type && text_eq r.actor_id actor.actor_id

  abbrev pub has_event_key : Text → Run → Bool
  has_event_key key r =
      any (λ entry. sql_eq (arrow_text p entry (lit "idempotency_key")) key) r.trace

  abbrev pub owns_key : Actor → Text → Run → Bool
  owns_key actor key r =
      is_external r && is_actor actor r && (text_eq r.idempotency_key key || has_event_key key r)

  abbrev pub idempotent_run : Actor → Text → Table → Option Run
  idempotent_run actor key runs = find (owns_key actor key) runs

  unfoldable pub check_event : EventRequest → Result IntakeError Event
  check_event request = do
    version request.version
    key ← bounded_token request.idempotency_key "idempotency_key" 128
    event_type ← bounded_token request.event_type "event_type" 80
    metadata ← safe_metadata encoded_len request.metadata
    ok (record {
      key = key;
      event_type = event_type;
      expected_state = request.expected_state;
      metadata = metadata;
    })

  abbrev pub event_entry : Value → Value → Actor → Event → Value
  event_entry entry_id created_at actor e = object (
      field (lit "actor_id") (string actor.actor_id) (
        field (lit "actor_type") (string actor.actor_type) (
          field (lit "created_at") created_at (
            field (lit "entry_type") (string (lit "external_action_event")) (
              field (lit "event_type") (string e.event_type) (
                field (lit "id") entry_id (
                  field (lit "idempotency_key") (string e.key)
                    (field (lit "metadata") (jsonb p.jsonb_float e.metadata) end))))))))

  abbrev terminal_states : List Text
  terminal_states = lit "delivered" ∷ lit "suppressed" ∷ lit "failed" ∷ []

  module _ (allowed : Run → Bool) (now : ℕ) (created_at entry_id : Value) where
    abbrev pub with_event : Text → Value → Run → Run
    with_event next entry r = record r {
      status = next;
      trace = r.trace ++ entry ∷ [];
      result = merge r.result (field (lit "state") (string next) end);
      completed_at = if any (text_eq next) terminal_states then some now else r.completed_at;
      updated_at = now;
    }

    abbrev pub written : ℕ → Table → Result DbError (ℕ × Table) → Table × Result IntakeError Answer
    written run_id runs (err e) = refuse (intake_error e) runs
    written run_id runs (ok (_, runs')) = reply run_id false runs'

    abbrev pub step_to :
        Actor → ℕ → Event → Table → Result IntakeError Text → Table × Result IntakeError Answer
    step_to actor run_id e runs (err problem) = refuse problem runs
    step_to actor run_id e runs (ok next) = written run_id runs (
        update allowed (is_action run_id)
          (with_event next (event_entry entry_id created_at actor e)) runs)

    abbrev pub is_unexpected : Option Text → Text → Bool
    is_unexpected none state = false
    is_unexpected (some expected) state = not (text_eq expected state)

    abbrev pub next_state : Event → Run → Result IntakeError Text
    next_state e row = do
      current ← action_of row
      reject_if (is_unexpected e.expected_state current.state)
          (conflict_with (plain "External action state changed"))
      transition current.state e.event_type

    abbrev pub apply_event :
        Actor → ℕ → Event → Table → Option Run → Table × Result IntakeError Answer
    apply_event actor run_id e runs none =
        refuse (bad_request (plain "External action not found")) runs
    apply_event actor run_id e runs (some row) = step_to actor run_id e runs (next_state e row)

    abbrev pub resolve_event :
        Actor → ℕ → Event → Table → Option Run → Table × Result IntakeError Answer
    resolve_event actor run_id e runs (some existing) =
        if existing.id == run_id
        then reply run_id true runs
        else refuse (conflict_with (plain "idempotency key belongs to a different External action"))
            runs
    resolve_event actor run_id e runs none =
        apply_event actor run_id e runs (find (is_action run_id) runs)

    abbrev pub on_event :
        Actor → ℕ → Table → Result IntakeError Event → Table × Result IntakeError Answer
    on_event actor run_id runs (err problem) = refuse problem runs
    on_event actor run_id runs (ok e) =
        resolve_event actor run_id e runs (idempotent_run actor e.key runs)

    unfoldable pub append_event :
        Actor → ℕ → EventRequest → Table → Table × Result IntakeError Answer
    append_event actor run_id request runs = on_event actor run_id runs (check_event request)
