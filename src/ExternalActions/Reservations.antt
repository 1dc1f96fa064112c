-- ===== src/ExternalActions/Reservations.antt =====
-- src/external_actions.rs: the handler `reserve`.
use Prim.Native.String.{String}
use centaur_context.Common.{
  ℕ, Bool, true, false, not, ◌&&◌, Option, none, some, find, any, if◌then◌else◌, Result, ok, err,
  ◌>>=◌, ◌>>◌,
}
use centaur_context.Errors.{plain, IntakeError, conflict_with, DbError, intake_error}
use centaur_context.Text.{lit, text_eq}
use centaur_context.Json.{Value, string, object, end, field, value_eq, jsonb}
use centaur_context.Runs.{Run, Printer, arrow_text, sql_eq, Table, insert_run, new_run}
use centaur_context.ExternalActions.Metadata.{safe_metadata}
use centaur_context.ExternalActions.Requests.{
  Actor, Answer, ExternalAction, Reservation, ReserveRequest, bounded_text, bounded_token,
  is_external, version,
}
use centaur_context.ExternalActions.{get_action, idempotent_run, is_actor, refuse, reply}

module _ (p : Printer) (encoded_len : Value → ℕ) where
  unfoldable pub check_reservation : ReserveRequest → Result IntakeError Reservation
  check_reservation request = do
    version request.version
    key ← bounded_token request.idempotency_key "idempotency_key" 128
    provider ← bounded_token request.provider "provider" 80
    action_kind ← bounded_token request.action_kind "action_kind" 80
    external_key ← bounded_token request.external_key "external_key" 128
    title ← bounded_text request.title "title" 200
    summary ← bounded_text request.summary "summary" 500
    metadata ← safe_metadata encoded_len request.metadata
    ok (record {
      key = key;
      provider = provider;
      action_kind = action_kind;
      external_key = external_key;
      title = title;
      summary = summary;
      metadata = metadata;
    })

  abbrev pub has_identity : Reservation → Run → Bool
  has_identity q r =
      is_external r
      && sql_eq (arrow_text p r.input (lit "provider")) q.provider
      && sql_eq (arrow_text p r.input (lit "action_kind")) q.action_kind
      && sql_eq (arrow_text p r.input (lit "external_key")) q.external_key

  abbrev pub is_same_action : Reservation → ExternalAction → Bool
  is_same_action q a =
      text_eq a.provider q.provider
      && text_eq a.action_kind q.action_kind
      && text_eq a.external_key q.external_key
      && value_eq a.metadata q.metadata

  -- The action that is there, if the request agrees with it.
  abbrev pub confirm :
      ℕ → (ExternalAction → Bool) → String → Table → Table × Result IntakeError Answer
  confirm id agrees message runs = (
    runs,
    get_action p encoded_len id runs >>= λ a.
        (if agrees a then ok (a, true) else err (conflict_with (plain message))),
  )

  module _ (allowed : Run → Bool) (now new_id : ℕ) where
    abbrev pub reserved_run : Actor → Reservation → Run
    reserved_run actor q =
        let input = object (
          field (lit "action_kind") (string q.action_kind) (
            field (lit "centaur_execution_id") actor.centaur_execution_id (
              field (lit "centaur_thread_key") actor.centaur_thread_key (
                field (lit "external_key") (string q.external_key) (
                  field (lit "metadata") (jsonb p.jsonb_float q.metadata) (
                    field (lit "provider") (string q.provider) (
                      field (lit "summary") (string q.summary)
                        (field (lit "title") (string q.title) end)))))))) in
        new_run new_id (lit "external_action") (lit "reserved") actor.actor_type actor.actor_id
          q.key input (field (lit "state") (string (lit "reserved")) end) now

    abbrev pub inserted :
        Table → Result DbError (Unit {0} × Table) → Table × Result IntakeError Answer
    inserted runs (err e) = refuse p encoded_len (intake_error e) runs
    inserted runs (ok (_, runs')) = reply p encoded_len new_id false runs'

    abbrev pub by_identity :
        Actor → Reservation → Table → Option Run → Table × Result IntakeError Answer
    by_identity actor q runs none = inserted runs (insert_run allowed (reserved_run actor q) runs)
    by_identity actor q runs (some r) =
        if not (is_actor p encoded_len actor r)
        then refuse p encoded_len
            (conflict_with (plain "external identity belongs to a different principal")) runs
        else confirm r.id (λ a. value_eq a.metadata q.metadata)
            "external identity has different immutable metadata" runs

    abbrev pub has_key : Reservation → Run → Bool
    has_key q r = is_external r && text_eq r.idempotency_key q.key

    abbrev pub by_key : Actor → Reservation → Table → Option Run → Table × Result IntakeError Answer
    by_key actor q runs (some r) =
        confirm r.id (is_same_action q) "idempotency key belongs to a different External action"
          runs
    by_key actor q runs none =
        if any (has_key q) runs
        then refuse p encoded_len
            (conflict_with (plain "idempotency key belongs to a different principal")) runs
        else by_identity actor q runs (find (has_identity q) runs)

    abbrev pub on_reservation :
        Actor → Table → Result IntakeError Reservation → Table × Result IntakeError Answer
    on_reservation actor runs (err problem) = refuse p encoded_len problem runs
    on_reservation actor runs (ok q) =
        by_key actor q runs (idempotent_run p encoded_len actor q.key runs)

    unfoldable pub reserve : Actor → ReserveRequest → Table → Table × Result IntakeError Answer
    reserve actor request runs = on_reservation actor runs (check_reservation request)
