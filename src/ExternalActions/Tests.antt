-- ===== src/ExternalActions/Tests.antt =====
-- An action from its reservation to its delivery, and the theorems on its history.
mod Replies
use centaur_context.Common.{
  ℕ, ◌≡◌, ◌↔◌, refl, ◌≤◌, Bool, true, false, List, [], ◌∷◌, none, some, length, map, find,
  get_elem?, ok, err, ◌>>=◌, ◌>>◌,
}
use centaur_context.Common.Integer.{pos}
use centaur_context.Errors.{plain, bad_request}
use centaur_context.Text.{
  Text, lit, text_eq, len, trim, trim_start, is_whitespace, contains, has_substring, starts_with,
  ends_with, to_ascii_lowercase,
}
use centaur_context.Json.{
  float, jsonb, jsonb_items, jsonb_fields, Value, null, string, int, object, Fields, end, field,
  get, insert, merge, value_eq, text_lt,
}
use centaur_context.Runs.{Run, Printer, new_run, Table, update, update_rows, insert_run, arrow_text}
use centaur_context.ExternalActions.States.{arm, transition}
use centaur_context.ExternalActions.States.Laws.{Step, transition_lem}
use centaur_context.ExternalActions.Metadata.{
  is_unsafe_key, is_unsafe_string, validate_metadata, safe_metadata,
}
use centaur_context.ExternalActions.Metadata.Privacy.{IsPrivate, safe_metadata-IsPrivate}
use centaur_context.ExternalActions.Reach.{Reaches, nothing, reserves, appends, reached-IsApproved}
use centaur_context.ExternalActions.Reserve.{reserve_again}
use centaur_context.ExternalActions.States.History.{follows, to_preview}
use centaur_context.ExternalActions.Ledger.{event_types}
use centaur_context.ExternalActions.Retry.{append_event_again}
use centaur_context.ExternalActions.{check_event, append_event, get_action, action_of, is_actor}
use centaur_context.ExternalActions.Reservations.{check_reservation, reserve}
use centaur_context.ExternalActions.Requests.{
  Actor, ExternalAction, ReserveRequest, EventRequest, version, bounded_token, bounded_text,
  is_action, is_external,
}

pub ledger_code : Unit {0}
unfolding jsonb jsonb_items jsonb_fields append_event reserve get_action action_of check_event
    check_reservation version bounded_token bounded_text safe_metadata is_unsafe_key
    is_unsafe_string validate_metadata transition arm ◌>>=◌ ◌>>◌ update update_rows insert_run
    arrow_text get insert merge value_eq text_lt text_eq len trim trim_start is_whitespace contains
    has_substring starts_with ends_with to_ascii_lowercase
ledger_code = tt

abbrev pub printer : Printer
printer = record {
  uuid_text = λ n. n ∷ [];
  json_text = λ v. [];
  to_value = λ e. null;
  jsonb_float = float;
}

abbrev pub encoded_len : Value → ℕ
encoded_len v = 2

abbrev pub anything : Run → Bool
anything r = true

abbrev actor_named : Text → Actor
actor_named name = record {
  actor_type = lit "agent";
  actor_id = name;
  centaur_thread_key = null;
  centaur_execution_id = null;
}

abbrev pub sender : Actor
sender = actor_named (lit "sender")

abbrev pub request : ReserveRequest
request = record {
  version = lit "centaur-context-external-action-v2";
  idempotency_key = lit "mail-1";
  provider = lit "mail";
  action_kind = lit "send";
  external_key = lit "issue:7";
  title = lit "Issue 7";
  summary = lit " The weekly issue. ";
  metadata = field (lit "recipient_count") (int (pos 3)) end;
}

abbrev pub event : Text → Text → EventRequest
event key event_type = record {
  version = lit "centaur-context-external-action-v2";
  idempotency_key = key;
  event_type = event_type;
  expected_state = none;
  metadata = end;
}

abbrev pub reserved : Table
reserved = (reserve printer encoded_len anything 1 7 sender request []).0

abbrev pub with_event_by : Actor → Text → Text → Table → Table
with_event_by actor key event_type runs =
    (append_event printer encoded_len anything 2 null null actor 7 (event key event_type) runs).0

abbrev delivered : Table
delivered = with_event_by sender (lit "k5") (lit "delivered") (
    with_event_by sender (lit "k4") (lit "accepted") (
      with_event_by sender (lit "k3") (lit "attempt_started") (
        with_event_by sender (lit "k2") (lit "approved")
          (with_event_by sender (lit "k1") (lit "previewed") reserved))))

delivered_status : map (λ r. r.status) delivered ≡ lit "delivered" ∷ []
unfolding ledger_code
delivered_status = refl

abbrev sent :
    {runs : Table} (key event_type : Text)
    → Reaches printer encoded_len anything runs
    → Reaches printer encoded_len anything (with_event_by sender key event_type runs)
sent key event_type r = appends 2 null null sender 7 (event key event_type) r

abbrev first_of : Run → Table → Run
first_of r [] = r
first_of r (s ∷ runs) = s

abbrev delivered_action : Run
delivered_action = first_of (new_run 0 [] [] [] [] [] null end 0) delivered

is_first : get_elem? delivered 0 ≡ some delivered_action
unfolding ledger_code
is_first = refl

is_outside : is_external delivered_action ≡ true
unfolding ledger_code
is_outside = refl

is_delivered : delivered_action.status ≡ lit "delivered"
unfolding ledger_code
is_delivered = refl

reached-IsApproved_example : follows to_preview (event_types delivered_action.trace) ≡ true
reached-IsApproved_example =
    reached-IsApproved printer encoded_len anything delivered 0 delivered_action
      (sent (lit "k5") (lit "delivered") (
        sent (lit "k4") (lit "accepted") (
          sent (lit "k3") (lit "attempt_started") (
            sent (lit "k2") (lit "approved")
              (sent (lit "k1") (lit "previewed") (reserves 1 7 sender request nothing))))))
      is_first is_outside is_delivered

-- The retry of a principal that does not own the action is applied once more.
abbrev other_actor : Actor
other_actor = actor_named (lit "other")

retry_is_applied :
    map
      (λ r. length r.trace)
      (with_event_by other_actor
        (lit "k1")
        (lit "previewed")
        (with_event_by other_actor (lit "k1") (lit "previewed") reserved))
    ≡ 2 ∷ []
unfolding ledger_code
retry_is_applied = refl

retry_of_owner :
    map
      (λ r. length r.trace)
      (with_event_by sender
        (lit "k1")
        (lit "previewed")
        (with_event_by sender (lit "k1") (lit "previewed") reserved))
    ≡ 1 ∷ []
unfolding ledger_code
retry_of_owner = refl

transition_lem_example :
    (transition (lit "previewed") (lit "approved") ≡ ok (lit "approved"))
    ↔ Step (lit "previewed") (lit "approved") (lit "approved")
transition_lem_example = transition_lem (lit "previewed") (lit "approved") (lit "approved")
