-- ===== src/ExternalActions/Tests/Replies.antt =====
-- Requests to the ledger that are made twice, and metadata that is taken or refused.
use centaur_context.Common.{
  ℕ, ◌≡◌, refl, ◌≤◌, true, false, List, [], ◌∷◌, some, find, ok, err, if◌then◌else◌,
}
use centaur_context.Common.Integer.{pos}
use centaur_context.Errors.{plain, bad_request, conflict_with}
use centaur_context.Text.{Text, lit, text_eq}
use centaur_context.Json.{Value, null, string, int, float, object, Fields, end, field, jsonb}
use centaur_context.Runs.{Run, Printer, Table}
use centaur_context.ExternalActions.Metadata.{safe_metadata}
use centaur_context.ExternalActions.Metadata.Privacy.{IsPrivate, safe_metadata-IsPrivate}
use centaur_context.ExternalActions.Reserve.{reserve_again}
use centaur_context.ExternalActions.Retry.{append_event_again}
use centaur_context.ExternalActions.{append_event, is_actor}
use centaur_context.ExternalActions.Reservations.{reserve}
use centaur_context.ExternalActions.Requests.{ExternalAction, ReserveRequest, is_action}
use centaur_context.ExternalActions.Tests.{
  printer, encoded_len, anything, sender, request, event, reserved, with_event_by, ledger_code,
}

abbrev counted : Fields
counted = field (lit "recipient_count") (int (pos 3)) end

counted_is_safe : safe_metadata encoded_len counted ≡ ok (object counted)
unfolding ledger_code
counted_is_safe = refl

address_is_refused :
    safe_metadata encoded_len (field (lit "note") (string (lit "a@b")) end)
    ≡ err (bad_request (plain "metadata string is not privacy-safe"))
unfolding ledger_code
address_is_refused = refl

safe_metadata-IsPrivate_example :
    (object counted ≡ object counted)
    × (encoded_len (object counted) ≤ 16_384)
    × IsPrivate (object counted)
safe_metadata-IsPrivate_example =
    safe_metadata-IsPrivate encoded_len counted (object counted) counted_is_safe

abbrev action : List Value → Text → ℕ → ExternalAction
action trace state updated_at = record {
  id = 7;
  provider = lit "mail";
  action_kind = lit "send";
  external_key = lit "issue:7";
  state = state;
  metadata = object counted;
  trace = trace;
  created_at = 1;
  updated_at = updated_at;
}

reserved_first :
    reserve printer encoded_len anything 1 7 sender request []
    ≡ (reserved, ok (action [] (lit "reserved") 1, false))
unfolding ledger_code
reserved_first = refl

counted_is_kept : jsonb printer.jsonb_float (object counted) ≡ object counted
unfolding ledger_code
counted_is_kept = refl

-- 1e16 is kept as 10000000000000000, which reads back as an integer.
abbrev keep_decimal : Text → Value
keep_decimal t = if text_eq t (lit "1e16") then int (pos 10_000_000_000_000_000) else float t

abbrev decimal : Printer
decimal = record printer { jsonb_float = keep_decimal }

abbrev large : ReserveRequest
large = record request { metadata = field (lit "recipient_count") (float (lit "1e16")) end }

abbrev large_reserved : Table
large_reserved = (reserve decimal encoded_len anything 1 7 sender large []).0

large_retry : reserve decimal encoded_len anything 5 9 sender large large_reserved ≡ (
  large_reserved,
  err (conflict_with (plain "idempotency key belongs to a different External action")),
)
unfolding ledger_code
large_retry = refl

reserve_again_example :
    reserve printer encoded_len anything 5 9 sender request reserved
    ≡ (reserved, ok (action [] (lit "reserved") 1, true))
reserve_again_example =
    reserve_again printer encoded_len anything sender 1 7 5 9 request [] reserved
      (action [] (lit "reserved") 1) false counted_is_kept reserved_first

abbrev preview_entry : Value
preview_entry = object (
    field (lit "actor_id") (string (lit "sender")) (
      field (lit "actor_type") (string (lit "agent")) (
        field (lit "created_at") null (
          field (lit "entry_type") (string (lit "external_action_event")) (
            field (lit "event_type") (string (lit "previewed")) (
              field (lit "id") null (
                field (lit "idempotency_key") (string (lit "k1"))
                  (field (lit "metadata") (object end) end))))))))

abbrev previewed : Table
previewed = with_event_by sender (lit "k1") (lit "previewed") reserved

previewed_first :
    append_event printer encoded_len anything 2 null null sender 7
      (event (lit "k1") (lit "previewed"))
      reserved
    ≡ (previewed, ok (action (preview_entry ∷ []) (lit "previewed") 2, false))
unfolding ledger_code
previewed_first = refl

owned_by_sender :
    (row : Run)
    → find (is_action 7) reserved ≡ some row
    → is_actor printer encoded_len sender row ≡ true
unfolding ledger_code
owned_by_sender row h = owned row (actor_of row h)
  where
    actor_of :
        (row : Run)
        → find (is_action 7) reserved ≡ some row
        → (row.actor_type ≡ lit "agent") × (row.actor_id ≡ lit "sender")
    actor_of row h = (cc, cc)

    owned :
        (row : Run)
        → (row.actor_type ≡ lit "agent") × (row.actor_id ≡ lit "sender")
        → is_actor printer encoded_len sender row ≡ true
    owned row (s, t) = rw (s, t) refl

append_event_again_example :
    append_event printer encoded_len anything 6 null null sender 7
      (event (lit "k1") (lit "previewed"))
      previewed
    ≡ (previewed, ok (action (preview_entry ∷ []) (lit "previewed") 2, true))
append_event_again_example =
    append_event_again printer encoded_len anything sender 7 2 6 null null null null
      (event (lit "k1") (lit "previewed")) reserved previewed
      (action (preview_entry ∷ []) (lit "previewed") 2) false owned_by_sender previewed_first
