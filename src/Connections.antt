-- ===== src/Connections.antt =====
-- src/db/connections.rs: the writes of connections, on the tables of connections and of events, and
-- the unique indexes of migrations/0017_consolidated_schema.sql on them: `sqlx` is a row that an
-- index refuses, or one that is not there.
pub mod Assertions
pub mod Tables
pub mod Changes
pub mod Merge
pub mod Written
pub mod Retry
pub mod Triples
pub mod Keys
pub mod Effects
pub mod Sound
pub mod Writes
mod Tests
use Prim.Native.String.{String}
use centaur_context.Common.{
  ℕ, ◌+◌, ◌==◌, Bool, true, false, not, ◌&&◌, ◌||◌, List, [], ◌∷◌, ◌++◌, Option, none, some, any,
  find, is_none, is_some, if◌then◌else◌, Result, ok, err, ◌>>=◌, ◌>>◌, reject_if, ok_or,
}
use centaur_context.Errors.{plain, DbError, invalid, sqlx, not_found, conflict}
use centaur_context.Text.{Text, lit, text_eq}
use centaur_context.Json.{
  Value, Fields, end, field, string, array, object, get, insert, remove, items, to_items, as_array,
  as_object, map_is_empty, value_eq,
}
use centaur_context.Connections.Tables.{
  Connection, ConnectionState, Event, NewConnection, ObjectRow, Writer,
}
use centaur_context.Connections.Assertions.{assertion, merge_connection_assertion}

-- `idempotent_entity`
abbrev same_key : Option Text → Text → Bool
same_key none key = false
same_key (some k) key = text_eq k key

abbrev pub has_key : Writer → Text → Event → Bool
has_key writer key event =
    text_eq event.actor_type writer.actor_type
    && text_eq event.actor_id writer.actor_id
    && same_key event.idempotency_key key

abbrev pub idempotent_entity : Writer → Text → ConnectionState → Option ℕ
idempotent_entity writer key state = elim (find (has_key writer key) state.events) [
  | none ↦ none
  | some event ↦ some event.target_id
]

abbrev is_live : Option ObjectRow → Bool
is_live none = false
is_live (some row) = not row.archived

abbrev is_theme : Option ObjectRow → Bool
is_theme none = false
is_theme (some row) = text_eq row.kind (lit "theme")

unfoldable pub validate_connection_endpoints :
    (ℕ → Option ObjectRow) → ℕ → Text → ℕ → Result DbError (Unit {0})
unfolding ◌>>◌
validate_connection_endpoints objects source kind target =
    if not (text_eq kind (lit "themed"))
    then ok tt
    else reject_if (not (is_live (objects source)) || not (is_live (objects target)))
        (invalid (plain "themed connections require active source and target Objects"))
      >> reject_if (is_theme (objects source) || not (is_theme (objects target)))
          (invalid (plain "themed connections must point from a non-Theme Object to a Theme"))

abbrev pub is_active : Connection → Bool
is_active c = is_none c.archived_at

abbrev pub joins : ℕ → Text → ℕ → Connection → Bool
joins source kind target c =
    c.source_object_id == source
    && text_eq c.kind kind
    && c.target_object_id == target
    && is_active c

abbrev pub connection_at : ℕ → ConnectionState → Option Connection
connection_at id state = find (λ c. c.id == id) state.connections

abbrev pub put_connection : Connection → List Connection → List Connection
put_connection c [] = []
put_connection c (d ∷ ds) =
    let rest = put_connection c ds in if d.id == c.id then c ∷ ds else d ∷ rest

-- `insert_event`, less the run that carries the event and the fence of a thread.
abbrev pub key_taken : Writer → Option Text → List Event → Bool
key_taken writer none events = false
key_taken writer (some key) events = any (has_key writer key) events

abbrev pub new_event : Writer → Option Text → ℕ → Text → Option ℕ → ℕ → Event
new_event writer key target action from to = record {
  actor_type = writer.actor_type;
  actor_id = writer.actor_id;
  idempotency_key = key;
  target_id = target;
  action = action;
  from_revision = from;
  to_revision = to;
}

unfoldable pub insert_event :
    Writer → Option Text → ℕ → Text → Option ℕ → ℕ → List Event → Result DbError (List Event)
insert_event writer key target action from to events =
    if key_taken writer key events
    then err sqlx
    else ok (new_event writer key target action from to ∷ events)

pub record ConnectionWriteResult : Type 0 where
  pub connection : Connection
  pub reused : Bool

abbrev pub new_row : Writer → ℕ → NewConnection → Connection
new_row writer id input = record {
  id = id;
  source_object_id = input.source_object_id;
  kind = input.kind;
  target_object_id = input.target_object_id;
  description = input.description;
  protected = input.protected;
  revision = 1;
  created_by_type = writer.actor_type;
  created_by_id = writer.actor_id;
  updated_by_type = writer.actor_type;
  updated_by_id = writer.actor_id;
  provenance = input.provenance;
  created_at = writer.now;
  updated_at = writer.now;
  archived_at = none;
}

abbrev pub touched : Writer → Connection → Connection
touched writer c = record c {
  revision = c.revision + 1;
  updated_by_type = writer.actor_type;
  updated_by_id = writer.actor_id;
  updated_at = writer.now;
}

unfoldable pub write_event :
    Writer
    → Option Text
    → Text
    → Option ℕ
    → List Connection
    → Connection
    → Bool
    → ConnectionState
    → Result DbError (ConnectionWriteResult × ConnectionState)
write_event writer key action from connections c reused state =
    insert_event writer key c.id action from c.revision state.events >>= λ events. ok (
      record { connection = c; reused = reused },
      record state { connections = connections; events = events },
    )

-- An active connection of the same ends and kind takes the assertion.
unfoldable pub reuse_connection :
    Writer
    → NewConnection
    → Text
    → Connection
    → ConnectionState
    → Result DbError (ConnectionWriteResult × ConnectionState)
reuse_connection writer input key current state =
    let merged =
      merge_connection_assertion current.provenance current.description input.provenance
        input.description in
    if value_eq merged current.provenance
    then ok (record { connection = current; reused = true }, state)
    else let updated = touched writer (record current { provenance = merged }) in
      write_event writer (some key) (lit "updated") (some current.revision)
        (put_connection updated state.connections) updated true state

unfoldable pub write_connection :
    Writer
    → ℕ
    → NewConnection
    → Text
    → ConnectionState
    → Result DbError (ConnectionWriteResult × ConnectionState)
write_connection writer id input key state =
    elim (find (joins input.source_object_id input.kind input.target_object_id) state.connections) [
      | none ↦
          reject_if (is_some (connection_at id state)) sqlx
          >> write_event writer (some key) (lit "connected") none
              (new_row writer id input ∷ state.connections) (new_row writer id input) false state
      | some current ↦ reuse_connection writer input key current state
    ]

-- `id` is the new `Uuid`.
unfoldable pub create_or_reuse_connection :
    Writer
    → ℕ
    → NewConnection
    → Text
    → ConnectionState
    → Result DbError (ConnectionWriteResult × ConnectionState)
create_or_reuse_connection writer id input key state = do
  validate_connection_endpoints state.objects input.source_object_id input.kind
      input.target_object_id
  elim (idempotent_entity writer key state) [
    | none ↦ write_connection writer id input key state
    | some known ↦ ok_or (connection_at known state) sqlx >>= λ c.
        ok (record { connection = c; reused = true }, state)
  ]
