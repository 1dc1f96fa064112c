-- ===== src/Connections/Changes.antt =====
-- src/db/connections.rs: `update_connection` and `archive_connection`. The snapshot of the row that
-- their events carry is left out.
use centaur_context.Common.{
  ℕ, ◌==◌, Bool, true, false, not, ◌&&◌, ◌||◌, List, Option, none, some, any, Result, ok, ◌>>=◌,
  ◌>>◌, reject_if, ok_or,
}
use centaur_context.Errors.{DbError, sqlx, not_found, conflict}
use centaur_context.Text.{Text, lit}
use centaur_context.Connections.{
  ConnectionWriteResult, idempotent_entity, validate_connection_endpoints, is_active, joins,
  connection_at, put_connection, touched, write_event,
}
use centaur_context.Connections.Tables.{Connection, ConnectionChanges, Writer, ConnectionState}

abbrev or_else : {A : Type 0} → Option A → A → A
or_else none a = a
or_else (some b) a = b

abbrev pub changed : ConnectionChanges → Connection → Connection
changed changes c = record c {
  kind = or_else changes.kind c.kind;
  description = or_else changes.description c.description;
  provenance = or_else changes.provenance c.provenance;
  protected = or_else changes.protected c.protected;
}

-- The connection that a key was used for.
abbrev replayed : ℕ → ConnectionState → Result DbError (ConnectionWriteResult × ConnectionState)
replayed id state = ok_or (connection_at id state) sqlx >>= λ c.
    ok (record { connection = c; reused = true }, state)

abbrev pub key_target : Writer → Option Text → ConnectionState → Option ℕ
key_target writer none state = none
key_target writer (some key) state = idempotent_entity writer key state

abbrev pub active_at : ℕ → ConnectionState → Result DbError Connection
active_at id state = do
  c ← ok_or (connection_at id state) not_found
  reject_if (not (is_active c)) not_found
  ok c

-- Another active connection has the ends and the kind.
abbrev pub is_taken : Connection → List Connection → Bool
is_taken c connections =
    any (λ d. joins c.source_object_id c.kind c.target_object_id d && not (d.id == c.id))
      connections

-- `UPDATE connections … WHERE id=$1 AND revision=$2 AND archived_at IS NULL`, and its event.
unfoldable pub replace_connection :
    Writer
    → Option Text
    → Text
    → ℕ
    → Connection
    → Connection
    → ConnectionState
    → Result DbError (ConnectionWriteResult × ConnectionState)
replace_connection writer key action expected current new state = do
  reject_if (not (current.revision == expected) || not (is_active current)) conflict
  reject_if (is_active new && is_taken new state.connections) sqlx
  let updated = touched writer new
  write_event writer key action (some expected) (put_connection updated state.connections) updated
      false state

unfoldable pub update_connection :
    Writer
    → ℕ
    → ℕ
    → ConnectionChanges
    → Option Text
    → ConnectionState
    → Result DbError (ConnectionWriteResult × ConnectionState)
update_connection writer id expected changes key state = elim (key_target writer key state) [
  | some known ↦ replayed known state
  | none ↦ active_at id state >>= λ current.
      validate_connection_endpoints state.objects current.source_object_id
        (or_else changes.kind current.kind) current.target_object_id
      >> replace_connection writer key (lit "updated") expected current (changed changes current)
          state
]

unfoldable pub archive_connection :
    Writer
    → ℕ
    → ℕ
    → Option Text
    → ConnectionState
    → Result DbError (ConnectionWriteResult × ConnectionState)
archive_connection writer id expected key state = elim (key_target writer key state) [
  | some known ↦ replayed known state
  | none ↦ ok_or (connection_at id state) conflict >>= λ current.
      replace_connection writer key (lit "archived") expected current
        (record current { archived_at = some writer.now }) state
]
