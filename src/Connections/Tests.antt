-- ===== src/Connections/Tests.antt =====
-- src/db/connections.rs: a connection that is asserted by two requests, and archived.
use centaur_context.Common.{
  ℕ, ◌==◌, Option, if◌then◌else◌, ◌≡◌, refl, true, false, List, [], ◌∷◌, none, some, length, ok,
  ◌>>=◌, ◌>>◌,
}
use centaur_context.Text.{Text, lit, text_eq}
use centaur_context.Json.{Value, object, field, string, end, get, insert, remove, text_lt, value_eq}
use centaur_context.Connections.{
  validate_connection_endpoints, insert_event, write_event, new_row, new_event, reuse_connection,
  write_connection, create_or_reuse_connection,
}
use centaur_context.Connections.Assertions.{merge_connection_assertion}
use centaur_context.Connections.Tables.{
  NewConnection, ConnectionChanges, Writer, ObjectRow, ConnectionState,
}
use centaur_context.Connections.Changes.{replace_connection, update_connection, archive_connection}
use centaur_context.Connections.Merge.{merge_connection_assertion_idem}
use centaur_context.Connections.Retry.{later, create_or_reuse_connection_again}
use centaur_context.Connections.Sound.{IsSound, Freezes}
use centaur_context.Connections.Writes.{
  Write, create, change, archive, commit_all, commit_all-IsSound,
}

connection_code : Unit {0}
unfolding text_eq get insert remove text_lt value_eq merge_connection_assertion
    validate_connection_endpoints insert_event write_event reuse_connection write_connection
    create_or_reuse_connection replace_connection update_connection archive_connection ◌>>=◌ ◌>>◌
connection_code = tt

abbrev source : Text → Value
source ref = object (field (lit "source_ref") (string ref) end)

abbrev twice : Value
twice =
    merge_connection_assertion (source (lit "chat")) (lit "Ana owns it") (source (lit "note"))
      (lit "A note says so")

merge_connection_assertion_idem_example :
    merge_connection_assertion twice
      (lit "Other words")
      (source (lit "note"))
      (lit "A note says so")
    ≡ twice
merge_connection_assertion_idem_example =
    merge_connection_assertion_idem (source (lit "chat")) (source (lit "note")) twice
      (lit "Ana owns it") (lit "Other words") (lit "A note says so") (refl, tt) refl

abbrev ana : Writer
ana = record { actor_type = lit "human"; actor_id = lit "ana"; now = 10 }

abbrev input : NewConnection
input = record {
  source_object_id = 1;
  kind = lit "about";
  target_object_id = 2;
  description = lit "Ana owns it";
  provenance = source (lit "chat");
  protected = false;
}

abbrev noted : NewConnection
noted = record input { description = lit "A note says so"; provenance = source (lit "note") }

-- A Note and a Theme.
abbrev objects : ℕ → Option ObjectRow
objects id =
    if id == 1
    then some record { kind = lit "note"; archived = false }
    else if id == 2
    then some record { kind = lit "theme"; archived = false }
    else none

abbrev empty : ConnectionState
empty = record { connections = []; events = []; objects = objects }

abbrev first : ConnectionState
first = record {
  connections = new_row ana 7 input ∷ [];
  events = new_event ana (some (lit "k1")) 7 (lit "connected") none 1 ∷ [];
  objects = objects;
}

created :
    create_or_reuse_connection ana 7 input (lit "k1") empty
    ≡ ok (record { connection = new_row ana 7 input; reused = false }, first)
unfolding connection_code
created = refl

create_or_reuse_connection_again_example :
    create_or_reuse_connection (later ana 20) 9 input (lit "k1") first
    ≡ ok (record { connection = new_row ana 7 input; reused = true }, first)
create_or_reuse_connection_again_example =
    create_or_reuse_connection_again ana 20 7 9 input (lit "k1") empty first
      (record { connection = new_row ana 7 input; reused = false }) created

abbrev themed : ConnectionChanges
themed = record {
  kind = some (lit "themed");
  description = none;
  provenance = none;
  protected = none;
}

abbrev writes : List Write
writes =
    create ana 7 input (lit "k1")
    ∷ create ana 8 noted (lit "k2")
    ∷ archive ana 7 2 none
    ∷ create ana 9 noted (lit "k3")
    ∷ change ana 9 1 themed none
    ∷ change ana 9 1 themed none
    ∷ archive ana 7 2 none
    ∷ []

two_rows : length (commit_all writes empty).connections ≡ 2
unfolding connection_code
two_rows = refl

-- The second change and the second archiving are refused.
five_events : length (commit_all writes empty).events ≡ 5
unfolding connection_code
five_events = refl

empty-IsSound : IsSound empty
empty-IsSound = record { keyed = tt; themed = tt; events = tt }

commit_all-IsSound_example :
    IsSound (commit_all writes empty) × Freezes empty (commit_all writes empty)
commit_all-IsSound_example = commit_all-IsSound writes empty empty-IsSound
