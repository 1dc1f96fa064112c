-- ===== src/Connections/Writes.antt =====
-- src/db/connections.rs: writes in any number and order.
use centaur_context.Common.{ℕ, ◌≡◌, refl, List, [], ◌∷◌, Option, Result, ok, err}
use centaur_context.Errors.{DbError}
use centaur_context.Text.{Text}
use centaur_context.Connections.{ConnectionWriteResult, create_or_reuse_connection}
use centaur_context.Connections.Tables.{NewConnection, ConnectionChanges, Writer, ConnectionState}
use centaur_context.Connections.Changes.{update_connection, archive_connection}
use centaur_context.Connections.Triples.{IsKeyed}
use centaur_context.Connections.Effects.{Effect, create-Effect, update-Effect, archive-Effect}
use centaur_context.Connections.Sound.{
  IsSound, Freezes, Freezes-refl, Freezes-trans, Effect-IsSound,
}
use centaur_context.Connections.Keys.{create-IsKeyed, update-IsKeyed, archive-IsKeyed}

-- A write, by whom, and with the key of its request.
pub data Write : Type 0 where
  create : Writer → ℕ → NewConnection → Text → Write
  change : Writer → ℕ → ℕ → ConnectionChanges → Option Text → Write
  archive : Writer → ℕ → ℕ → Option Text → Write

-- A write that is refused changes nothing.
abbrev committed :
    ConnectionState → Result DbError (ConnectionWriteResult × ConnectionState) → ConnectionState
committed state (ok (r, state')) = state'
committed state (err e) = state

abbrev pub commit : Write → ConnectionState → ConnectionState
commit (create writer id input key) state =
    committed state (create_or_reuse_connection writer id input key state)
commit (change writer id expected changes key) state =
    committed state (update_connection writer id expected changes key state)
commit (archive writer id expected key) state =
    committed state (archive_connection writer id expected key state)

abbrev pub commit_all : List Write → ConnectionState → ConnectionState
commit_all [] state = state
commit_all (w ∷ ws) state = commit_all ws (commit w state)

committed-IsSound :
    (state : ConnectionState) (m : Result DbError (ConnectionWriteResult × ConnectionState))
    → ((r : ConnectionWriteResult) (state' : ConnectionState)
        → m ≡ ok (r, state')
        → IsKeyed state'.connections)
    → ((r : ConnectionWriteResult) (state' : ConnectionState)
        → m ≡ ok (r, state')
        → Effect state state')
    → IsSound state
    → IsSound (committed state m) × Freezes state (committed state m)
committed-IsSound state (ok (r, state')) keyed effect i =
    Effect-IsSound state state' (effect r state' refl) (keyed r state' refl) i
committed-IsSound state (err e) keyed effect i = (i, Freezes-refl state)

commit-IsSound :
    (w : Write) (state : ConnectionState)
    → IsSound state
    → IsSound (commit w state) × Freezes state (commit w state)
commit-IsSound (create writer id input key) state i =
    committed-IsSound state _
      (λ r state' h. create-IsKeyed writer id input key state state' r h i.keyed)
      (λ r state' h. create-Effect writer id input key state state' r h) i
commit-IsSound (change writer id expected changes key) state i =
    committed-IsSound state _
      (λ r state' h. update-IsKeyed writer id expected changes key state state' r h i.keyed)
      (λ r state' h. update-Effect writer id expected changes key state state' r h) i
commit-IsSound (archive writer id expected key) state i =
    committed-IsSound state _
      (λ r state' h. archive-IsKeyed writer id expected key state state' r h i.keyed)
      (λ r state' h. archive-Effect writer id expected key state state' r h) i

-- Creations, updates and archivings in any number and order keep it so that no two connections have
-- one id, and no two active ones the same ends and kind; that the ends of each `themed` connection are
-- Objects that are not archived, of which the target alone is a Theme; and that each event takes a
-- connection from one revision to the next, or to the first. A connection that is archived stays as it
-- is. The Objects do not change meanwhile.
pub commit_all-IsSound :
    (ws : List Write) (state : ConnectionState)
    → IsSound state
    → IsSound (commit_all ws state) × Freezes state (commit_all ws state)
commit_all-IsSound [] state i = (i, Freezes-refl state)
commit_all-IsSound (w ∷ ws) state i =
    let (next, first) = commit-IsSound w state i in
    let (end, rest) = commit_all-IsSound ws (commit w state) next in
    (end, Freezes-trans state (commit w state) (commit_all ws (commit w state)) first rest)
