-- ===== src/Connections/Retry.antt =====
-- src/db/connections.rs: a creation that is asked for again.
use centaur_context.Common.{
  Result, ℕ, ◌==◌, ◌≡◌, refl, subst, Bool, true, List, Option, none, some, find, find-here,
  Bool-cases, Option-cases, inl, inr, ==-refl, ok, ◌>>=◌, ◌>>◌, ok_or, >>=-eq-ok, >>-eq-ok,
}
use centaur_context.Errors.{DbError, sqlx}
use centaur_context.Text.{Text}
use centaur_context.Json.{Value, value_eq}
use centaur_context.Connections.{
  ConnectionWriteResult, joins, idempotent_entity, validate_connection_endpoints, connection_at,
  touched, new_row, write_event, reuse_connection, write_connection, create_or_reuse_connection,
}
use centaur_context.Connections.Written.{write_event-IsWritten, find-put}
use centaur_context.Connections.Assertions.{merge_connection_assertion}
use centaur_context.Connections.Tables.{Connection, NewConnection, Writer, ConnectionState}

-- The same creation, later and with another new id.
abbrev pub later : Writer → ℕ → Writer
later writer now = record writer { now = now }

again_known :
    (writer : Writer) (now id id' known : ℕ) (input : NewConnection) (key : Text)
    (state : ConnectionState) (c : Connection)
    → validate_connection_endpoints state.objects input.source_object_id input.kind
        input.target_object_id
      ≡ ok tt
    → idempotent_entity writer key state ≡ some known
    → connection_at known state ≡ some c
    → create_or_reuse_connection (later writer now) id' input key state
      ≡ ok (record { connection = c; reused = true }, state)
unfolding create_or_reuse_connection ◌>>=◌ ◌>>◌
again_known writer now id id' known input key state c valid seen there =
    rw (valid, seen, there) refl

again_same :
    (writer : Writer) (now id' : ℕ) (input : NewConnection) (key : Text) (current : Connection)
    (state : ConnectionState)
    → validate_connection_endpoints state.objects input.source_object_id input.kind
        input.target_object_id
      ≡ ok tt
    → idempotent_entity writer key state ≡ none
    → find (joins input.source_object_id input.kind input.target_object_id) state.connections
      ≡ some current
    → value_eq
        (merge_connection_assertion current.provenance current.description input.provenance
          input.description)
        current.provenance
      ≡ true
    → create_or_reuse_connection (later writer now) id' input key state
      ≡ ok (record { connection = current; reused = true }, state)
unfolding create_or_reuse_connection write_connection reuse_connection ◌>>=◌ ◌>>◌
again_same writer now id' input key current state valid new found same =
    rw (valid, new, write_connection, found, same) refl

module _ (writer : Writer) (now id id' : ℕ) (input : NewConnection) (key : Text)
    (state state' : ConnectionState) (r : ConnectionWriteResult) where
  abbrev ends : Connection → Bool
  ends = joins input.source_object_id input.kind input.target_object_id

  abbrev merged : Connection → Value
  merged current =
      merge_connection_assertion current.provenance current.description input.provenance
        input.description

  abbrev IsValid : ConnectionState → Type 0
  IsValid s =
      validate_connection_endpoints s.objects input.source_object_id input.kind
        input.target_object_id
      ≡ ok tt

  -- It answers with the connection of the first answer, and changes nothing.
  abbrev pub IsAnswered : Type 0
  IsAnswered =
      create_or_reuse_connection (later writer now) id' input key state'
      ≡ ok (record { connection = r.connection; reused = true }, state')

  written_again :
      (action : Text) (from : Option ℕ) (cs : List Connection) (c : Connection) (reused : Bool)
      → IsValid state
      → write_event writer (some key) action from cs c reused state ≡ ok (r, state')
      → find (λ d. d.id == c.id) cs ≡ some c
      → IsAnswered
  written_again action from cs c reused valid h there =
      let w = write_event-IsWritten writer key action from cs c reused state state' r h in
      rw (← w.answer) (
        again_known writer now id id' c.id input key state' c
          (subst
            (λ os.
              validate_connection_endpoints os input.source_object_id input.kind
                input.target_object_id
              ≡ ok tt)
            w.objects valid)
          w.target (subst (λ ds. find (λ d. d.id == c.id) ds ≡ some c) w.connections there))

  reused_again :
      (current : Connection)
      → IsValid state
      → idempotent_entity writer key state ≡ none
      → find ends state.connections ≡ some current
      → reuse_connection writer input key current state ≡ ok (r, state')
      → IsAnswered
  unfolding reuse_connection
  reused_again current valid new found h =
      elim (Bool-cases (value_eq (merged current) current.provenance)) [
        | inl same ↦
            let k = rw (same) at h in
            let kept : state ≡ state' = cc in
            let answer : current ≡ r.connection = cc in
            rw (← kept, ← answer)
              (again_same writer now id' input key current state valid new found same)
        | inr other ↦
            written_again _ _ _ (touched writer (record current { provenance = merged current })) _
              valid (rw (other) at h) (find-put ends _ current state.connections found refl)
      ]

  fresh :
      IsValid state
      → idempotent_entity writer key state ≡ none
      → write_connection writer id input key state ≡ ok (r, state')
      → IsAnswered
  unfolding write_connection
  fresh valid new k = elim (Option-cases (find ends state.connections)) [
    | inl missing ↦
        let (_, k1) = >>-eq-ok _ _ (rw (write_connection, missing) at k) in
        written_again _ _ _ (new_row writer id input) _ valid k1
          (find-here (λ d. d.id == id) (new_row writer id input) state.connections (==-refl id))
    | inr (current, found) ↦
        reused_again current valid new found (rw (write_connection, found) at k)
  ]

  known_again :
      (known : ℕ) (c : Connection)
      → IsValid state
      → idempotent_entity writer key state ≡ some known
      → ok_or (connection_at known state) sqlx ≡ ok c
      → ◌≡◌ {A = Result DbError (ConnectionWriteResult × ConnectionState)}
          (ok (record { connection = c; reused = true }, state))
          (ok (r, state'))
      → IsAnswered
  known_again known c valid seen there h =
      let kept : state ≡ state' = cc in
      let answer : c ≡ r.connection = cc in
      rw (← kept, ← answer)
        (again_known writer now id id' known input key state c valid seen (found_some _ _ there))
    where
      found_some :
          (o : Option Connection) (e : DbError) {c : Connection} → ok_or o e ≡ ok c → o ≡ some c
      found_some none e k = cc
      found_some (some c) e k = cc

  -- A creation of a connection that was accepted is answered with the same connection when it is
  -- asked for again, later and under another new id, and changes nothing.
  pub create_or_reuse_connection_again :
      create_or_reuse_connection writer id input key state ≡ ok (r, state') → IsAnswered
  unfolding create_or_reuse_connection
  create_or_reuse_connection_again h =
      let (valid, h1) = >>-eq-ok _ _ h in
      elim (Option-cases (idempotent_entity writer key state)) [
        | inl new ↦ fresh valid new (rw (new) at h1)
        | inr (known, seen) ↦
            let (c, there, h2) = >>=-eq-ok _ _ (rw (seen) at h1) in
            known_again known c valid seen there h2
      ]
