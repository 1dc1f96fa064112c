-- ===== src/Connections/Keys.antt =====
-- src/db/connections.rs: what each write leaves of the ids and the ends.
use centaur_context.Common.{
  ℕ, ◌==◌, ◌≡◌, refl, sym, ◌∙◌, Bool, true, false, not, ◌&&◌, ◌||◌, List, [], ◌∷◌, Option, none,
  some, find, find-here, find-past, has, Bool-cases, Option-cases, inl, inr, same_number_comm,
  arith, is_some, ok, >>=-eq-ok, >>-eq-ok, reject_if, reject_if-eq-ok,
}
use centaur_context.Errors.{DbError}
use centaur_context.Text.{Text, text_eq}
use centaur_context.Text.Laws.{text_eq_comm}
use centaur_context.Json.{Value, value_eq}
use centaur_context.Connections.{
  ConnectionWriteResult, is_active, joins, idempotent_entity, touched, new_row, write_event,
  reuse_connection, write_connection, create_or_reuse_connection,
}
use centaur_context.Connections.Assertions.{merge_connection_assertion}
use centaur_context.Connections.Tables.{
  Connection, NewConnection, ConnectionChanges, Writer, ConnectionState,
}
use centaur_context.Connections.Changes.{
  key_target, is_taken, replace_connection, update_connection, archive_connection,
}
use centaur_context.Connections.Triples.{
  clash, conflicts, IsKeyed, IsClear, put-IsKeyed, found-IsClear, either_false,
}

-- Neither the id nor the ends and the kind are there.
new_row_free :
    (writer : Writer) (id : ℕ) (input : NewConnection) (cs : List Connection)
    → find (λ c. c.id == id) cs ≡ none
    → find (joins input.source_object_id input.kind input.target_object_id) cs ≡ none
    → has conflicts (new_row writer id input) cs ≡ false
new_row_free writer id input [] h k = refl
new_row_free writer id input (c ∷ cs) h k =
    let ids = λ (d : Connection). d.id == id in
    let ends = joins input.source_object_id input.kind input.target_object_id in
    let here = missed ids c cs h in
    let apart = missed ends c cs k in
    either_false (either_false (same_number_comm id c.id ∙ here) (ended c apart)) (
      new_row_free writer id input cs (sym (find-past ids c cs here) ∙ h)
        (sym (find-past ends c cs apart) ∙ k))
  where
    missed :
        (p : Connection → Bool) (d : Connection) (ds : List Connection)
        → find p (d ∷ ds) ≡ none
        → p d ≡ false
    missed p d ds e = elim (Bool-cases (p d)) [
      | inl found ↦ let q = find-here p d ds found in cc
      | inr past ↦ past
    ]

    shuffle : (s k t a : Bool) → (s && k && t && a) ≡ false → (s && k && t && true && a) ≡ false
    shuffle s k t a e = ground arith

    ended :
        (d : Connection)
        → joins input.source_object_id input.kind input.target_object_id d ≡ false
        → clash (new_row writer id input) d ≡ false
    ended d e =
        rw
          (
            same_number_comm input.source_object_id d.source_object_id,
            text_eq_comm input.kind d.kind,
            same_number_comm input.target_object_id d.target_object_id,
          )
          (shuffle (d.source_object_id == input.source_object_id) (text_eq d.kind input.kind)
            (d.target_object_id == input.target_object_id) (is_active d) e)

-- What a write of an event leaves of the connections.
write_event_lem :
    (writer : Writer) (key : Option Text) (action : Text) (from : Option ℕ) (cs : List Connection)
    (c : Connection) (reused : Bool) (state state' : ConnectionState) (r : ConnectionWriteResult)
    → write_event writer key action from cs c reused state ≡ ok (r, state')
    → cs ≡ state'.connections
unfolding write_event
write_event_lem writer key action from cs c reused state state' r h =
    let (events, _, h1) = >>=-eq-ok _ _ h in cc

reuse-IsKeyed :
    (writer : Writer) (input : NewConnection) (key : Text) (p : Connection → Bool)
    (current : Connection) (state state' : ConnectionState) (r : ConnectionWriteResult)
    → find p state.connections ≡ some current
    → reuse_connection writer input key current state ≡ ok (r, state')
    → IsKeyed state.connections
    → IsKeyed state'.connections
unfolding reuse_connection
reuse-IsKeyed writer input key p current state state' r found h keyed =
    elim (Bool-cases (value_eq merged current.provenance)) [
      | inl same ↦ let kept : state ≡ state' = (let k = rw (same) at h in cc) in rw (← kept) keyed
      | inr other ↦
          let left = write_event_lem _ _ _ _ _ _ _ _ state' r (rw (other) at h) in
          rw (← left) (
            put-IsKeyed _ state.connections keyed
              (found-IsClear p current state.connections found keyed))
    ]
  where
    merged : Value
    merged =
        merge_connection_assertion current.provenance current.description input.provenance
          input.description

write-IsKeyed :
    (writer : Writer) (id : ℕ) (input : NewConnection) (key : Text) (state state' : ConnectionState)
    (r : ConnectionWriteResult)
    → write_connection writer id input key state ≡ ok (r, state')
    → IsKeyed state.connections
    → IsKeyed state'.connections
unfolding write_connection
write-IsKeyed writer id input key state state' r h keyed =
    elim (Option-cases (find ends state.connections)) [
      | inl missing ↦
          let (fresh, h1) = >>-eq-ok _ _ (rw (write_connection, missing) at h) in
          let left = write_event_lem _ _ _ _ _ _ _ _ state' r h1 in
          let absent = no_row _ _ fresh in
          rw (← left) (new_row_free writer id input state.connections absent missing, keyed)
      | inr (current, found) ↦
          reuse-IsKeyed writer input key ends current state state' r found
            (rw (write_connection, found) at h) keyed
    ]
  where
    ends : Connection → Bool
    ends = joins input.source_object_id input.kind input.target_object_id

    no_row : (o : Option Connection) (e : DbError) → reject_if (is_some o) e ≡ ok tt → o ≡ none
    no_row none e k = refl
    no_row (some c) e k = cc

pub create-IsKeyed :
    (writer : Writer) (id : ℕ) (input : NewConnection) (key : Text) (state state' : ConnectionState)
    (r : ConnectionWriteResult)
    → create_or_reuse_connection writer id input key state ≡ ok (r, state')
    → IsKeyed state.connections
    → IsKeyed state'.connections
unfolding create_or_reuse_connection
create-IsKeyed writer id input key state state' r h keyed =
    let (_, h1) = >>-eq-ok _ _ h in
    elim (Option-cases (idempotent_entity writer key state)) [
      | inl new ↦ write-IsKeyed writer id input key state state' r (rw (new) at h1) keyed
      | inr (known, seen) ↦
          let (c, _, h2) = >>=-eq-ok _ _ (rw (seen) at h1) in
          let kept : state ≡ state' = cc in rw (← kept) keyed
    ]

-- What is not taken is clear of the others.
free-IsClear :
    (new : Connection) (cs : List Connection)
    → (is_active new && is_taken new cs) ≡ false
    → IsClear new cs
free-IsClear new [] h = tt
free-IsClear new (d ∷ ds) h =
    let (first, rest) = split (is_active new) _ (d.id == new.id) (is_taken new ds) h in
    (λ other. apart (first other), free-IsClear new ds rest)
  where
    split :
        (a j i t : Bool)
        → (a && ((j && not i) || t)) ≡ false
        → (i ≡ false → (a && j) ≡ false) × ((a && t) ≡ false)
    split a j i t e = (λ other. ground arith, ground arith)

    shuffle :
        (s k t a b : Bool) → (b && (s && k && t && a)) ≡ false → (s && k && t && b && a) ≡ false
    shuffle s k t a b e = ground arith

    apart :
        (is_active new && joins new.source_object_id new.kind new.target_object_id d) ≡ false
        → clash new d ≡ false
    apart e =
        rw
          (
            same_number_comm new.source_object_id d.source_object_id,
            text_eq_comm new.kind d.kind,
            same_number_comm new.target_object_id d.target_object_id,
          )
          (shuffle (d.source_object_id == new.source_object_id) (text_eq d.kind new.kind)
            (d.target_object_id == new.target_object_id) (is_active d) (is_active new) e)

replace-IsKeyed :
    (writer : Writer) (key : Option Text) (action : Text) (expected : ℕ) (current new : Connection)
    (state state' : ConnectionState) (r : ConnectionWriteResult)
    → replace_connection writer key action expected current new state ≡ ok (r, state')
    → IsKeyed state.connections
    → IsKeyed state'.connections
unfolding replace_connection
replace-IsKeyed writer key action expected current new state state' r h keyed =
    let (_, h1) = reject_if-eq-ok _ _ _ h in
    let (free, h2) = reject_if-eq-ok _ _ _ h1 in
    let left = write_event_lem _ _ _ _ _ _ _ _ state' r h2 in
    rw (← left) (
      put-IsKeyed (touched writer new) state.connections keyed
        (free-IsClear new state.connections free))

pub update-IsKeyed :
    (writer : Writer) (id expected : ℕ) (changes : ConnectionChanges) (key : Option Text)
    (state state' : ConnectionState) (r : ConnectionWriteResult)
    → update_connection writer id expected changes key state ≡ ok (r, state')
    → IsKeyed state.connections
    → IsKeyed state'.connections
unfolding update_connection
update-IsKeyed writer id expected changes key state state' r h keyed =
    elim (Option-cases (key_target writer key state)) [
      | inl new ↦
          let (current, _, h1) = >>=-eq-ok _ _ (rw (update_connection, new) at h) in
          let (_, h2) = >>-eq-ok _ _ h1 in
          replace-IsKeyed writer key _ expected current _ state state' r h2 keyed
      | inr (known, seen) ↦
          let (c, _, h2) = >>=-eq-ok _ _ (rw (update_connection, seen) at h) in
          let kept : state ≡ state' = cc in rw (← kept) keyed
    ]

pub archive-IsKeyed :
    (writer : Writer) (id expected : ℕ) (key : Option Text) (state state' : ConnectionState)
    (r : ConnectionWriteResult)
    → archive_connection writer id expected key state ≡ ok (r, state')
    → IsKeyed state.connections
    → IsKeyed state'.connections
unfolding archive_connection
archive-IsKeyed writer id expected key state state' r h keyed =
    elim (Option-cases (key_target writer key state)) [
      | inl new ↦
          let (current, _, h1) = >>=-eq-ok _ _ (rw (archive_connection, new) at h) in
          replace-IsKeyed writer key _ expected current _ state state' r h1 keyed
      | inr (known, seen) ↦
          let (c, _, h2) = >>=-eq-ok _ _ (rw (archive_connection, seen) at h) in
          let kept : state ≡ state' = cc in rw (← kept) keyed
    ]
