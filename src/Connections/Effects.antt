-- ===== src/Connections/Effects.antt =====
-- src/db/connections.rs: what a write that is accepted does to the tables.
use centaur_context.Common.{
  ℕ, ◌+◌, ◌==◌, ◌≡◌, refl, sym, ◌∙◌, Bool, true, false, not, List, [], ◌∷◌, Option, none, some,
  find, find-here, find-past, Bool-cases, Option-cases, inl, inr, ==→eq, arith, ok, ok_or,
  >>=-eq-ok, >>-eq-ok, reject_if-eq-ok, both_true, both_false,
}
use centaur_context.Errors.{DbError}
use centaur_context.Text.{Text}
use centaur_context.Json.{Value, value_eq}
use centaur_context.Connections.{
  ConnectionWriteResult, is_active, joins, idempotent_entity, connection_at, put_connection,
  touched, new_row, new_event, write_event, reuse_connection, write_connection,
  create_or_reuse_connection, validate_connection_endpoints,
}
use centaur_context.Connections.Assertions.{merge_connection_assertion}
use centaur_context.Connections.Written.{inserted}
use centaur_context.Connections.Tables.{
  Connection, NewConnection, ConnectionChanges, Writer, Event, ObjectRow, ConnectionState,
}
use centaur_context.Connections.Changes.{
  changed, key_target, active_at, replace_connection, update_connection, archive_connection,
}

-- If the connection is `themed`, its ends are Objects that are not archived, and its target alone is a
-- Theme.
abbrev pub IsThemed : (ℕ → Option ObjectRow) → Connection → Type 0
IsThemed objects c =
    validate_connection_endpoints objects c.source_object_id c.kind c.target_object_id ≡ ok tt

-- Rows and events after a write.
pub record Leaves (cs : List Connection) (e : Event) (s s' : ConnectionState) : Type 0 where
  pub connections : cs ≡ s'.connections
  pub events : e ∷ s.events ≡ s'.events
  pub objects : s.objects ≡ s'.objects

-- A write does nothing, adds a row, or replaces an active one.
pub data Effect (s s' : ConnectionState) : Type 0 where
  same : s ≡ s' → Effect s s'
  added :
      (c : Connection) (e : Event)
      → IsThemed s.objects c
      → e.from_revision ≡ none
      → e.to_revision ≡ 1
      → Leaves (c ∷ s.connections) e s s'
      → Effect s s'
  replaced :
      (p : Connection → Bool) (current c : Connection) (e : Event)
      → find p s.connections ≡ some current
      → is_active current ≡ true
      → current.id ≡ c.id
      → (IsThemed s.objects current → IsThemed s.objects c)
      → e.from_revision ≡ some current.revision
      → e.to_revision ≡ current.revision + 1
      → Leaves (put_connection c s.connections) e s s'
      → Effect s s'

write_event-Leaves :
    (writer : Writer) (key : Option Text) (action : Text) (from : Option ℕ) (cs : List Connection)
    (c : Connection) (reused : Bool) (s s' : ConnectionState) (r : ConnectionWriteResult)
    → write_event writer key action from cs c reused s ≡ ok (r, s')
    → Leaves cs (new_event writer key c.id action from c.revision) s s'
unfolding write_event
write_event-Leaves writer key action from cs c reused s s' r h =
    let (events, made, h1) = >>=-eq-ok _ _ h in
    let written = inserted writer key c.id action from c.revision s.events events made in
    let left : events ≡ s'.events = cc in
    record { connections = cc; events = written ∙ left; objects = cc }

find-holds :
    (p : Connection → Bool) (c : Connection) (cs : List Connection)
    → find p cs ≡ some c
    → p c ≡ true
find-holds p c [] h = cc
find-holds p c (d ∷ ds) h = elim (Bool-cases (p d)) [
  | inl found ↦ let here : d ≡ c = (let q = find-here p d ds found in cc) in rw (← here) found
  | inr past ↦ find-holds p c ds (sym (find-past p d ds past) ∙ h)
]

ok_or-found : {A : Type 0} (o : Option A) (e : DbError) (a : A) → ok_or o e ≡ ok a → o ≡ some a
ok_or-found none e a h = cc
ok_or-found (some b) e a h = cc

reuse-Effect :
    (writer : Writer) (input : NewConnection) (key : Text) (current : Connection)
    (s s' : ConnectionState) (r : ConnectionWriteResult)
    → find (joins input.source_object_id input.kind input.target_object_id) s.connections
      ≡ some current
    → reuse_connection writer input key current s ≡ ok (r, s')
    → Effect s s'
unfolding reuse_connection
reuse-Effect writer input key current s s' r found h =
    elim (Bool-cases (value_eq merged current.provenance)) [
      | inl unmoved ↦ same (let k = rw (unmoved) at h in cc)
      | inr other ↦
          replaced (joins input.source_object_id input.kind input.target_object_id) current _ _
            found
            (both_true _ _ (
              find-holds (joins input.source_object_id input.kind input.target_object_id) current
                s.connections found)).1
            refl (λ themed. themed) refl refl
            (write_event-Leaves _ _ _ _ _ (touched writer (record current { provenance = merged }))
              _ s s' r (rw (other) at h))
    ]
  where
    merged : Value
    merged =
        merge_connection_assertion current.provenance current.description input.provenance
          input.description

pub create-Effect :
    (writer : Writer) (id : ℕ) (input : NewConnection) (key : Text) (s s' : ConnectionState)
    (r : ConnectionWriteResult)
    → create_or_reuse_connection writer id input key s ≡ ok (r, s')
    → Effect s s'
unfolding create_or_reuse_connection write_connection
create-Effect writer id input key s s' r h =
    let (valid, h1) = >>-eq-ok _ _ h in
    elim (Option-cases (idempotent_entity writer key s)) [
      | inr (known, seen) ↦ let (c, _, h2) = >>=-eq-ok _ _ (rw (seen) at h1) in same (cc)
      | inl new ↦ fresh valid (rw (new) at h1)
    ]
  where
    fresh :
        validate_connection_endpoints s.objects input.source_object_id input.kind
            input.target_object_id
          ≡ ok tt
        → write_connection writer id input key s ≡ ok (r, s')
        → Effect s s'
    fresh valid k =
        elim (Option-cases
          (find (joins input.source_object_id input.kind input.target_object_id) s.connections)) [
            | inl missing ↦
                let (_, k1) = >>-eq-ok _ _ (rw (write_connection, missing) at k) in
                added (new_row writer id input) _ valid refl refl
                  (write_event-Leaves _ _ _ _ _ (new_row writer id input) _ s s' r k1)
            | inr (current, found) ↦
                reuse-Effect writer input key current s s' r found
                  (rw (write_connection, found) at k)
          ]

replace-Effect :
    (writer : Writer) (key : Option Text) (action : Text) (id expected : ℕ)
    (current new : Connection) (s s' : ConnectionState) (r : ConnectionWriteResult)
    → connection_at id s ≡ some current
    → current.id ≡ new.id
    → current.revision ≡ new.revision
    → (IsThemed s.objects current → IsThemed s.objects new)
    → replace_connection writer key action expected current new s ≡ ok (r, s')
    → Effect s s'
unfolding replace_connection
replace-Effect writer key action id expected current new s s' r found ids revisions themed h =
    let (moved, h1) = reject_if-eq-ok _ _ _ h in
    let (_, h2) = reject_if-eq-ok _ _ _ h1 in
    let (other, dead) = both_false (not (current.revision == expected)) _ moved in
    let at : current.revision ≡ expected = ==→eq _ _ (positive _ other) in
    replaced (λ c. c.id == id) current (touched writer new) _ found (positive _ dead) ids themed
      (rw (at) refl) (rw (revisions) refl)
      (write_event-Leaves _ _ _ _ _ (touched writer new) _ s s' r h2)
  where
    positive : (a : Bool) → not a ≡ false → a ≡ true
    positive a k = ground arith

pub update-Effect :
    (writer : Writer) (id expected : ℕ) (changes : ConnectionChanges) (key : Option Text)
    (s s' : ConnectionState) (r : ConnectionWriteResult)
    → update_connection writer id expected changes key s ≡ ok (r, s')
    → Effect s s'
unfolding update_connection
update-Effect writer id expected changes key s s' r h =
    elim (Option-cases (key_target writer key s)) [
      | inl new ↦
          let (current, read, h1) = >>=-eq-ok _ _ (rw (update_connection, new) at h) in
          let (valid, h2) = >>-eq-ok _ _ h1 in
          replace-Effect writer key _ id expected current (changed changes current) s s' r
            (found_at current read) refl refl (λ _. valid) h2
      | inr (known, seen) ↦
          let (c, _, h2) = >>=-eq-ok _ _ (rw (update_connection, seen) at h) in same (cc)
    ]
  where
    found_at :
        (current : Connection) → active_at id s ≡ ok current → connection_at id s ≡ some current
    found_at current read =
        let (c, found, read1) = >>=-eq-ok _ _ read in
        let (_, read2) = >>-eq-ok _ _ read1 in
        let here : c ≡ current = cc in rw (← here) (ok_or-found _ _ c found)

pub archive-Effect :
    (writer : Writer) (id expected : ℕ) (key : Option Text) (s s' : ConnectionState)
    (r : ConnectionWriteResult)
    → archive_connection writer id expected key s ≡ ok (r, s')
    → Effect s s'
unfolding archive_connection
archive-Effect writer id expected key s s' r h = elim (Option-cases (key_target writer key s)) [
  | inl new ↦
      let (current, read, h1) = >>=-eq-ok _ _ (rw (archive_connection, new) at h) in
      replace-Effect writer key _ id expected current
        (record current { archived_at = some writer.now }) s s' r (ok_or-found _ _ current read)
        refl refl (λ themed. themed) h1
  | inr (known, seen) ↦
      let (c, _, h2) = >>=-eq-ok _ _ (rw (archive_connection, seen) at h) in same (cc)
]
