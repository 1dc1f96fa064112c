-- ===== src/Connections/Written.antt =====
-- src/db/connections.rs: what a write and its event leave for the lookups of a retry.
use centaur_context.Common.{
  ℕ, ◌==◌, ◌≡◌, refl, sym, subst, ◌∙◌, Bool, true, false, List, [], ◌∷◌, Option, some, find,
  find-here, find-past, Bool-cases, inl, inr, ==-refl, no_clash, ok, >>=-eq-ok,
}
use centaur_context.Text.{Text}
use centaur_context.Text.Laws.{text_eq_refl}
use centaur_context.Connections.{
  ConnectionWriteResult, has_key, idempotent_entity, put_connection, key_taken, new_event,
  insert_event, write_event,
}
use centaur_context.Connections.Tables.{Connection, Writer, Event, ConnectionState}

pub inserted :
    (writer : Writer) (key : Option Text) (target : ℕ) (action : Text) (from : Option ℕ) (to : ℕ)
    (events events' : List Event)
    → insert_event writer key target action from to events ≡ ok events'
    → new_event writer key target action from to ∷ events ≡ events'
unfolding insert_event
inserted writer key target action from to events events' h =
    elim (Bool-cases (key_taken writer key events)) [
      | inl taken ↦ let k = rw (taken) at h in cc
      | inr free ↦ let k = rw (free) at h in cc
    ]

own_key :
    (writer : Writer) (key : Text) (target : ℕ) (action : Text) (from : Option ℕ) (to : ℕ)
    → has_key writer key (new_event writer (some key) target action from to) ≡ true
own_key writer key target action from to =
    rw (text_eq_refl writer.actor_type, text_eq_refl writer.actor_id, text_eq_refl key) refl

looked_up :
    (writer : Writer) (key : Text) (e : Event) (events : List Event) (state : ConnectionState)
    → e ∷ events ≡ state.events
    → has_key writer key e ≡ true
    → idempotent_entity writer key state ≡ some e.target_id
looked_up writer key e events state same own =
    let found =
      subst (λ es. find (has_key writer key) es ≡ some e) same
        (find-here (has_key writer key) e events own) in
    rw (idempotent_entity, found) refl

pub record IsWritten (writer : Writer) (key : Text) (c : Connection) (cs : List Connection)
    (state state' : ConnectionState) (r : ConnectionWriteResult) : Type 0 where
  pub target : idempotent_entity writer key state' ≡ some c.id
  pub connections : cs ≡ state'.connections
  pub objects : state.objects ≡ state'.objects
  pub answer : c ≡ r.connection

pub write_event-IsWritten :
    (writer : Writer) (key action : Text) (from : Option ℕ) (cs : List Connection) (c : Connection)
    (reused : Bool) (state state' : ConnectionState) (r : ConnectionWriteResult)
    → write_event writer (some key) action from cs c reused state ≡ ok (r, state')
    → IsWritten writer key c cs state state' r
unfolding write_event
write_event-IsWritten writer key action from cs c reused state state' r h =
    let (events, made, h1) = >>=-eq-ok _ _ h in
    let same = inserted writer (some key) c.id action from c.revision state.events events made in
    let left : events ≡ state'.events = cc in
    record {
      target =
          looked_up writer key _ state.events state' (same ∙ left)
            (own_key writer key c.id action from c.revision);
      connections = cc;
      objects = cc;
      answer = cc;
    }

pub find-put :
    (p : Connection → Bool) (c old : Connection) (cs : List Connection)
    → find p cs ≡ some old
    → old.id ≡ c.id
    → find (λ d. d.id == c.id) (put_connection c cs) ≡ some c
find-put p c old [] h same = cc
find-put p c old (d ∷ ds) h same = elim (Bool-cases (d.id == c.id)) [
  | inl here ↦ rw (here) (find-here (λ e. e.id == c.id) c ds (==-refl c.id))
  | inr past ↦ rw (past) (
      find-past (λ e. e.id == c.id) d (put_connection c ds) past
      ∙ find-put p c old ds (further past) same)
]
  where
    further : (d.id == c.id) ≡ false → find p ds ≡ some old
    further past = elim (Bool-cases (p d)) [
      | inl found ↦
          let e : d ≡ old = (let q = find-here p d ds found in cc) in
          absurd (no_clash (rw (e, same) (==-refl c.id)) past)
      | inr other ↦ sym (find-past p d ds other) ∙ h
    ]
