-- ===== src/ExternalActions/Audit.antt =====
-- src/external_actions.rs: `reserve` and `append_event` keep the ledger, from the empty table on.
use centaur_context.Common.{
  both_false, ℕ, ◌==◌, ◌≡◌, refl, Bool, true, false, not, ◌||◌, Bool-cases, [], ◌∷◌, ◌++◌, Option,
  none, some, Option-cases, inl, inr, arith, All, All-append, any, find, Result, ok, err,
}
use centaur_context.Errors.{IntakeError}
use centaur_context.Text.{Text, lit, text_eq}
use centaur_context.Json.{Value, get}
use centaur_context.Runs.Updates.{update_rows-Rewritten}
use centaur_context.Runs.{Run, Printer, Table, has_id, same_key, update_rows, update, insert_run}
use centaur_context.ExternalActions.States.{transition, replay}
use centaur_context.ExternalActions.Ledger.{
  event_types_of, IsReplayed, NoDup, ids, IsLedger, event_types, event_types-append, replay-append,
  All-updated, ids-Rewritten, only_row, next_state-transition,
}
use centaur_context.ExternalActions.{
  next_state, with_event, event_entry, written, step_to, apply_event, resolve_event, on_event,
  append_event, check_event, is_actor,
}
use centaur_context.ExternalActions.Reservations.{
  reserved_run, inserted, by_identity, by_key, on_reservation, reserve, check_reservation, has_key,
}
use centaur_context.ExternalActions.Requests.{
  Actor, Event, Reservation, ReserveRequest, EventRequest, is_action,
}

module _ (p : Printer) (encoded_len : Value → ℕ) (allowed : Run → Bool) (now : ℕ) where
  module _ (created_at entry_id : Value) (actor : Actor) (run_id : ℕ) (e : Event) (runs : Table)
      (l : IsLedger runs) where
    abbrev entry : Value
    entry = event_entry p encoded_len entry_id created_at actor e

    abbrev write : Text → Run → Run
    write next = with_event p encoded_len allowed now created_at entry_id next entry

    write-IsReplayed :
        (next : Text) (r : Run)
        → IsReplayed r
        → transition r.status e.event_type ≡ ok next
        → IsReplayed (write next r)
    unfolding IsReplayed event_types_of get text_eq
    write-IsReplayed next r g step external = rw (event_types-append r.trace entry) (
        replay-append (lit "reserved") (event_types r.trace) r.status e.event_type next (g external)
          step)

    writes :
        (next : Text) (row : Run) (tail : Table)
        → transition row.status e.event_type ≡ ok next
        → All (λ r. is_action run_id r ≡ true → r ≡ row) tail
        → All IsReplayed tail
        → All (λ r. is_action run_id r ≡ true → IsReplayed (write next r)) tail
    writes next row [] step only g = tt
    writes next row (r ∷ tail) step (same, only) (gr, g) =
        (λ hit. write-IsReplayed next r gr (rw (same hit) step), writes next row tail step only g)

    written-IsLedger :
        (next : Text) (row : Run)
        → find (is_action run_id) runs ≡ some row
        → transition row.status e.event_type ≡ ok next
        → IsLedger
            (written p encoded_len allowed now created_at entry_id run_id runs
              (update allowed (is_action run_id) (write next) runs)).0
    unfolding update
    written-IsLedger next row found step =
        elim (Option-cases (update_rows allowed (is_action run_id) (write next) runs)) [
          | inl bad ↦ rw bad l
          | inr ((n, runs'), good) ↦
              let done =
                update_rows-Rewritten allowed (is_action run_id) (write next) runs n runs' good in
              rw good (record {
                unique =
                    rw (ids-Rewritten (is_action run_id) (write next) (λ r. refl) done) l.unique;
                replayed =
                    All-updated (is_action run_id) (write next) IsReplayed done
                      (writes next row runs step (only_row run_id row runs l.unique found)
                        l.replayed)
                      l.replayed;
              })
        ]

    step-IsLedger :
        (row : Run) (outcome : Result IntakeError Text)
        → find (is_action run_id) runs ≡ some row
        → next_state p encoded_len allowed now created_at entry_id e row ≡ outcome
        → IsLedger
            (step_to p encoded_len allowed now created_at entry_id actor run_id e runs outcome).0
    step-IsLedger row (err problem) found step = l
    step-IsLedger row (ok next) found step =
        written-IsLedger next row found
          (next_state-transition p encoded_len allowed now created_at entry_id e row next step)

    apply-IsLedger :
        (row : Option Run)
        → find (is_action run_id) runs ≡ row
        → IsLedger
            (apply_event p encoded_len allowed now created_at entry_id actor run_id e runs row).0
    apply-IsLedger none found = l
    apply-IsLedger (some row) found = step-IsLedger row _ found refl

    resolve-IsLedger :
        (row : Option Run)
        → IsLedger
            (resolve_event p encoded_len allowed now created_at entry_id actor run_id e runs row).0
    resolve-IsLedger none = apply-IsLedger _ refl
    resolve-IsLedger (some row) = elim (Bool-cases (row.id == run_id)) [
      | inl same ↦ rw same l
      | inr other ↦ rw other l
    ]

  pub append_event-IsLedger :
      (created_at entry_id : Value) (actor : Actor) (run_id : ℕ) (request : EventRequest)
      (runs : Table)
      → IsLedger runs
      → IsLedger
          (append_event p encoded_len allowed now created_at entry_id actor run_id request runs).0
  unfolding append_event
  append_event-IsLedger created_at entry_id actor run_id request runs l =
      cases (check_event p encoded_len request)
    where
      cases :
          (o : Result IntakeError Event)
          → IsLedger (on_event p encoded_len allowed now created_at entry_id actor run_id runs o).0
      cases (err problem) = l
      cases (ok e) = resolve-IsLedger created_at entry_id actor run_id e runs l _

  apart_append :
      (i : ℕ) (runs : Table) (r : Run)
      → (r.id == i) ≡ false
      → All (λ j. (j == i) ≡ false) (ids runs)
      → All (λ j. (j == i) ≡ false) (ids (runs ++ r ∷ []))
  unfolding ids
  apart_append i [] r h g = (h, tt)
  apart_append i (x ∷ runs) r h (k, g) = (k, apart_append i runs r h g)

  NoDup-append :
      (runs : Table) (r : Run)
      → any (has_id r.id) runs ≡ false
      → NoDup (ids runs)
      → NoDup (ids (runs ++ r ∷ []))
  unfolding ids NoDup
  NoDup-append [] r h u = (tt, tt)
  NoDup-append (x ∷ runs) r h (apart, u) =
      let (here, later) = both_false _ _ h in
      (apart_append x.id runs r (flip x.id r.id here) apart, NoDup-append runs r later u)
    where
      flip : (m n : ℕ) → (m == n) ≡ false → (n == m) ≡ false
      flip m n e = ground arith

  module _ (new_id : ℕ) (actor : Actor) (q : Reservation) (runs : Table) (l : IsLedger runs) where
    abbrev row : Run
    row = reserved_run p encoded_len allowed now new_id actor q

    inserted-IsLedger :
        IsLedger (inserted p encoded_len allowed now new_id runs (insert_run allowed row runs)).0
    unfolding insert_run IsReplayed replay event_types
    inserted-IsLedger = elim (Bool-cases (any (has_id new_id) runs)) [
      | inl taken ↦ rw taken l
      | inr free ↦ elim (Bool-cases (any (same_key row) runs || not (allowed row))) [
        | inl bad ↦ rw (free, bad) l
        | inr fine ↦
            rw (free, fine)
              (record {
                unique = NoDup-append runs row free l.unique;
                replayed = All-append IsReplayed runs (row ∷ []) l.replayed (λ external. refl, tt);
              })
      ]
    ]

    by_identity-IsLedger :
        (found : Option Run)
        → IsLedger (by_identity p encoded_len allowed now new_id actor q runs found).0
    by_identity-IsLedger none = inserted-IsLedger
    by_identity-IsLedger (some r) = elim (Bool-cases (is_actor p encoded_len actor r)) [
      | inl same ↦ rw same l
      | inr other ↦ rw other l
    ]

    by_key-IsLedger :
        (found : Option Run)
        → IsLedger (by_key p encoded_len allowed now new_id actor q runs found).0
    by_key-IsLedger (some r) = l
    by_key-IsLedger none =
        elim (Bool-cases (any (has_key p encoded_len allowed now new_id q) runs)) [
          | inl taken ↦ rw taken l
          | inr free ↦ rw free (by_identity-IsLedger _)
        ]

  pub reserve-IsLedger :
      (new_id : ℕ) (actor : Actor) (request : ReserveRequest) (runs : Table)
      → IsLedger runs
      → IsLedger (reserve p encoded_len allowed now new_id actor request runs).0
  unfolding reserve
  reserve-IsLedger new_id actor request runs l = cases (check_reservation p encoded_len request)
    where
      cases :
          (o : Result IntakeError Reservation)
          → IsLedger (on_reservation p encoded_len allowed now new_id actor runs o).0
      cases (err problem) = l
      cases (ok q) = by_key-IsLedger new_id actor q runs l _
