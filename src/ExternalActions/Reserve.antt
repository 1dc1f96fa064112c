-- ===== src/ExternalActions/Reserve.antt =====
-- src/external_actions.rs: `reserve`, asked twice.
use Prim.Native.String.{String}
use centaur_context.Common.{
  ◌≡◌, refl, sym, ◌∙◌, ap, Bool, true, false, not, ◌||◌, Bool-cases, [], ◌∷◌, ◌++◌, Option, none,
  some, inl, inr, any, find, Result, ok, err, ◌>>=◌, >>=-eq-ok, >>-eq-ok, ℕ, if◌then◌else◌,
}
use centaur_context.Errors.{plain, IntakeError, conflict_with, sqlx, intake_error}
use centaur_context.Json.{Value, object, jsonb}
use centaur_context.Runs.{Run, Printer, Table, has_id, same_key, insert_run}
use centaur_context.ExternalActions.{is_actor, owns_key, idempotent_run, get_action}
use centaur_context.ExternalActions.Reservations.{
  inserted, by_identity, by_key, on_reservation, reserve, check_reservation, has_identity, has_key,
  confirm, is_same_action,
}
use centaur_context.ExternalActions.Requests.{
  Actor, ExternalAction, Reservation, ReserveRequest, Answer,
}
use centaur_context.ExternalActions.Metadata.Privacy.{safe_metadata-IsPrivate}
use centaur_context.ExternalActions.Rows.{find-append, row, row_action, row_owned, get_row}

-- A checked request keeps the metadata.
checked_metadata :
    (p : Printer) (encoded_len : Value → ℕ) (request : ReserveRequest) (q : Reservation)
    → check_reservation p encoded_len request ≡ ok q
    → q.metadata ≡ object request.metadata
unfolding check_reservation
checked_metadata p encoded_len request q h =
    let (_, h1) = >>-eq-ok _ _ h in
    let (key, _, h2) = >>=-eq-ok _ _ h1 in
    let (provider, _, h3) = >>=-eq-ok _ _ h2 in
    let (action_kind, _, h4) = >>=-eq-ok _ _ h3 in
    let (external_key, _, h5) = >>=-eq-ok _ _ h4 in
    let (title, _, h6) = >>=-eq-ok _ _ h5 in
    let (summary, _, h7) = >>=-eq-ok _ _ h6 in
    let (metadata, safe, h8) = >>=-eq-ok _ _ h7 in
    let taken : metadata ≡ q.metadata = cc in
    sym taken ∙ (safe_metadata-IsPrivate encoded_len request.metadata metadata safe).0

module _ (p : Printer) (encoded_len : Value → ℕ) (allowed : Run → Bool) (actor : Actor) where
  -- A confirmation changes nothing and answers that the action was there.
  confirm-eq-ok :
      (id : ℕ) (agrees : ExternalAction → Bool) (message : String) (runs runs' : Table)
      (a : ExternalAction) (b : Bool)
      → confirm p encoded_len id agrees message runs ≡ (runs', ok (a, b))
      → (b ≡ true) × (runs ≡ runs')
  confirm-eq-ok id agrees message runs runs' a b h =
      let (read, answered, k) = >>=-eq-ok _ _ (ap (λ x. x.1) h) in
      (agreed read (agrees read) k, ap (λ x. x.0) h)
    where
      agreed :
          (read : ExternalAction) (fine : Bool)
          → ◌≡◌ {A = Result IntakeError Answer}
              (if fine then ok (read, true) else err (conflict_with (plain message)))
              (ok (a, b))
          → b ≡ true
      agreed read true k = cc
      agreed read false k = cc

  confirmed :
      (id : ℕ) (agrees : ExternalAction → Bool) (message : String) (runs : Table)
      (a : ExternalAction)
      → get_action p encoded_len id runs ≡ ok a
      → agrees a ≡ true
      → confirm p encoded_len id agrees message runs ≡ (runs, ok (a, true))
  unfolding ◌>>=◌
  confirmed id agrees message runs a e f = rw (e, f) refl

  module _ (now new_id later_time other_id : ℕ) (q : Reservation) (a : ExternalAction) (b : Bool)
      (runs runs' : Table) (kept : jsonb p.jsonb_float q.metadata ≡ q.metadata) where
    -- The request once more, at another time and with another fresh id.
    abbrev again : Option Run → Table × Result IntakeError Answer
    again found = by_key p encoded_len allowed later_time other_id actor q runs' found

    new_answer :
        (t : Table) (read : Result IntakeError ExternalAction)
        → ◌≡◌ {A = Table × Result IntakeError Answer}
            (t, read >>= λ action. ok (action, false))
            (runs', ok (a, b))
        → (t ≡ runs') × (read ≡ ok a)
    new_answer t read h =
        let (action, answered, k) = >>=-eq-ok _ _ (ap (λ y. y.1) h) in
        (ap (λ y. y.0) h, answered ∙ ap ok (same action k))
      where
        same :
            (action : ExternalAction)
            → ◌≡◌ {A = Result IntakeError Answer} (ok (action, false)) (ok (a, b))
            → action ≡ a
        same action k = cc

    created :
        idempotent_run p encoded_len actor q.key runs ≡ none
        → any (has_id new_id) runs ≡ false
        → (runs ++ row p encoded_len allowed actor now new_id q ∷ [] ≡ runs')
          × (get_action p encoded_len new_id
                (runs ++ row p encoded_len allowed actor now new_id q ∷ [])
              ≡ ok a)
        → again (idempotent_run p encoded_len actor q.key runs') ≡ (runs', ok (a, true))
    created missing free (table, found) =
        rw
          (
            ← table,
            find-append (owns_key p encoded_len actor q.key) runs
                (row p encoded_len allowed actor now new_id q) missing
                (row_owned p encoded_len allowed actor now new_id q),
          )
          (confirmed new_id (is_same_action p encoded_len q) _ _ a found (
            row_action p encoded_len allowed actor now new_id q a kept
              (sym (get_row p encoded_len allowed actor now new_id q runs free) ∙ found)))

    inserted-again :
        idempotent_run p encoded_len actor q.key runs ≡ none
        → inserted p encoded_len allowed now new_id runs
            (insert_run allowed (row p encoded_len allowed actor now new_id q) runs)
          ≡ (runs', ok (a, b))
        → again (idempotent_run p encoded_len actor q.key runs') ≡ (runs', ok (a, true))
    unfolding insert_run
    inserted-again missing h = elim (Bool-cases (any (has_id new_id) runs)) [
      | inl taken ↦ absurd (refused (rw taken at h))
      | inr free ↦
          elim (Bool-cases (
            any (same_key (row p encoded_len allowed actor now new_id q)) runs
            || not (allowed (row p encoded_len allowed actor now new_id q)))) [
              | inl bad ↦ absurd (refused (rw (free, bad) at h))
              | inr fine ↦ created missing free (new_answer _ _ (rw (free, fine) at h))
            ]
    ]
      where
        refused :
            ◌≡◌ {A = Table × Result IntakeError Answer}
              (runs, err (intake_error sqlx))
              (runs', ok (a, b))
            → ⊥
        refused k = cc

    kept_again :
        (found : Option Run)
        → idempotent_run p encoded_len actor q.key runs ≡ found
        → by_key p encoded_len allowed now new_id actor q runs found ≡ (runs', ok (a, b))
        → again (idempotent_run p encoded_len actor q.key runs') ≡ (runs', ok (a, true))
    kept_again (some r) e h =
        let (flag, same) = confirm-eq-ok _ _ _ _ _ _ _ h in rw (← same, e) (rw (← same, flag) at h)
    kept_again none e h =
        elim (Bool-cases (any (has_key p encoded_len allowed now new_id q) runs)) [
          | inl taken ↦ absurd (refused _ (rw taken at h))
          | inr free ↦
              by_same_identity free (find (has_identity p encoded_len q) runs) refl (rw free at h)
        ]
      where
        refused :
            (e : IntakeError)
            → ◌≡◌ {A = Table × Result IntakeError Answer} (runs, err e) (runs', ok (a, b))
            → ⊥
        refused e k = cc

        by_same_identity :
            any (has_key p encoded_len allowed now new_id q) runs ≡ false
            → (other : Option Run) → find (has_identity p encoded_len q) runs ≡ other
            → by_identity p encoded_len allowed now new_id actor q runs other ≡ (runs', ok (a, b))
            → again (idempotent_run p encoded_len actor q.key runs') ≡ (runs', ok (a, true))
        by_same_identity free none o k = inserted-again e k
        by_same_identity free (some r) o k = elim (Bool-cases (is_actor p encoded_len actor r)) [
          | inl mine ↦
              let confirmation = rw mine at k in
              let (flag, same) = confirm-eq-ok _ _ _ _ _ _ _ confirmation in
              rw (← same, e, free, o, mine) (rw (← same, flag) at confirmation)
          | inr other ↦ absurd (refused _ (rw other at k))
        ]

  -- If its metadata come back from the database as they were, a reservation that succeeded succeeds
  -- again, at any later time and with any fresh id: the table stays as it is, and the answer is the
  -- same action, marked as idempotent.
  pub reserve_again :
      (now new_id later_time other_id : ℕ) (request : ReserveRequest) (runs runs' : Table)
      (a : ExternalAction) (b : Bool)
      → jsonb p.jsonb_float (object request.metadata) ≡ object request.metadata
      → reserve p encoded_len allowed now new_id actor request runs ≡ (runs', ok (a, b))
      → reserve p encoded_len allowed later_time other_id actor request runs'
        ≡ (runs', ok (a, true))
  unfolding reserve
  reserve_again now new_id later_time other_id request runs runs' a b kept h =
      cases (check_reservation p encoded_len request) refl h
    where
      cases :
          (o : Result IntakeError Reservation)
          → check_reservation p encoded_len request ≡ o
          → on_reservation p encoded_len allowed now new_id actor runs o ≡ (runs', ok (a, b))
          → on_reservation p encoded_len allowed later_time other_id actor runs' o
            ≡ (runs', ok (a, true))
      cases (err problem) e k = cc
      cases (ok q) e k =
          let whole = checked_metadata p encoded_len request q e in
          kept_again now new_id later_time other_id q a b runs runs' (rw (whole) kept) _ refl k
