-- ===== src/ExternalActions/Retry.antt =====
-- src/external_actions.rs: `append_event`, asked twice by the principal that owns the action.
use centaur_context.Common.{
  ℕ, ◌==◌, ◌≡◌, refl, ap, subst, find-here, find-past, Bool, true, false, ◌&&◌, ◌||◌, Bool-cases,
  [], ◌∷◌, Option, none, some, Option-cases, inl, inr, arith, any-append, find, Result, ok, err,
  ◌>>=◌, >>=-eq-ok,
}
use centaur_context.Errors.{IntakeError}
use centaur_context.Text.{Text, text_eq}
use centaur_context.Text.Laws.{text_eq_refl}
use centaur_context.Json.{Value, get}
use centaur_context.Runs.Updates.{Rewritten, ends, writes, leaves, update_rows-Rewritten}
use centaur_context.Runs.{Run, Printer, arrow_text, Table, update_rows, update}
use centaur_context.ExternalActions.{
  is_actor, owns_key, idempotent_run, event_entry, with_event, reply, written, step_to, apply_event,
  resolve_event, on_event, append_event, check_event, get_action,
}
use centaur_context.ExternalActions.Requests.{
  Actor, ExternalAction, Event, EventRequest, Answer, is_action,
}

module _ (hit wanted : Run → Bool) (f : Run → Run) (row : Run)
    (now_wanted : wanted (f row) ≡ true) where
  unwanted :
      (x : Run) (runs : Table)
      → find wanted (x ∷ runs) ≡ none
      → (wanted x ≡ false) × (find wanted runs ≡ none)
  unwanted x runs u = (ground arith, ground arith)

  first : (x : Run) (runs : Table) → hit x ≡ true → find hit (x ∷ runs) ≡ some row → x ≡ row
  first x runs e h = ground arith

  -- No row was wanted before an update, and the first row that it writes is wanted after it.
  find_after :
      {runs : Table} {n : ℕ} {runs' : Table}
      → Rewritten hit f runs n runs'
      → find wanted runs ≡ none
      → find hit runs ≡ some row
      → find wanted runs' ≡ some (f row)
  find_after ends u h = cc
  find_after (writes {r = x} {runs} {n} {runs' = mid} e w) u h =
      rw (first x runs e h) (find-here wanted (f row) mid now_wanted)
  find_after (leaves {r = x} {runs} {n} {runs' = mid} e w) u h =
      let (other, rest) = unwanted x runs u in
      rw (find-past wanted x mid other) (find_after w rest (rw (find-past hit x runs e) at h))

module _ (p : Printer) (encoded_len : Value → ℕ) (allowed : Run → Bool) (actor : Actor)
    (run_id : ℕ) where
  reply-eq-ok :
      (idempotent : Bool) (runs runs' : Table) (a : ExternalAction) (b : Bool)
      → reply p encoded_len run_id idempotent runs ≡ (runs', ok (a, b))
      → reply p encoded_len run_id true runs' ≡ (runs', ok (a, true))
  unfolding ◌>>=◌
  reply-eq-ok idempotent runs runs' a b h =
      let (action, answered, k) =
        >>=-eq-ok (get_action p encoded_len run_id runs) _ (ap (λ x. x.1) h) in
      let same : runs ≡ runs' = ap (λ x. x.0) h in rw (← same, answered, action_is action k) refl
    where
      action_is :
          (action : ExternalAction)
          → ◌≡◌ {A = Result IntakeError Answer} (ok (action, idempotent)) (ok (a, b))
          → action ≡ a
      action_is action k = cc

  found_id :
      (runs : Table) (row : Run)
      → find (is_action run_id) runs ≡ some row
      → is_action run_id row ≡ true
  found_id [] row h = cc
  found_id (x ∷ runs) row h = elim (Bool-cases (is_action run_id x)) [
    | inl here ↦
        let same : some x ≡ some row = rw (find-here (is_action run_id) x runs here) at h in
        let eq : x ≡ row = cc in subst (λ y. is_action run_id y ≡ true) eq here
    | inr missed ↦ found_id runs row (rw (find-past (is_action run_id) x runs missed) at h)
  ]

  module _ (now : ℕ) (created_at entry_id : Value) (e : Event) where
    abbrev write : Text → Run → Run
    write next =
        with_event p encoded_len allowed now created_at entry_id next
          (event_entry p encoded_len entry_id created_at actor e)

    write_owned :
        (next : Text) (row : Run)
        → is_action run_id row ≡ true
        → is_actor p encoded_len actor row ≡ true
        → owns_key p encoded_len actor e.key (write next row) ≡ true
    unfolding arrow_text get text_eq
    write_owned next row action mine =
        rw (any-append _ row.trace (event_entry p encoded_len entry_id created_at actor e ∷ []))
          (rw (text_eq_refl e.key) (all_of _ _ _ _ _ action mine))
      where
        all_of :
            (i x m k l : Bool)
            → (i && x) ≡ true
            → m ≡ true
            → (x && m && (k || (l || (true || false)))) ≡ true
        all_of i x m k l s t = ground arith

  module _ (now later_time : ℕ) (created_at entry_id created_at' entry_id' : Value) (e : Event)
      (runs runs' : Table) (a : ExternalAction) (b : Bool) where
    -- The answer to the request once more.
    abbrev again : Option Run → Table × Result IntakeError Answer
    again found =
        resolve_event p encoded_len allowed later_time created_at' entry_id' actor run_id e runs'
          found

    found_again :
        (idempotent : Bool) (mid : Table) (r : Run)
        → (r.id == run_id) ≡ true
        → idempotent_run p encoded_len actor e.key mid ≡ some r
        → reply p encoded_len run_id idempotent mid ≡ (runs', ok (a, b))
        → again (idempotent_run p encoded_len actor e.key runs') ≡ (runs', ok (a, true))
    found_again idempotent mid r same found h =
        let table : mid ≡ runs' = ap (λ x. x.0) h in
        rw (← table, found, same, table) (reply-eq-ok idempotent mid runs' a b h)

    refused :
        (problem : IntakeError) {S : Type 0}
        → ◌≡◌ {A = Table × Result IntakeError Answer} (runs, err problem) (runs', ok (a, b))
        → S
    refused problem k = absurd (cc)

    written-again :
        (next : Text) (row : Run)
        → is_actor p encoded_len actor row ≡ true
        → idempotent_run p encoded_len actor e.key runs ≡ none
        → find (is_action run_id) runs ≡ some row
        → written p encoded_len allowed now created_at entry_id run_id runs
            (update allowed (is_action run_id) (write now created_at entry_id e next) runs)
          ≡ (runs', ok (a, b))
        → again (idempotent_run p encoded_len actor e.key runs') ≡ (runs', ok (a, true))
    unfolding update
    written-again next row mine unseen found h =
        elim (Option-cases
          (update_rows allowed (is_action run_id) (write now created_at entry_id e next) runs)) [
            | inl bad ↦ refused _ (rw bad at h)
            | inr ((n, mid), good) ↦
                let action = found_id runs row found in
                let owned = write_owned now created_at entry_id e next row action mine in
                found_again false mid (write now created_at entry_id e next row) (id_of _ _ action)
                  (find_after (is_action run_id) (owns_key p encoded_len actor e.key)
                    (write now created_at entry_id e next) row owned
                    (update_rows-Rewritten allowed (is_action run_id)
                      (write now created_at entry_id e next) runs n mid good)
                    unseen found)
                  (rw good at h)
          ]
      where
        id_of : (i x : Bool) → (i && x) ≡ true → i ≡ true
        id_of i x k = ground arith

    step_again :
        (row : Run) (outcome : Result IntakeError Text)
        → is_actor p encoded_len actor row ≡ true
        → idempotent_run p encoded_len actor e.key runs ≡ none
        → find (is_action run_id) runs ≡ some row
        → step_to p encoded_len allowed now created_at entry_id actor run_id e runs outcome
          ≡ (runs', ok (a, b))
        → again (idempotent_run p encoded_len actor e.key runs') ≡ (runs', ok (a, true))
    step_again row (err problem) mine unseen found h = refused problem h
    step_again row (ok next) mine unseen found h = written-again next row mine unseen found h

    apply_again :
        (found : Option Run)
        → ((row : Run) → found ≡ some row → is_actor p encoded_len actor row ≡ true)
        → idempotent_run p encoded_len actor e.key runs ≡ none
        → find (is_action run_id) runs ≡ found
        → apply_event p encoded_len allowed now created_at entry_id actor run_id e runs found
          ≡ (runs', ok (a, b))
        → again (idempotent_run p encoded_len actor e.key runs') ≡ (runs', ok (a, true))
    apply_again none mine unseen found h = refused _ h
    apply_again (some row) mine unseen found h = step_again row _ (mine row refl) unseen found h

    resolve_again :
        (found : Option Run)
        → ((row : Run)
            → find (is_action run_id) runs ≡ some row
            → is_actor p encoded_len actor row ≡ true)
        → idempotent_run p encoded_len actor e.key runs ≡ found
        → resolve_event p encoded_len allowed now created_at entry_id actor run_id e runs found
          ≡ (runs', ok (a, b))
        → again (idempotent_run p encoded_len actor e.key runs') ≡ (runs', ok (a, true))
    resolve_again none mine seen h = apply_again _ mine seen refl h
    resolve_again (some r) mine seen h = elim (Bool-cases (r.id == run_id)) [
      | inl same ↦ found_again true runs r same seen (rw same at h)
      | inr other ↦ refused _ (rw other at h)
    ]

  -- If the action belongs to the principal that asks, an event that was accepted is accepted again,
  -- at any later time: the table stays as it is, and the answer is the same, marked as idempotent.
  pub append_event_again :
      (now later_time : ℕ) (created_at entry_id created_at' entry_id' : Value)
      (request : EventRequest) (runs runs' : Table) (a : ExternalAction) (b : Bool)
      → ((row : Run)
          → find (is_action run_id) runs ≡ some row
          → is_actor p encoded_len actor row ≡ true)
      → append_event p encoded_len allowed now created_at entry_id actor run_id request runs
        ≡ (runs', ok (a, b))
      → append_event p encoded_len allowed later_time created_at' entry_id' actor run_id request
          runs'
        ≡ (runs', ok (a, true))
  unfolding append_event
  append_event_again now later_time created_at entry_id created_at' entry_id' request runs runs' a b
        mine h =
      cases (check_event p encoded_len request) h
    where
      cases :
          (o : Result IntakeError Event)
          → on_event p encoded_len allowed now created_at entry_id actor run_id runs o
            ≡ (runs', ok (a, b))
          → on_event p encoded_len allowed later_time created_at' entry_id' actor run_id runs' o
            ≡ (runs', ok (a, true))
      cases (err problem) k = cc
      cases (ok e) k =
          resolve_again now later_time created_at entry_id created_at' entry_id' e runs runs' a b _
            mine refl k
