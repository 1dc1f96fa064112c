-- ===== src/Runs/Usage/Recording/Again.antt =====
-- src/runs.rs: the usage of one call that is reported twice.
use centaur_context.Common.{
  and_false, ℕ, zero, suc, ◌≡◌, ◌≢◌, refl, sym, ◌∙◌, Bool, true, false, not, Option, none, some,
  is_none, Option-cases, inl, inr, arith, find, Result, ok,
}
use centaur_context.Errors.{DbError, sqlx, not_found}
use centaur_context.Runs.{Run, Printer, Table, ◌>>=◌, ◌>>◌, has_id, update, push_trace}
use centaur_context.Runs.History.{pushed, tx-bind, tx-then}
use centaur_context.Runs.Rows.{updated, has_id_of_find, find-update, commit-eq-ok, ensure-eq-ok}
use centaur_context.Runs.Once.{no_row-Passed, Passed, update-Passed, Passed-update}
use centaur_context.Runs.Usage.{NormalizedUsage}
use centaur_context.Runs.Usage.Recording.{
  Attempts, attempt_entry, is_recorded, is_false, found, is_readable, is_missing_in, check_run,
  record_usage_in_tx, record_usage,
}
use centaur_context.Runs.Usage.Recording.Entries.{IsWritten, recorded-append, barred}

-- The run is there, and its trace has the call.
record IsRecorded (p : Printer) (a : Attempts) (u : NormalizedUsage) (runs : Table) : Type 0 where
  passed : Passed (is_missing_in p a u) runs
  row : (r : Run) × (find (has_id u.run_id) runs ≡ some r) × (is_recorded p a u r.trace ≡ some true)

module _ (p : Printer) (a : Attempts) (u : NormalizedUsage) where
  check_run-eq-ok :
      (id n x : ℕ) (mid runs' : Table)
      → check_run p a id u n mid ≡ ok (x, runs')
      → (mid ≡ runs') × (x ≡ id) × (n ≡ 0 → find (has_id u.run_id) mid ≢ none)
  check_run-eq-ok id zero x mid runs' h =
      let (row, mid', read, rest) = tx-bind _ _ mid h in
      let (unit, mid'', ensured, last) = tx-then _ _ mid' rest in
      let (there, kept) = ensure-eq-ok (not (is_none row)) not_found mid' mid'' ensured in
      let same : mid ≡ mid' = cc in
      let found : find (has_id u.run_id) mid ≡ row = cc in
      (same ∙ kept ∙ cc, cc, λ e k. is_there row there (sym found ∙ k))
    where
      is_there : (o : Option Run) → not (is_none o) ≡ true → o ≡ none → ⊥
      is_there none h k = cc
      is_there (some r) h k = cc
  check_run-eq-ok id (suc n) x mid runs' h = (cc, cc, λ e. absurd (omega arith))

  statement-eq-ok :
      (allowed : Run → Bool) (now id x : ℕ) (runs runs' : Table)
      → record_usage_in_tx p a allowed now id u runs ≡ ok (x, runs')
      → (is_readable p a u (find (has_id u.run_id) runs) ≡ true)
        × (n : ℕ) × (update allowed
              (is_missing_in p a u)
              (push_trace (attempt_entry p a id now u) now)
              runs
            ≡ ok (n, runs'))
        × (x ≡ id)
        × (n ≡ 0 → find (has_id u.run_id) runs' ≢ none)
  unfolding record_usage_in_tx
  statement-eq-ok allowed now id x runs runs' h =
      let (row, mid, read, rest) = tx-bind _ _ runs h in
      let same : runs ≡ mid = cc in
      let (unit, mid', ensured, rest') = tx-then _ _ mid rest in
      let (readable, kept) = ensure-eq-ok (is_readable p a u row) sqlx mid mid' ensured in
      let (n, mid'', wrote, last) = tx-bind _ _ mid' rest' in
      let (end, answer, there) = check_run-eq-ok id n x mid'' runs' last in
      let found : find (has_id u.run_id) runs ≡ row = cc in
      (rw (found) readable, n, rw (same ∙ kept, ← end) wrote, answer, rw (← end) there)

  -- The row of the run after the statement.
  written_row :
      (w : IsWritten p a u) (allowed : Run → Bool) (now id n : ℕ) (runs runs' : Table) (r : Run)
      → find (has_id u.run_id) runs ≡ some r
      → is_readable p a u (some r) ≡ true
      → update allowed (is_missing_in p a u) (push_trace (attempt_entry p a id now u) now) runs
        ≡ ok (n, runs')
      → (s : Run) × (find (has_id u.run_id) runs' ≡ some s)
        × (is_recorded p a u s.trace ≡ some true)
  written_row w allowed now id n runs runs' r here readable wrote =
      let write = push_trace (attempt_entry p a id now u) now in
      let after =
        find-update allowed (is_missing_in p a u) write
          (λ q. pushed (attempt_entry p a id now u) now q) u.run_id runs n runs' r here wrote in
      outcome (is_recorded p a u r.trace) refl after
    where
      outcome :
          (o : Option Bool)
          → is_recorded p a u r.trace ≡ o
          → find (has_id u.run_id) runs'
            ≡ some (updated (is_missing_in p a u r) (push_trace (attempt_entry p a id now u) now) r)
          → (s : Run) × (find (has_id u.run_id) runs' ≡ some s)
            × (is_recorded p a u s.trace ≡ some true)
      outcome none e after = let broken : false ≡ true = rw (e) at readable in cc
      outcome (some true) e after = (r, rw (e, and_false (has_id u.run_id r)) at after, e)
      outcome (some false) e after = (
        push_trace (attempt_entry p a id now u) now r,
        rw (e, has_id_of_find u.run_id runs r here) at after,
        recorded-append p a u w id now r.trace e,
      )

  IsRecorded-again :
      (allowed : Run → Bool) (now id : ℕ) (runs : Table)
      → IsRecorded p a u runs
      → record_usage p a allowed now id u runs ≡ (runs, ok id)
  unfolding record_usage record_usage_in_tx ◌>>=◌ ◌>>◌
  IsRecorded-again allowed now id runs i =
      let (r, found, recorded) = i.row in
      rw
        (
          found,
          recorded,
          Passed-update allowed (is_missing_in p a u) (push_trace (attempt_entry p a id now u) now)
              runs i.passed,
          found,
        )
        refl

  record_usage-IsRecorded :
      (w : IsWritten p a u) (allowed : Run → Bool) (now id x : ℕ) (runs runs' : Table)
      → record_usage p a allowed now id u runs ≡ (runs', ok x)
      → IsRecorded p a u runs' × (x ≡ id)
  unfolding record_usage
  record_usage-IsRecorded w allowed now id x runs runs' h =
      let done = commit-eq-ok (record_usage_in_tx p a allowed now id u) runs runs' x h in
      let (readable, n, wrote, answer, there) = statement-eq-ok allowed now id x runs runs' done in
      let passed =
        update-Passed allowed (is_missing_in p a u) (push_trace (attempt_entry p a id now u) now)
          (barred p a u w id now) runs runs' n wrote in
      elim (Option-cases (find (has_id u.run_id) runs)) [
        | inl nothing ↦
            let none_written =
              Passed-update allowed (is_missing_in p a u)
                (push_trace (attempt_entry p a id now u) now) runs
                (no_row-Passed u.run_id (λ r. is_false p a (is_recorded p a u r.trace)) runs
                  nothing) in
            let same : ◌≡◌ {A = Result DbError (ℕ × Table)} (ok (0, runs)) (ok (n, runs')) =
              sym none_written ∙ wrote in
            let zero_rows : n ≡ 0 = cc in
            let table : runs ≡ runs' = cc in absurd (there zero_rows (rw (← table) nothing))
        | inr (r, here) ↦ (
          record {
            passed = passed;
            row = written_row w allowed now id n runs runs' r here (rw (here) at readable) wrote;
          },
          answer,
        )
      ]

  -- Where the serializer writes the fields that tell a call, its index is a number of 32 bits, and the
  -- cast to integer reads every printed such number as itself: once the usage of a call was recorded, a
  -- report of the same usage, at any later time, changes nothing and is answered with an id of its own.
  pub record_usage_again :
      (w : IsWritten p a u) (allowed : Run → Bool) (now later id id' x : ℕ) (runs runs' : Table)
      → record_usage p a allowed now id u runs ≡ (runs', ok x)
      → record_usage p a allowed later id' u runs' ≡ (runs', ok id')
  record_usage_again w allowed now later id id' x runs runs' h =
      IsRecorded-again allowed later id' runs'
        (record_usage-IsRecorded w allowed now id x runs runs' h).0
