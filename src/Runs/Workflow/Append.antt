-- ===== src/Runs/Workflow/Append.antt =====
-- src/runs.rs: `append_workflow_trace`, once and again.
use centaur_context.Common.{
  and_false, ℕ, zero, suc, ◌≡◌, ◌≢◌, refl, Bool, true, false, not, ◌&&◌, ◌||◌, Bool-cases, [], ◌∷◌,
  Option, none, some, Option-cases, inl, inr, arith, any-append, ok, find, find-here, find-past,
}
use centaur_context.Text.{lit}
use centaur_context.Text.Laws.{text_eq_refl}
use centaur_context.Runs.{Run, Printer, Table, ◌>>=◌, arrow_text, push_trace, has_entry}
use centaur_context.Runs.History.{tx-bind}
use centaur_context.Runs.Updates.{update-Rewritten}
use centaur_context.Runs.Rows.{commit-eq-ok, find-written}
use centaur_context.Runs.Once.{Passed, update-Passed, Passed-update}
use centaur_context.Runs.Validation.{WorkflowTraceEntry}
use centaur_context.Runs.Workflow.{
  is_workflow_run, entry_status, after_update, append_entry, append_workflow_trace,
}

module _ (p : Printer) (allowed : Run → Bool) (now : ℕ) (run_id : ℕ)
    (entry : WorkflowTraceEntry) where
  abbrev takes : Run → Bool
  takes r = is_workflow_run p allowed now run_id r && not (has_entry p (p.uuid_text entry.id) r)

  abbrev write : Run → Run
  write r = push_trace (p.to_value entry) now r

  has_entry-write :
      arrow_text p (p.to_value entry) (lit "id") ≡ some (p.uuid_text entry.id)
      → (r : Run) → has_entry p (p.uuid_text entry.id) (write r) ≡ true
  has_entry-write named r =
      rw
        (any-append _ r.trace ((p.to_value entry) ∷ []), named, text_eq_refl (p.uuid_text entry.id))
        (or_true (has_entry p (p.uuid_text entry.id) r))
    where
      or_true : (b : Bool) → (b || (true || false)) ≡ true
      or_true b = ground arith

  takes-write :
      arrow_text p (p.to_value entry) (lit "id") ≡ some (p.uuid_text entry.id)
      → (r : Run) → takes (write r) ≡ false
  takes-write named r =
      rw (has_entry-write named r) (and_false (is_workflow_run p allowed now run_id r))

  takes-workflow :
      (r : Run) → takes r ≡ true → is_workflow_run p allowed now run_id (write r) ≡ true
  takes-workflow r h = ground arith

  -- What an append that succeeds leaves: the run's rows have the entry, and there is such a row.
  record IsAppended (runs : Table) : Type 0 where
    everywhere : Passed takes runs
    somewhere : find (is_workflow_run p allowed now run_id) runs ≢ none

  entry_status-eq-ok :
      (row : Option Run) (mid runs' : Table) (x : ℕ)
      → entry_status p allowed now entry row mid ≡ ok (x, runs')
      → (row ≢ none) × (mid ≡ runs') × (x ≡ entry.id)
  entry_status-eq-ok none mid runs' x h = cc
  entry_status-eq-ok (some r) mid runs' x h = (cc, ground arith, ground arith)

  after_update-eq-ok :
      (n : ℕ) (mid runs' : Table) (x : ℕ)
      → after_update p allowed now run_id entry n mid ≡ ok (x, runs')
      → (n ≡ 0 → find (is_workflow_run p allowed now run_id) mid ≢ none)
        × (mid ≡ runs')
        × (x ≡ entry.id)
  after_update-eq-ok zero mid runs' x h =
      let (row, mid', first, second) = tx-bind _ _ mid h in
      let same : mid ≡ mid' = cc in
      let read : find (is_workflow_run p allowed now run_id) mid ≡ row = cc in
      let (found, kept, answer) = entry_status-eq-ok row mid' runs' x second in
      (λ _. rw read found, rw same kept, answer)
  after_update-eq-ok (suc n) mid runs' x h = (λ e. absurd (omega arith), cc, cc)

  append-IsAppended :
      (runs runs' : Table) (x : ℕ)
      → arrow_text p (p.to_value entry) (lit "id") ≡ some (p.uuid_text entry.id)
      → append_workflow_trace p allowed now run_id entry runs ≡ (runs', ok x)
      → IsAppended runs' × (x ≡ entry.id)
  unfolding append_workflow_trace append_entry
  append-IsAppended runs runs' x named h =
      let done = commit-eq-ok (append_entry p allowed now run_id entry) runs runs' x h in
      let (n, mid, first, second) = tx-bind _ _ runs done in
      let (found, same, answer) = after_update-eq-ok n mid runs' x second in
      let everywhere =
        update-Passed allowed takes write (λ r _. takes-write named r) runs mid n first in
      let written =
        find-written takes (is_workflow_run p allowed now run_id) write takes-workflow
          (update-Rewritten allowed takes write runs n mid first) in
      (
        rw (← same) (record { everywhere = everywhere; somewhere = there n mid found written }),
        answer,
      )
    where
      there :
          (n : ℕ) (mid : Table)
          → (n ≡ 0 → find (is_workflow_run p allowed now run_id) mid ≢ none)
          → (n ≢ 0 → find (is_workflow_run p allowed now run_id) mid ≢ none)
          → find (is_workflow_run p allowed now run_id) mid ≢ none
      there zero mid a b = a refl
      there (suc n) mid a b = b (λ e. absurd (omega arith))

  found_entry :
      (runs : Table) (r : Run)
      → Passed takes runs
      → find (is_workflow_run p allowed now run_id) runs ≡ some r
      → has_entry p (p.uuid_text entry.id) r ≡ true
  found_entry [] r g h = cc
  found_entry (x ∷ runs) r (fine, g) h =
      elim (Bool-cases (is_workflow_run p allowed now run_id x)) [
        | inl here ↦
            let same : some x ≡ some r =
              rw (find-here (is_workflow_run p allowed now run_id) x runs here) at h in
            let row : x ≡ r = cc in rw (← row) (entered x here fine)
        | inr away ↦
            found_entry runs r g
              (rw (find-past (is_workflow_run p allowed now run_id) x runs away) at h)
      ]
    where
      unsettled : (a b : Bool) → a ≡ true → not (a && not b) ≡ true → b ≡ true
      unsettled a b h k = ground arith

      entered :
          (x : Run)
          → is_workflow_run p allowed now run_id x ≡ true
          → not (takes x) ≡ true
          → has_entry p (p.uuid_text entry.id) x ≡ true
      entered x here fine = unsettled _ _ here fine

  append_settled :
      (later : ℕ) (runs : Table)
      → IsAppended runs
      → append_workflow_trace p allowed later run_id entry runs ≡ (runs, ok entry.id)
  unfolding append_workflow_trace append_entry ◌>>=◌
  append_settled later runs a =
      elim (Option-cases (find (is_workflow_run p allowed now run_id) runs)) [
        | inl nothing ↦ absurd (a.somewhere nothing)
        | inr (r, found) ↦
            rw (Passed-update allowed takes (push_trace (p.to_value entry) later) runs a.everywhere)
              (rw (found, found_entry runs r a.everywhere found))
      ]

  -- If the serialized entry carries its id, then after an append that succeeded the same append, at
  -- any later time, changes nothing and succeeds with the id of the entry.
  pub append_again :
      (later : ℕ) (runs runs' : Table) (x : ℕ)
      → arrow_text p (p.to_value entry) (lit "id") ≡ some (p.uuid_text entry.id)
      → append_workflow_trace p allowed now run_id entry runs ≡ (runs', ok x)
      → append_workflow_trace p allowed later run_id entry runs' ≡ (runs', ok entry.id)
  append_again later runs runs' x named h =
      append_settled later runs' (append-IsAppended runs runs' x named h).0
