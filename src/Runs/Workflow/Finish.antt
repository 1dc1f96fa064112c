-- ===== src/Runs/Workflow/Finish.antt =====
-- src/runs.rs: `finish_workflow_run`, once and again.
use centaur_context.Common.{
  ℕ, ◌≡◌, Bool, false, Bool-cases, Option, none, some, inl, inr, Result, ok, err, find,
}
use centaur_context.Errors.{DbError, conflict}
use centaur_context.Text.{lit, text_eq}
use centaur_context.Text.Laws.{text_eq_sound, text_eq_refl}
use centaur_context.Runs.{Run, Printer, Table, ◌>>=◌, has_id}
use centaur_context.Runs.History.{tx-bind}
use centaur_context.Runs.Rows.{commit-eq-ok}
use centaur_context.Runs.Validation.{WorkflowRunFinish}
use centaur_context.Runs.Workflow.{is_workflow, detail, finish_row, finish_tx, finish_workflow_run}
use centaur_context.Runs.Workflow.Life.{IsFinished, detail-eq-ok, close_run-eq-ok}

module _ (p : Printer) (allowed : Run → Bool) (later : ℕ) where
  detail_of_find :
      (run_id : ℕ) (runs : Table) (r : Run)
      → find (has_id run_id) runs ≡ some r
      → detail p allowed later run_id runs ≡ ok (r, runs)
  unfolding detail ◌>>=◌
  detail_of_find run_id runs r h = rw h

  finish_tx_row :
      (run_id : ℕ) (j : WorkflowRunFinish) (runs : Table) (r : Run)
      → find (has_id run_id) runs ≡ some r
      → finish_tx p allowed later run_id j runs ≡ finish_row p allowed later run_id j (some r) runs
  unfolding finish_tx ◌>>=◌
  finish_tx_row run_id j runs r h = rw h

module _ (p : Printer) (allowed : Run → Bool) (now : ℕ) where
  -- The row at hand is the one that the table holds.
  abbrev Row : ℕ → Table → Option Run → Type 0
  Row run_id runs row = find (has_id run_id) runs ≡ row

  finish_row-IsFinished :
      (run_id : ℕ) (i : WorkflowRunFinish) (runs runs' : Table) (row : Option Run) (r' : Run)
      → Row run_id runs row
      → finish_row p allowed now run_id i row runs ≡ ok (r', runs')
      → IsFinished p allowed now run_id i runs' r'
  unfolding finish_row
  finish_row-IsFinished run_id i runs runs' none r' h k = cc
  finish_row-IsFinished run_id i runs runs' (some r) r' h k = elim (Bool-cases (is_workflow r)) [
    | inr other ↦ refused (rw other at k)
    | inl workflow ↦ elim (Bool-cases (text_eq r.status (lit "running"))) [
      | inl running ↦
          let (found, written) =
            close_run-eq-ok p allowed now run_id i runs runs' r r' workflow h
              (rw (workflow, running) at k) in
          record {
            found = found;
            workflow = rw written workflow;
            status = rw written (text_eq_refl i.status);
          }
      | inr over ↦ elim (Bool-cases (text_eq r.status i.status)) [
        | inl again ↦
            let (read, same) =
              detail-eq-ok p allowed now run_id runs runs' r' (rw (workflow, over, again) at k) in
            let row_is : r ≡ r' = one r r' h read in
            record {
              found = rw (← same) read;
              workflow = rw (← row_is) workflow;
              status = rw (← row_is) again;
            }
        | inr different ↦ refused (rw (workflow, over, different) at k)
      ]
    ]
  ]
    where
      refused :
          ◌≡◌ {A = Result DbError (Run × Table)} (err conflict) (ok (r', runs'))
          → IsFinished p allowed now run_id i runs' r'
      refused e = cc

      one :
          (a b : Run)
          → find (has_id run_id) runs ≡ some a
          → find (has_id run_id) runs ≡ some b
          → a ≡ b
      one a b ea eb = cc

  -- A finish that succeeds leaves the run with the status that it asked for, and returns that row.
  finish-IsFinished :
      (run_id : ℕ) (i : WorkflowRunFinish) (runs runs' : Table) (r' : Run)
      → finish_workflow_run p allowed now run_id i runs ≡ (runs', ok r')
      → IsFinished p allowed now run_id i runs' r'
  unfolding finish_workflow_run finish_tx
  finish-IsFinished run_id i runs runs' r' h =
      let done = commit-eq-ok (finish_tx p allowed now run_id i) runs runs' r' h in
      let (row, mid, first, second) = tx-bind _ _ runs done in
      let same : runs ≡ mid = cc in
      let read : find (has_id run_id) mid ≡ row = cc in
      finish_row-IsFinished run_id i mid runs' row r' read second

  again :
      (later run_id : ℕ) (i : WorkflowRunFinish) (runs : Table) (r : Run)
      → IsFinished p allowed now run_id i runs r
      → text_eq r.status (lit "running") ≡ false
      → finish_workflow_run p allowed later run_id i runs ≡ (runs, ok r)
  unfolding finish_workflow_run finish_row
  again later run_id i runs r f over =
      rw (finish_tx_row p allowed later run_id i runs r f.found) (
        rw (f.workflow, over, f.status) (rw (detail_of_find p allowed later run_id runs r f.found)))

  clash :
      (later run_id : ℕ) (i j : WorkflowRunFinish) (runs : Table) (r : Run)
      → IsFinished p allowed now run_id i runs r
      → text_eq r.status (lit "running") ≡ false
      → text_eq r.status j.status ≡ false
      → finish_workflow_run p allowed later run_id j runs ≡ (runs, err conflict)
  unfolding finish_workflow_run finish_row
  clash later run_id i j runs r f over differs =
      rw (finish_tx_row p allowed later run_id j runs r f.found) (rw (f.workflow, over, differs))

  -- After a finish with a status other than `running` has succeeded, the same finish, at any later
  -- time, changes nothing and returns the same row, and one with another status changes nothing and is
  -- a conflict.
  pub finish_again :
      (later run_id : ℕ) (i j : WorkflowRunFinish) (runs runs' : Table) (r' : Run)
      → finish_workflow_run p allowed now run_id i runs ≡ (runs', ok r')
      → text_eq i.status (lit "running") ≡ false
      → text_eq i.status j.status ≡ false
      → (finish_workflow_run p allowed later run_id i runs' ≡ (runs', ok r'))
        × (finish_workflow_run p allowed later run_id j runs' ≡ (runs', err conflict))
  finish_again later run_id i j runs runs' r' h final other =
      let f = finish-IsFinished run_id i runs runs' r' h in
      let status_is = text_eq_sound r'.status i.status f.status in
      let over : text_eq r'.status (lit "running") ≡ false = rw status_is final in
      let differs : text_eq r'.status j.status ≡ false = rw status_is other in
      (again later run_id i runs' r' f over, clash later run_id i j runs' r' f over differs)
