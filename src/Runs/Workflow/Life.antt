-- ===== src/Runs/Workflow/Life.antt =====
-- src/runs.rs: what holds of a workflow run through its start, its trace and its finish.
use centaur_context.Common.{
  ℕ, zero, suc, ◌≡◌, refl, Bool, true, false, Bool-cases, Option, none, some, inl, inr, Result, ok,
  err, find,
}
use centaur_context.Errors.{DbError, conflict, not_found}
use centaur_context.Text.{Text, lit, text_eq}
use centaur_context.Text.Laws.{text_eq_other}
use centaur_context.Runs.{Run, Printer, Table, ensure, has_id, insert_if_new}
use centaur_context.Runs.History.{
  touched, pushed, Evolves, Grows, Keeps, Keeps-then, Keeps-bind, Keeps-return, Keeps-if,
  Keeps-fail, Keeps-ensure, Keeps-select, Keeps-update, Keeps-insert_if_new, Grows-commit, tx-bind,
  tx-then,
}
use centaur_context.Runs.Rows.{has_id_of_find, find-update}
use centaur_context.Runs.Validation.{WorkflowRunStart, WorkflowRunFinish, WorkflowTraceEntry}
use centaur_context.Runs.Workflow.{
  is_workflow, start_workflow_run, read_back, append_entry, after_update, entry_status,
  append_workflow_trace, link_child, finished, close_run, read_run, detail, finish_row, finish_tx,
  finish_workflow_run, is_claimable,
}

module _ (p : Printer) (allowed : Run → Bool) (now : ℕ) where
  finished-Evolves : (i : WorkflowRunFinish) (r : Run) → Evolves r (finished p allowed now i r)
  finished-Evolves i r = touched r refl refl refl refl refl refl refl refl

  Keeps-link_child : (run_id : ℕ) (child : Option ℕ) → Keeps (link_child p allowed now run_id child)
  unfolding link_child
  Keeps-link_child run_id none = Keeps-return tt
  Keeps-link_child run_id (some child) =
      Keeps-bind _ _
        (Keeps-update allowed _ _ (λ r. touched r refl refl refl refl refl refl refl refl))
        (λ linked. Keeps-ensure _ conflict)

  Keeps-detail : (run_id : ℕ) → Keeps (detail p allowed now run_id)
  unfolding detail
  Keeps-detail run_id = Keeps-bind _ _ (Keeps-select _) (λ row. read row)
    where
      read : (row : Option Run) → Keeps (read_run p allowed now run_id row)
      read none = Keeps-fail not_found
      read (some r) = Keeps-return r

  Keeps-close_run : (run_id : ℕ) (i : WorkflowRunFinish) → Keeps (close_run p allowed now run_id i)
  unfolding close_run
  Keeps-close_run run_id i =
      Keeps-then _ _ (Keeps-link_child run_id i.child_run_id)
        (Keeps-then _ _ (Keeps-update allowed _ _ (finished-Evolves i)) (Keeps-detail run_id))

  Keeps-finish_row :
      (run_id : ℕ) (i : WorkflowRunFinish) (row : Option Run)
      → Keeps (finish_row p allowed now run_id i row)
  unfolding finish_row
  Keeps-finish_row run_id i none = Keeps-fail not_found
  Keeps-finish_row run_id i (some r) = Keeps-if _ _ _ (Keeps-fail conflict) (
      Keeps-if _ _ _ (Keeps-close_run run_id i)
        (Keeps-if _ _ _ (Keeps-detail run_id) (Keeps-fail conflict)))

  Keeps-finish_tx : (run_id : ℕ) (i : WorkflowRunFinish) → Keeps (finish_tx p allowed now run_id i)
  unfolding finish_tx
  Keeps-finish_tx run_id i = Keeps-bind _ _ (Keeps-select _) (Keeps-finish_row run_id i)

  Keeps-append_entry :
      (run_id : ℕ) (entry : WorkflowTraceEntry) → Keeps (append_entry p allowed now run_id entry)
  unfolding append_entry
  Keeps-append_entry run_id entry =
      Keeps-bind _ _ (Keeps-update allowed _ _ (λ r. pushed (p.to_value entry) now r)) after
    where
      status : (row : Option Run) → Keeps (entry_status p allowed now entry row)
      status none = Keeps-fail not_found
      status (some r) = Keeps-if _ _ _ (Keeps-return entry.id) (Keeps-fail conflict)

      after : (n : ℕ) → Keeps (after_update p allowed now run_id entry n)
      after zero = Keeps-bind _ _ (Keeps-select _) status
      after (suc n) = Keeps-return entry.id

  Grows-read_back :
      (actor_type actor_id : Text) (i : WorkflowRunStart) (runs : Table)
      (o : Table × Result DbError (Unit {0}))
      → Grows runs o.0
      → Grows runs (read_back p allowed now actor_type actor_id i o).0
  Grows-read_back actor_type actor_id i runs (runs', ok _) g = g
  Grows-read_back actor_type actor_id i runs (runs', err e) g = g

  -- Starting, tracing and finishing a workflow run, whatever their outcome, leave every row's
  -- identity, input and creation time as they are, only append to traces, and lose no row.
  pub workflow-Grows :
      (actor_type actor_id : Text) (start : WorkflowRunStart) (run_id : ℕ)
      (entry : WorkflowTraceEntry) (finish : WorkflowRunFinish) (runs : Table)
      → Grows runs (start_workflow_run p allowed now actor_type actor_id start runs).0
        × Grows runs (append_workflow_trace p allowed now run_id entry runs).0
        × Grows runs (finish_workflow_run p allowed now run_id finish runs).0
  unfolding start_workflow_run append_workflow_trace finish_workflow_run
  workflow-Grows actor_type actor_id start run_id entry finish runs = (
    Grows-read_back actor_type actor_id start runs _
        (Grows-commit (insert_if_new allowed _) runs (Keeps-insert_if_new allowed _)),
    Grows-commit (append_entry p allowed now run_id entry) runs (Keeps-append_entry run_id entry),
    Grows-commit (finish_tx p allowed now run_id finish) runs (Keeps-finish_tx run_id finish),
  )

  -- A row that a finish with the given status accepts or leaves.
  pub record IsFinished (run_id : ℕ) (i : WorkflowRunFinish) (runs : Table) (r : Run) : Type 0 where
    pub found : find (has_id run_id) runs ≡ some r
    pub workflow : is_workflow r ≡ true
    pub status : text_eq r.status i.status ≡ true

  pub detail-eq-ok :
      (run_id : ℕ) (runs runs' : Table) (r : Run)
      → detail p allowed now run_id runs ≡ ok (r, runs')
      → (find (has_id run_id) runs ≡ some r) × (runs ≡ runs')
  unfolding detail
  detail-eq-ok run_id runs runs' r h =
      let (row, mid, first, second) = tx-bind _ _ runs h in
      let same : runs ≡ mid = cc in
      let read : find (has_id run_id) runs ≡ row = cc in at row second same read
    where
      at :
          {mid : Table} (row : Option Run)
          → read_run p allowed now run_id row mid ≡ ok (r, runs')
          → runs ≡ mid
          → find (has_id run_id) runs ≡ row
          → (find (has_id run_id) runs ≡ some r) × (runs ≡ runs')
      at none k same read = cc
      at (some x) k same read = let row_is : x ≡ r = cc in (cc, cc)

  ensure-eq-ok :
      (b : Bool) (e : DbError) (runs runs' : Table) (a : Unit {0})
      → ensure b e runs ≡ ok (a, runs')
      → runs ≡ runs'
  ensure-eq-ok true e runs runs' a h = cc
  ensure-eq-ok false e runs runs' a h = cc

  not_claimable :
      (run_id child : ℕ) (r : Run)
      → is_workflow r ≡ true
      → is_claimable p allowed now run_id child r ≡ false
  unfolding text_eq
  not_claimable run_id child r w =
      let other = text_eq_other r.kind (lit "workflow") (lit "intake") w refl in
      elim (Bool-cases (has_id child r)) [ inl here ↦ rw (here, other) | inr away ↦ rw away ]

  -- Linking a child leaves a workflow's own row alone.
  find-link_child :
      (run_id : ℕ) (child : Option ℕ) (runs runs' : Table) (r : Run) (a : Unit {0})
      → is_workflow r ≡ true
      → find (has_id run_id) runs ≡ some r
      → link_child p allowed now run_id child runs ≡ ok (a, runs')
      → find (has_id run_id) runs' ≡ some r
  unfolding link_child
  find-link_child run_id none runs runs' r a w h k = let same : runs ≡ runs' = cc in rw (← same) h
  find-link_child run_id (some child) runs runs' r a w h k =
      let (n, mid, linked, ensured) = tx-bind _ _ runs k in
      let same = ensure-eq-ok _ conflict mid runs' a ensured in
      let kept =
        find-update allowed _ _ (λ r. touched r refl refl refl refl refl refl refl refl) run_id runs
          n mid r h linked in
      rw (← same) (rw (not_claimable run_id child r w) at kept)

  -- A close that succeeds has written the finished row, and returns it.
  pub close_run-eq-ok :
      (run_id : ℕ) (i : WorkflowRunFinish) (runs runs' : Table) (r r' : Run)
      → is_workflow r ≡ true
      → find (has_id run_id) runs ≡ some r
      → close_run p allowed now run_id i runs ≡ ok (r', runs')
      → (find (has_id run_id) runs' ≡ some r') × (r' ≡ finished p allowed now i r)
  unfolding close_run
  close_run-eq-ok run_id i runs runs' r r' w h k =
      let (_, linked, first, rest) = tx-then _ _ runs k in
      let (n, written, second, third) = tx-then _ _ linked rest in
      let before = find-link_child run_id i.child_run_id runs linked r _ w h first in
      let after =
        find-update allowed (has_id run_id) (finished p allowed now i) (finished-Evolves i) run_id
          linked n written r before second in
      let (read, same) = detail-eq-ok run_id written runs' r' third in
      let hit : has_id run_id r ≡ true = has_id_of_find run_id runs r h in
      let row : find (has_id run_id) written ≡ some (finished p allowed now i r) =
        rw hit at after in
      (rw (← same) read, cc)
