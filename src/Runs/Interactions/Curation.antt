-- ===== src/Runs/Interactions/Curation.antt =====
-- src/runs.rs: the curator's runs. `entry_id` and `created_at` are those of `append_trace`.
use centaur_context.Common.{ℕ, Bool, none, some, take, Result}
use centaur_context.Common.Integer.{ℤ, pos}
use centaur_context.Errors.{DbError}
use centaur_context.Text.{Text, lit}
use centaur_context.Json.{Value, int, string, object, end, field, merge}
use centaur_context.Runs.{Run, Printer, Table, Tx, ◌>>◌, return, commit, has_id, update}
use centaur_context.Runs.Interactions.{append_trace}

module _ (p : Printer) (allowed : Run → Bool) (now : ℕ) (entry_id created_at : Value) where
  unfoldable pub attach_curator_run : ℕ → ℕ → Tx (Unit {0})
  attach_curator_run interaction_run_id curator_run_id = do
    update allowed (has_id curator_run_id)
        (λ r. record r { parent_run_id = some interaction_run_id })
    append_trace p allowed now entry_id created_at interaction_run_id (lit "curator_queued")
        (object (field (lit "curator_run_id") (string (p.uuid_text curator_run_id)) end))

  unfoldable pub finish_curator_run : ℕ → ℤ → Tx (Unit {0})
  finish_curator_run run_id change_count = do
    append_trace p allowed now entry_id created_at run_id (lit "commit")
        (object (field (lit "change_count") (int change_count) end))
    update allowed (has_id run_id) (λ r. record r {
      status = lit "completed";
      error = none;
      result = merge r.result (field (lit "change_count") (int change_count) end);
      completed_at = some now;
      updated_at = now;
    })
    return tt

  unfoldable pub fail_curator : ℕ → Text → Tx (Unit {0})
  fail_curator run_id message = do
    let summary = take 4000 message
    append_trace p allowed now entry_id created_at run_id (lit "failure")
        (object (field (lit "error") (string summary) end))
    update allowed (has_id run_id) (λ r. record r {
      status = lit "failed";
      error = some summary;
      completed_at = some now;
      updated_at = now;
    })
    return tt

  unfoldable pub reverse_curator_run : ℕ → ℕ → ℕ → Tx (Unit {0})
  reverse_curator_run run_id reversal_run_id reversed_change_count = do
    append_trace p allowed now entry_id created_at reversal_run_id (lit "reversal") (
        object (
          field (lit "reversed_change_count") (int (pos reversed_change_count))
            (field (lit "reverses_run_id") (string (p.uuid_text run_id)) end)))
    update allowed (has_id run_id) (λ r. record r {
      status = lit "reversed";
      result =
          merge r.result (field (lit "reversal_run_id") (string (p.uuid_text reversal_run_id)) end);
      updated_at = now;
    })
    return tt

  unfoldable pub fail_curator_run : ℕ → Text → Table → Table × Result DbError (Unit {0})
  fail_curator_run run_id message runs = commit (fail_curator run_id message) runs

  unfoldable pub append_curator_trace : ℕ → Text → Value → Table → Table × Result DbError (Unit {0})
  append_curator_trace run_id entry_type facts runs =
      commit (append_trace p allowed now entry_id created_at run_id entry_type facts) runs
