-- ===== src/Runs/Interactions/Review.antt =====
-- src/runs.rs: `review`, with its optimistic revision. `bigint_of` stands for the cast of a text to
-- `bigint`, which fails on a text that is no number.
use centaur_context.Common.{
  ℕ, ◌==◌, Bool, true, false, not, ◌&&◌, Option, none, some, if◌then◌else◌, Result, is_some,
}
use centaur_context.Common.Integer.{ℤ, pos, ◌+ℤ◌, checked, i64_bound, eq_ℤ}
use centaur_context.Errors.{DbError, sqlx, conflict}
use centaur_context.Text.{Text, lit}
use centaur_context.Json.{int, insert, get}
use centaur_context.Runs.{
  Run, Printer, scalar_text, Table, Tx, ◌>>=◌, ◌>>◌, fail, ensure, commit, select, has_id, update,
}
use centaur_context.Runs.Workflow.{detail}

abbrev revision_key : Text
revision_key = lit "review_revision"

module _ (p : Printer) (allowed : Run → Bool) (bigint_of : Text → Option ℤ) (now : ℕ) where
  abbrev number_of : Option Text → Option ℤ
  number_of none = some (pos 0)
  number_of (some t) = bigint_of t

  -- `COALESCE((result->>'review_revision')::bigint, 0)`
  abbrev pub review_revision : Run → Option ℤ
  review_revision r = number_of (scalar_text p (get revision_key r.result))

  abbrev pub is_at : ℤ → Run → Bool
  is_at expected r = at (review_revision r)
    where
      at : Option ℤ → Bool
      at none = false
      at (some n) = eq_ℤ n expected

  -- The statement fails if the cast does.
  abbrev pub is_numbered : Option Run → Bool
  is_numbered none = true
  is_numbered (some r) = is_some (review_revision r)

  abbrev pub reviewed : Text → Option Text → Option Bool → Text → ℤ → Run → Run
  reviewed verdict notes pinned reviewer next r = record r {
    verdict = verdict;
    review_notes = notes;
    pinned = either pinned r.pinned;
    reviewed_by = some reviewer;
    reviewed_at = some now;
    result = insert revision_key (int next) r.result;
    updated_at = now;
  }
    where
      either : Option Bool → Bool → Bool
      either none b = b
      either (some a) b = a

  -- The next revision is computed for a row that is written, and may overflow.
  abbrev pub write_review : ℕ → Text → Option Text → Option Bool → Text → ℤ → Option ℤ → Tx Run
  write_review id verdict notes pinned reviewer expected none = do
    row ← select (λ r. has_id id r && is_at expected r)
    fail (if is_some row then sqlx else conflict)
  write_review id verdict notes pinned reviewer expected (some next) = do
    changed ←
        update allowed (λ r. has_id id r && is_at expected r)
          (reviewed verdict notes pinned reviewer next)
    ensure (not (changed == 0)) conflict
    detail p allowed now id

  -- The row is there after the update, so that the read that follows it finds it.
  unfoldable pub review_tx : ℕ → Text → Option Text → Option Bool → Text → ℤ → Tx Run
  unfolding ◌+ℤ◌
  review_tx id verdict notes pinned reviewer expected = do
    row ← select (has_id id)
    ensure (is_numbered row) sqlx
    write_review id verdict notes pinned reviewer expected (checked i64_bound (expected +ℤ pos 1))

  unfoldable pub review :
      ℕ → Text → Option Text → Option Bool → Text → ℤ → Table → Table × Result DbError Run
  review id verdict notes pinned reviewer expected runs =
      commit (review_tx id verdict notes pinned reviewer expected) runs
