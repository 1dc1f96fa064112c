-- ===== src/Runs/Usage/Recording.antt =====
-- src/runs.rs: `record_usage`. `fields_of` stands for the derived serializer of the usage, `time_of`
-- for that of a time, and `integer_of` for the cast of a text to `integer`, which may fail.
pub mod Entries
pub mod Again
mod Tests
use centaur_context.Common.{
  ℕ, zero, suc, ◌==◌, ◌≡◌, Bool, true, false, not, ◌&&◌, List, [], ◌∷◌, Option, none, some, is_none,
  is_some, if◌then◌else◌, find, Result, ok, err,
}
use centaur_context.Common.Integer.{ℤ, pos, eq_ℤ}
use centaur_context.Errors.{DbError, sqlx, not_found}
use centaur_context.Text.{Text, lit, text_eq}
use centaur_context.Json.{Value, string, object, Fields, insert}
use centaur_context.Runs.{
  Run, Printer, arrow_text, sql_eq, Table, Tx, ◌>>=◌, ◌>>◌, return, fail, ensure, commit, select,
  has_id, update, push_trace,
}
use centaur_context.Runs.Usage.{NormalizedUsage}

-- `COALESCE(text, '')`
abbrev pub or_empty : Option Text → Text
or_empty none = []
or_empty (some t) = t

-- `COALESCE(number, 1)`
abbrev pub or_one : Option ℤ → ℤ
or_one none = pos 1
or_one (some n) = n

pub record Attempts : Type 0 where
  pub fields_of : NormalizedUsage → Fields
  pub time_of : ℕ → Value
  pub integer_of : Text → Option ℤ

module _ (p : Printer) (a : Attempts) where
  unfoldable pub attempt_entry : ℕ → ℕ → NormalizedUsage → Value
  unfolding insert
  attempt_entry id now usage = object (
      insert (lit "created_at") (a.time_of now) (
        insert (lit "entry_type") (string (lit "model_attempt"))
          (insert (lit "id") (string (p.uuid_text id)) (a.fields_of usage))))

  -- The conditions on texts.
  unfoldable pub is_attempt : NormalizedUsage → Value → Bool
  is_attempt usage e =
      sql_eq (arrow_text p e (lit "entry_type")) (lit "model_attempt")
      && sql_eq (arrow_text p e (lit "component")) usage.component
      && sql_eq (arrow_text p e (lit "source_execution_id")) usage.source_execution_id
      && text_eq (or_empty (arrow_text p e (lit "source_turn_id"))) (or_empty usage.source_turn_id)

  abbrev pub cast_index : Option Text → Option ℤ
  cast_index none = some (pos 1)
  cast_index (some t) = a.integer_of t

  -- `COALESCE((e->>'call_index')::integer, 1)`
  unfoldable pub call_index_of : Value → Option ℤ
  call_index_of e = cast_index (arrow_text p e (lit "call_index"))

  abbrev pub found : Option ℤ → ℤ → Option Bool → Option Bool
  found none n rest = none
  found (some m) n rest = if eq_ℤ m n then some true else rest

  -- `EXISTS`: it ends at the first entry that fits, and fails at a cast that does.
  unfoldable pub is_recorded : NormalizedUsage → List Value → Option Bool
  is_recorded usage [] = some false
  is_recorded usage (e ∷ es) =
      let rest = is_recorded usage es in
      if is_attempt usage e then found (call_index_of e) (or_one usage.call_index) rest else rest

  abbrev pub is_false : Option Bool → Bool
  is_false (some false) = true
  is_false _ = false

  abbrev pub is_readable : NormalizedUsage → Option Run → Bool
  is_readable usage none = true
  is_readable usage (some r) = is_some (is_recorded usage r.trace)

  abbrev pub is_missing_in : NormalizedUsage → Run → Bool
  is_missing_in usage r = has_id usage.run_id r && is_false (is_recorded usage r.trace)

  -- The check after the statement.
  abbrev pub check_run : ℕ → NormalizedUsage → ℕ → Tx ℕ
  check_run id usage zero = do
    row ← select (has_id usage.run_id)
    ensure (not (is_none row)) not_found
    return id
  check_run id usage (suc _) = return id

  -- The statement reads the trace of the row of the id.
  unfoldable pub record_usage_in_tx : (Run → Bool) → ℕ → ℕ → NormalizedUsage → Tx ℕ
  record_usage_in_tx allowed now id usage = do
    row ← select (has_id usage.run_id)
    ensure (is_readable usage row) sqlx
    inserted ← update allowed (is_missing_in usage) (push_trace (attempt_entry id now usage) now)
    check_run id usage inserted

  unfoldable pub record_usage :
      (Run → Bool) → ℕ → ℕ → NormalizedUsage → Table → Table × Result DbError ℕ
  record_usage allowed now id usage runs = commit (record_usage_in_tx allowed now id usage) runs
