-- ===== src/Runs/Interactions/Tests.antt =====
-- A Slack interaction from its start to its end, a review and a late one, and the theorems on them.
use centaur_context.Common.{
  ◌≡◌, refl, Bool, true, false, [], ◌∷◌, Option, none, some, Result, ok, err,
}
use centaur_context.Common.Integer.{ℤ, pos, ◌+ℤ◌, i64_bound, fits}
use centaur_context.Errors.{DbError, conflict}
use centaur_context.Text.{Text, lit, text_eq, len, trim, trim_start, is_whitespace}
use centaur_context.Text.Decimal.{print, print_from, read_from, cast, cast-print}
use centaur_context.Json.{float, Value, null, int, string, get, insert, merge, text_lt}
use centaur_context.Runs.{
  Run, Printer, Table, Tx, ◌>>=◌, ◌>>◌, update, update_rows, insert_run, arrow_text,
}
use centaur_context.Runs.History.{Grows}
use centaur_context.Runs.Workflow.{detail}
use centaur_context.Runs.Interactions.{
  slack_run, open_slack_interaction, push_named, append_external_trace, end_slack,
  finish_slack_interaction,
}
use centaur_context.Runs.Interactions.Values.{SlackInteractionOpen, is_terminal}
use centaur_context.Runs.Interactions.Growth.{finishes_slack, Change-Grows}
use centaur_context.Runs.Interactions.Review.{review_tx, review}
use centaur_context.Runs.Interactions.Stale.{review_stale}

interaction_code : Unit {0}
unfolding print_from read_from open_slack_interaction push_named append_external_trace end_slack
    finish_slack_interaction review_tx review detail ◌>>=◌ ◌>>◌ update update_rows insert_run
    arrow_text get insert merge text_lt text_eq len trim trim_start is_whitespace ◌+ℤ◌
interaction_code = tt

abbrev json_text : Value → Text
json_text (int n) = print n
json_text v = []

abbrev printer : Printer
printer = record {
  uuid_text = λ n. n ∷ [];
  json_text = json_text;
  to_value = λ e. null;
  jsonb_float = float;
}

abbrev bigint_of : Text → Option ℤ
bigint_of = cast i64_bound

abbrev anything : Run → Bool
anything r = true

abbrev interaction : SlackInteractionOpen
interaction = record {
  workspace_id = lit "T1";
  channel_id = lit "C1";
  thread_id = lit "1.0";
  interaction_id = lit "2.0";
  started_at = 4;
  title = lit "A question";
  request_message = none;
}

abbrev table_of : {A : Type 0} → Result DbError (A × Table) → Table
table_of (ok (a, runs)) = runs
table_of (err e) = []

abbrev open_table : Table
open_table = table_of (open_slack_interaction printer anything 5 7 interaction [])

opened_again :
    open_slack_interaction printer anything 6 8 interaction open_table ≡ ok ((7, false), open_table)
unfolding interaction_code
opened_again = refl

abbrev finish : Tx (Unit {0})
finish = finish_slack_interaction printer anything 9 7 (lit "completed") none none (3 ∷ [])

abbrev closed_table : Table
closed_table = table_of (finish open_table)

finish_open : finish open_table ≡ ok (tt, closed_table)
unfolding interaction_code
finish_open = refl

Change-Grows_example : Grows open_table closed_table
Change-Grows_example =
    Change-Grows printer anything 9 finish open_table closed_table
      (finishes_slack 7 (lit "completed") none none (3 ∷ [])) finish_open

abbrev review_at : ℤ → Table → Table × Result DbError Run
review_at expected runs =
    review printer anything bigint_of 9 7 (lit "good") none none (lit "ann") expected runs

late_review : (review_at (pos 0) (review_at (pos 0) closed_table).0).1 ≡ err conflict
unfolding interaction_code
late_review = refl

reversed_is_terminal : is_terminal (string (lit "curator")) (string (lit "reversed")) null ≡ true
unfolding is_terminal text_eq
reversed_is_terminal = refl

abbrev reviewed_table : Table
reviewed_table = (review_at (pos 0) closed_table).0

abbrev row_of : Result DbError Run → Run
row_of (ok r) = r
row_of (err e) = slack_run printer anything 5 7 interaction

abbrev reviewed_run : Run
reviewed_run = row_of (review_at (pos 0) closed_table).1

first_review : review_at (pos 0) closed_table ≡ (reviewed_table, ok reviewed_run)
unfolding interaction_code
first_review = refl

reads_back : (n : ℤ) → fits i64_bound n ≡ true → bigint_of (json_text (int n)) ≡ some n
reads_back n small = cast-print i64_bound n small

review_stale_example :
    review printer anything bigint_of 10 7 (lit "bad") none none (lit "bob") (pos 0) reviewed_table
    ≡ (reviewed_table, err conflict)
review_stale_example =
    review_stale printer anything bigint_of 9 7 reads_back 10 (pos 0) (lit "good") (lit "bad") none
      none none none (lit "ann") (lit "bob") closed_table reviewed_table reviewed_run first_review
