-- ===== src/Runs/Usage/Recording/Tests.antt =====
-- src/runs.rs: the usage of one call in a table of one run, and the witness.
use centaur_context.Common.{◌≡◌, refl, Bool, true, [], ◌∷◌, Option, none, some, ok, err}
use centaur_context.Common.Integer.{ℤ, pos, i32_bound, fits}
use centaur_context.Errors.{not_found}
use centaur_context.Text.{Text, lit, text_eq}
use centaur_context.Text.Decimal.{print, print_from, read_from, cast, cast-print}
use centaur_context.Json.{float, Value, null, int, string, Fields, field, end, get, insert, text_lt}
use centaur_context.Runs.{
  Run, Printer, Table, arrow_text, new_run, push_trace, update, update_rows, ◌>>=◌, ◌>>◌,
}
use centaur_context.Runs.Usage.{NormalizedUsage}
use centaur_context.Runs.Usage.Recording.{
  Attempts, attempt_entry, is_attempt, call_index_of, is_recorded, record_usage_in_tx, record_usage,
}
use centaur_context.Runs.Usage.Recording.Entries.{text_value, number_value, IsWritten}
use centaur_context.Runs.Usage.Recording.Again.{record_usage_again}

recording_code : Unit {0}
unfolding print_from read_from record_usage record_usage_in_tx attempt_entry is_attempt
    call_index_of is_recorded update update_rows arrow_text get insert text_lt text_eq ◌>>=◌ ◌>>◌
recording_code = tt

abbrev json_text : Value → Text
json_text (int n) = print n
json_text v = []

abbrev printer : Printer
printer = record {
  uuid_text = λ n. n ∷ [];
  json_text = json_text;
  to_value = λ e. null;
  jsonb_float = float;
}

abbrev integer_of : Text → Option ℤ
integer_of = cast i32_bound

-- A serializer of the fields that tell a call.
abbrev fields_of : NormalizedUsage → Fields
fields_of u = field (lit "call_index") (number_value u.call_index) (
    field (lit "component") (string u.component) (
      field (lit "source_execution_id") (string u.source_execution_id)
        (field (lit "source_turn_id") (text_value u.source_turn_id) end)))

abbrev attempts : Attempts
attempts = record { fields_of = fields_of; time_of = λ t. int (pos t); integer_of = integer_of }

abbrev usage : NormalizedUsage
usage = record {
  run_id = 3;
  component = lit "agent";
  provider = lit "openai";
  model_id = lit "fixture";
  display_tier = none;
  execution_type = lit "codex_harness";
  auth_mode = lit "api_key";
  upstream_service = lit "api.openai.com";
  billing_mode = lit "metered_api";
  reasoning_effort = none;
  service_tier = none;
  source_thread_id = none;
  source_execution_id = lit "execution-1";
  source_turn_id = none;
  call_index = some (pos 2);
  usage_status = lit "reported";
  usage_missing_reason = none;
  input_tokens = some (pos 10);
  output_tokens = some (pos 5);
  cache_creation_tokens = none;
  cache_read_tokens = none;
  reasoning_tokens = none;
  total_tokens = some (pos 15);
  estimated_micro_usd = none;
  chatgpt_credit_microunits = none;
  api_equivalent_micro_usd = none;
  rate_card_version = none;
  pricing_snapshot = none;
}

reads_back : (n : ℤ) → fits i32_bound n ≡ true → integer_of (json_text (int n)) ≡ some n
reads_back n small = cast-print i32_bound n small

written : IsWritten printer attempts usage
unfolding get text_eq
written = record {
  component = refl;
  execution = refl;
  turn = refl;
  index = refl;
  index_type = refl;
  reads = reads_back;
}

abbrev anything : Run → Bool
anything r = true

abbrev run : Run
run = new_run 3 (lit "workflow") (lit "running") (lit "agent") (lit "a") (lit "k") null end 1

abbrev recorded : Table
recorded = push_trace (attempt_entry printer attempts 8 5 usage) 5 run ∷ []

first_report : record_usage printer attempts anything 5 8 usage (run ∷ []) ≡ (recorded, ok 8)
unfolding recording_code
first_report = refl

-- The second answer names no entry.
record_usage_again_example :
    record_usage printer attempts anything 6 9 usage recorded ≡ (recorded, ok 9)
record_usage_again_example =
    record_usage_again printer attempts usage written anything 5 6 8 9 8 (run ∷ []) recorded
      first_report

no_run : record_usage printer attempts anything 5 8 usage [] ≡ ([], err not_found)
unfolding recording_code
no_run = refl
