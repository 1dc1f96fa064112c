-- ===== src/Runs/Validation.antt =====
-- src/runs.rs: the requests of the workflow endpoints and their `validate` methods. A time is a
-- number of a fixed unit. `encoded_len` stands for `serde_json::to_vec(value)?.len()`; it has no
-- failing case, since a `Value` always encodes.
mod Tests
pub mod Laws
use Prim.Native.String.{String}
use centaur_context.Common.{
  ℕ, ◌+◌, Bool, true, false, not, ◌&&◌, ◌||◌, List, [], ◌∷◌, Option, none, some, ltb, is_some,
  is_none, any, if◌then◌else◌, Result, ok, err, ◌>>=◌, ◌>>◌, reject_if, transpose_map,
}
use centaur_context.Common.Integer.{ℤ, pos, ◌+ℤ◌, checked, i64_bound, ltb_ℤ, leb_ℤ, is_negative}
use centaur_context.Text.{Text, lit, len, trim, is_empty, text_eq, contains}
use centaur_context.Json.{Value, is_object}

pub record WorkflowRunStart : Type 0 where
  pub run_id : ℕ
  pub workflow_name : Text
  pub source_kind : Text
  pub source_locator : Option Text
  pub requested_title : Option Text
  pub chat_object_id : Option ℕ

pub record WorkflowTraceEntry : Type 0 where
  pub id : ℕ
  pub parent_id : Option ℕ
  pub entry_type : Text
  pub name : Text
  pub status : Text
  pub started_at : ℕ
  pub completed_at : ℕ
  pub duration_ms : ℤ
  pub component : Text
  pub provider : Option Text
  pub model_id : Option Text
  pub reasoning_effort : Option Text
  pub source_execution_id : Option Text
  pub input_tokens : Option ℤ
  pub output_tokens : Option ℤ
  pub cache_read_tokens : Option ℤ
  pub reasoning_tokens : Option ℤ
  pub total_tokens : Option ℤ
  pub facts : Value

pub record WorkflowRunFinish : Type 0 where
  pub status : Text
  pub primary_object_id : Option ℕ
  pub child_run_id : Option ℕ
  pub result : Value
  pub error : Option Text

-- The messages of the methods.
pub data Rejection : Type 0 where
  bad_length : String → ℕ → Rejection
  unsupported_source_kind : Rejection
  unsupported_entry_type : Rejection
  unsupported_trace_status : Rejection
  completed_before_start : Rejection
  bad_duration : Rejection
  negative_tokens : Rejection
  tokens_too_large : Rejection
  total_too_small : Rejection
  bad_facts : Rejection
  unsupported_workflow_status : Rejection
  bad_result : Rejection
  error_required : Rejection
  error_not_allowed : Rejection

unfoldable pub bounded_text : Text → String → ℕ → Result Rejection Text
bounded_text value field max =
    let value' = trim value in
    if is_empty value' || ltb max (len value') then err (bad_length field max) else ok value'

unfoldable pub optional_bounded : Option Text → String → ℕ → Result Rejection (Option Text)
optional_bounded value field max = transpose_map (λ v. bounded_text v field max) value

-- A `validate` of `&mut self` returns the request with its texts trimmed.
unfoldable pub validate_start : WorkflowRunStart → Result Rejection WorkflowRunStart
validate_start r = do
  workflow_name ← bounded_text r.workflow_name "workflow_name" 200
  source_kind ← bounded_text r.source_kind "source_kind" 50
  reject_if (not (contains (lit "url" ∷ lit "file" ∷ lit "text" ∷ []) source_kind))
      unsupported_source_kind
  source_locator ← optional_bounded r.source_locator "source_locator" 2_000
  requested_title ← optional_bounded r.requested_title "requested_title" 500
  ok (record r {
    workflow_name = workflow_name;
    source_kind = source_kind;
    source_locator = source_locator;
    requested_title = requested_title;
  })

abbrev entry_types : List Text
entry_types =
    lit "workflow_step"
    ∷ lit "agent_turn"
    ∷ lit "model_attempt"
    ∷ lit "tool_call"
    ∷ lit "message"
    ∷ lit "child_run"
    ∷ []

abbrev pub outcomes : List Text
outcomes = lit "completed" ∷ lit "failed" ∷ []

abbrev some_negative : Option ℤ → Bool
some_negative none = false
some_negative (some n) = is_negative n

abbrev check_minimum : Option ℤ → ℤ → Result Rejection (Unit {0})
check_minimum none total = err tokens_too_large
check_minimum (some minimum) total = reject_if (ltb_ℤ total minimum) total_too_small

-- The total must cover input and output, where all three are known.
unfoldable pub check_total : Option ℤ → Option ℤ → Option ℤ → Result Rejection (Unit {0})
unfolding ◌+ℤ◌
check_total (some i) (some o) (some t) = check_minimum (checked i64_bound (i +ℤ o)) t
check_total _ _ _ = ok tt

module _ (encoded_len : Value → ℕ) where
  unfoldable pub validate_entry : WorkflowTraceEntry → Result Rejection WorkflowTraceEntry
  validate_entry e = do
    entry_type ← bounded_text e.entry_type "entry_type" 100
    reject_if (not (contains entry_types entry_type)) unsupported_entry_type
    name ← bounded_text e.name "name" 200
    status ← bounded_text e.status "status" 50
    reject_if (not (contains outcomes status)) unsupported_trace_status
    component ← bounded_text e.component "component" 100
    provider ← optional_bounded e.provider "provider" 100
    model_id ← optional_bounded e.model_id "model_id" 200
    reasoning_effort ← optional_bounded e.reasoning_effort "reasoning_effort" 100
    source_execution_id ← optional_bounded e.source_execution_id "source_execution_id" 300
    reject_if (ltb e.completed_at e.started_at) completed_before_start
    reject_if (not (leb_ℤ (pos 0) e.duration_ms && leb_ℤ e.duration_ms (pos 86_400_000)))
        bad_duration
    reject_if
        (any some_negative (
          e.input_tokens ∷ e.output_tokens ∷ e.cache_read_tokens ∷ e.reasoning_tokens
          ∷ e.total_tokens ∷ []))
        negative_tokens
    check_total e.input_tokens e.output_tokens e.total_tokens
    reject_if (not (is_object e.facts) || ltb 32_768 (encoded_len e.facts)) bad_facts
    ok (record e {
      entry_type = entry_type;
      name = name;
      status = status;
      component = component;
      provider = provider;
      model_id = model_id;
      reasoning_effort = reasoning_effort;
      source_execution_id = source_execution_id;
    })

  unfoldable pub validate_finish : WorkflowRunFinish → Result Rejection WorkflowRunFinish
  validate_finish f = do
    status ← bounded_text f.status "status" 50
    reject_if (not (contains outcomes status)) unsupported_workflow_status
    reject_if (not (is_object f.result) || ltb 1_048_576 (encoded_len f.result)) bad_result
    error ← optional_bounded f.error "error" 10_000
    reject_if (text_eq status (lit "failed") && is_none error) error_required
    reject_if (text_eq status (lit "completed") && is_some error) error_not_allowed
    ok (record f { status = status; error = error })
