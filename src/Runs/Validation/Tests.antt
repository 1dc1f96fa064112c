-- ===== src/Runs/Validation/Tests.antt =====
-- A finish with spaces around its status.
use centaur_context.Common.{◌≡◌, refl, none, some, ok, err, ◌>>=◌, ◌>>◌, transpose_map}
use centaur_context.Text.{lit, text_eq, len, trim, trim_start, is_whitespace, contains}
use centaur_context.Json.{object, end}
use centaur_context.Runs.Validation.{
  WorkflowRunFinish, error_required, bounded_text, optional_bounded, validate_finish,
}

abbrev spaced : WorkflowRunFinish
spaced = record {
  status = lit " completed ";
  primary_object_id = none;
  child_run_id = some 3;
  result = object end;
  error = none;
}

abbrev trimmed : WorkflowRunFinish
trimmed = record spaced { status = lit "completed" }

validation_code : Unit {0}
unfolding validate_finish bounded_text optional_bounded transpose_map ◌>>=◌ ◌>>◌ text_eq len trim
    trim_start is_whitespace contains
validation_code = tt

spaced_is_trimmed : validate_finish (λ v. 2) spaced ≡ ok trimmed
unfolding validation_code
spaced_is_trimmed = refl

failed_without_error :
    validate_finish (λ v. 2) (record spaced { status = lit "failed" }) ≡ err error_required
unfolding validation_code
failed_without_error = refl
