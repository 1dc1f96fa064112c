-- ===== src/Runs/Usage.antt =====
-- src/runs.rs: the usage of a model call (`NormalizedUsage`), its price and its validation.
-- `rate_card` stands for the derived decoder `serde_json::from_value::<MeteredRateCard>`.
pub mod Validation
pub mod Pricing
pub mod Checks
pub mod Recording
mod Tests
use Prim.Native.String.{String}
use centaur_context.Common.{
  ℕ, ◌+◌, ◌/◌, ◌≡◌, Bool, true, false, not, ◌&&◌, ◌||◌, List, [], ◌∷◌, Option, none, some, ltb,
  if◌then◌else◌, is_some, is_none, any, Result, ok, err, ◌>>=◌, ◌>>◌, reject_if, ok_or,
}
use centaur_context.Common.Integer.{
  ℤ, pos, negsuc, ◌+ℤ◌, ◌-ℤ◌, ◌*ℤ◌, sub_ℕ, checked, i64_bound, i128_bound, is_negative, ltb_ℤ, eq_ℤ,
}
use centaur_context.Text.{Text, lit, len, trim, is_empty, text_eq, contains}
use centaur_context.Json.{Value}

pub record NormalizedUsage : Type 0 where
  pub run_id : ℕ
  pub component : Text
  pub provider : Text
  pub model_id : Text
  pub display_tier : Option Text
  pub execution_type : Text
  pub auth_mode : Text
  pub upstream_service : Text
  pub billing_mode : Text
  pub reasoning_effort : Option Text
  pub service_tier : Option Text
  pub source_thread_id : Option Text
  pub source_execution_id : Text
  pub source_turn_id : Option Text
  pub call_index : Option ℤ
  pub usage_status : Text
  pub usage_missing_reason : Option Text
  pub input_tokens : Option ℤ
  pub output_tokens : Option ℤ
  pub cache_creation_tokens : Option ℤ
  pub cache_read_tokens : Option ℤ
  pub reasoning_tokens : Option ℤ
  pub total_tokens : Option ℤ
  pub estimated_micro_usd : Option ℤ
  pub chatgpt_credit_microunits : Option ℤ
  pub api_equivalent_micro_usd : Option ℤ
  pub rate_card_version : Option Text
  pub pricing_snapshot : Option Value

pub record MeteredRateCard : Type 0 where
  pub input_micro_usd_per_million : ℤ
  pub output_micro_usd_per_million : ℤ
  pub cache_creation_micro_usd_per_million : ℤ
  pub cache_read_micro_usd_per_million : ℤ
  pub reasoning_micro_usd_per_million : ℤ

-- The messages of `validate` and `metered_micro_usd`. `arithmetic_panic` is no message: it is the
-- unchecked `n + 500_000` leaving the range of `i128`.
pub data UsageError : Type 0 where
  bad_length : String → ℕ → UsageError
  unsupported_value : String → UsageError
  no_token_count : UsageError
  bad_call_index : UsageError
  negative_usage : UsageError
  usage_not_applicable : UsageError
  total_too_small : UsageError
  cache_exceeds_input : UsageError
  bad_pricing_provenance : UsageError
  subscription_billed : UsageError
  missing_reason : UsageError
  invalid_rate_card : UsageError
  cache_categories_exceed_input : UsageError
  reasoning_exceeds_output : UsageError
  negative_rate : UsageError
  pricing_overflow : UsageError
  arithmetic_panic : UsageError

abbrev pub or_zero : Option ℤ → ℤ
or_zero none = pos 0
or_zero (some n) = n

abbrev pub checked_add : ℤ → ℤ → Option ℤ
checked_add a b = checked i64_bound (a +ℤ b)

abbrev pub checked_sub : ℤ → ℤ → Option ℤ
checked_sub a b = checked i64_bound (a -ℤ b)

abbrev pub and_then : Option ℤ → (ℤ → Option ℤ) → Option ℤ
and_then none f = none
and_then (some a) f = f a

-- `.filter(|v| *v >= 0)`
abbrev pub non_negative : Option ℤ → Option ℤ
non_negative none = none
non_negative (some n) = if is_negative n then none else some n

-- One round of the `try_fold`, in `i128`.
unfoldable pub add_term : ℤ → ℤ × ℤ → Result UsageError ℤ
unfolding ◌+ℤ◌ ◌*ℤ◌
add_term sum (tokens, rate) =
    if is_negative rate
    then err negative_rate
    else ok_or (checked i128_bound (sum +ℤ tokens *ℤ rate)) pricing_overflow

unfoldable pub add_terms : ℤ → List (ℤ × ℤ) → Result UsageError ℤ
unfolding add_term ◌>>=◌
add_terms sum [] = ok sum
add_terms sum (term ∷ terms) = add_term sum term >>= λ next. add_terms next terms

-- `/` rounds towards zero.
abbrev pub div_trunc : ℤ → ℕ → ℤ
div_trunc (pos n) d = pos (n / d)
div_trunc (negsuc n) d = sub_ℕ 0 ((n + 1) / d)

-- `i64::try_from((n + 500_000) / 1_000_000)`
unfoldable pub to_micro_usd : ℤ → Result UsageError ℤ
unfolding ◌+ℤ◌ ◌>>=◌
to_micro_usd n = do
  rounded ← ok_or (checked i128_bound (n +ℤ pos 500_000)) arithmetic_panic
  ok_or (checked i64_bound (div_trunc rounded 1_000_000)) pricing_overflow

module _ (rate_card : Value → Option MeteredRateCard) where
  unfoldable pub metered_micro_usd : NormalizedUsage → Value → Result UsageError ℤ
  unfolding add_terms to_micro_usd ◌-ℤ◌ ◌>>=◌
  metered_micro_usd input snapshot = do
    r ← ok_or (rate_card snapshot) invalid_rate_card
    let cc = or_zero input.cache_creation_tokens
    let cr = or_zero input.cache_read_tokens
    let reason = or_zero input.reasoning_tokens
    let left = and_then (checked_sub (or_zero input.input_tokens) cc) (λ v. checked_sub v cr)
    uncached ← ok_or (non_negative left) cache_categories_exceed_input
    let spoken = checked_sub (or_zero input.output_tokens) reason
    output ← ok_or (non_negative spoken) reasoning_exceeds_output
    n ← add_terms (pos 0) (
        (uncached, r.input_micro_usd_per_million)
        ∷ (output, r.output_micro_usd_per_million)
        ∷ (cc, r.cache_creation_micro_usd_per_million)
        ∷ (cr, r.cache_read_micro_usd_per_million)
        ∷ (reason, r.reasoning_micro_usd_per_million)
        ∷ [])
    to_micro_usd n
