-- ===== src/Runs/Usage/Validation.antt =====
-- src/runs.rs: `NormalizedUsage::validate`.
use Prim.Native.String.{String}
use centaur_context.Common.{
  ℕ, Bool, true, false, not, ◌&&◌, ◌||◌, List, [], ◌∷◌, Option, none, some, ltb, if◌then◌else◌,
  is_some, is_none, any, Result, ok, err, ◌>>=◌, ◌>>◌, reject_if,
}
use centaur_context.Common.Integer.{ℤ, pos, ◌+ℤ◌, ltb_ℤ, eq_ℤ}
use centaur_context.Text.{Text, lit, len, trim, is_empty, text_eq, contains}
use centaur_context.Json.{Value}
use centaur_context.Runs.Usage.{
  MeteredRateCard, NormalizedUsage, UsageError, bad_call_index, bad_length, bad_pricing_provenance,
  cache_exceeds_input, checked_add, metered_micro_usd, missing_reason, negative_usage,
  no_token_count, subscription_billed, total_too_small, unsupported_value, usage_not_applicable,
}

abbrev bad_text : Text → ℕ → Bool
bad_text value max = is_empty (trim value) || ltb max (len value)

unfoldable pub check_lengths : List (String × Text × ℕ) → Result UsageError (Unit {0})
check_lengths [] = ok tt
check_lengths ((field, value, max) ∷ rest) = do
  reject_if (bad_text value max) (bad_length field max)
  check_lengths rest

abbrev pub execution_types : List Text
execution_types = lit "codex_harness" ∷ lit "direct_api" ∷ lit "embedding" ∷ lit "other" ∷ []

abbrev pub auth_modes : List Text
auth_modes = lit "chatgpt_subscription" ∷ lit "api_key" ∷ lit "not_applicable" ∷ lit "unknown" ∷ []

abbrev pub billing_modes : List Text
billing_modes =
    lit "subscription_allowance"
    ∷ lit "chatgpt_credits"
    ∷ lit "metered_api"
    ∷ lit "not_applicable"
    ∷ lit "unknown"
    ∷ []

abbrev pub usage_statuses : List Text
usage_statuses = lit "reported" ∷ lit "partial" ∷ lit "unavailable" ∷ lit "not_applicable" ∷ []

abbrev pub some_below : ℤ → Option ℤ → Bool
some_below bound none = false
some_below bound (some n) = ltb_ℤ n bound

-- `numeric`
abbrev pub numeric : NormalizedUsage → List (Option ℤ)
numeric u =
    u.input_tokens ∷ u.output_tokens ∷ u.cache_creation_tokens ∷ u.cache_read_tokens
    ∷ u.reasoning_tokens ∷ u.total_tokens ∷ u.estimated_micro_usd ∷ u.chatgpt_credit_microunits
    ∷ u.api_equivalent_micro_usd ∷ []

abbrev sum_exceeds : Option ℤ → ℤ → Bool
sum_exceeds none total = true
sum_exceeds (some minimum) total = ltb_ℤ total minimum

-- Input, output and total are known, and the total is too small or the sum overflows.
unfoldable pub total_is_short : Option ℤ → Option ℤ → Option ℤ → Bool
unfolding ◌+ℤ◌
total_is_short (some i) (some o) (some t) = sum_exceeds (checked_add i o) t
total_is_short _ _ _ = false

unfoldable pub cache_read_exceeds : Option ℤ → Option ℤ → Bool
cache_read_exceeds (some input) (some cache_read) = ltb_ℤ input cache_read
cache_read_exceeds _ _ = false

abbrev pub is_cost : Option ℤ → ℤ → Bool
is_cost none cost = false
is_cost (some n) cost = eq_ℤ n cost

-- `as_deref().is_none_or(str::is_empty)`
abbrev is_none_or_empty : Option Text → Bool
is_none_or_empty none = true
is_none_or_empty (some s) = is_empty s

module _ (rate_card : Value → Option MeteredRateCard) where
  -- The `match` on the rate card's version and the snapshot.
  unfoldable pub check_pricing :
      NormalizedUsage → Option Text → Option Value → Result UsageError (Unit {0})
  unfolding metered_micro_usd
  check_pricing u (some _) (some snapshot) = do
    cost ← metered_micro_usd rate_card u snapshot
    reject_if (not (is_cost u.estimated_micro_usd cost)) bad_pricing_provenance
  check_pricing u none none = reject_if (is_some u.estimated_micro_usd) bad_pricing_provenance
  check_pricing u _ _ = err bad_pricing_provenance

  unfoldable pub validate : NormalizedUsage → Result UsageError (Unit {0})
  validate u = do
    check_lengths (
        ("component", u.component, 100)
        ∷ ("provider", u.provider, 100)
        ∷ ("model_id", u.model_id, 200)
        ∷ ("upstream_service", u.upstream_service, 200)
        ∷ ("source_execution_id", u.source_execution_id, 300)
        ∷ [])
    reject_if (not (contains execution_types u.execution_type)) (unsupported_value "execution_type")
    reject_if (not (contains auth_modes u.auth_mode)) (unsupported_value "auth_mode")
    reject_if (not (contains billing_modes u.billing_mode)) (unsupported_value "billing_mode")
    reject_if (not (contains usage_statuses u.usage_status)) (unsupported_value "usage_status")
    reject_if
        (text_eq u.usage_status (lit "reported")
          && is_none u.input_tokens
          && is_none u.output_tokens
          && is_none u.total_tokens)
        no_token_count
    reject_if (some_below (pos 1) u.call_index) bad_call_index
    reject_if (any (some_below (pos 0)) (numeric u)) negative_usage
    reject_if (text_eq u.usage_status (lit "not_applicable") && any is_some (numeric u))
        usage_not_applicable
    reject_if (total_is_short u.input_tokens u.output_tokens u.total_tokens) total_too_small
    reject_if (cache_read_exceeds u.input_tokens u.cache_read_tokens) cache_exceeds_input
    if text_eq u.billing_mode (lit "metered_api")
        then check_pricing u u.rate_card_version u.pricing_snapshot
        else ok tt
    reject_if
        ((text_eq u.billing_mode (lit "subscription_allowance")
            || text_eq u.billing_mode (lit "chatgpt_credits"))
          && is_some u.estimated_micro_usd)
        subscription_billed
    reject_if
        ((text_eq u.usage_status (lit "partial") || text_eq u.usage_status (lit "unavailable"))
          && is_none_or_empty u.usage_missing_reason)
        missing_reason
    ok tt
