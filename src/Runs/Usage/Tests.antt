-- ===== src/Runs/Usage/Tests.antt =====
-- The usage record of the source's unit tests, and the theorems at it.
use centaur_context.Common.{
  ℕ, ◌+◌, ◌/◌, ◌≡◌, refl, Option, none, some, ok, err, ok_or, ◌>>◌, ◌>>=◌, arith,
}
use centaur_context.Common.Integer.{pos, checked, i64_bound}
use centaur_context.Text.{lit, text_eq, contains, trim, trim_start, is_whitespace, len}
use centaur_context.Json.{Value, int, object, field, end, get}
use centaur_context.Runs.Usage.{
  NormalizedUsage, MeteredRateCard, metered_micro_usd, pricing_overflow, subscription_billed,
}
use centaur_context.Runs.Usage.Validation.{
  validate, check_lengths, check_pricing, total_is_short, cache_read_exceeds,
}
use centaur_context.Runs.Usage.Pricing.{Charges, Reports, exact, metered_micro_usd_lem}
use centaur_context.Runs.Usage.Checks.{IsSound, validate-IsSound}

usage_code : Unit {0}
unfolding validate trim_start is_whitespace check_lengths check_pricing metered_micro_usd
    total_is_short cache_read_exceeds contains text_eq trim len ◌>>◌ ◌>>=◌ get
usage_code = tt

abbrev rate : ℕ → ℕ → ℕ → ℕ → ℕ → MeteredRateCard
rate i o c r s = record {
  input_micro_usd_per_million = pos i;
  output_micro_usd_per_million = pos o;
  cache_creation_micro_usd_per_million = pos c;
  cache_read_micro_usd_per_million = pos r;
  reasoning_micro_usd_per_million = pos s;
}

-- A decoder that knows one snapshot.
abbrev snapshot : Value
snapshot = object (field (lit "version") (int (pos 1)) end)

abbrev decode : Value → Option MeteredRateCard
decode (object _) = some (rate 2_000_000 6_000_000 2_000_000 1_000_000 6_000_000)
decode _ = none

abbrev usage : NormalizedUsage
usage = record {
  run_id = 0;
  component = lit "agent";
  provider = lit "openai";
  model_id = lit "fixture";
  display_tier = none;
  execution_type = lit "codex_harness";
  auth_mode = lit "api_key";
  upstream_service = lit "api.openai.com";
  billing_mode = lit "metered_api";
  reasoning_effort = none;
  service_tier = none;
  source_thread_id = none;
  source_execution_id = lit "execution-1";
  source_turn_id = none;
  call_index = some (pos 1);
  usage_status = lit "reported";
  usage_missing_reason = none;
  input_tokens = some (pos 1_000);
  output_tokens = some (pos 500);
  cache_creation_tokens = some (pos 100);
  cache_read_tokens = some (pos 200);
  reasoning_tokens = some (pos 50);
  total_tokens = some (pos 1_500);
  estimated_micro_usd = some (pos 4_800);
  chatgpt_credit_microunits = none;
  api_equivalent_micro_usd = none;
  rate_card_version = some (lit "fixture-v1");
  pricing_snapshot = some snapshot;
}

metered_cost_is_exact : metered_micro_usd decode usage snapshot ≡ ok (pos 4_800)
unfolding usage_code
metered_cost_is_exact = refl

accepted : validate decode usage ≡ ok tt
unfolding usage_code
accepted = refl

subscription_never_claims_billed_usd :
    validate decode (record usage { billing_mode = lit "subscription_allowance" })
    ≡ err subscription_billed
unfolding usage_code
subscription_never_claims_billed_usd = refl

abbrev charges : Charges
charges = record {
  uncached = 700;
  cache_creation = 100;
  cache_read = 200;
  spoken = 450;
  reasoning = 50;
  input_rate = 2_000_000;
  output_rate = 6_000_000;
  cache_creation_rate = 2_000_000;
  cache_read_rate = 1_000_000;
  reasoning_rate = 6_000_000;
}

reports : Reports usage (rate 2_000_000 6_000_000 2_000_000 1_000_000 6_000_000) charges
reports = record {
  inputs = refl;
  outputs = refl;
  creations = refl;
  reads = refl;
  reasons = refl;
  rates = refl;
  inputs_fit = omega arith;
  outputs_fit = omega arith;
  rates_fit = (omega arith, omega arith, omega arith, omega arith, omega arith);
}

metered_micro_usd_lem_example :
    metered_micro_usd decode usage snapshot
    ≡ ok_or (checked i64_bound (pos ((exact charges + 500_000) / 1_000_000))) pricing_overflow
metered_micro_usd_lem_example =
    metered_micro_usd_lem decode usage snapshot
      (rate 2_000_000 6_000_000 2_000_000 1_000_000 6_000_000) charges refl reports

validate-IsSound_example : IsSound decode usage
validate-IsSound_example = validate-IsSound decode usage accepted
