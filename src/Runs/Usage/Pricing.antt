-- ===== src/Runs/Usage/Pricing.antt =====
-- src/runs.rs: the price of a metered call, against the arithmetic without machine integers.
use native.Mathlib.Nat.{mul-le-mul_left}
use centaur_context.Common.{
  ℕ, ◌+◌, ◌*◌, ◌/◌, ◌≤◌, ◌<◌, ◌≡◌, ap, ◌∙◌, map, List, [], ◌∷◌, Option, some, arith, lt→ltb, ok,
  ok_or,
}
use centaur_context.Common.Integer.{ℤ, pos, ◌-ℤ◌, checked, i64_bound, i128_bound, +ℤ_pos, *ℤ_pos}
use centaur_context.Json.{Value}
use centaur_context.Runs.Usage.{
  NormalizedUsage, MeteredRateCard, pricing_overflow, or_zero, checked_sub, and_then, add_term,
  add_terms, to_micro_usd, metered_micro_usd,
}

-- A call's token counts as numbers, each with the rate that it is charged at.
pub record Charges : Type 0 where
  pub uncached : ℕ
  pub cache_creation : ℕ
  pub cache_read : ℕ
  pub spoken : ℕ
  pub reasoning : ℕ
  pub input_rate : ℕ
  pub output_rate : ℕ
  pub cache_creation_rate : ℕ
  pub cache_read_rate : ℕ
  pub reasoning_rate : ℕ

-- The exact price in millionths of a micro-dollar.
abbrev pub exact : Charges → ℕ
exact c =
    c.uncached * c.input_rate
    + c.spoken * c.output_rate
    + c.cache_creation * c.cache_creation_rate
    + c.cache_read * c.cache_read_rate
    + c.reasoning * c.reasoning_rate

-- The usage reports these counts, and the card these rates; all are values of `i64`.
pub record Reports (u : NormalizedUsage) (r : MeteredRateCard) (c : Charges) : Type 0 where
  pub inputs : or_zero u.input_tokens ≡ pos (c.uncached + c.cache_creation + c.cache_read)
  pub outputs : or_zero u.output_tokens ≡ pos (c.spoken + c.reasoning)
  pub creations : or_zero u.cache_creation_tokens ≡ pos c.cache_creation
  pub reads : or_zero u.cache_read_tokens ≡ pos c.cache_read
  pub reasons : or_zero u.reasoning_tokens ≡ pos c.reasoning
  pub rates : r ≡ record {
    input_micro_usd_per_million = pos c.input_rate;
    output_micro_usd_per_million = pos c.output_rate;
    cache_creation_micro_usd_per_million = pos c.cache_creation_rate;
    cache_read_micro_usd_per_million = pos c.cache_read_rate;
    reasoning_micro_usd_per_million = pos c.reasoning_rate;
  }
  pub inputs_fit : c.uncached + c.cache_creation + c.cache_read < i64_bound
  pub outputs_fit : c.spoken + c.reasoning < i64_bound
  pub rates_fit :
      (c.input_rate < i64_bound)
      × (c.output_rate < i64_bound)
      × (c.cache_creation_rate < i64_bound)
      × (c.cache_read_rate < i64_bound)
      × (c.reasoning_rate < i64_bound)

checked_pos : (bound n : ℕ) → n < bound → checked bound (pos n) ≡ some (pos n)
checked_pos bound n h = rw (lt→ltb n bound h)

-ℤ_pos : (a b : ℕ) → pos (a + b) -ℤ pos b ≡ pos a
unfolding ◌-ℤ◌
-ℤ_pos a b = ground arith

add_term_pos :
    (s t r : ℕ) → s + t * r < i128_bound → add_term (pos s) (pos t, pos r) ≡ ok (pos (s + t * r))
unfolding add_term
add_term_pos s t r h = rw (*ℤ_pos t r, +ℤ_pos s (t * r)) (rw (checked_pos i128_bound (s + t * r) h))

-- A product of a count below 2^63 and a rate below 2^63.
charge-le : (t r : ℕ) → r < i64_bound → t * r ≤ t * 9_223_372_036_854_775_807
charge-le t r h = mul-le-mul_left t (omega arith)

abbrev as_term : ℕ × ℕ → ℤ × ℤ
as_term (t, r) = (pos t, pos r)

abbrev total : List (ℕ × ℕ) → ℕ
total [] = 0
total ((t, r) ∷ terms) = t * r + total terms

add_terms_pos :
    (s : ℕ) (terms : List (ℕ × ℕ))
    → s + total terms < i128_bound
    → add_terms (pos s) (map as_term terms) ≡ ok (pos (s + total terms))
unfolding add_terms
add_terms_pos s [] h = ap (λ n. ok (pos n)) (omega arith)
add_terms_pos s ((t, r) ∷ terms) h =
    let later = add_terms_pos (s + t * r) terms (omega arith) in
    let regroup : s + t * r + total terms ≡ s + (t * r + total terms) = omega arith in
    rw (add_term_pos s t r (omega arith)) (later ∙ ap (λ n. ok (pos n)) regroup)

abbrev charged : Charges → List (ℕ × ℕ)
charged c =
    (c.uncached, c.input_rate)
    ∷ (c.spoken, c.output_rate)
    ∷ (c.cache_creation, c.cache_creation_rate)
    ∷ (c.cache_read, c.cache_read_rate)
    ∷ (c.reasoning, c.reasoning_rate)
    ∷ []

-- The five products and the rounding stay below 2^127.
exact-lt :
    (u : NormalizedUsage) (r : MeteredRateCard) (c : Charges)
    → Reports u r c
    → exact c + 500_000 < i128_bound
exact-lt u r c h =
    let (a, b, d, e, f) = h.rates_fit in
    omega (
      arith,
      charge-le c.uncached c.input_rate a,
      charge-le c.spoken c.output_rate b,
      charge-le c.cache_creation c.cache_creation_rate d,
      charge-le c.cache_read c.cache_read_rate e,
      charge-le c.reasoning c.reasoning_rate f,
    )

add_terms-charged :
    (c : Charges)
    → exact c + 500_000 < i128_bound
    → add_terms (pos 0) (map as_term (charged c)) ≡ ok (pos (exact c))
add_terms-charged c h =
    add_terms_pos 0 (charged c) (omega arith) ∙ ap (λ n. ok (pos n)) (omega arith)

to_micro_usd_pos :
    (n : ℕ)
    → n + 500_000 < i128_bound
    → to_micro_usd (pos n)
      ≡ ok_or (checked i64_bound (pos ((n + 500_000) / 1_000_000))) pricing_overflow
unfolding to_micro_usd
to_micro_usd_pos n h = rw (+ℤ_pos n 500_000) (rw (checked_pos i128_bound (n + 500_000) h))

checked_sub_pos : (a b : ℕ) → a + b < i64_bound → checked_sub (pos (a + b)) (pos b) ≡ some (pos a)
checked_sub_pos a b h = rw (-ℤ_pos a b) (checked_pos i64_bound a (omega arith))

uncached_lem :
    (a cc cr : ℕ)
    → a + cc + cr < i64_bound
    → and_then (checked_sub (pos (a + cc + cr)) (pos cc)) (λ v. checked_sub v (pos cr))
      ≡ some (pos a)
uncached_lem a cc cr h =
    let regroup : a + cc + cr ≡ a + cr + cc = omega arith in
    rw (regroup, checked_sub_pos (a + cr) cc (omega arith)) (checked_sub_pos a cr (omega arith))

-- If the decoded card and the token counts are non-negative values of `i64`, the cached counts lie
-- within the input and the reasoning within the output, then no step of `metered_micro_usd`
-- overflows before the last: the price is the exact sum rounded half up, or the error
-- `pricing_overflow` if that is 2^63 or more.
pub metered_micro_usd_lem :
    (rate_card : Value → Option MeteredRateCard) (u : NormalizedUsage) (snapshot : Value)
    (r : MeteredRateCard) (c : Charges)
    → rate_card snapshot ≡ some r
    → Reports u r c
    → metered_micro_usd rate_card u snapshot
      ≡ ok_or (checked i64_bound (pos ((exact c + 500_000) / 1_000_000))) pricing_overflow
unfolding metered_micro_usd
metered_micro_usd_lem rate_card u snapshot r c card h =
    rw (card, h.rates, h.inputs, h.outputs, h.creations, h.reads, h.reasons)
      (rw (uncached_lem c.uncached c.cache_creation c.cache_read h.inputs_fit) (
        rw (checked_sub_pos c.spoken c.reasoning h.outputs_fit) (
          rw (add_terms-charged c (exact-lt u r c h))
            (to_micro_usd_pos (exact c) (exact-lt u r c h)))))
