-- ===== src/Runs/Usage/Checks.antt =====
-- src/runs.rs: what a usage record satisfies once `validate` has accepted it.
use centaur_context.Common.{
  ℕ, ◌+◌, ◌≤◌, ◌≡◌, refl, ap, Bool, true, false, not, ◌&&◌, ◌||◌, ◌⊎◌, inl, inr, List, [], ◌∷◌,
  Option, none, some, arith, is_some, ok, reject_if, reject_if-eq-ok, >>=-eq-ok, >>-eq-ok, any, All,
  if◌then◌else◌,
}
use centaur_context.Common.Integer.{ℤ, pos, negsuc, is_negative, eq_ℤ}
use centaur_context.Text.{Text, lit, text_eq}
use centaur_context.Json.{Value}
use centaur_context.Runs.Usage.{
  NormalizedUsage, MeteredRateCard, metered_micro_usd, bad_pricing_provenance,
}
use centaur_context.Runs.Usage.Validation.{
  numeric, some_below, total_is_short, cache_read_exceeds, check_pricing, validate, is_cost,
}

-- The value, if there is one, is not negative.
abbrev pub NonNegative : Option ℤ → Type 0
NonNegative o = (n : ℤ) → o ≡ some n → is_negative n ≡ false

-- The price is absent altogether, or it is the price of the snapshot.
abbrev pub Priced : (Value → Option MeteredRateCard) → NormalizedUsage → Type 0
Priced rate_card u =
    ((u.rate_card_version ≡ none) × (u.pricing_snapshot ≡ none) × (u.estimated_micro_usd ≡ none))
    ⊎ ((snapshot : Value) × (cost : ℤ) × (u.pricing_snapshot ≡ some snapshot)
        × (metered_micro_usd rate_card u snapshot ≡ ok cost)
        × (u.estimated_micro_usd ≡ some cost))

pub record IsSound (rate_card : Value → Option MeteredRateCard) (u : NormalizedUsage) : Type 0 where
  pub counts : All NonNegative (numeric u)
  pub totals :
      (i o t : ℕ)
      → u.input_tokens ≡ some (pos i)
      → u.output_tokens ≡ some (pos o)
      → u.total_tokens ≡ some (pos t)
      → i + o ≤ t
  pub cached :
      (i r : ℕ) → u.input_tokens ≡ some (pos i) → u.cache_read_tokens ≡ some (pos r) → r ≤ i
  pub priced : text_eq u.billing_mode (lit "metered_api") ≡ true → Priced rate_card u
  pub unbilled :
      text_eq u.billing_mode (lit "subscription_allowance") ≡ true → u.estimated_micro_usd ≡ none

NonNegative-of : (o : Option ℤ) → some_below (pos 0) o ≡ false → NonNegative o
NonNegative-of none h n e = cc
NonNegative-of (some (pos m)) h n e = ground arith
NonNegative-of (some (negsuc m)) h n e = ground arith

counts_of : (os : List (Option ℤ)) → any (some_below (pos 0)) os ≡ false → All NonNegative os
counts_of [] h = tt
counts_of (o ∷ os) h = (NonNegative-of o (ground arith), counts_of os (ground arith))

totals_of :
    (i o t : ℕ) → total_is_short (some (pos i)) (some (pos o)) (some (pos t)) ≡ false → i + o ≤ t
unfolding total_is_short
totals_of i o t h = ground arith

cached_of : (i r : ℕ) → cache_read_exceeds (some (pos i)) (some (pos r)) ≡ false → r ≤ i
unfolding cache_read_exceeds
cached_of i r h = ground arith

totals_at :
    (is os ts : Option ℤ)
    → total_is_short is os ts ≡ false
    → (i o t : ℕ) → is ≡ some (pos i)
    → os ≡ some (pos o)
    → ts ≡ some (pos t)
    → i + o ≤ t
totals_at is os ts h i o t ei eo et = totals_of i o t (rw (ei, eo, et) at h)

cached_at :
    (is rs : Option ℤ)
    → cache_read_exceeds is rs ≡ false
    → (i r : ℕ) → is ≡ some (pos i)
    → rs ≡ some (pos r)
    → r ≤ i
cached_at is rs h i r ei er = cached_of i r (rw (ei, er) at h)

unbilled_of : (o : Option ℤ) (a b : Bool) → a ≡ true → ((a || b) && is_some o) ≡ false → o ≡ none
unbilled_of none a b e h = refl
unbilled_of (some n) a b e h = ground arith

eq_ℤ_sound : (m n : ℤ) → eq_ℤ m n ≡ true → m ≡ n
eq_ℤ_sound m n h = ground arith

Priced-of :
    (rate_card : Value → Option MeteredRateCard) (u : NormalizedUsage) (version : Option Text)
    (snapshot : Option Value)
    → u.rate_card_version ≡ version
    → u.pricing_snapshot ≡ snapshot
    → check_pricing rate_card u version snapshot ≡ ok tt
    → Priced rate_card u
unfolding check_pricing
Priced-of rate_card u (some v) (some s) ev es h =
    let (cost, paid, rest) = >>=-eq-ok (metered_micro_usd rate_card u s) _ h in
    inr (s, cost, es, paid, same u.estimated_micro_usd cost rest)
  where
    same :
        (o : Option ℤ) (cost : ℤ)
        → reject_if (not (is_cost o cost)) bad_pricing_provenance ≡ ok tt
        → o ≡ some cost
    same none cost h = cc
    same (some n) cost h = ap some (eq_ℤ_sound n cost (ground arith))
Priced-of rate_card u none none ev es h = inl (ev, es, ground arith)
Priced-of rate_card u (some v) none ev es h = cc
Priced-of rate_card u none (some s) ev es h = cc

Priced-if :
    (rate_card : Value → Option MeteredRateCard) (u : NormalizedUsage) (b : Bool)
    → b ≡ true
    → (if b then check_pricing rate_card u u.rate_card_version u.pricing_snapshot else ok tt)
      ≡ ok tt
    → Priced rate_card u
Priced-if rate_card u b e h =
    Priced-of rate_card u u.rate_card_version u.pricing_snapshot refl refl (rw e at h)

-- A usage record that `validate` accepts has no negative count or charge; its total covers input and
-- output, and its cached input does not exceed the input; under metered billing it has no card,
-- snapshot and price, or the price that the snapshot gives; under a subscription it has no price.
pub validate-IsSound :
    (rate_card : Value → Option MeteredRateCard) (u : NormalizedUsage)
    → validate rate_card u ≡ ok tt
    → IsSound rate_card u
unfolding validate
validate-IsSound rate_card u h =
    let (lengths, h1) = >>-eq-ok _ _ h in
    let (executed, h2) = reject_if-eq-ok _ _ _ h1 in
    let (authorised, h3) = reject_if-eq-ok _ _ _ h2 in
    let (billed, h4) = reject_if-eq-ok _ _ _ h3 in
    let (status, h5) = reject_if-eq-ok _ _ _ h4 in
    let (reported, h6) = reject_if-eq-ok _ _ _ h5 in
    let (indexed, h7) = reject_if-eq-ok _ _ _ h6 in
    let (negatives, h8) = reject_if-eq-ok _ _ _ h7 in
    let (applicable, h9) = reject_if-eq-ok _ _ _ h8 in
    let (summed, h10) = reject_if-eq-ok _ _ _ h9 in
    let (reads, h11) = reject_if-eq-ok _ _ _ h10 in
    let (metered, h12) = >>-eq-ok _ _ h11 in
    let (subscribed, h13) = reject_if-eq-ok _ _ _ h12 in
    record {
      counts = counts_of (numeric u) negatives;
      totals = λ i o t ei eo et.
          totals_at u.input_tokens u.output_tokens u.total_tokens summed i o t ei eo et;
      cached = λ i r ei er. cached_at u.input_tokens u.cache_read_tokens reads i r ei er;
      priced = λ b. Priced-if rate_card u (text_eq u.billing_mode (lit "metered_api")) b metered;
      unbilled = λ b. unbilled_of u.estimated_micro_usd _ _ b subscribed;
    }
