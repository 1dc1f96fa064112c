-- ===== src/Search/Size.antt =====
-- src/search.rs: the size that a packet names.
use centaur_context.Common.{
  ℕ, suc, ◌+◌, ◌<◌, ◌==◌, ◌≡◌, inl, inr, sym, ◌∙◌, List, ltb, arith, Bool-cases, if◌then◌else◌,
  ==→eq,
}
use centaur_context.Text.{Text}
use centaur_context.Search.{
  RetrievedObject, ContextPacket, with_size, measure, unmeasured, context_packet_with_budget,
}

-- The decimal digits of a number below ten million.
abbrev pub digits : ℕ → ℕ
digits n =
    if ltb n 10
    then 1
    else if ltb n 100
    then 2
    else if ltb n 1000
    then 3
    else if ltb n 10000
    then 4
    else if ltb n 100000
    then 5
    else if ltb n 1000000
    then 6
    else 7

-- What three corrections come to, from the size zero.
abbrev third : ℕ → ℕ
third b = b + digits (b + digits (b + 1))

third_stable : (b : ℕ) → b < 9_999_980 → b + digits (third b) ≡ third b
third_stable b h = ground arith

near : (b : ℕ) → b < 9_999_980 → (b + digits (b + 1) < 10_000_000) × (third b < 10_000_000)
near b h = (ground arith, ground arith)

module _ (chars : ContextPacket → ℕ) where
  abbrev pub IsMeasured : ContextPacket → Type 0
  IsMeasured p = p.budget.serialized_characters ≡ chars p

  step-IsMeasured :
      (n : ℕ) (p : ContextPacket)
      → IsMeasured (measure chars n (with_size p (chars p)))
      → IsMeasured (measure chars (suc n) p)
  unfolding measure
  step-IsMeasured n p h = elim (Bool-cases (p.budget.serialized_characters == chars p)) [
    | inl same ↦ rw (same) (==→eq _ _ same)
    | inr other ↦ rw (other) h
  ]

  unmoved : (p : ContextPacket) → IsMeasured p → IsMeasured (measure chars 0 p)
  unfolding measure
  unmoved p h = h

  three :
      (p : ContextPacket) (others : ℕ)
      → ((n : ℕ) → n < 10_000_000 → chars (with_size p n) ≡ others + digits n)
      → chars p ≡ others + 1
      → others < 9_999_980
      → IsMeasured (measure chars 3 p)
  three p others splits e0 few = step-IsMeasured 2 p (
      step-IsMeasured 1 (with_size p (chars p))
        (step-IsMeasured 0 (with_size p (chars (with_size p (chars p)))) (unmoved _ e3)))
    where
      e1 : chars (with_size p (chars p)) ≡ others + digits (others + 1)
      e1 = rw (e0) (splits (others + 1) (omega (arith, few)))

      e2 : chars (with_size p (chars (with_size p (chars p)))) ≡ third others
      e2 = rw (e1) (splits _ (near others few).0)

      e3 : IsMeasured (with_size p (chars (with_size p (chars (with_size p (chars p))))))
      e3 = rw (e2) (sym (splits _ (near others few).1 ∙ third_stable others few))

  -- A packet names its own size: if serde_json writes it in a number of characters that is fixed but
  -- for the decimal digits of the size that it names, and these others are fewer than 9,999,980.
  pub context_packet_with_budget_lem :
      (query retrieval : Text) (max a b c : ℕ) (objects general : List RetrievedObject) (others : ℕ)
      → ((n : ℕ)
          → n < 10_000_000
          → chars (with_size (unmeasured chars query retrieval max a b c objects general) n)
            ≡ others + digits n)
      → others < 9_999_980
      → IsMeasured (context_packet_with_budget chars query retrieval max a b c objects general)
  unfolding context_packet_with_budget
  context_packet_with_budget_lem query retrieval max a b c objects general others splits few =
      three (unmeasured chars query retrieval max a b c objects general) others splits
        (splits 0 (omega arith)) few
