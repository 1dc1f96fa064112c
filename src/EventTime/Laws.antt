-- ===== src/EventTime/Laws.antt =====
-- src/event_time.rs: dates that are written out, read back and compared.
use centaur_context.Common.{
  ℕ, ◌+◌, ◌-◌, ◌*◌, ◌/◌, ◌%◌, ◌<◌, ◌≤◌, ◌==◌, ◌≡◌, ◌⊎◌, refl, true, false, [], ◌∷◌, none, some,
  arith, ok,
}
use centaur_context.Common.Integer.{pos}
use centaur_context.Text.{Text, lit, len, utf8_len, is_ascii_digit}
use centaur_context.EventTime.{
  EventTime, Calendar, is_shaped, parse_from, parse_digits, part, date_endpoint,
}

-- `YYYY-MM-DD`
abbrev pub digit : ℕ → ℕ
digit n = b'0' + n

abbrev two_digits : ℕ → Text → Text
two_digits n s = digit (n / 10) ∷ digit (n % 10) ∷ s

unfoldable pub print_day : ℕ → ℕ → ℕ → Text
print_day y m d =
    digit (y / 1000)
    ∷ digit (y / 100 % 10)
    ∷ two_digits (y % 100) (b'-' ∷ two_digits m (b'-' ∷ two_digits d []))

module _ (a : ℕ) (small : a < 10) where
  digit_len : utf8_len (digit a) ≡ 1
  digit_len = ground arith

  digit_is : is_ascii_digit (digit a) ≡ true
  digit_is = ground arith

  digit_value : digit a - b'0' ≡ a
  digit_value = omega arith

module _ (a b c e f g h k : ℕ) (pa : a < 10) (pb : b < 10) (pc : c < 10) (pe : e < 10) (pf : f < 10)
    (pg : g < 10) (ph : h < 10) (pk : k < 10) where
  abbrev day_text : Text
  day_text =
      digit a
      ∷ digit b
      ∷ digit c
      ∷ digit e
      ∷ b'-'
      ∷ digit f
      ∷ digit g
      ∷ b'-'
      ∷ digit h
      ∷ digit k
      ∷ []

  day_len : len day_text ≡ 10
  unfolding len
  day_len =
      rw
        (
          digit_len a pa,
          digit_len b pb,
          digit_len c pc,
          digit_len e pe,
          digit_len f pf,
          digit_len g pg,
          digit_len h ph,
          digit_len k pk,
        )
        refl

  day_shaped : is_shaped 0 day_text ≡ true
  unfolding is_shaped
  day_shaped =
      rw
        (
          digit_is a pa,
          digit_is b pb,
          digit_is c pc,
          digit_is e pe,
          digit_is f pf,
          digit_is g pg,
          digit_is h ph,
          digit_is k pk,
        )
        refl

  year_of : parse_digits (part day_text 0 4) ≡ ((a * 10 + b) * 10 + c) * 10 + e
  unfolding parse_from
  year_of = omega arith

  month_of : parse_digits (part day_text 5 7) ≡ f * 10 + g
  unfolding parse_from
  month_of = omega arith

  day_of : parse_digits (part day_text 8 10) ≡ h * 10 + k
  unfolding parse_from
  day_of = omega arith

  digits_read :
      (calendar : Calendar)
      → (y m d : ℕ) → ((a * 10 + b) * 10 + c) * 10 + e ≡ y
      → f * 10 + g ≡ m
      → h * 10 + k ≡ d
      → (y == 0) ≡ false
      → calendar.is_date y m d ≡ true
      → date_endpoint calendar day_text 10 ≡ ok (some (pos (y * 10000 + m * 100 + d)))
  unfolding date_endpoint
  digits_read calendar y m d sy sm sd later date =
      rw (day_len, day_shaped, year_of, month_of, day_of, sy, sm, sd, later, date) refl

module _ (calendar : Calendar) where
  -- A date of the calendar, of the years 1 to 9999, that is written out as YYYY-MM-DD is read back
  -- without loss: as the number whose last two digits are the day, the two before them the month and
  -- the others the year.
  pub date_endpoint-print_day :
      (y m d : ℕ)
      → 0 < y
      → y < 10000
      → m < 100
      → d < 100
      → calendar.is_date y m d ≡ true
      → date_endpoint calendar (print_day y m d) 10 ≡ ok (some (pos (y * 10000 + m * 100 + d)))
  unfolding print_day
  date_endpoint-print_day y m d py hy hm hd date =
      digits_read (y / 1000) (y / 100 % 10) (y % 100 / 10) (y % 100 % 10) (m / 10) (m % 10) (d / 10)
        (d % 10) (omega arith) (omega arith) (omega arith) (omega arith) (omega arith) (omega arith)
        (omega arith) (omega arith) calendar y m d (omega arith) (omega arith) (omega arith)
        (nonzero y py) date
    where
      nonzero : (y : ℕ) → 0 < y → (y == 0) ≡ false
      nonzero y h = ground arith

  -- Calendar order.
  abbrev pub IsNotAfter : ℕ × ℕ × ℕ → ℕ × ℕ × ℕ → Type 0
  IsNotAfter (y, m, d) (y', m', d') = (y < y') ⊎ ((y ≡ y') × ((m < m') ⊎ ((m ≡ m') × (d ≤ d'))))

  abbrev pub IsDay : ℕ × ℕ × ℕ → Type 0
  IsDay (y, m, d) = (0 < y) × (y < 10000) × (m < 100) × (d < 100) × (calendar.is_date y m d ≡ true)

  abbrev pub print_date : ℕ × ℕ × ℕ → Text
  print_date (y, m, d) = print_day y m d

  abbrev pub day_range : ℕ × ℕ × ℕ → ℕ × ℕ × ℕ → EventTime
  day_range from to = record {
    starts_at = some (print_date from);
    starts_at_precision = some (lit "day");
    ends_at = some (print_date to);
    ends_at_precision = some (lit "day");
    timezone = none;
  }
