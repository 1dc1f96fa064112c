-- ===== src/EventTime/Tests.antt =====
-- src/event_time.rs: dates at work, in a calendar of one zone whose months have at most 28 days.
use centaur_context.Common.{◌≡◌, ◌*◌, ◌+◌, refl, ◌&&◌, none, some, leb, ltb, ok, arith}
use centaur_context.Common.Integer.{pos}
use centaur_context.EventTime.{Calendar, date_endpoint}
use centaur_context.EventTime.Laws.{print_day, date_endpoint-print_day}

abbrev short_months : Calendar
short_months = record {
  parse_zone = λ s. some 0;
  parse_from_rfc3339 = λ s. none;
  offset_in = λ tz t. pos 0;
  is_date = λ y m d. ltb 0 m && leb m 12 && ltb 0 d && leb d 28;
}

date_endpoint-print_day_example :
    date_endpoint short_months (print_day 2026 11 9) 10
    ≡ ok (some (pos (2026 * 10000 + 11 * 100 + 9)))
date_endpoint-print_day_example =
    date_endpoint-print_day short_months 2026 11 9 (omega arith) (omega arith) (omega arith)
      (omega arith) refl
