-- ===== src/EventTime.antt =====
-- src/event_time.rs: the times of events. `Calendar` stands for chrono and its time zones.
pub mod Laws
mod Tests
use Prim.Native.String.{String}
use centaur_context.Common.{
  ℕ, ◌+◌, ◌-◌, ◌*◌, ◌==◌, Bool, true, false, not, ◌&&◌, ◌||◌, List, [], ◌∷◌, Option, none, some,
  leb, take, drop, length, if◌then◌else◌, Result, ok, err, ◌>>=◌, ◌>>◌, reject_if, ok_or,
  transpose_map,
}
use centaur_context.Common.Integer.{ℤ, pos, ◌+ℤ◌, ◌*ℤ◌, ltb_ℤ, eq_ℤ}
use centaur_context.Errors.{Message, plain, about, DbError, invalid}
use centaur_context.Text.{Text, lit, len, text_eq, is_ascii_digit}

pub record EventTime : Type 0 where
  pub starts_at : Option Text
  pub starts_at_precision : Option Text
  pub ends_at : Option Text
  pub ends_at_precision : Option Text
  pub timezone : Option Text

pub record Instant : Type 0 where
  pub timestamp : ℤ
  pub subsec_nanos : ℕ
  pub offset : ℤ

pub record Calendar : Type 0 where
  pub parse_zone : Text → Option ℕ
  pub parse_from_rfc3339 : Text → Option Instant
  pub offset_in : ℕ → Instant → ℤ
  pub is_date : ℕ → ℕ → ℕ → Bool

abbrev pub invalid_endpoint : {A : Type 0} → Result DbError A
invalid_endpoint = err (
    invalid
      (about "invalid Event endpoint" "use YYYY, YYYY-MM, YYYY-MM-DD or RFC3339 with an offset"))

-- The characters from a place on have digits, and dashes at 4 and 7. A character that is not ASCII
-- fails, as its bytes do.
unfoldable pub is_shaped : ℕ → Text → Bool
is_shaped i [] = true
is_shaped i (c ∷ s) =
    (if (i == 4) || (i == 7) then c == b'-' else is_ascii_digit c) && is_shaped (i + 1) s

-- `parse` of a text of digits that is too short to overflow.
unfoldable pub parse_from : ℕ → Text → ℕ
parse_from n [] = n
parse_from n (c ∷ s) = parse_from (n * 10 + (c - b'0')) s

abbrev pub parse_digits : Text → ℕ
parse_digits s = parse_from 0 s

-- `value[start..end]`
abbrev pub part : Text → ℕ → ℕ → Text
part value start end = take (end - start) (drop start value)

abbrev pub expected_len : Text → Option ℕ
expected_len precision =
    if text_eq precision (lit "year")
    then some 4
    else if text_eq precision (lit "month")
    then some 7
    else if text_eq precision (lit "day")
    then some 10
    else none

module _ (calendar : Calendar) where
  abbrev pub disagrees : Option ℕ → Instant → Bool
  disagrees none instant = false
  disagrees (some tz) instant = not (eq_ℤ (calendar.offset_in tz instant) instant.offset)

  unfoldable pub instant_endpoint : Option ℕ → Option Instant → Result DbError (Option ℤ)
  unfolding ◌+ℤ◌ ◌*ℤ◌
  instant_endpoint tz none = invalid_endpoint
  instant_endpoint tz (some instant) =
      if disagrees tz instant
      then err (invalid (plain "Event instant offset disagrees with timezone at that instant"))
      else ok (some (instant.timestamp *ℤ pos 1_000_000_000 +ℤ pos instant.subsec_nanos))

  unfoldable pub date_endpoint : Text → ℕ → Result DbError (Option ℤ)
  date_endpoint value expected =
      if not (len value == expected) || not (is_shaped 0 value)
      then invalid_endpoint
      else let year = parse_digits (part value 0 4) in
        let month = if leb 7 expected then parse_digits (part value 5 7) else 1 in
        let day = if expected == 10 then parse_digits (part value 8 10) else 1 in
        if (year == 0) || not (calendar.is_date year month day)
        then invalid_endpoint
        else ok (some (pos (year * 10000 + month * 100 + day)))

  abbrev pub dated : Text → Option ℕ → Result DbError (Option ℤ)
  dated value none = invalid_endpoint
  dated value (some expected) = date_endpoint value expected

  unfoldable pub endpoint : Option Text → Option Text → Option ℕ → Result DbError (Option ℤ)
  endpoint none none tz = ok none
  endpoint (some value) (some precision) tz =
      if text_eq precision (lit "instant")
      then instant_endpoint tz (calendar.parse_from_rfc3339 value)
      else dated value (expected_len precision)
  endpoint _ _ tz =
      err (invalid (plain "Event endpoint and precision must both be supplied or both null"))

  abbrev pub same_text : Option Text → Option Text → Bool
  same_text none none = true
  same_text (some s) (some t) = text_eq s t
  same_text _ _ = false

  abbrev pub check_range : EventTime → Option ℤ → Option ℤ → Result DbError (Unit {0})
  check_range t (some start) (some end) = do
    reject_if (not (same_text t.starts_at_precision t.ends_at_precision))
        (invalid (plain "Event range endpoints must use matching precision"))
    reject_if (ltb_ℤ end start) (invalid (plain "Event end must be at or after start"))
  check_range t _ _ = ok tt

  abbrev pub zone_of : Text → Result DbError ℕ
  zone_of s = ok_or (calendar.parse_zone s) (invalid (plain "timezone must be an IANA timezone"))

  -- `EventTime::validate`
  unfoldable pub validate_time : EventTime → Result DbError (Unit {0})
  validate_time t = do
    tz ← transpose_map zone_of t.timezone
    start ← endpoint t.starts_at t.starts_at_precision tz
    end ← endpoint t.ends_at t.ends_at_precision tz
    check_range t start end
