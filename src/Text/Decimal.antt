-- ===== src/Text/Decimal.antt =====
-- Decimal texts of integers, and a cast of such a text to a signed type that fails where PostgreSQL's
-- does on them: at a text that is not a number, and out of range.
use centaur_context.Common.{
  ℕ, zero, suc, ◌+◌, ◌-◌, ◌*◌, ◌/◌, ◌%◌, ◌<◌, ◌==◌, ◌≡◌, refl, ◌∙◌, Bool, true, false, ◌&&◌, [],
  ◌∷◌, Option, none, some, ltb, leb, Bool-cases, inl, inr, arith, if◌then◌else◌,
}
use centaur_context.Common.Integer.{ℤ, pos, negsuc, fits, checked}
use centaur_context.Text.{Text}

abbrev is_digit : ℕ → Bool
is_digit c = leb 48 c && leb c 57

-- The digits of a number, before a text.
unfoldable pub print_from : ℕ → ℕ → Text → Text
print_from zero n rest = rest
print_from (suc fuel) n rest =
    let s = (48 + n % 10) ∷ rest in
    let more = print_from fuel (n / 10) s in if ltb n 10 then s else more

unfoldable pub read_from : ℕ → Text → Option ℕ
read_from n [] = some n
read_from n (c ∷ s) =
    let rest = read_from (n * 10 + (c - 48)) s in if is_digit c then rest else none

abbrev pub print : ℤ → Text
print (pos n) = print_from (suc n) n []
print (negsuc n) = b'-' ∷ print_from (suc (suc n)) (suc n) []

abbrev in_range : ℕ → Bool → Option ℕ → Option ℤ
in_range bound negative none = none
in_range bound true (some zero) = checked bound (pos 0)
in_range bound true (some (suc n)) = checked bound (negsuc n)
in_range bound false (some n) = checked bound (pos n)

abbrev opens : Text → Bool
opens [] = false
opens (c ∷ s) = is_digit c

abbrev unsigned : ℕ → Bool → Text → Option ℤ
unsigned bound negative s = if opens s then in_range bound negative (read_from 0 s) else none

-- The value of a text in the type with minimum `-bound` and maximum `bound - 1`.
abbrev pub cast : ℕ → Text → Option ℤ
cast bound [] = none
cast bound (c ∷ s) = if c == b'-' then unsigned bound true s else unsigned bound false (c ∷ s)

digit-is_digit : (n : ℕ) → is_digit (48 + n % 10) ≡ true
digit-is_digit n = ground arith

read_from-digit :
    (m n : ℕ) (s : Text) → read_from m ((48 + n % 10) ∷ s) ≡ read_from (m * 10 + n % 10) s
unfolding read_from
read_from-digit m n s = rw (digit-is_digit n, value n) refl
  where
    value : (n : ℕ) → 48 + n % 10 - 48 ≡ n % 10
    value n = omega arith

read-print : (fuel n : ℕ) (s : Text) → n < fuel → read_from 0 (print_from fuel n s) ≡ read_from n s
unfolding print_from
read-print zero n s h = absurd (omega arith)
read-print (suc fuel) n s h = elim (Bool-cases (ltb n 10)) [
  | inl few ↦ rw (few) (read_from-digit 0 n s ∙ rw (last n few) refl)
  | inr many ↦ rw (many) (
      read-print fuel (n / 10) ((48 + n % 10) ∷ s) (smaller n fuel many h)
      ∙ read_from-digit (n / 10) n s
      ∙ rw (whole n) refl)
]
  where
    last : (n : ℕ) → ltb n 10 ≡ true → 0 * 10 + n % 10 ≡ n
    last n e = ground arith

    whole : (n : ℕ) → n / 10 * 10 + n % 10 ≡ n
    whole n = omega arith

    smaller : (n fuel : ℕ) → ltb n 10 ≡ false → n < suc fuel → n / 10 < fuel
    smaller n fuel e k = ground arith

opens-print : (fuel n : ℕ) (s : Text) → opens s ≡ true → opens (print_from fuel n s) ≡ true
unfolding print_from
opens-print zero n s h = h
opens-print (suc fuel) n s h = elim (Bool-cases (ltb n 10)) [
  | inl few ↦ rw (few) (digit-is_digit n)
  | inr many ↦ rw (many) (opens-print fuel (n / 10) ((48 + n % 10) ∷ s) (digit-is_digit n))
]

opens-number : (fuel n : ℕ) → opens (print_from (suc fuel) n []) ≡ true
unfolding print_from
opens-number fuel n = elim (Bool-cases (ltb n 10)) [
  | inl few ↦ rw (few) (digit-is_digit n)
  | inr many ↦ rw (many) (opens-print fuel (n / 10) ((48 + n % 10) ∷ []) (digit-is_digit n))
]

unsigned-cast : (bound : ℕ) (s : Text) → opens s ≡ true → cast bound s ≡ unsigned bound false s
unsigned-cast bound [] h = cc
unsigned-cast bound (c ∷ s) h = rw (no_sign c h) refl
  where
    no_sign : (c : ℕ) → is_digit c ≡ true → (c == b'-') ≡ false
    no_sign c e = ground arith

read_end : (n : ℕ) → read_from n [] ≡ some n
unfolding read_from
read_end n = refl

-- A printed integer of the type is cast to itself.
pub cast-print : (bound : ℕ) (n : ℤ) → fits bound n ≡ true → cast bound (print n) ≡ some n
cast-print bound (pos n) h =
    unsigned-cast bound (print_from (suc n) n []) (opens-number n n)
    ∙ rw (opens-number n n, read-print (suc n) n [] (omega arith), read_end n, h) refl
cast-print bound (negsuc n) h =
    rw
      (
        opens-number (suc n) (suc n),
        read-print (suc (suc n)) (suc n) [] (omega arith),
        read_end (suc n),
        h,
      )
      refl
