-- ===== src/Domain/Slug.antt =====
-- src/domain.rs: the grammar behind `theme_slug`.
use centaur_context.Common.{
  both_true, ℕ, suc, ◌+◌, ◌-◌, ◌≤◌, ◌==◌, ◌≡◌, ◌≢◌, ◌⊎◌, refl, sym, ◌∙◌, ap, Bool, true, false, not,
  ◌&&◌, ◌||◌, Bool-cases, inl, inr, arith, ltb, [], ◌∷◌, ◌++◌, length, length-append, get_elem?,
  Option, none, some, if◌then◌else◌, Result, ok, err, >>=-eq-ok,
}
use mathlib.Core.List.{append_assoc}
use centaur_context.Errors.{ValidationError, unsupported}
use centaur_context.Text.{
  Text, is_empty, trim, to_ascii_lowercase, is_ascii_lowercase, is_ascii_digit,
}
use centaur_context.Domain.{is_slug_byte, is_dash, slug_from, theme_slug}
use centaur_context.Domain.Description.{required_text-IsRequired}

abbrev pub is_word_byte : ℕ → Bool
is_word_byte c = is_ascii_lowercase c || is_ascii_digit c

-- Words of lower-case letters and digits, with one dash between two.
pub data IsSlug : Text → Type 0 where
  last : {c : ℕ} → is_word_byte c ≡ true → IsSlug (c ∷ [])
  letter : {c : ℕ} {s : Text} → is_word_byte c ≡ true → IsSlug s → IsSlug (c ∷ s)
  dash : {c : ℕ} {s : Text} → is_word_byte c ≡ true → IsSlug s → IsSlug (c ∷ b'-' ∷ s)

slug-cases :
    (value : Text) (index c : ℕ)
    → is_slug_byte value index c ≡ true
    → (is_word_byte c ≡ true)
      ⊎ ((c ≡ b'-')
          × (ltb 0 index ≡ true)
          × (ltb (index + 1) (length value) ≡ true)
          × (get_elem? value (index - 1) ≢ some b'-'))
slug-cases value index c h = elim (Bool-cases (is_word_byte c)) [
  | inl word ↦ inl word
  | inr other ↦
      let (d, m, n, o) =
        parts (is_ascii_lowercase c) (is_ascii_digit c) (c == b'-') (ltb 0 index)
          (ltb (index + 1) (length value)) (is_dash (get_elem? value (index - 1))) other h in
      inr (dash_is c d, m, n, not_dash (get_elem? value (index - 1)) o)
]
  where
    parts :
        (a b c d e f : Bool)
        → (a || b) ≡ false
        → (a || b || (c && d && e && not f)) ≡ true
        → (c ≡ true) × (d ≡ true) × (e ≡ true) × (f ≡ false)
    parts a b c d e f h k = (ground arith, ground arith, ground arith, ground arith)

    dash_is : (c : ℕ) → (c == b'-') ≡ true → c ≡ b'-'
    dash_is c k = ground arith

    not_dash : (o : Option ℕ) → is_dash o ≡ false → o ≢ some b'-'
    not_dash none k = λ e. cc
    not_dash (some d) k = λ e. other_than d k (some_inj e)
      where
        some_inj : {a b : ℕ} → some a ≡ some b → a ≡ b
        some_inj e = cc

        other_than : (d : ℕ) → (d == b'-') ≡ false → d ≡ b'-' → ⊥
        other_than d k e = ground arith

get_elem-append :
    (front : Text) (c : ℕ) (s : Text) → get_elem? (front ++ c ∷ s) (length front) ≡ some c
get_elem-append [] c s = refl
get_elem-append (x ∷ front) c s = get_elem-append front c s

-- The character behind the front goes over to it.
shifted :
    (value front : Text) (c : ℕ) (s : Text)
    → value ≡ front ++ c ∷ s
    → value ≡ (front ++ c ∷ []) ++ s
shifted value front c s e = e ∙ sym (append_assoc front (c ∷ []) s)

longer : (front : Text) (c i : ℕ) → i ≡ length front + 1 → i + 1 ≡ length (front ++ c ∷ []) + 1
longer front c i f = omega (arith, length-append front (c ∷ []), f)

dash_before :
    (value front s : Text) (c d i : ℕ)
    → value ≡ front ++ c ∷ d ∷ s
    → i ≡ length front + 1
    → d ≡ b'-'
    → get_elem? value (i + 1 - 1) ≡ some b'-'
dash_before value front s c d i e f same =
    let place : i + 1 - 1 ≡ length (front ++ c ∷ []) =
      omega (arith, length-append front (c ∷ []), f) in
    rw (place, shifted value front c (d ∷ s) e, get_elem-append (front ++ c ∷ []) d s, same) refl

module _ (value : Text) where
  IsSlug-tail :
      (s front : Text) (c i : ℕ)
      → value ≡ front ++ c ∷ s
      → i ≡ length front + 1
      → is_word_byte c ≡ true
      → slug_from value i s ≡ true
      → IsSlug (c ∷ s)
  unfolding slug_from
  IsSlug-tail [] front c i e f w h = last w
  IsSlug-tail (d ∷ []) front c i e f w h = elim (slug-cases value i d (both_true _ _ h).0) [
    | inl word ↦ letter w (last word)
    | inr (_, _, inner, _) ↦ absurd (outside inner)
  ]
    where
      outside : ltb (i + 1) (length value) ≡ true → ⊥
      outside k =
          let size : length value ≡ length front + 2 =
            ap length e ∙ length-append front (c ∷ d ∷ []) in
          ground (arith, size, f, k)
  IsSlug-tail (d ∷ x ∷ s) front c i e f w h =
      let (here, later) = both_true _ _ h in
      elim (slug-cases value i d here) [
        | inl word ↦ letter w (
            IsSlug-tail (x ∷ s) (front ++ c ∷ []) d (i + 1) (shifted value front c (d ∷ x ∷ s) e)
              (longer front c i f) word later)
        | inr (same, _, _, _) ↦
            let (next, rest) = both_true _ _ later in
            elim (slug-cases value (i + 1) x next) [
              | inl word ↦ rw same (
                  dash w (
                    IsSlug-tail s ((front ++ c ∷ []) ++ d ∷ []) x (i + 1 + 1)
                      (shifted value (front ++ c ∷ []) d (x ∷ s)
                        (shifted value front c (d ∷ x ∷ s) e))
                      (longer (front ++ c ∷ []) d (i + 1) (longer front c i f)) word rest))
              | inr (_, _, _, apart) ↦
                  absurd (apart (dash_before value front (x ∷ s) c d i e f same))
            ]
      ]

to_ascii_lowercase-filled :
    (s : Text) → is_empty s ≡ false → is_empty (to_ascii_lowercase s) ≡ false
unfolding to_ascii_lowercase
to_ascii_lowercase-filled [] h = h
to_ascii_lowercase-filled (c ∷ s) h = refl

length-to_ascii_lowercase : (s : Text) → length (to_ascii_lowercase s) ≡ length s
unfolding to_ascii_lowercase
length-to_ascii_lowercase [] = refl
length-to_ascii_lowercase (c ∷ s) = ap suc (length-to_ascii_lowercase s)

IsSlug-whole : (s : Text) → is_empty s ≡ false → slug_from s 0 s ≡ true → IsSlug s
unfolding slug_from
IsSlug-whole [] h k = cc
IsSlug-whole (c ∷ s) h k =
    let (here, later) = both_true _ _ k in
    elim (slug-cases (c ∷ s) 0 c here) [
      | inl word ↦ IsSlug-tail (c ∷ s) s [] c 1 refl refl word later
      | inr (_, outside, _, _) ↦ cc
    ]

-- A slug that `theme_slug` accepts is the trimmed text in lower case, has at most 100 characters, and
-- consists of words of letters and digits with single dashes between them.
pub theme_slug-IsSlug :
    (v s : Text)
    → theme_slug v ≡ ok s
    → (s ≡ to_ascii_lowercase (trim v)) × (length s ≤ 100) × IsSlug s
unfolding theme_slug
theme_slug-IsSlug v s h =
    let (t, taken, h1) = >>=-eq-ok _ _ h in
    let r = required_text-IsRequired v "slug" 100 t taken in
    let (good, same) = accepted (to_ascii_lowercase t) _ refl h1 in
    rw (same, r.trimmed)
      (
        refl,
        size (length-to_ascii_lowercase (trim v)) r.short,
        IsSlug-whole _ (to_ascii_lowercase-filled (trim v) r.filled) (rw r.trimmed at good),
      )
  where
    accepted :
        (w : Text) (b : Bool)
        → slug_from w 0 w ≡ b
        → ◌≡◌ {A = Result ValidationError Text}
            (if b then ok w else err (unsupported "slug" w))
            (ok s)
        → (slug_from w 0 w ≡ true) × (s ≡ w)
    accepted w true e k = (e, cc)
    accepted w false e k = cc

    size : {m n : ℕ} → m ≡ n → ltb 100 n ≡ false → m ≤ 100
    size e k = ground arith
