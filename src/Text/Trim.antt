-- ===== src/Text/Trim.antt =====
-- Laws of `trim`.
use mathlib.Core.List.{reverse, reverse-append, reverse-reverse}
use centaur_context.Common.{
  ◌≤◌, ◌≡◌, refl, sym, ap, ◌∙◌, false, Bool-cases, inl, inr, [], ◌∷◌, ◌++◌, arith,
}
use centaur_context.Text.{Text, len, is_whitespace, trim_start, trim}
use centaur_context.Text.Laws.{len-append}

-- The first character is no white space.
abbrev pub StartsSolid : Text → Type 0
StartsSolid [] = Unit
StartsSolid (c ∷ s) = is_whitespace c ≡ false

trim_start-StartsSolid : (s : Text) → StartsSolid (trim_start s)
unfolding trim_start
trim_start-StartsSolid [] = tt
trim_start-StartsSolid (c ∷ s) = ground (arith, trim_start-StartsSolid s)

trim_start-of-StartsSolid : (s : Text) → StartsSolid s → trim_start s ≡ s
unfolding trim_start
trim_start-of-StartsSolid [] h = refl
trim_start-of-StartsSolid (c ∷ s) h = rw h

trim_start-suffix : (s : Text) → (w : Text) × (s ≡ w ++ trim_start s)
unfolding trim_start
trim_start-suffix [] = ([], refl)
trim_start-suffix (c ∷ s) = elim (Bool-cases (is_whitespace c)) [
  | inl space ↦ let (w, e) = trim_start-suffix s in (c ∷ w, rw space (ap (λ r. c ∷ r) e))
  | inr solid ↦ ([], rw solid)
]

StartsSolid-prefix : (a b : Text) → StartsSolid (a ++ b) → StartsSolid a
StartsSolid-prefix [] b h = tt
StartsSolid-prefix (c ∷ a) b h = h

-- What `trim` returns is the text without its ends: a prefix of the text from its first solid
-- character, whose own reverse is solid.
trim-StartsSolid : (s : Text) → StartsSolid (trim s)
unfolding trim
trim-StartsSolid s =
    let a = trim_start s in
    let (w, e) = trim_start-suffix (reverse a) in
    let cut : a ≡ reverse (trim_start (reverse a)) ++ reverse w =
      sym (reverse-reverse a) ∙ ap reverse e ∙ reverse-append w (trim_start (reverse a)) in
    StartsSolid-prefix (reverse (trim_start (reverse a))) (reverse w)
      (rw (← cut) (trim_start-StartsSolid s))

-- Trimming twice is trimming once.
pub trim_idem : (s : Text) → trim (trim s) ≡ trim s
unfolding trim
trim_idem s =
    let b = trim_start (reverse (trim_start s)) in
    rw (trim_start-of-StartsSolid (reverse b) (trim-StartsSolid s), reverse-reverse b)
      (ap reverse (trim_start-of-StartsSolid b (trim_start-StartsSolid (reverse (trim_start s)))))

len-reverse : (s : Text) → len (reverse s) ≡ len s
unfolding len
len-reverse [] = refl
len-reverse (c ∷ s) =
    ap len (reverse-append (c ∷ []) s)
    ∙ len-append (reverse s) (c ∷ [])
    ∙ omega (arith, len-reverse s)

len-trim_start : (s : Text) → len (trim_start s) ≤ len s
unfolding len
len-trim_start s =
    let (w, e) = trim_start-suffix s in omega (arith, ap len e, len-append w (trim_start s))

-- A trimmed text has no more bytes.
pub len-trim : (s : Text) → len (trim s) ≤ len s
unfolding trim
len-trim s = omega (
  arith,
  len-reverse (trim_start (reverse (trim_start s))),
  len-trim_start (reverse (trim_start s)),
  len-reverse (trim_start s),
  len-trim_start s,
)
