-- ===== src/Text/Laws.antt =====
-- Laws of texts: equality, byte lengths, and what `trim` leaves.
use centaur_context.Common.{
  ℕ, zero, suc, ◌+◌, ◌*◌, ◌≤◌, ◌≡◌, refl, subst, ◌↔◌, inl, inr, Bool, ◌||◌, List, All, Bool-cases,
  true, false, [], ◌∷◌, ◌++◌, arith, length, take,
}
use centaur_context.Text.{Text, utf8_len, len, text_eq, contains}

pub text_eq_sound : (s t : Text) → text_eq s t ≡ true → s ≡ t
unfolding text_eq
text_eq_sound [] [] h = refl
text_eq_sound [] (b ∷ t) h = cc
text_eq_sound (a ∷ s) [] h = cc
text_eq_sound (a ∷ s) (b ∷ t) h = ground (arith, text_eq_sound s t)

pub text_eq_refl : (s : Text) → text_eq s s ≡ true
unfolding text_eq
text_eq_refl [] = refl
text_eq_refl (a ∷ s) = ground (arith, text_eq_refl s)

pub text_eq_iff : (s t : Text) → (text_eq s t ≡ true) ↔ (s ≡ t)
text_eq_iff s t = (text_eq_sound s t, λ e. subst_right s t e)
  where
    subst_right : (s t : Text) → s ≡ t → text_eq s t ≡ true
    subst_right s t e = ground (arith, text_eq_refl s)

-- A text that equals one literal equals no other.
pub text_eq_other : (s t u : Text) → text_eq s t ≡ true → text_eq t u ≡ false → text_eq s u ≡ false
text_eq_other s t u h k = ground (arith, text_eq_sound s t)

pub utf8_len-pos : (c : ℕ) → 1 ≤ utf8_len c
utf8_len-pos c = ground arith

pub utf8_len-le : (c : ℕ) → utf8_len c ≤ 4
utf8_len-le c = ground arith

pub len-append : (s t : Text) → len (s ++ t) ≡ len s + len t
unfolding len
len-append [] t = omega arith
len-append (c ∷ s) t = omega (arith, len-append s t)

pub length-le-len : (s : Text) → length s ≤ len s
unfolding len
length-le-len [] = omega arith
length-le-len (c ∷ s) = omega (arith, length-le-len s, utf8_len-pos c)

pub len-le-length : (s : Text) → len s ≤ 4 * length s
unfolding len
len-le-length [] = omega arith
len-le-length (c ∷ s) = omega (arith, len-le-length s, utf8_len-le c)

-- A longer window has at least as many bytes.
pub len-take_mono : (m n : ℕ) (s : Text) → m ≤ n → len (take m s) ≤ len (take n s)
unfolding len
len-take_mono zero n s h = omega arith
len-take_mono (suc m) zero s h = absurd (omega arith)
len-take_mono (suc m) (suc n) [] h = omega arith
len-take_mono (suc m) (suc n) (c ∷ s) h = omega (arith, len-take_mono m n s)

pub text_eq_comm : (s t : Text) → text_eq s t ≡ text_eq t s
unfolding text_eq
text_eq_comm [] [] = refl
text_eq_comm [] (b ∷ t) = refl
text_eq_comm (a ∷ s) [] = refl
text_eq_comm (a ∷ s) (b ∷ t) = ground (arith, text_eq_comm s t)

-- What holds of each of some texts holds of one that they contain.
pub contains-All :
    (P : Text → Type 0) (values : List Text) (w : Text)
    → All P values
    → contains values w ≡ true
    → P w
unfolding contains
contains-All P [] w h k = cc
contains-All P (v ∷ vs) w (first, others) k = elim (Bool-cases (text_eq v w)) [
  | inl same ↦ subst P (text_eq_sound v w same) first
  | inr other ↦ contains-All P vs w others (rest _ _ other k)
]
  where
    rest : (a b : Bool) → a ≡ false → (a || b) ≡ true → b ≡ true
    rest a b p q = ground arith
