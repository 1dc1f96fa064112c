-- ===== src/Domain/Description.antt =====
-- src/domain.rs: what the accepted texts satisfy.
use Prim.Native.String.{String}
use centaur_context.Common.{
  ℕ, ◌≤◌, ◌≡◌, ◌≢◌, ◌⊎◌, inl, inr, refl, sym, ◌∙◌, Bool, true, false, not, ◌&&◌, arith, ltb, length,
  if◌then◌else◌, Result, ok, err, ◌>>=◌, ◌>>◌, >>=-eq-ok, >>-eq-ok, reject_if, reject_if-eq-ok, [],
  ◌∷◌,
}
use centaur_context.Errors.{ValidationError, required, too_long}
use centaur_context.Text.{Text, trim, is_empty, text_eq}
use centaur_context.Text.Laws.{text_eq_refl}
use centaur_context.Text.Trim.{trim_idem}
use centaur_context.Domain.{
  Unicode, required_text, comparable_text, is_transcript, is_commentary,
  validate_object_description, object_description,
}

-- What `required_text` accepts.
pub record IsRequired (v : Text) (max : ℕ) (w : Text) : Type 0 where
  pub trimmed : w ≡ trim v
  pub filled : is_empty (trim v) ≡ false
  pub short : ltb max (length (trim v)) ≡ false

pub required_text-IsRequired :
    (v : Text) (name : String) (max : ℕ) (w : Text)
    → required_text v name max ≡ ok w
    → IsRequired v max w
unfolding required_text
required_text-IsRequired v name max w h = accepted (is_empty (trim v)) _ refl refl h
  where
    accepted :
        (a b : Bool)
        → is_empty (trim v) ≡ a
        → ltb max (length (trim v)) ≡ b
        → ◌≡◌ {A = Result ValidationError Text}
            (if a then err (required name) else if b then err (too_long name max) else ok (trim v))
            (ok w)
        → IsRequired v max w
    accepted true b e f k = cc
    accepted false true e f k = cc
    accepted false false e f k = record { trimmed = cc; filled = e; short = f }

-- A required text that was accepted is accepted again, unchanged.
pub required_text_idem :
    (v : Text) (name : String) (max : ℕ) (w : Text)
    → required_text v name max ≡ ok w
    → required_text w name max ≡ ok w
unfolding required_text
required_text_idem v name max w h =
    let r = required_text-IsRequired v name max w h in
    rw (r.trimmed, trim_idem v, r.filled, r.short) refl

module _ (u : Unicode) (max : ℕ) (title : Text) where
  -- An accepted description is trimmed, filled and short; its letters and digits are not those of the
  -- title, unless the title has none; and it is neither a transcript nor a commentary.
  pub record IsDescription (d : Text) : Type 0 where
    pub trimmed : trim d ≡ d
    pub filled : d ≢ []
    pub short : length d ≤ max
    pub own_words : (comparable_text u title ≡ []) ⊎ (comparable_text u d ≢ comparable_text u title)
    pub no_transcript : is_transcript u (u.to_lowercase d) ≡ false
    pub no_commentary : is_commentary u (u.to_lowercase d) ≡ false

  own_words : (d t : Text) → (not (is_empty t) && text_eq d t) ≡ false → (t ≡ []) ⊎ (d ≢ t)
  own_words d [] h = inl refl
  own_words d (c ∷ t) h = inr (λ same. clash (text_eq d (c ∷ t)) (rw same (text_eq_refl (c ∷ t))) h)
    where
      clash : (b : Bool) → b ≡ true → b ≡ false → ⊥
      clash b e k = cc

  validated :
      (w : Text)
      → trim w ≡ w
      → is_empty w ≡ false
      → length w ≤ max
      → validate_object_description u max title w ≡ ok tt
      → IsDescription w
  unfolding validate_object_description
  validated w same full short h =
      let (_, h1) = >>-eq-ok _ _ h in
      let (apart, h2) = reject_if-eq-ok _ _ _ h1 in
      let (_, h3) = reject_if-eq-ok _ _ _ h2 in
      let (speech, h4) = reject_if-eq-ok _ _ _ h3 in
      record {
        trimmed = same;
        filled = λ e. absurd (nonempty w full e);
        short = short;
        own_words = own_words _ _ (rw same at apart);
        no_transcript = rw (same, same) at speech;
        no_commentary = last _ _ (rw (same, same) at h4);
      }
    where
      last : (b : Bool) (e : ValidationError) → reject_if b e ≡ ok tt → b ≡ false
      last true e k = cc
      last false e k = refl

      nonempty : (w : Text) → is_empty w ≡ false → w ≡ [] → ⊥
      nonempty [] k e = cc
      nonempty (c ∷ w) k e = cc

  -- A description that `object_description` accepts is the trimmed text; it is filled, at most `max`
  -- characters long, does not come to the comparable text of the title, which is its words in lower
  -- case without punctuation, unless that is empty, and is no transcript and no commentary by the
  -- tests of the code. It is accepted again, unchanged.
  pub object_description-IsDescription :
      (v w : Text)
      → object_description u max title v ≡ ok w
      → (w ≡ trim v) × IsDescription w × (object_description u max title w ≡ ok w)
  unfolding object_description
  object_description-IsDescription v w h =
      let (t, taken, h1) = >>=-eq-ok _ _ h in
      let (valid, h2) = >>-eq-ok _ _ h1 in
      let same : t ≡ w = cc in
      let r = required_text-IsRequired v "description" max t taken in
      let text : w ≡ trim v = sym same ∙ r.trimmed in
      let whole : trim w ≡ w = rw (text, trim_idem v) refl in
      (
        text,
        validated w whole (rw text r.filled) (bound _ (rw text r.short)) (rw (← same) valid),
        again w (rw (← same) (required_text_idem v "description" max t taken)) (rw (← same) valid),
      )
    where
      bound : (n : ℕ) → ltb max n ≡ false → n ≤ max
      bound n k = ground arith

      again :
          (w : Text)
          → required_text w "description" max ≡ ok w
          → validate_object_description u max title w ≡ ok tt
          → object_description u max title w ≡ ok w
      again w a b = unfold ◌>>=◌ ◌>>◌ in rw (a, b) refl
