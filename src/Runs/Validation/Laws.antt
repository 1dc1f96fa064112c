-- ===== src/Runs/Validation/Laws.antt =====
-- src/runs.rs: what the validated requests satisfy.
use Prim.Native.String.{String}
use centaur_context.Common.{
  ℕ, ◌≡◌, ◌≢◌, refl, sym, Bool, true, false, not, ◌&&◌, ◌||◌, ◌⊎◌, inl, inr, Bool-cases, Option,
  none, some, arith, ltb, is_some, is_none, Result, ok, err, ◌>>=◌, reject_if-eq-ok, >>=-eq-ok,
  transpose_map,
}
use centaur_context.Text.{Text, lit, len, trim, is_empty, text_eq, contains}
use centaur_context.Text.Laws.{text_eq_sound, text_eq_refl}
use centaur_context.Text.Trim.{trim_idem}
use centaur_context.Json.{Value, is_object}
use centaur_context.Runs.Validation.{
  WorkflowRunFinish, Rejection, bounded_text, optional_bounded, outcomes, validate_finish,
}

-- What `bounded_text` accepts.
bounded_text-eq-ok :
    (v : Text) (field : String) (max : ℕ) (w : Text)
    → bounded_text v field max ≡ ok w
    → (w ≡ trim v) × ((is_empty (trim v) || ltb max (len (trim v))) ≡ false)
unfolding bounded_text
bounded_text-eq-ok v field max w h =
    elim (Bool-cases (is_empty (trim v) || ltb max (len (trim v)))) [
      | inl bad ↦ refused (rw bad at h)
      | inr good ↦ (accepted (rw good at h), good)
    ]
  where
    refused :
        ◌≡◌ {A = Result Rejection Text} (err (Rejection.bad_length field max)) (ok w)
        → (w ≡ trim v) × ((is_empty (trim v) || ltb max (len (trim v))) ≡ false)
    refused e = cc

    accepted : ◌≡◌ {A = Result Rejection Text} (ok (trim v)) (ok w) → w ≡ trim v
    accepted e = cc

-- A text that was accepted is accepted again, unchanged.
pub bounded_text_idem :
    (v : Text) (field : String) (max : ℕ) (w : Text)
    → bounded_text v field max ≡ ok w
    → bounded_text w field max ≡ ok w
unfolding bounded_text
bounded_text_idem v field max w h =
    let (same, good) = bounded_text-eq-ok v field max w h in rw (same, trim_idem v, good)

optional_bounded_idem :
    (v : Option Text) (field : String) (max : ℕ) (w : Option Text)
    → optional_bounded v field max ≡ ok w
    → optional_bounded w field max ≡ ok w
unfolding optional_bounded transpose_map
optional_bounded_idem none field max w h = let same : none ≡ w = cc in rw (← same)
optional_bounded_idem (some v) field max w h =
    let (t, bounded, wrapped) = >>=-eq-ok (bounded_text v field max) _ h in
    let same : some t ≡ w = cc in rw (← same) (again t (bounded_text_idem v field max t bounded))
  where
    again :
        (t : Text)
        → bounded_text t field max ≡ ok t
        → transpose_map (λ v. bounded_text v field max) (some t) ≡ ok (some t)
    again t e = unfold ◌>>=◌ in rw e

-- A validated finish names one of two outcomes; it has an error exactly if that is `failed`, and its
-- result is an object.
pub record IsConsistent (f : WorkflowRunFinish) : Type 0 where
  pub outcome :
      ((f.status ≡ lit "completed") × (f.error ≡ none))
      ⊎ ((f.status ≡ lit "failed") × (f.error ≢ none))
  pub object_result : is_object f.result ≡ true
  pub not_running : text_eq f.status (lit "running") ≡ false

outcome_cases :
    (s : Text) → not (contains outcomes s) ≡ false → (s ≡ lit "completed") ⊎ (s ≡ lit "failed")
unfolding contains
outcome_cases s h = elim (Bool-cases (text_eq (lit "completed") s)) [
  | inl completed ↦ inl (sym (text_eq_sound (lit "completed") s completed))
  | inr other ↦ inr (sym (text_eq_sound (lit "failed") s (last other)))
]
  where
    second : (a b : Bool) → a ≡ false → not (a || (b || false)) ≡ false → b ≡ true
    second a b e k = ground arith

    last : text_eq (lit "completed") s ≡ false → text_eq (lit "failed") s ≡ true
    last other = second _ _ other h

is_some-of : {A : Type 0} (o : Option A) → is_some o ≡ false → o ≡ none
is_some-of none h = refl
is_some-of (some x) h = cc

is_none-of : {A : Type 0} (o : Option A) → is_none o ≡ false → o ≢ none
is_none-of none h = cc
is_none-of (some x) h = λ e. cc

error_cases :
    (s : Text) (e : Option Text)
    → (s ≡ lit "completed") ⊎ (s ≡ lit "failed")
    → (text_eq s (lit "failed") && is_none e) ≡ false
    → (text_eq s (lit "completed") && is_some e) ≡ false
    → ((s ≡ lit "completed") × (e ≡ none)) ⊎ ((s ≡ lit "failed") × (e ≢ none))
error_cases s e (inl same) h k =
    let named : text_eq s (lit "completed") ≡ true = rw same (text_eq_refl (lit "completed")) in
    inl (same, is_some-of e (rest _ _ named k))
  where
    rest : (a b : Bool) → a ≡ true → (a && b) ≡ false → b ≡ false
    rest a b n k = ground arith
error_cases s e (inr same) h k =
    let named : text_eq s (lit "failed") ≡ true = rw same (text_eq_refl (lit "failed")) in
    inr (same, is_none-of e (rest _ _ named h))
  where
    rest : (a b : Bool) → a ≡ true → (a && b) ≡ false → b ≡ false
    rest a b n k = ground arith

module _ (encoded_len : Value → ℕ) where
  -- A finish that `validate_finish` accepts has one of the two outcomes, an error exactly if it
  -- failed, and an object for its result; its result and its ids are those of the request.
  pub validate_finish-IsConsistent :
      (f g : WorkflowRunFinish)
      → validate_finish encoded_len f ≡ ok g
      → IsConsistent g × (g.result ≡ f.result) × (g.child_run_id ≡ f.child_run_id)
  unfolding validate_finish text_eq
  validate_finish-IsConsistent f g h =
      let (status, _, h1) = >>=-eq-ok _ _ h in
      let (named, h2) = reject_if-eq-ok _ _ _ h1 in
      let (shaped, h3) = reject_if-eq-ok _ _ _ h2 in
      let (error, _, h4) = >>=-eq-ok _ _ h3 in
      let (required, h5) = reject_if-eq-ok _ _ _ h4 in
      let (barred, h6) = reject_if-eq-ok _ _ _ h5 in
      let same : record f { status = status; error = error } ≡ g = cc in
      let outcome = error_cases status error (outcome_cases status named) required barred in
      rw (← same) (
        record {
          outcome = outcome;
          object_result = object_of _ _ shaped;
          not_running = ended status outcome;
        },
        refl,
        refl,
      )
    where
      object_of : (a b : Bool) → (not a || b) ≡ false → a ≡ true
      object_of a b k = ground arith

      ended :
          (s : Text) {P Q : Type 0}
          → ((s ≡ lit "completed") × P) ⊎ ((s ≡ lit "failed") × Q)
          → text_eq s (lit "running") ≡ false
      ended s (inl (same, _)) = rw same refl
      ended s (inr (same, _)) = rw same refl
