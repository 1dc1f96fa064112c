-- ===== src/ExternalActions/Metadata/Privacy.antt =====
-- src/external_actions.rs: what `validate_metadata` keeps out, at any depth.
use centaur_context.Common.{
  both_false, ◌≡◌, refl, ◌≤◌, Bool, true, false, ◌||◌, any, arith, ltb, ◌==◌, ok, >>-eq-ok,
  reject_if, reject_if-eq-ok, ℕ,
}
use centaur_context.Errors.{IntakeError}
use centaur_context.Text.{Text, len}
use centaur_context.Json.{Value, string, array, object, Items, cons, Fields, field}
use centaur_context.ExternalActions.Metadata.{
  is_unsafe_key, is_unsafe_string, validate_metadata, validate_fields, validate_items,
  safe_metadata,
}

-- `v` stands somewhere in the other value.
mutual
  pub data Inside (v : Value) : Value → Type 0 where
    itself : Inside v v
    of_field : {fs : Fields} → InFields v fs → Inside v (object fs)
    of_item : {vs : Items} → InItems v vs → Inside v (array vs)

  pub data InFields (v : Value) : Fields → Type 0 where
    first_value : {k : Text} {w : Value} {fs : Fields} → Inside v w → InFields v (field k w fs)
    later_value : {k : Text} {w : Value} {fs : Fields} → InFields v fs → InFields v (field k w fs)

  pub data InItems (v : Value) : Items → Type 0 where
    first_item : {w : Value} {vs : Items} → Inside v w → InItems v (cons w vs)
    later_item : {w : Value} {vs : Items} → InItems v vs → InItems v (cons w vs)

pub data HasKey (k : Text) : Fields → Type 0 where
  first_key : {w : Value} {fs : Fields} → HasKey k (field k w fs)
  later_key : {j : Text} {w : Value} {fs : Fields} → HasKey k fs → HasKey k (field j w fs)

-- What was accepted has only accepted parts.
mutual
  unfolding validate_metadata

  Inside-accepted :
      (v w : Value) → Inside v w → validate_metadata w ≡ ok tt → validate_metadata v ≡ ok tt
  Inside-accepted v _ itself h = h
  Inside-accepted v _ (of_field {fs} i) h = InFields-accepted v fs i h
  Inside-accepted v _ (of_item {vs} i) h = InItems-accepted v vs i h

  InFields-accepted :
      (v : Value) (fs : Fields)
      → InFields v fs
      → validate_fields fs ≡ ok tt
      → validate_metadata v ≡ ok tt
  InFields-accepted v _ (first_value {k} {w} {fs} i) h =
      let (_, h1) = reject_if-eq-ok _ _ _ h in
      let (here, _) = >>-eq-ok _ _ h1 in Inside-accepted v w i here
  InFields-accepted v _ (later_value {k} {w} {fs} i) h =
      let (_, h1) = reject_if-eq-ok _ _ _ h in
      let (_, rest) = >>-eq-ok _ _ h1 in InFields-accepted v fs i rest

  InItems-accepted :
      (v : Value) (vs : Items)
      → InItems v vs
      → validate_items vs ≡ ok tt
      → validate_metadata v ≡ ok tt
  InItems-accepted v _ (first_item {w} {vs} i) h =
      let (here, _) = >>-eq-ok _ _ h in Inside-accepted v w i here
  InItems-accepted v _ (later_item {w} {vs} i) h =
      let (_, rest) = >>-eq-ok _ _ h in InItems-accepted v vs i rest

keys_accepted :
    (k : Text) (fs : Fields) → HasKey k fs → validate_fields fs ≡ ok tt → is_unsafe_key k ≡ false
unfolding validate_metadata
keys_accepted k _ first_key h = (reject_if-eq-ok _ _ _ h).0
keys_accepted k _ (later_key {fs = fs} i) h =
    let (_, h1) = reject_if-eq-ok _ _ _ h in
    let (_, rest) = >>-eq-ok _ _ h1 in keys_accepted k fs i rest

-- No object inside has a key that names private data, and no text inside is long or has an `@`.
pub record IsPrivate (v : Value) : Type 0 where
  pub keys :
      (fs : Fields) → Inside (object fs) v → (k : Text) → HasKey k fs → is_unsafe_key k ≡ false
  pub short_texts : (s : Text) → Inside (string s) v → len s ≤ 500
  pub no_addresses : (s : Text) → Inside (string s) v → any (λ c. c == b'@') s ≡ false

text_limits :
    (s : Text)
    → validate_metadata (string s) ≡ ok tt
    → (len s ≤ 500) × (any (λ c. c == b'@') s ≡ false)
unfolding validate_metadata is_unsafe_string
text_limits s e =
    let (short, plain_text) =
      both_false _ _ (accepted (ltb 500 (len s) || any (λ c. c == b'@') s) _ e) in
    (bound (len s) short, plain_text)
  where
    accepted : (b : Bool) (x : IntakeError) → reject_if b x ≡ ok tt → b ≡ false
    accepted true x k = cc
    accepted false x k = refl

    bound : (n : ℕ) → ltb 500 n ≡ false → n ≤ 500
    bound n k = ground arith

-- Metadata that `safe_metadata` accepts is at most 16 KiB, is the object of the request, and at every
-- depth its keys name no private data and its texts have at most 500 bytes and no `@`.
pub safe_metadata-IsPrivate :
    (encoded_len : Value → ℕ) (map : Fields) (v : Value)
    → safe_metadata encoded_len map ≡ ok v
    → (v ≡ object map) × (encoded_len v ≤ 16_384) × IsPrivate v
unfolding safe_metadata
safe_metadata-IsPrivate encoded_len map v h =
    let (small, h1) = reject_if-eq-ok _ _ _ h in
    let (valid, h2) = >>-eq-ok _ _ h1 in
    let same : object map ≡ v = cc in rw (← same) (refl, size _ small, private valid)
  where
    size : (n : ℕ) → ltb (16_384) n ≡ false → n ≤ 16_384
    size n e = ground arith

    private : validate_metadata (object map) ≡ ok tt → IsPrivate (object map)
    private valid = record {
      keys = λ fs i k j. keys_accepted k fs j (Inside-accepted (object fs) (object map) i valid);
      short_texts = λ s i. (text_limits s (Inside-accepted (string s) (object map) i valid)).0;
      no_addresses = λ s i. (text_limits s (Inside-accepted (string s) (object map) i valid)).1;
    }
