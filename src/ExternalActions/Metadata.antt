-- ===== src/ExternalActions/Metadata.antt =====
-- src/external_actions.rs: what a client may store about an action. `encoded_len` stands for
-- `serde_json::to_vec(value)?.len()`.
pub mod Privacy
use centaur_context.Common.{
  ℕ, ◌*◌, Bool, true, false, not, ◌&&◌, ◌||◌, List, [], ◌∷◌, ltb, any, if◌then◌else◌, ◌==◌, Result,
  ok, err, ◌>>=◌, ◌>>◌, reject_if,
}
use centaur_context.Errors.{Message, plain, about, IntakeError, bad_request}
use centaur_context.Text.{
  Text, lit, len, text_eq, contains, has_substring, ends_with, to_ascii_lowercase,
}
use centaur_context.Json.{
  Value, null, bool, int, float, string, array, object, Items, nil, cons, Fields, end, field,
}

abbrev blocked_words : List Text
blocked_words =
    lit "recipient"
    ∷ lit "email"
    ∷ lit "address"
    ∷ lit "body"
    ∷ lit "html"
    ∷ lit "text"
    ∷ lit "token"
    ∷ lit "secret"
    ∷ lit "credential"
    ∷ []

-- A key that names a hash or a count, in lower case.
abbrev hash_only : Text → Bool
hash_only key =
    ends_with key (lit "_sha256")
    || contains
        (lit "recipient_count" ∷ lit "recipient_set_hash" ∷ lit "recipient_fingerprint" ∷ []) key

unfoldable pub is_unsafe_key : Text → Bool
unfolding contains has_substring ends_with to_ascii_lowercase
is_unsafe_key key =
    let key_lower = to_ascii_lowercase key in
    not (hash_only key_lower) && any (λ blocked. has_substring key_lower blocked) blocked_words

unfoldable pub is_unsafe_string : Text → Bool
unfolding len
is_unsafe_string s = ltb 500 (len s) || any (λ c. c == b'@') s

unfoldable mutual
  pub validate_metadata : Value → Result IntakeError (Unit {0})
  validate_metadata (object map) = validate_fields map
  validate_metadata (array values) = validate_items values
  validate_metadata (string value) =
      reject_if (is_unsafe_string value) (bad_request (plain "metadata string is not privacy-safe"))
  validate_metadata _ = ok tt

  pub validate_fields : Fields → Result IntakeError (Unit {0})
  validate_fields end = ok tt
  validate_fields (field key value map) =
      reject_if (is_unsafe_key key) (bad_request (about "metadata key" "is not privacy-safe"))
      >> (validate_metadata value >> validate_fields map)

  pub validate_items : Items → Result IntakeError (Unit {0})
  validate_items nil = ok tt
  validate_items (cons value values) = validate_metadata value >> validate_items values

unfoldable pub safe_metadata : (Value → ℕ) → Fields → Result IntakeError Value
unfolding validate_metadata
safe_metadata encoded_len map = do
  reject_if (ltb (16 * 1024) (encoded_len (object map)))
      (bad_request (plain "metadata is too large"))
  validate_metadata (object map)
  ok (object map)
