-- ===== src/Domain.antt =====
-- src/domain.rs: the texts of the domain. `Unicode` stands for the tables of Rust's standard library
-- and for the limit that `contract.rs` reads from the contract file.
pub mod Provenance
pub mod Slug
pub mod Description
pub mod Choice
mod Tests
use Prim.Native.String.{String}
use centaur_context.Common.{
  ℕ, ◌+◌, ◌-◌, ◌==◌, ◌++◌, Bool, true, false, not, ◌&&◌, ◌||◌, List, [], ◌∷◌, Option, none, some,
  ltb, leb, length, get_elem?, any, all, if◌then◌else◌, Result, ok, err, ◌>>=◌, ◌>>◌, reject_if,
  ok_or, transpose_map,
}
use centaur_context.Errors.{
  ValidationError, required, too_long, unsupported, provenance_object, weak_description,
}
use centaur_context.Text.{
  Text, lit, trim, is_empty, is_whitespace, text_eq, contains, starts_with, has_substring,
  to_ascii_lowercase, is_ascii_lowercase, is_ascii_digit,
}
use centaur_context.Json.{
  Value, Fields, end, object, get, as_object, as_array, as_str, is_boolean, items, keys,
}

unfoldable pub required_text : Text → String → ℕ → Result ValidationError Text
required_text value name max =
    let value' = trim value in
    if is_empty value'
    then err (required name)
    else if ltb max (length value')
    then err (too_long name max)
    else ok value'

unfoldable pub required_preserved_text : Text → String → ℕ → Result ValidationError Text
required_preserved_text value name max =
    if is_empty (trim value)
    then err (required name)
    else if ltb max (length value)
    then err (too_long name max)
    else ok value

unfoldable pub optional_text : Option Text → String → ℕ → Result ValidationError (Option Text)
optional_text value name max = transpose_map (λ v. required_text v name max) value

-- `str::to_lowercase`, `char::to_lowercase`, `char::is_alphanumeric`.
pub record Unicode : Type 0 where
  pub to_lowercase : Text → Text
  pub char_lowercase : ℕ → Text
  pub is_alphanumeric : ℕ → Bool

abbrev pub is_dash : Option ℕ → Bool
is_dash none = false
is_dash (some d) = d == b'-'

abbrev pub is_slug_byte : Text → ℕ → ℕ → Bool
is_slug_byte value index c =
    is_ascii_lowercase c
    || is_ascii_digit c
    || (c == b'-'
        && ltb 0 index
        && ltb (index + 1) (length value)
        && not (is_dash (get_elem? value (index - 1))))

-- `value.bytes().enumerate().all(…)` from an index on. The bytes of a character that is not ASCII
-- fail the test, as the character does here.
unfoldable pub slug_from : Text → ℕ → Text → Bool
slug_from value index [] = true
slug_from value index (c ∷ s) = is_slug_byte value index c && slug_from value (index + 1) s

unfoldable pub theme_slug : Text → Result ValidationError Text
theme_slug value = do
  text ← required_text value "slug" 100
  let slug = to_ascii_lowercase text
  if slug_from slug 0 slug then ok slug else err (unsupported "slug" slug)

abbrev flush : Text × List Text → List Text
flush ([], words) = words
flush (c ∷ word, words) = (c ∷ word) ∷ words

abbrev add_char : ℕ → Text × List Text → Text × List Text
add_char c (word, words) = if is_whitespace c then ([], flush (word, words)) else (c ∷ word, words)

-- The word at the start of a text, which is empty before white space, and the later words.
unfoldable pub split_word : Text → Text × List Text
split_word [] = ([], [])
split_word (c ∷ s) = add_char c (split_word s)

-- `text.split_whitespace()`
unfoldable pub split_whitespace : Text → List Text
unfolding split_word
split_whitespace s = flush (split_word s)

-- `words.join(" ")`
unfoldable pub join_words : List Text → Text
join_words [] = []
join_words (w ∷ []) = w
join_words (w ∷ v ∷ ws) = w ++ lit " " ++ join_words (v ∷ ws)

module _ (u : Unicode) where
  unfoldable pub comparable_chars : Text → Text
  comparable_chars [] = []
  comparable_chars (c ∷ s) =
      let rest = comparable_chars s in
      if u.is_alphanumeric c then u.char_lowercase c ++ rest else lit " " ++ rest

  unfoldable pub comparable_text : Text → Text
  unfolding comparable_chars split_whitespace join_words
  comparable_text value = join_words (split_whitespace (comparable_chars value))

  unfoldable pub allowed : Text → String → List Text → Result ValidationError Text
  allowed value name values =
      let value' = u.to_lowercase (trim value) in
      if contains values value' then ok value' else err (unsupported name value')

  abbrev placeholders : List Text
  placeholders =
      lit "tbd"
      ∷ lit "todo"
      ∷ lit "placeholder"
      ∷ lit "description"
      ∷ lit "no description"
      ∷ lit "none"
      ∷ lit "n a"
      ∷ lit "na"
      ∷ lit "unknown"
      ∷ lit "lorem ipsum"
      ∷ lit "this is about the project"
      ∷ lit "this is about this project"
      ∷ []

  abbrev speakers : List Text
  speakers = lit "user:" ∷ lit "human:" ∷ lit "assistant:" ∷ lit "agent:" ∷ []

  abbrev process_openings : List Text
  process_openings =
      lit "as an ai"
      ∷ lit "i was asked to"
      ∷ lit "i have generated"
      ∷ lit "here is a description"
      ∷ []

  abbrev generation_markers : List Text
  generation_markers = lit "the model generated" ∷ lit "generated description" ∷ []

  abbrev check_size : Text → ℕ → Result ValidationError (Unit {0})
  check_size description max =
      if is_empty description
      then err (required "description")
      else reject_if (ltb max (length description)) (too_long "description" max)

  abbrev pub repeats_title : Text → Text → Bool
  repeats_title title description =
      not (is_empty (comparable_text title))
      && text_eq (comparable_text description) (comparable_text title)

  abbrev pub is_transcript : Text → Bool
  is_transcript lower = any (λ prefix. starts_with lower prefix) speakers

  abbrev pub is_commentary : Text → Bool
  is_commentary lower =
      any (λ prefix. starts_with lower prefix) process_openings
      || any (λ marker. has_substring lower marker) generation_markers

  -- `max` is `object_description_max_characters()`.
  module _ (max : ℕ) where
    unfoldable pub validate_object_description : Text → Text → Result ValidationError (Unit {0})
    validate_object_description title value = do
      let description = trim value
      check_size description max
      reject_if (repeats_title title description)
          (weak_description "add concrete context instead of repeating the title")
      reject_if (contains placeholders (comparable_text description))
          (weak_description "replace placeholder or vague text with a specific statement")
      let lower = u.to_lowercase (trim description)
      reject_if (is_transcript lower) (
          weak_description
            "summarize the represented Object instead of copying a transcript fragment")
      reject_if (is_commentary lower)
          (weak_description "describe the Object directly without process or model commentary")

    unfoldable pub object_description : Text → Text → Result ValidationError Text
    object_description title value = do
      value' ← required_text value "description" max
      validate_object_description title value'
      ok value'
