-- ===== src/Domain/Tests.antt =====
-- A slug and a description, with ASCII for Unicode, and the theorems on them.
use centaur_context.Common.{◌≡◌, ◌≤◌, refl, true, [], ◌∷◌, length, some, ok, err, ◌>>=◌, ◌>>◌}
use centaur_context.Common.Integer.{pos}
use centaur_context.Errors.{weak_description, unsupported}
use centaur_context.Text.{
  lit, text_eq, trim, trim_start, is_whitespace, contains, starts_with, has_substring,
  to_ascii_lowercase, ascii_lower, is_ascii_alphanumeric,
}
use centaur_context.Json.{object, field, int, end, get}
use centaur_context.Domain.{
  Unicode, required_text, slug_from, theme_slug, split_word, split_whitespace, join_words,
  comparable_chars, comparable_text, allowed, validate_object_description, object_description,
}
use centaur_context.Domain.Provenance.{check_keys, provenance}
use centaur_context.Domain.Slug.{IsSlug, theme_slug-IsSlug}
use centaur_context.Domain.Description.{IsDescription, object_description-IsDescription}

domain_code : Unit {0}
unfolding required_text slug_from theme_slug split_word split_whitespace join_words comparable_chars
    comparable_text allowed validate_object_description object_description check_keys provenance
    ◌>>=◌ ◌>>◌ text_eq trim trim_start is_whitespace contains starts_with has_substring
    to_ascii_lowercase get
domain_code = tt

abbrev ascii : Unicode
ascii = record {
  to_lowercase = to_ascii_lowercase;
  char_lowercase = λ c. ascii_lower c ∷ [];
  is_alphanumeric = is_ascii_alphanumeric;
}

long_form : theme_slug (lit " Open-Data2 ") ≡ ok (lit "open-data2")
unfolding domain_code
long_form = refl

double_dash : theme_slug (lit "open--data") ≡ err (unsupported "slug" (lit "open--data"))
unfolding domain_code
double_dash = refl

theme_slug-IsSlug_example :
    (lit "open-data2" ≡ to_ascii_lowercase (trim (lit " Open-Data2 ")))
    × (length (lit "open-data2") ≤ 100)
    × IsSlug (lit "open-data2")
theme_slug-IsSlug_example = theme_slug-IsSlug (lit " Open-Data2 ") (lit "open-data2") long_form

described :
    object_description ascii 200 (lit "Fusion") (lit " How scores are fused. ")
    ≡ ok (lit "How scores are fused.")
unfolding domain_code
described = refl

repeated :
    object_description ascii 200 (lit "Score fusion") (lit "score: FUSION!")
    ≡ err (weak_description "add concrete context instead of repeating the title")
unfolding domain_code
repeated = refl

object_description-IsDescription_example :
    (lit "How scores are fused." ≡ trim (lit " How scores are fused. "))
    × IsDescription ascii 200 (lit "Fusion") (lit "How scores are fused.")
    × (object_description ascii 200 (lit "Fusion") (lit "How scores are fused.")
        ≡ ok (lit "How scores are fused."))
object_description-IsDescription_example =
    object_description-IsDescription ascii 200 (lit "Fusion") (lit " How scores are fused. ")
      (lit "How scores are fused.") described

foreign_key :
    provenance (λ s. true) (λ v. []) (some (object (field (lit "author") (int (pos 1)) end)))
    ≡ err (unsupported "provenance key" (lit "author"))
unfolding domain_code
foreign_key = refl
