-- ===== src/Domain/Provenance.antt =====
-- src/domain.rs: `provenance`, the check of an object that says where a text comes from.
use centaur_context.Common.{
  ◌==◌, Bool, not, ◌||◌, List, [], ◌∷◌, Option, none, some, ltb, leb, length, any, if◌then◌else◌,
  Result, ok, ◌>>=◌, ◌>>◌, reject_if, ok_or,
}
use centaur_context.Errors.{ValidationError, required, unsupported, provenance_object}
use centaur_context.Text.{Text, lit, trim, is_empty, contains}
use centaur_context.Json.{
  Value, end, object, get, as_object, as_array, as_str, is_boolean, items, keys,
}

abbrev provenance_keys : List Text
provenance_keys =
    lit "source_type"
    ∷ lit "source_ref"
    ∷ lit "note"
    ∷ lit "publication_allowed"
    ∷ lit "evidence_ids"
    ∷ []

unfoldable pub check_keys : List Text → Result ValidationError (Unit {0})
check_keys [] = ok tt
check_keys (k ∷ ks) =
    reject_if (not (contains provenance_keys k)) (unsupported "provenance key" k) >> check_keys ks

-- `iter().filter_map(Value::as_str)`
abbrev pub strings : List Value → List Text
strings [] = []
strings (v ∷ vs) = keep (as_str v) (strings vs)
  where
    keep : Option Text → List Text → List Text
    keep none rest = rest
    keep (some s) rest = s ∷ rest

-- The elements of a hash set of texts.
abbrev pub unique : List Text → List Text
unique [] = []
unique (s ∷ ss) = let rest = unique ss in if contains rest s then rest else s ∷ rest

module _ (is_uuid : Text → Bool) (to_string : Value → Text) where
  abbrev pub bad_evidence : List Value → Bool
  bad_evidence ids =
      leb (length ids) 0
      || ltb 50 (length ids)
      || not (length (unique (strings ids)) == length ids)
      || any (λ s. not (is_uuid s)) (unique (strings ids))

  abbrev check_evidence : Option Value → Result ValidationError (Unit {0})
  check_evidence none = ok tt
  check_evidence (some evidence) = do
    ids ← ok_or (as_array evidence) (required "provenance.evidence_ids")
    reject_if (bad_evidence (items ids))
        (required "provenance.evidence_ids must contain 1..50 unique UUIDs")

  abbrev check_source_type : Option Value → Result ValidationError (Unit {0})
  check_source_type none = ok tt
  check_source_type (some v) = do
    source_type ← ok_or (as_str v) (required "provenance.source_type")
    reject_if (is_empty (trim source_type)) (required "provenance.source_type")

  abbrev check_publication : Option Value → Result ValidationError (Unit {0})
  check_publication none = ok tt
  check_publication (some v) =
      reject_if (not (is_boolean v)) (unsupported "provenance.publication_allowed" (to_string v))

  abbrev or_empty : Option Value → Value
  or_empty none = object end
  or_empty (some v) = v

  unfoldable pub provenance : Option Value → Result ValidationError Value
  provenance given = do
    let value = or_empty given
    fields ← ok_or (as_object value) provenance_object
    check_keys (keys fields)
    check_evidence (get (lit "evidence_ids") fields)
    check_source_type (get (lit "source_type") fields)
    check_publication (get (lit "publication_allowed") fields)
    ok value
