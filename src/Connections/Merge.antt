-- ===== src/Connections/Merge.antt =====
-- src/db/connections.rs: an assertion that is merged twice.
use centaur_context.Common.{
  both_false, ◌≡◌, refl, ap, Bool, true, false, List, [], ◌∷◌, any, any-append, has, Distinct,
  Bool-cases, inl, inr, none, some,
}
use centaur_context.Text.{Text, lit, text_eq}
use centaur_context.Text.Laws.{text_eq_sound, text_eq_refl, text_eq_comm}
use centaur_context.Json.{
  Value, Fields, end, field, array, object, get, insert, remove, keys, items, to_items, text_lt,
  value_eq,
}
use centaur_context.Json.Laws.{get-insert, value_eq_refl}
use centaur_context.Connections.Assertions.{
  fields_of, assertion, begun, add_assertion, is_empty_list, merge_connection_assertion,
}

-- A map has no key twice.
abbrev pub IsMap : Fields → Type 0
IsMap fs = Distinct text_eq (keys fs)

get-absent : (key : Text) (fs : Fields) → has text_eq key (keys fs) ≡ false → get key fs ≡ none
unfolding get
get-absent key end h = refl
get-absent key (field k v fs) h =
    let (here, past) = both_false (text_eq key k) (has text_eq key (keys fs)) h in
    rw (text_eq_comm k key, here) (get-absent key fs past)

get-remove : (key : Text) (fs : Fields) → IsMap fs → get key (remove key fs) ≡ none
unfolding get remove
get-remove key end h = refl
get-remove key (field k v fs) (alone, rest) = elim (Bool-cases (text_eq k key)) [
  | inl same ↦ rw (same) (get-absent key fs (rw (text_eq_sound k key same) at alone))
  | inr other ↦ rw (other, other) (get-remove key fs rest)
]

remove-insert :
    (key : Text) (v : Value) (fs : Fields) → get key fs ≡ none → remove key (insert key v fs) ≡ fs
unfolding get remove insert
remove-insert key v end h = rw (text_eq_refl key) refl
remove-insert key v (field k w fs) h = elim (Bool-cases (text_eq k key)) [
  | inl same ↦ let found = rw (same) at h in cc
  | inr other ↦ elim (Bool-cases (text_lt key k)) [
    | inl before ↦ rw (other, before, text_eq_refl key) refl
    | inr after ↦ rw (other, after, other, remove-insert key v fs (rw (other) at h)) refl
  ]
]

items-to_items : (vs : List Value) → items (to_items vs) ≡ vs
items-to_items [] = refl
items-to_items (v ∷ vs) = ap (λ ws. v ∷ ws) (items-to_items vs)

abbrev holds : Value → List Value → Bool
holds v vs = any (λ w. value_eq w v) vs

holds-add : (v : Value) (vs : List Value) → holds v (add_assertion v vs) ≡ true
holds-add v vs = elim (Bool-cases (holds v vs)) [
  | inl there ↦ rw (there) there
  | inr new ↦ rw (new, any-append (λ w. value_eq w v) vs (v ∷ []), new, value_eq_refl v) refl
]

holds-filled : (v : Value) (vs : List Value) → holds v vs ≡ true → is_empty_list vs ≡ false
holds-filled v [] h = cc
holds-filled v (w ∷ ws) h = refl

begun_again :
    (root : Fields) (d : Text) (vs : List Value) → is_empty_list vs ≡ false → begun root d vs ≡ vs
begun_again root d vs h = rw (h) refl

add_again : (v : Value) (vs : List Value) → holds v vs ≡ true → add_assertion v vs ≡ vs
add_again v vs h = rw (h) refl

get_inserted : (k : Text) (v : Value) (fs : Fields) → get k (insert k v fs) ≡ some v
get_inserted k v fs = rw (get-insert k k v fs, text_eq_refl k) refl

stable :
    (root : Fields) (vs : List Value) (description incoming_description : Text) (incoming : Value)
    → get (lit "assertions") root ≡ none
    → holds (assertion incoming_description incoming) vs ≡ true
    → merge_connection_assertion
        (object (insert (lit "assertions") (array (to_items vs)) root))
        description
        incoming
        incoming_description
      ≡ object (insert (lit "assertions") (array (to_items vs)) root)
unfolding merge_connection_assertion
stable root vs description incoming_description incoming absent there =
    rw
      (
        remove-insert (lit "assertions") (array (to_items vs)) root absent,
        get_inserted (lit "assertions") (array (to_items vs)) root,
        items-to_items vs,
        begun_again root description vs (holds-filled _ vs there),
        add_again _ vs there,
      )
      refl

-- An assertion that was merged into the provenance of a connection changes nothing when it is merged
-- again, whatever the description of the connection is then.
pub merge_connection_assertion_idem :
    (existing incoming merged : Value) (description description' incoming_description : Text)
    → IsMap (fields_of existing)
    → merge_connection_assertion existing description incoming incoming_description ≡ merged
    → merge_connection_assertion merged description' incoming incoming_description ≡ merged
unfolding merge_connection_assertion
merge_connection_assertion_idem existing incoming merged description description'
      incoming_description map h =
    rw (← h) (
      stable _ _ description' incoming_description incoming
        (get-remove (lit "assertions") (fields_of existing) map)
        (holds-add (assertion incoming_description incoming) _))
