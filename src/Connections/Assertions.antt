-- ===== src/Connections/Assertions.antt =====
-- src/db/connections.rs: the merge of an assertion into a provenance.
use centaur_context.Common.{
  Bool, true, false, not, ◌&&◌, List, [], ◌∷◌, ◌++◌, Option, none, some, any, if◌then◌else◌,
}
use centaur_context.Text.{Text, lit}
use centaur_context.Json.{
  Value, Fields, end, field, string, array, object, get, insert, remove, items, to_items, as_array,
  as_object, map_is_empty, value_eq,
}

abbrev pub assertions_of : Option Value → List Value
assertions_of none = []
assertions_of (some v) = elim (as_array v) [ none ↦ [] | some vs ↦ items vs ]

abbrev pub fields_of : Value → Fields
fields_of v = elim (as_object v) [ none ↦ end | some fs ↦ fs ]

abbrev pub assertion : Text → Value → Value
assertion description provenance =
    object
      (field (lit "description") (string description) (field (lit "provenance") provenance end))

abbrev pub is_empty_list : List Value → Bool
is_empty_list [] = true
is_empty_list (_ ∷ _) = false

-- The assertions so far: the connection's own is the first.
abbrev pub begun : Fields → Text → List Value → List Value
begun root description assertions =
    if is_empty_list assertions && not (map_is_empty root)
    then assertion description (object root) ∷ []
    else assertions

abbrev pub add_assertion : Value → List Value → List Value
add_assertion v assertions =
    if any (λ w. value_eq w v) assertions then assertions else assertions ++ (v ∷ [])

unfoldable pub merge_connection_assertion : Value → Text → Value → Text → Value
merge_connection_assertion existing existing_description incoming incoming_description =
    let root = remove (lit "assertions") (fields_of existing) in
    let assertions = assertions_of (get (lit "assertions") (fields_of existing)) in
    object (
      insert (lit "assertions")
        (array (
          to_items (
            add_assertion (assertion incoming_description incoming)
              (begun root existing_description assertions))))
        root)
