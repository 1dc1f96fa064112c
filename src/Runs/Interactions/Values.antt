-- ===== src/Runs/Interactions/Values.antt =====
-- src/runs.rs: JSON columns of a run, and the request that opens a Slack interaction.
use centaur_context.Common.{
  ℕ, ◌==◌, ◌++◌, Bool, false, not, ◌&&◌, ◌||◌, List, [], ◌∷◌, Option, none, some, ltb, any,
  if◌then◌else◌,
}
use centaur_context.Text.{Text, lit, text_eq}
use centaur_context.Json.{Value, array, object, as_str, is_null, Items, to_items}
use centaur_context.Runs.{Run, Table}

abbrev text_in : List Text → Option Text → Bool
text_in ts none = false
text_in ts (some s) = any (λ t. text_eq s t) ts

-- Whether the columns of a run, as JSON, are those of one that has ended.
unfoldable pub is_terminal : Value → Value → Value → Bool
is_terminal kind status completed_at =
    let ended = not (is_null completed_at) in
    text_in
      (lit "completed" ∷ lit "failed" ∷ lit "reversed" ∷ lit "delivered" ∷ lit "suppressed" ∷ [])
      (as_str status)
    || (text_in (lit "slack_interaction" ∷ []) (as_str kind)
        && text_in (lit "cancelled" ∷ []) (as_str status)
        && ended)
    || (text_in (lit "memory_dream" ∷ lit "memory_synthesis" ∷ []) (as_str kind)
        && text_in (lit "preview" ∷ []) (as_str status)
        && ended)

-- `$2 = ANY(ids)`
abbrev pub has_object : ℕ → List ℕ → Bool
has_object id ids = any (λ j. id == j) ids

abbrev pub consult : ℕ → Run → Run
consult object_id r =
    if has_object object_id r.consulted_object_ids
    then r
    else record r { consulted_object_ids = r.consulted_object_ids ++ object_id ∷ [] }

abbrev pub affected_key : Text
affected_key = lit "affected_object_ids"

-- `COALESCE(value, '[]') || element`, where a value that is no array becomes one.
abbrev pub with_element : Value → Option Value → Value
with_element v none = array (to_items (v ∷ []))
with_element v (some (array vs)) = array (append_item vs)
  where
    append_item : Items → Items
    append_item Items.nil = Items.cons v Items.nil
    append_item (Items.cons w ws) = Items.cons w (append_item ws)
with_element v (some (object fs)) = array (to_items (object fs ∷ v ∷ []))
with_element v (some w) = array (to_items (w ∷ v ∷ []))

abbrev pub is_slack : Run → Bool
is_slack r = text_eq r.kind (lit "slack_interaction")

pub record SlackInteractionOpen : Type 0 where
  pub workspace_id : Text
  pub channel_id : Text
  pub thread_id : Text
  pub interaction_id : Text
  pub started_at : ℕ
  pub title : Text
  pub request_message : Option Value

-- The row with the last `created_at`.
abbrev pub later_of : Run → Option Run → Run
later_of r none = r
later_of r (some s) = if ltb r.created_at s.created_at then s else r

abbrev pub latest : (Run → Bool) → Table → Option Run
latest p [] = none
latest p (r ∷ runs) = let rest = latest p runs in if p r then some (later_of r rest) else rest
