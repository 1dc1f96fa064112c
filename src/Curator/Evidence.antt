-- ===== src/Curator/Evidence.antt =====
-- src/curator.rs: the evidence of a plan. `capture` is `event_capture_enabled()`, which reads the
-- environment.
use centaur_context.Common.{
  ℕ, ◌==◌, ◌++◌, Bool, false, not, ◌&&◌, ◌||◌, List, [], ◌∷◌, map, Option, none, some, length, any,
  all, has, same_number, if◌then◌else◌, Result, ok, ◌>>◌, reject_if,
}
use centaur_context.Text.{
  Text, lit, trim, trim_start, text_eq, contains, starts_with, ends_with, has_substring,
  to_ascii_lowercase,
}
use centaur_context.Json.{text_lt}
use centaur_context.Domain.{Unicode}
use centaur_context.Curator.{refusal}
use centaur_context.Curator.Plans.{
  CuratorError, CreateObject, ObjectRef, existing, created, ReconciliationPlan,
}

pub record MessageEvidence : Type 0 where
  pub id : ℕ
  pub sender_kind : Text
  pub content : Text

abbrev with_char : ℕ → List Text → List Text
with_char c [] = (c ∷ []) ∷ []
with_char c (w ∷ ws) = (c ∷ w) ∷ ws

-- `split(|c| !c.is_alphanumeric())`
unfoldable pub split_words : Unicode → Text → List Text
split_words u [] = [] ∷ []
split_words u (c ∷ s) =
    let rest = split_words u s in if u.is_alphanumeric c then with_char c rest else [] ∷ rest

unfoldable pub is_request_framed_memory : Text → Bool
is_request_framed_memory description =
    any (has_substring (lit " " ++ to_ascii_lowercase description ++ lit " ")) (
      lit " asked "
      ∷ lit " requested "
      ∷ lit " request to "
      ∷ lit " instructed "
      ∷ lit " directed "
      ∷ [])

unfoldable pub is_object_creation_report : Unicode → Text → Bool
is_object_creation_report u description =
    let words = split_words u (u.to_lowercase description) in
    any (contains words) (lit "added" ∷ lit "created" ∷ lit "saved" ∷ lit "imported" ∷ [])
    && any (contains words)
        (lit "source" ∷ lit "sources" ∷ lit "note" ∷ lit "notes" ∷ lit "task" ∷ lit "tasks" ∷ [])
    && not (is_request_framed_memory description)

unfoldable pub is_memory_noise : Unicode → Text → Bool
is_memory_noise u content =
    let text = u.to_lowercase (trim content) in
    any (has_substring text) (
      lit "synthetic acceptance"
      ∷ lit "synthetic task-creation"
      ∷ lit "synthetic source acceptance"
      ∷ lit "one-time status check"
      ∷ lit "check the status once"
      ∷ lit "requested one-time check"
      ∷ lit "retry acceptance check"
      ∷ [])
    || contains (lit "thanks" ∷ lit "thank you" ∷ lit "ok" ∷ lit "okay" ∷ lit "done" ∷ []) text

unfoldable pub is_workflow_request : Text → Bool
is_workflow_request content =
    let trimmed = trim_start (to_ascii_lowercase content) in
    ends_with trimmed (lit "?")
    || any (starts_with trimmed) (
        lit "please "
        ∷ lit "can you "
        ∷ lit "could you "
        ∷ lit "would you "
        ∷ lit "research "
        ∷ lit "add "
        ∷ lit "create "
        ∷ lit "update "
        ∷ lit "ingest "
        ∷ lit "import "
        ∷ lit "capture "
        ∷ lit "find "
        ∷ lit "ensure "
        ∷ [])

-- `iter().filter_map(|id| messages.get(id)).collect()`
unfoldable pub evidence_of : (ℕ → Option MessageEvidence) → List ℕ → List MessageEvidence
evidence_of messages [] = []
evidence_of messages (id ∷ ids) =
    let rest = evidence_of messages ids in
    elim (messages id) [ none ↦ rest | some message ↦ message ∷ rest ]

abbrev pub is_human : MessageEvidence → Bool
is_human message = text_eq message.sender_kind (lit "human")

module _ (u : Unicode) (capture : Bool) where
  abbrev pub only_noise : List MessageEvidence → Bool
  only_noise evidence = all (λ message. is_memory_noise u message.content) evidence

  abbrev pub only_requests : List MessageEvidence → Bool
  only_requests evidence = all (λ message. is_workflow_request message.content) evidence

  -- The body of the loop of `validate_human_grounded_objects`.
  unfoldable pub validate_grounds :
      (ℕ → Option MessageEvidence) → CreateObject → Result CuratorError (Unit {0})
  validate_grounds messages item = do
    let evidence = evidence_of messages item.supporting_message_ids
    reject_if (length evidence == 0 || any (λ message. not (is_human message)) evidence)
        (refusal "curator-created Memories must be supported only by human-authored messages")
    reject_if (capture && is_object_creation_report u item.description)
        (refusal "committed Object creation is captured from its event ledger, not chat prose")
    reject_if (only_noise evidence)
        (refusal "operational or synthetic traffic is not durable memory")
    reject_if (only_requests evidence && not (is_request_framed_memory item.description)) (
        refusal
          "request-only evidence may record what was requested but cannot assert workflow success")

  unfoldable pub validate_human_grounded_objects :
      (ℕ → Option MessageEvidence) → List CreateObject → Result CuratorError (Unit {0})
  validate_human_grounded_objects messages [] = ok tt
  validate_human_grounded_objects messages (item ∷ items) =
      validate_grounds messages item >> validate_human_grounded_objects messages items

  -- `drop_disallowed_worker_creates` over the worker's messages.
  abbrev pub human_message_ids : List MessageEvidence → List ℕ
  human_message_ids [] = []
  human_message_ids (message ∷ messages) =
      let rest = human_message_ids messages in
      if is_human message && not (is_memory_noise u message.content)
      then message.id ∷ rest
      else rest

  abbrev pub is_disallowed : List ℕ → CreateObject → Bool
  is_disallowed human item =
      not (text_eq item.kind (lit "memory"))
      || (capture && is_object_creation_report u item.description)
      || length item.supporting_message_ids == 0
      || any (λ id. not (has same_number id human)) item.supporting_message_ids

-- `retain`
abbrev pub retain : {A : Type 0} → (A → Bool) → List A → List A
retain keep [] = []
retain keep (x ∷ xs) = let rest = retain keep xs in if keep x then x ∷ rest else rest

abbrev pub uses_client : List Text → ObjectRef → Bool
uses_client clients (created c) = has text_eq c clients
uses_client clients (existing id) = false

-- The ids of a set in their order.
unfoldable pub insert_sorted : Text → List Text → List Text
insert_sorted s [] = s ∷ []
insert_sorted s (t ∷ ts) =
    let later = t ∷ insert_sorted s ts in
    if text_eq s t then t ∷ ts else if text_lt s t then s ∷ t ∷ ts else later

abbrev pub sorted_ids : List Text → List Text
sorted_ids [] = []
sorted_ids (s ∷ ss) = insert_sorted s (sorted_ids ss)

abbrev pub disallowed_ids : (CreateObject → Bool) → List CreateObject → List Text
disallowed_ids bad items = map (λ item. item.client_id) (retain bad items)

abbrev pub without : List Text → ReconciliationPlan → ReconciliationPlan
without dropped plan = record plan {
  create_objects = retain (λ item. not (has text_eq item.client_id dropped)) plan.create_objects;
  create_connections =
      retain
        (λ connection.
          not (uses_client dropped connection.source)
          && not (uses_client dropped connection.target))
        plan.create_connections;
}

abbrev pub drop_ids : List Text → ReconciliationPlan → ReconciliationPlan × List Text
drop_ids [] plan = (plan, [])
drop_ids (id ∷ ids) plan = (without (id ∷ ids) plan, sorted_ids (id ∷ ids))

unfoldable pub drop_disallowed_worker_creates :
    Unicode → Bool → List MessageEvidence → ReconciliationPlan → ReconciliationPlan × List Text
drop_disallowed_worker_creates u capture messages plan =
    drop_ids
      (disallowed_ids (is_disallowed u capture (human_message_ids u capture messages))
        plan.create_objects)
      plan

abbrev pub supports : (ℕ → Bool) → List ℕ → Bool
supports is_allowed ids = not (length ids == 0) && all is_allowed ids

-- `validate_message_refs`: the first list that fails refuses the plan.
unfoldable pub validate_message_refs : ReconciliationPlan → List ℕ → Result CuratorError (Unit {0})
validate_message_refs plan allowed_ids =
    let cited = supports (λ id. has same_number id allowed_ids) in
    reject_if
      (not (
        all (λ i. cited i.supporting_message_ids) plan.create_objects
        && all (λ i. cited i.supporting_message_ids) plan.update_objects
        && all (λ i. cited i.supporting_message_ids) plan.create_connections
        && all (λ i. cited i.supporting_message_ids) plan.update_connections))
      (refusal "every change must cite one or more messages from the exact curator run window")
