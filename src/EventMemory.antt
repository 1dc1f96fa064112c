-- ===== src/EventMemory.antt =====
-- src/event_memory.rs: the checks of the plans that a model proposes. An id is a number, a set of ids
-- a list, and the map of the write candidates a function.
pub mod Proposals
pub mod Synthesis
pub mod Candidates
pub mod Memories
pub mod Events
mod Tests
use Prim.Native.String.{String}
use centaur_context.Common.{
  ℕ, ◌==◌, Bool, true, false, not, ◌&&◌, ◌||◌, List, [], ◌∷◌, map, Option, none, some, ltb, length,
  any, all, is_none, has, unique, same_number, if◌then◌else◌, Result, ok, err, ◌>>=◌, ◌>>◌,
  reject_if, ok_or, map_err,
}
use centaur_context.Common.Integer.{ℤ, pos, ltb_ℤ, eq_ℤ, checked, i64_bound}
use centaur_context.Errors.{Message, plain, DbError, conflict, validation}
use centaur_context.Text.{Text, lit, text_eq, contains}
use centaur_context.Json.{Value, Fields, null, bool, int, keys, as_str, as_object, is_null, get}
use centaur_context.Domain.{Unicode, required_text, object_description}
use centaur_context.EventTime.{EventTime, Calendar, validate_time}
use centaur_context.EventMemory.Proposals.{
  EventLink, EventProposal, MemoryAction, MemoryProposal, create, timing,
}

abbrev pub invalid : String → DbError
invalid message = DbError.invalid (plain message)

-- `object[key]`
abbrev pub at : Value → Text → Value
at v key = elim (as_object v) [
  | none ↦ null
  | some fields ↦ elim (get key fields) [ none ↦ null | some w ↦ w ]
]

abbrev pub is_text : Value → Text → Bool
is_text v s = elim (as_str v) [ none ↦ false | some t ↦ text_eq t s ]

abbrev pub is_true : Value → Bool
is_true (bool b) = b
is_true _ = false

-- `object["revision"].as_i64() == Some(revision)`
abbrev pub is_revision : Value → ℤ → Bool
is_revision (int n) revision = elim (checked i64_bound n) [
  | none ↦ false
  | some m ↦ eq_ℤ m revision
]
is_revision _ revision = false

unfoldable pub refs : List ℕ → List ℕ → ℕ → Result DbError (Unit {0})
refs ids available max =
    let distinct = unique same_number ids in
    reject_if
      (length ids == 0
        || ltb max (length ids)
        || not (length distinct == length ids)
        || not (all (λ id. has same_number id available) distinct))
      (invalid "proposal requires unique, supplied supporting evidence IDs")

abbrev pub check_candidate : Option Value → ℤ → Text → Result DbError (Unit {0})
check_candidate none revision kind = err (invalid "unknown write candidate")
check_candidate (some candidate) revision kind = do
  reject_if
      (not (is_text (at candidate (lit "kind")) kind)
        || not (is_revision (at candidate (lit "revision")) revision))
      conflict
  reject_if
      (is_true (at candidate (lit "protected")) || not (is_null (at candidate (lit "archived_at"))))
      (invalid "protected or archived candidate cannot be changed")

abbrev no_revision : Result DbError (Unit {0})
no_revision = err (invalid "updates require an Object ID and its positive expected revision")

unfoldable pub revision :
    Option ℕ → Option ℤ → (ℕ → Option Value) → Text → Result DbError (Unit {0})
unfolding ◌>>◌
revision none none candidates kind = ok tt
revision (some id) (some n) candidates kind =
    if ltb_ℤ (pos 0) n then check_candidate (candidates id) n kind else no_revision
revision _ _ candidates kind = no_revision

-- Existing automatic Memories may evolve.
unfoldable pub editable_memory : Value → Bool
editable_memory candidate =
    is_text (at candidate (lit "kind")) (lit "memory")
    && not (is_true (at candidate (lit "protected")))
    && not (is_true (at candidate (lit "explicitly_corrected")))
    && is_null (at candidate (lit "archived_at"))
    && not (is_true (at (at candidate (lit "provenance")) (lit "memory_locked")))
    && is_text (at candidate (lit "created_by_type")) (lit "system")
    && is_text (at candidate (lit "updated_by_type")) (lit "system")
    && any (is_text (at candidate (lit "created_by_id")))
        (lit "context-curator" ∷ lit "context-memory-capture" ∷ lit "context-memory-synthesis" ∷ [])
    && any (is_text (at candidate (lit "updated_by_id"))) (
        lit "context-curator"
        ∷ lit "context-memory-capture"
        ∷ lit "context-memory-dream"
        ∷ lit "context-memory-synthesis"
        ∷ [])

abbrev pub is_create : MemoryAction → Bool
is_create create = true
is_create _ = false

abbrev pub differ : Bool → Bool → Bool
differ true b = not b
differ false b = b

-- `candidates[&id]`, which an accepted revision has found.
abbrev pub found : (ℕ → Option Value) → ℕ → Value
found candidates id = elim (candidates id) [ none ↦ null | some candidate ↦ candidate ]

-- `updates.insert(id)`: an id may be changed once.
abbrev pub once : Option ℕ → List ℕ → String → Result DbError (List ℕ)
once none updates message = ok updates
once (some id) updates message =
    if has same_number id updates then err (invalid message) else ok (id ∷ updates)

abbrev pub target_is : (Value → Bool) → (ℕ → Option Value) → Option ℕ → Bool
target_is test candidates none = false
target_is test candidates (some id) = test (found candidates id)

abbrev pub is_corrected : Value → Bool
is_corrected candidate = is_true (at candidate (lit "explicitly_corrected"))

abbrev pub is_fixed : Value → Bool
is_fixed candidate = not (editable_memory candidate)

abbrev pub is_same : Option ℕ → ℕ → Bool
is_same none id = false
is_same (some own) id = own == id

abbrev pub relations : List Text
relations = lit "involves" ∷ lit "about" ∷ lit "themed" ∷ lit "related_to" ∷ lit "derived_from" ∷ []

module _ (u : Unicode) (max : ℕ) where
  unfoldable pub text : Text → Text → Result DbError (Unit {0})
  text title description = do
    title' ← map_err validation (required_text title "title" 300)
    description' ← map_err validation (object_description u max title description)
    ok tt

  unfoldable pub validate_memory :
      List ℕ → List ℕ → (ℕ → Option Value) → List ℕ → MemoryProposal → Result DbError (List ℕ)
  validate_memory events changed candidates updates m = do
    text m.title m.description
    reason ← map_err validation (required_text m.reason "reason" 1000)
    refs m.event_ids events 25
    reject_if (not (any (λ id. has same_number id changed) m.event_ids))
        (invalid "Memory changes require new or changed Event evidence")
    reject_if (differ (is_create m.action) (is_none m.object_id))
        (invalid "create needs a new ID; update/retire need an existing Memory")
    revision m.object_id m.expected_revision candidates (lit "memory")
    updates' ← once m.object_id updates "Memory changed twice in one plan"
    reject_if (target_is is_fixed candidates m.object_id)
        (invalid "manual, protected or corrected Memory requires explicit correction authority")
    ok updates'

  -- The loop over `self.memories`.
  unfoldable pub validate_memories :
      List ℕ
      → List ℕ
      → (ℕ → Option Value)
      → List ℕ
      → List MemoryProposal
      → Result DbError (Unit {0})
  validate_memories events changed candidates updates [] = ok tt
  validate_memories events changed candidates updates (m ∷ ms) =
      validate_memory events changed candidates updates m >>= λ updates'.
      validate_memories events changed candidates updates' ms

  -- `MemoryPlan::validate`
  unfoldable pub validate_memory_plan :
      List ℕ → List ℕ → (ℕ → Option Value) → List MemoryProposal → Result DbError (Unit {0})
  validate_memory_plan events changed candidates memories = do
    reject_if (ltb 20 (length memories)) (invalid "too many Memory proposals")
    validate_memories events changed candidates [] memories

  unfoldable pub validate_link :
      (ℕ → Option Value) → Option ℕ → EventLink → Result DbError (Unit {0})
  validate_link candidates own link = do
    reject_if
        (is_none (candidates link.target_id)
          || is_same own link.target_id
          || not (contains relations link.kind))
        (invalid "Event connection must reference a supplied candidate and supported relation")
    description ← map_err validation (required_text link.description "connection description" 1000)
    ok tt

  unfoldable pub validate_links :
      (ℕ → Option Value) → Option ℕ → List EventLink → Result DbError (Unit {0})
  validate_links candidates own [] = ok tt
  validate_links candidates own (link ∷ links) =
      validate_link candidates own link >> validate_links candidates own links

  module _ (calendar : Calendar) where
    unfoldable pub validate_event :
        List ℕ → (ℕ → Option Value) → List ℕ → EventProposal → Result DbError (List ℕ)
    validate_event evidence candidates updates e = do
      text e.title e.description
      validate_time calendar (timing e)
      refs e.evidence_ids evidence 50
      revision e.object_id e.expected_revision candidates (lit "event")
      reject_if (target_is is_corrected candidates e.object_id)
          (invalid "corrected Event requires explicit correction authority")
      updates' ← once e.object_id updates "Event updated twice in one plan"
      reject_if (ltb 20 (length e.connections)) (invalid "too many Event connections")
      validate_links candidates e.object_id e.connections
      ok updates'

    -- The loop over `self.events`.
    unfoldable pub validate_events :
        List ℕ → (ℕ → Option Value) → List ℕ → List EventProposal → Result DbError (Unit {0})
    validate_events evidence candidates updates [] = ok tt
    validate_events evidence candidates updates (e ∷ es) =
        validate_event evidence candidates updates e >>= λ updates'.
        validate_events evidence candidates updates' es

    -- `EventPlan::validate`
    unfoldable pub validate_event_plan :
        List ℕ → (ℕ → Option Value) → List EventProposal → Result DbError (Unit {0})
    validate_event_plan evidence candidates events = do
      reject_if (ltb 20 (length events)) (invalid "too many Event proposals")
      validate_events evidence candidates [] events
