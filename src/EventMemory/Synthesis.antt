-- ===== src/EventMemory/Synthesis.antt =====
-- src/event_memory.rs: the check of a synthesis against its evidence.
use centaur_context.Common.{
  ℕ, ◌==◌, List, [], ◌∷◌, Option, none, some, if◌then◌else◌, Result, ok, err, ◌>>=◌, ok_or,
}
use centaur_context.Errors.{DbError}
use centaur_context.Text.{Text, lit}
use centaur_context.Json.{Value, Fields, keys, as_str}
use centaur_context.Domain.{Unicode}
use centaur_context.EventMemory.{at, invalid, validate_memory_plan}
use centaur_context.EventMemory.Proposals.{MemoryProposal}

-- `value_id`: `parse_uuid` stands for `Uuid::parse_str`.
module _ (parse_uuid : Text → Option ℕ) where
  abbrev pub value_id : Value → Result DbError ℕ
  value_id v = elim (as_str (at v (lit "id"))) [
    | none ↦ err (invalid "evidence lacks an ID")
    | some s ↦ ok_or (parse_uuid s) (invalid "evidence lacks an ID")
  ]

  abbrev collect_ids : (Value → Result DbError ℕ) → List Value → Result DbError (List ℕ)
  collect_ids f [] = ok []
  collect_ids f (v ∷ vs) = f v >>= λ id. collect_ids f vs >>= λ ids. ok (id ∷ ids)

  abbrev fingerprint_ids : List Text → Result DbError (List ℕ)
  fingerprint_ids [] = ok []
  fingerprint_ids (s ∷ rest) = ok_or (parse_uuid s) (invalid "invalid fingerprint ID") >>= λ id.
      fingerprint_ids rest >>= λ ids. ok (id ∷ ids)

  -- Of two memories with one id, the map holds the later.
  abbrev memory_map : List Value → Result DbError (ℕ → Option Value)
  memory_map [] = ok (λ id. none)
  memory_map (v ∷ vs) = value_id v >>= λ own. memory_map vs >>= λ later.
      ok (λ id. elim (later id) [ none ↦ if id == own then some v else none | some w ↦ some w ])

  -- `SynthesisBatch::validate`
  unfoldable pub validate_synthesis :
      Unicode
      → ℕ
      → List Value
      → List Value
      → Fields
      → List MemoryProposal
      → Result DbError (Unit {0})
  validate_synthesis u max events memories fingerprints plan = do
    ids ← collect_ids value_id events
    changed ← fingerprint_ids (keys fingerprints)
    candidates ← memory_map memories
    validate_memory_plan u max ids changed candidates plan
