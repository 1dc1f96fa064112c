-- ===== src/EventMemory/Memories.antt =====
-- src/event_memory.rs: what an accepted plan of Memories may change.
use centaur_context.Common.{
  ℕ, ◌≤◌, ◌≡◌, refl, Bool, true, false, not, List, [], ◌∷◌, Option, length, any, All, arith,
  is_none, has, same_number, Distinct, IsFresh, IsFresh-nil, ok, >>=-eq-ok, >>-eq-ok,
  reject_if-eq-ok, ltb→le,
}
use centaur_context.Text.{lit}
use centaur_context.Json.{Value}
use centaur_context.Domain.{Unicode}
use centaur_context.EventMemory.{
  is_create, once, is_fixed, differ, validate_memory, validate_memories, validate_memory_plan,
}
use centaur_context.EventMemory.Proposals.{MemoryProposal}
use centaur_context.EventMemory.Candidates.{
  IsTarget, revision-IsTarget, IsSupported, refs-IsSupported, targets, once-IsFresh,
}

-- What an accepted plan has for a memory: it cites supplied events, one of them changed; it makes a
-- memory if it names none, and else changes an editable one at its current revision.
pub record IsJustified (events changed : List ℕ) (candidates : ℕ → Option Value)
    (m : MemoryProposal) : Type 0 where
  pub evidence : IsSupported m.event_ids events 25
  pub fresh : any (λ id. has same_number id changed) m.event_ids ≡ true
  pub creates : is_create m.action ≡ is_none m.object_id
  pub target : IsTarget is_fixed candidates (lit "memory") m.object_id m.expected_revision

module _ (u : Unicode) (max : ℕ) (events changed : List ℕ) (candidates : ℕ → Option Value) where
  memory_lem :
      (taken taken' : List ℕ) (m : MemoryProposal)
      → validate_memory u max events changed candidates taken m ≡ ok taken'
      → IsJustified events changed candidates m
        × (once m.object_id taken "Memory changed twice in one plan" ≡ ok taken')
  unfolding validate_memory
  memory_lem taken taken' m h =
      let (_, h1) = >>-eq-ok _ _ h in
      let (_, _, h2) = >>=-eq-ok _ _ h1 in
      let (supported, h3) = >>-eq-ok _ _ h2 in
      let (cited, h4) = reject_if-eq-ok _ _ _ h3 in
      let (matched, h5) = reject_if-eq-ok _ _ _ h4 in
      let (current, h6) = >>-eq-ok _ _ h5 in
      let (next, taken_next, h7) = >>=-eq-ok _ _ h6 in
      let (free, h8) = reject_if-eq-ok _ _ _ h7 in
      let same : next ≡ taken' = cc in
      (
        record {
          evidence = refs-IsSupported _ _ _ supported;
          fresh = positive _ cited;
          creates = agree _ _ matched;
          target = revision-IsTarget is_fixed candidates (lit "memory") _ _ current free;
        },
        rw (← same) taken_next,
      )
    where
      positive : (a : Bool) → not a ≡ false → a ≡ true
      positive a k = ground arith

      agree : (a b : Bool) → differ a b ≡ false → a ≡ b
      agree true true k = refl
      agree true false k = cc
      agree false b k = cc

  memories_lem :
      (taken : List ℕ) (ms : List MemoryProposal)
      → validate_memories u max events changed candidates taken ms ≡ ok tt
      → All (IsJustified events changed candidates) ms
        × IsFresh same_number taken (targets (λ m. m.object_id) ms)
  unfolding validate_memories
  memories_lem taken [] h = (tt, IsFresh-nil same_number taken)
  memories_lem taken (m ∷ ms) h =
      let (taken', first, rest) = >>=-eq-ok _ _ h in
      let (justified, next) = memory_lem taken taken' m first in
      let (others, fresh) = memories_lem taken' ms rest in
      ((justified, others), once-IsFresh m.object_id taken taken' _ _ next fresh)

  -- A plan of Memories that is accepted has at most 20 proposals and changes no Memory twice; each of
  -- them cites between one and 25 supplied Events, none twice and at least one of them changed, and
  -- either creates a Memory or changes a supplied, live and editable one at its current, positive
  -- revision.
  pub validate_memory_plan-IsJustified :
      (ms : List MemoryProposal)
      → validate_memory_plan u max events changed candidates ms ≡ ok tt
      → (length ms ≤ 20)
        × All (IsJustified events changed candidates) ms
        × Distinct same_number (targets (λ m. m.object_id) ms)
  unfolding validate_memory_plan
  validate_memory_plan-IsJustified ms h =
      let (few, rest) = reject_if-eq-ok _ _ _ h in
      let (justified, fresh) = memories_lem [] ms rest in
      (ltb→le _ _ few, justified, fresh.distinct)
