-- ===== src/EventMemory/Events.antt =====
-- src/event_memory.rs: what an accepted plan of Events may change.
use centaur_context.Common.{
  ℕ, ◌≤◌, ◌≡◌, Bool, true, false, not, ◌||◌, List, [], ◌∷◌, Option, length, All, arith, is_none,
  same_number, Distinct, IsFresh, IsFresh-nil, ok, >>=-eq-ok, >>-eq-ok, reject_if-eq-ok, ltb→le,
}
use centaur_context.Text.{lit, contains}
use centaur_context.Json.{Value}
use centaur_context.Domain.{Unicode}
use centaur_context.EventTime.{Calendar, validate_time}
use centaur_context.EventMemory.{
  is_same, relations, validate_link, validate_links, once, is_corrected, validate_event,
  validate_events, validate_event_plan,
}
use centaur_context.EventMemory.Proposals.{EventLink, EventProposal, timing}
use centaur_context.EventMemory.Candidates.{
  IsTarget, revision-IsTarget, IsSupported, refs-IsSupported, targets, once-IsFresh,
}

-- A connection leads to a supplied candidate other than the Event itself, by a known relation.
pub record IsLink (candidates : ℕ → Option Value) (own : Option ℕ) (link : EventLink) : Type 0 where
  pub supplied : is_none (candidates link.target_id) ≡ false
  pub outward : is_same own link.target_id ≡ false
  pub known : contains relations link.kind ≡ true

-- What an accepted plan has for an Event.
pub record IsGrounded (calendar : Calendar) (evidence : List ℕ) (candidates : ℕ → Option Value)
    (e : EventProposal) : Type 0 where
  pub supported : IsSupported e.evidence_ids evidence 50
  pub timed : validate_time calendar (timing e) ≡ ok tt
  pub target : IsTarget is_corrected candidates (lit "event") e.object_id e.expected_revision
  pub links : All (IsLink candidates e.object_id) e.connections
  pub few : length e.connections ≤ 20

module _ (u : Unicode) (max : ℕ) (candidates : ℕ → Option Value) where
  links_lem :
      (own : Option ℕ) (links : List EventLink)
      → validate_links u max candidates own links ≡ ok tt
      → All (IsLink candidates own) links
  unfolding validate_links validate_link
  links_lem own [] h = tt
  links_lem own (link ∷ links) h =
      let (first, rest) = >>-eq-ok _ _ h in
      let (passed, _) = reject_if-eq-ok _ _ _ first in
      (link_lem link passed, links_lem own links rest)
    where
      three : (a b c : Bool) → (a || b || not c) ≡ false → (a ≡ false) × (b ≡ false) × (c ≡ true)
      three a b c k = (ground arith, ground arith, ground arith)

      link_lem :
          (link : EventLink)
          → (is_none (candidates link.target_id)
              || is_same own link.target_id
              || not (contains relations link.kind))
            ≡ false
          → IsLink candidates own link
      link_lem link k =
          let (supplied, outward, known) = three _ _ _ k in
          record { supplied = supplied; outward = outward; known = known }

  module _ (calendar : Calendar) (evidence : List ℕ) where
    event_lem :
        (taken taken' : List ℕ) (e : EventProposal)
        → validate_event u max calendar evidence candidates taken e ≡ ok taken'
        → IsGrounded calendar evidence candidates e
          × (once e.object_id taken "Event updated twice in one plan" ≡ ok taken')
    unfolding validate_event
    event_lem taken taken' e h =
        let (_, h1) = >>-eq-ok _ _ h in
        let (timed, h2) = >>-eq-ok _ _ h1 in
        let (supported, h3) = >>-eq-ok _ _ h2 in
        let (current, h4) = >>-eq-ok _ _ h3 in
        let (free, h5) = reject_if-eq-ok _ _ _ h4 in
        let (next, taken_next, h6) = >>=-eq-ok _ _ h5 in
        let (few, h7) = reject_if-eq-ok _ _ _ h6 in
        let (linked, h8) = >>-eq-ok _ _ h7 in
        let same : next ≡ taken' = cc in
        (
          record {
            supported = refs-IsSupported _ _ _ supported;
            timed = timed;
            target = revision-IsTarget is_corrected candidates (lit "event") _ _ current free;
            links = links_lem _ _ linked;
            few = ltb→le _ _ few;
          },
          rw (← same) taken_next,
        )

    events_lem :
        (taken : List ℕ) (es : List EventProposal)
        → validate_events u max calendar evidence candidates taken es ≡ ok tt
        → All (IsGrounded calendar evidence candidates) es
          × IsFresh same_number taken (targets (λ e. e.object_id) es)
    unfolding validate_events
    events_lem taken [] h = (tt, IsFresh-nil same_number taken)
    events_lem taken (e ∷ es) h =
        let (taken', first, rest) = >>=-eq-ok _ _ h in
        let (grounded, next) = event_lem taken taken' e first in
        let (others, fresh) = events_lem taken' es rest in
        ((grounded, others), once-IsFresh e.object_id taken taken' _ _ next fresh)

    -- A plan of Events that is accepted has at most 20 proposals and changes no Event twice; each of
    -- them cites between one and 50 supplied pieces of evidence, none twice, has valid times, changes
    -- at most one supplied, live Event that nobody has corrected, at its current, positive revision,
    -- and has at most 20 connections, each by a known relation to a supplied candidate other than
    -- itself.
    pub validate_event_plan-IsGrounded :
        (es : List EventProposal)
        → validate_event_plan u max calendar evidence candidates es ≡ ok tt
        → (length es ≤ 20)
          × All (IsGrounded calendar evidence candidates) es
          × Distinct same_number (targets (λ e. e.object_id) es)
    unfolding validate_event_plan
    validate_event_plan-IsGrounded es h =
        let (few, rest) = reject_if-eq-ok _ _ _ h in
        let (grounded, fresh) = events_lem [] es rest in (ltb→le _ _ few, grounded, fresh.distinct)
