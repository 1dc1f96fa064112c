-- ===== src/Search/Tests.antt =====
-- src/search.rs: a context of two relevant Objects and a general one, which does not fit.
use centaur_context.Common.{
  ℕ, ◌+◌, ◌*◌, ◌<◌, ◌≤◌, ◌≡◌, ◌⊎◌, refl, List, [], ◌∷◌, none, length, arith,
}
use centaur_context.Common.Integer.{pos}
use centaur_context.Text.{lit}
use centaur_context.Search.{
  ContextConnection, RetrievedObject, ContextPacket, connection_count, measure, with_size,
  unmeasured, context_packet_with_budget, fit, fill, build_budgeted_context_packet,
}
use centaur_context.Search.Loops.{IsPrefix}
use centaur_context.Search.Budget.{build_budgeted_context_packet_lem}
use centaur_context.Search.Size.{digits, IsMeasured, context_packet_with_budget_lem}

search_code : Unit {0}
unfolding measure context_packet_with_budget fit fill build_budgeted_context_packet
search_code = tt

abbrev link : ℕ → ContextConnection
link id = record {
  id = id;
  direction = lit "out";
  kind = lit "about";
  description = lit "Subject";
  other_object_id = 9;
  other_object_kind = lit "entity";
  other_object_title = lit "Ana";
}

abbrev found : ℕ → List ContextConnection → RetrievedObject
found id connections = record {
  id = id;
  kind = lit "memory";
  title = lit "Reports";
  description = lit "Weekly";
  revision = pos 1;
  subtype = none;
  relevance = record { score = lit "0.5"; rationale = lit "Matched" };
  evidence = none;
  connections = connections;
  corrections = [];
}

abbrev others : ContextPacket → ℕ
others p =
    50
    + 30 * (length p.objects + length p.general_context_objects)
    + 10 * (connection_count p.objects + connection_count p.general_context_objects)

-- A packet of a fixed length for each part.
abbrev chars : ContextPacket → ℕ
chars p = others p + digits p.budget.serialized_characters

abbrev relevant : List RetrievedObject
relevant = found 1 (link 11 ∷ []) ∷ found 2 (link 21 ∷ link 22 ∷ []) ∷ []

abbrev general : List RetrievedObject
general = found 3 [] ∷ []

abbrev packet : ContextPacket
packet = build_budgeted_context_packet chars (lit "reports") (lit "hybrid") relevant 2 general 135

kept_ids : packet.objects ≡ found 1 (link 11 ∷ []) ∷ found 2 (link 21 ∷ []) ∷ []
unfolding search_code
kept_ids = refl

build_budgeted_context_packet_lem_example :
    IsPrefix relevant packet.objects
    × IsPrefix general packet.general_context_objects
    × ((packet.general_context_objects ≡ []) ⊎ (length packet.objects ≡ length relevant))
    × (((packet.objects ≡ []) × (packet.general_context_objects ≡ [])) ⊎ (chars packet ≤ 135))
build_budgeted_context_packet_lem_example =
    build_budgeted_context_packet_lem chars (lit "reports") (lit "hybrid") relevant 2 general 135
      packet refl

splits :
    (n : ℕ)
    → n < 10_000_000
    → chars
        (with_size (unmeasured chars (lit "reports") (lit "hybrid") 135 2 1 3 relevant general) n)
      ≡ 170 + digits n
splits n h = refl

context_packet_with_budget_lem_example :
    IsMeasured chars
      (context_packet_with_budget chars (lit "reports") (lit "hybrid") 135 2 1 3 relevant general)
context_packet_with_budget_lem_example =
    context_packet_with_budget_lem chars (lit "reports") (lit "hybrid") 135 2 1 3 relevant general
      170 splits (omega arith)
