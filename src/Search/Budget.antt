-- ===== src/Search/Budget.antt =====
-- src/search.rs: what a packed context holds.
use centaur_context.Common.{
  ℕ, zero, suc, ◌==◌, ◌≤◌, ◌≡◌, ◌⊎◌, inl, inr, refl, ap, ◌∙◌, Bool, true, false, List, [], leb→le,
  length, if◌then◌else◌,
}
use centaur_context.Text.{Text}
use centaur_context.Search.{
  RetrievedObject, ContextPacket, Contents, context_packet_with_budget, measure, with_size,
  unmeasured, packet_of, within, nothing, build_budgeted_context_packet,
}
use centaur_context.Search.Loops.{IsPrefix, IsPacked, fill-IsFilled, both-IsPacked}

module _ (chars : ContextPacket → ℕ) where
  abbrev SameLists : ContextPacket → ContextPacket → Type 0
  SameLists p q = (p.objects ≡ q.objects) × (p.general_context_objects ≡ q.general_context_objects)

  measure-SameLists : (n : ℕ) (p : ContextPacket) → SameLists (measure chars n p) p
  unfolding measure
  measure-SameLists zero p = (refl, refl)
  measure-SameLists (suc n) p =
      either (p.budget.serialized_characters == chars p)
        (measure-SameLists n (with_size p (chars p)))
    where
      either :
          (b : Bool)
          → SameLists (measure chars n (with_size p (chars p))) p
          → SameLists (if b then p else measure chars n (with_size p (chars p))) p
      either true h = (refl, refl)
      either false h = h

  module _ (query retrieval : Text) (max a b c : ℕ) (relevant general : List RetrievedObject) where
    abbrev IsWithin : ContextPacket → Type 0
    IsWithin packet =
        IsPrefix relevant packet.objects
        × IsPrefix general packet.general_context_objects
        × ((packet.general_context_objects ≡ []) ⊎ (length packet.objects ≡ length relevant))
        × (((packet.objects ≡ []) × (packet.general_context_objects ≡ [])) ⊎ (chars packet ≤ max))

    packet_lists :
        (lists : Contents)
        → ((packet_of chars query retrieval max a b c lists).objects ≡ lists.relevant)
          × ((packet_of chars query retrieval max a b c lists).general_context_objects
              ≡ lists.general)
    unfolding context_packet_with_budget
    packet_lists lists =
        measure-SameLists 3
          (unmeasured chars query retrieval max a b c lists.relevant lists.general)

    packet_lem :
        (lists : Contents)
        → IsPacked chars query retrieval max a b c relevant general lists
        → IsWithin (packet_of chars query retrieval max a b c lists)
    packet_lem lists p =
        let (objects, others) = packet_lists lists in
        (
          rw (objects) p.relevant_prefix,
          rw (others) p.general_prefix,
          rw (objects, others) p.relevant_first,
          size p.sized,
        )
      where
        size :
            (lists ≡ nothing) ⊎ (within chars query retrieval max a b c lists ≡ true)
            → (((packet_of chars query retrieval max a b c lists).objects ≡ [])
                × ((packet_of chars query retrieval max a b c lists).general_context_objects ≡ []))
              ⊎ (chars (packet_of chars query retrieval max a b c lists) ≤ max)
        size (inl same) = inl (
          (packet_lists lists).0 ∙ ap (λ l. l.relevant) same,
          (packet_lists lists).1 ∙ ap (λ l. l.general) same,
        )
        size (inr k) = inr (leb→le _ _ k)

  -- A packed context holds the first relevant Objects and the first general ones, in their order and
  -- each with the first of its connections, and a general one only if it holds all the relevant
  -- ones; it holds no Object, or is written in at most `max` characters.
  pub build_budgeted_context_packet_lem :
      (query retrieval : Text) (relevant : List RetrievedObject) (total : ℕ)
      (general : List RetrievedObject) (max : ℕ) (packet : ContextPacket)
      → build_budgeted_context_packet chars query retrieval relevant total general max ≡ packet
      → IsPrefix relevant packet.objects
        × IsPrefix general packet.general_context_objects
        × ((packet.general_context_objects ≡ []) ⊎ (length packet.objects ≡ length relevant))
        × (((packet.objects ≡ []) × (packet.general_context_objects ≡ [])) ⊎ (chars packet ≤ max))
  unfolding build_budgeted_context_packet
  build_budgeted_context_packet_lem query retrieval relevant total general max packet h = rw (← h) (
      packet_lem query retrieval max total (length general) _ relevant general _ (
        both-IsPacked chars query retrieval max total (length general) _ relevant general _ (
          fill-IsFilled chars query retrieval max total (length general) _ false relevant nothing)))
