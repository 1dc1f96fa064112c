-- ===== src/Curator/Allowed.antt =====
-- src/curator.rs: what the worker's filter wants of a new Object, told by the messages themselves.
use mathlib.Core.List.{Memᴰ}
use mathlib.Core.List.Memᴰ
use centaur_context.Common.{
  ℕ, ◌==◌, ◌≡◌, ◌≢◌, ◌↔◌, refl, sym, Bool, true, false, not, ◌&&◌, ◌||◌, List, [], ◌∷◌, length, any,
  All, has, same_number, Bool-cases, inl, inr, arith, ==→eq, ==-refl, both_true, both_false,
  if◌then◌else◌,
}
use centaur_context.Text.{lit}
use centaur_context.Text.Laws.{text_eq_sound, text_eq_refl}
use centaur_context.Domain.{Unicode}
use centaur_context.Curator.Accepted.{positive}
use centaur_context.Curator.Plans.{CreateObject}
use centaur_context.Curator.Evidence.{
  MessageEvidence, human_message_ids, is_disallowed, is_human, is_memory_noise,
  is_object_creation_report,
}

-- A human said it, and it is no noise.
pub record IsHumanSaid (u : Unicode) (messages : List MessageEvidence) (id : ℕ) : Type 0 where
  pub message : MessageEvidence
  pub sent : Memᴰ message messages
  pub of_id : message.id ≡ id
  pub human : message.sender_kind ≡ lit "human"
  pub durable : is_memory_noise u message.content ≡ false

-- A Memory that cites messages, all of them such, and no report of a creation if those are captured.
pub record IsAllowed (u : Unicode) (capture : Bool) (messages : List MessageEvidence)
    (item : CreateObject) : Type 0 where
  pub of_kind : item.kind ≡ lit "memory"
  pub no_report : (capture && is_object_creation_report u item.description) ≡ false
  pub cited : item.supporting_message_ids ≢ []
  pub said : All (IsHumanSaid u messages) item.supporting_message_ids

module _ (u : Unicode) (capture : Bool) where
  abbrev counts : MessageEvidence → Bool
  counts message = is_human message && not (is_memory_noise u message.content)

  said_by :
      (message : MessageEvidence) (messages : List MessageEvidence) (id : ℕ)
      → counts message ≡ true
      → (id == message.id) ≡ true
      → IsHumanSaid u (message ∷ messages) id
  said_by message messages id good same =
      let (human, durable) = both_true _ _ good in
      record {
        message = message;
        sent = Memᴰ.head refl;
        of_id = sym (==→eq _ _ same);
        human = text_eq_sound _ _ human;
        durable = quiet _ durable;
      }
    where
      quiet : (a : Bool) → not a ≡ true → a ≡ false
      quiet a h = ground arith

  said_later :
      (message : MessageEvidence) (messages : List MessageEvidence) (id : ℕ)
      → IsHumanSaid u messages id
      → IsHumanSaid u (message ∷ messages) id
  said_later message messages id s = record {
    message = s.message;
    sent = Memᴰ.tail s.sent;
    of_id = s.of_id;
    human = s.human;
    durable = s.durable;
  }

  human_said :
      (messages : List MessageEvidence) (id : ℕ)
      → has same_number id (human_message_ids u capture messages) ≡ true
      → IsHumanSaid u messages id
  human_said [] id h = cc
  human_said (message ∷ messages) id h = elim (Bool-cases (counts message)) [
    | inl good ↦ elim (Bool-cases (id == message.id)) [
      | inl same ↦ said_by message messages id good same
      | inr other ↦ said_later message messages id (human_said messages id (rw (good, other) at h))
    ]
    | inr bad ↦ said_later message messages id (human_said messages id (rw (bad) at h))
  ]

  said_human :
      (messages : List MessageEvidence) (id : ℕ) (message : MessageEvidence)
      → Memᴰ message messages
      → message.id ≡ id
      → counts message ≡ true
      → has same_number id (human_message_ids u capture messages) ≡ true
  said_human [] id message sent same good = absurd (Memᴰ.not-nil sent)
  said_human (m ∷ ms) id message (Memᴰ.head e) same good =
      rw (← e, good, ← same, ==-refl message.id) refl
  said_human (m ∷ ms) id message (Memᴰ.tail sent) same good =
      later (counts m) (said_human ms id message sent same good)
    where
      later :
          (b : Bool)
          → has same_number id (human_message_ids u capture ms) ≡ true
          → has same_number id
              (if b then m.id ∷ human_message_ids u capture ms else human_message_ids u capture ms)
            ≡ true
      later true h = either _ _ h
        where
          either : (a b : Bool) → b ≡ true → (a || b) ≡ true
          either a b k = ground arith
      later false h = h

  module _ (messages : List MessageEvidence) where
    abbrev human : List ℕ
    human = human_message_ids u capture messages

    abbrev strange : List ℕ → Bool
    strange ids = any (λ id. not (has same_number id human)) ids

    all_said : (ids : List ℕ) → strange ids ≡ false → All (IsHumanSaid u messages) ids
    all_said [] h = tt
    all_said (id ∷ ids) h =
        let (first, rest) = both_false (not (has same_number id human)) (strange ids) h in
        (human_said messages id (positive _ first), all_said ids rest)

    none_strange : (ids : List ℕ) → All (IsHumanSaid u messages) ids → strange ids ≡ false
    none_strange [] s = refl
    none_strange (id ∷ ids) (s, ss) =
        let good : counts s.message ≡ true =
          rw (s.human, text_eq_refl (lit "human"), s.durable) refl in
        rw (said_human messages id s.message s.sent s.of_id good, none_strange ids ss) refl

    -- The test of the filter is this.
    pub is_disallowed_lem :
        (item : CreateObject)
        → (is_disallowed u capture human item ≡ false) ↔ IsAllowed u capture messages item
    is_disallowed_lem item = (allowed, not_disallowed)
      where
        filled : (ids : List ℕ) → (length ids == 0) ≡ false → ids ≢ []
        filled ids h e = let k = rw (e) at h in cc

        counted : (ids : List ℕ) → ids ≢ [] → (length ids == 0) ≡ false
        counted [] h = absurd (h refl)
        counted (id ∷ ids) h = ground arith

        allowed : is_disallowed u capture human item ≡ false → IsAllowed u capture messages item
        allowed h =
            let (h1, h3) = both_false _ _ h in
            let (h2, some_ids) = both_false _ _ h1 in
            let (kind, report) = both_false _ _ h2 in
            record {
              of_kind = text_eq_sound _ _ (positive _ kind);
              no_report = report;
              cited = filled _ some_ids;
              said = all_said _ h3;
            }

        not_disallowed :
            IsAllowed u capture messages item → is_disallowed u capture human item ≡ false
        not_disallowed i =
            rw
              (
                i.of_kind,
                text_eq_refl (lit "memory"),
                i.no_report,
                counted item.supporting_message_ids i.cited,
                none_strange item.supporting_message_ids i.said,
              )
              refl
