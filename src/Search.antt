-- ===== src/Search.antt =====
-- src/search.rs: the packing of a context under a budget. `chars` stands for the number of characters
-- that serde_json writes for a packet, and a score is a float by its shortest decimal text.
pub mod Loops
pub mod Budget
pub mod Size
mod Tests
use centaur_context.Common.{
  ℕ, zero, suc, ◌+◌, ◌-◌, ◌==◌, Bool, true, false, not, ◌&&◌, List, [], ◌∷◌, ◌++◌, Option, none,
  some, leb, length, take, min, if◌then◌else◌,
}
use centaur_context.Common.Integer.{ℤ}
use centaur_context.Text.{Text}
use centaur_context.Json.{Value}

pub record Relevance : Type 0 where
  pub score : Text
  pub rationale : Text

pub record SearchEvidence : Type 0 where
  pub artifact_id : ℕ
  pub start_offset : ℤ
  pub end_offset : ℤ
  pub excerpt : Text
  pub capture_outcome : Text
  pub match_kind : Text

pub record ContextConnection : Type 0 where
  pub id : ℕ
  pub kind : Text
  pub description : Text
  pub direction : Text
  pub other_object_id : ℕ
  pub other_object_kind : Text
  pub other_object_title : Text

pub record RetrievedObject : Type 0 where
  pub id : ℕ
  pub kind : Text
  pub title : Text
  pub description : Text
  pub revision : ℤ
  pub subtype : Option Value
  pub relevance : Relevance
  pub evidence : Option SearchEvidence
  pub connections : List ContextConnection
  pub corrections : List Value

pub record ContextBudget : Type 0 where
  pub max_characters : ℕ
  pub serialized_characters : ℕ
  pub omitted_objects : ℕ
  pub omitted_connections : ℕ

pub record ContextPacket : Type 0 where
  pub query : Text
  pub retrieval : Text
  pub objects : List RetrievedObject
  pub general_context_objects : List RetrievedObject
  pub budget : ContextBudget

-- `usize::MAX`, and `saturating_add`; `saturating_sub` is the subtraction of ℕ.
abbrev usize_max : ℕ
usize_max = 18_446_744_073_709_551_615

abbrev pub saturating_add : ℕ → ℕ → ℕ
saturating_add a b = min (a + b) usize_max

abbrev pub connection_count : List RetrievedObject → ℕ
connection_count [] = 0
connection_count (o ∷ os) = length o.connections + connection_count os

abbrev pub with_size : ContextPacket → ℕ → ContextPacket
with_size packet n = record packet { budget = record (packet.budget) { serialized_characters = n } }

-- `connections.pop()`
abbrev pub without_last : RetrievedObject → RetrievedObject
without_last o = record o { connections = take (length o.connections - 1) o.connections }

-- The two lists that the loops fill, and whether the function has returned.
pub record Contents : Type 0 where
  pub relevant : List RetrievedObject
  pub general : List RetrievedObject

pub data Packing : Type 0 where
  going : Contents → Packing
  returned : Contents → Packing

abbrev pub push : Bool → RetrievedObject → Contents → Contents
push true o lists = record lists { general = lists.general ++ (o ∷ []) }
push false o lists = record lists { relevant = lists.relevant ++ (o ∷ []) }

abbrev pub contents : Packing → Contents
contents (going lists) = lists
contents (returned lists) = lists

-- Nothing of a candidate fits: what there is is returned.
abbrev pub onward : Contents → (Contents → Packing) → Option Contents → Packing
onward lists next none = returned lists
onward lists next (some lists') = next lists'

abbrev pub nothing : Contents
nothing = record { relevant = []; general = [] }

module _ (chars : ContextPacket → ℕ) where
  -- At most `n` corrections of the size that the packet names.
  unfoldable pub measure : ℕ → ContextPacket → ContextPacket
  measure zero packet = packet
  measure (suc n) packet =
      let used = chars packet in
      let again = measure n (with_size packet used) in
      if packet.budget.serialized_characters == used then packet else again

  module _ (query retrieval : Text) (max total_relevant total_general total_connections : ℕ) where
    abbrev pub unmeasured : List RetrievedObject → List RetrievedObject → ContextPacket
    unmeasured objects general = record {
      query = query;
      retrieval = retrieval;
      objects = objects;
      general_context_objects = general;
      budget = record {
        max_characters = max;
        serialized_characters = 0;
        omitted_objects =
            saturating_add total_relevant total_general - (length objects + length general);
        omitted_connections =
            total_connections - (connection_count objects + connection_count general);
      };
    }

    unfoldable pub context_packet_with_budget :
        List RetrievedObject → List RetrievedObject → ContextPacket
    context_packet_with_budget objects general = measure 3 (unmeasured objects general)

    abbrev pub packet_of : Contents → ContextPacket
    packet_of lists = context_packet_with_budget lists.relevant lists.general

    abbrev pub within : Contents → Bool
    within lists = leb (chars (packet_of lists)) max

    -- The inner loop, for a candidate with `n` connections: the lists with as much of it as fits.
    unfoldable pub fit : Bool → ℕ → RetrievedObject → Contents → Option Contents
    fit general zero candidate lists =
        if within (push general candidate lists) then some (push general candidate lists) else none
    fit general (suc n) candidate lists =
        let shorter = fit general n (without_last candidate) lists in
        if within (push general candidate lists)
        then some (push general candidate lists)
        else shorter

    -- The loop over the candidates of one group.
    unfoldable pub fill : Bool → List RetrievedObject → Contents → Packing
    fill general [] lists = going lists
    fill general (candidate ∷ candidates) lists =
        onward lists (λ lists'. fill general candidates lists')
          (fit general (length candidate.connections) candidate lists)

    abbrev pub then_general : List RetrievedObject → Packing → Packing
    then_general candidates (going lists) = fill true candidates lists
    then_general candidates (returned lists) = returned lists

    abbrev pub packed : List RetrievedObject → List RetrievedObject → Contents
    packed relevant general = contents (then_general general (fill false relevant nothing))

  unfoldable pub build_budgeted_context_packet :
      Text → Text → List RetrievedObject → ℕ → List RetrievedObject → ℕ → ContextPacket
  build_budgeted_context_packet query retrieval relevant total_relevant general max =
      let total_general = length general in
      let total_connections = connection_count relevant + connection_count general in
      packet_of query retrieval max total_relevant total_general total_connections
        (packed query retrieval max total_relevant total_general total_connections relevant general)
