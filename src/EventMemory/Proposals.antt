-- ===== src/EventMemory/Proposals.antt =====
-- src/event_memory.rs: the proposals of Events and Memories.
use centaur_context.Common.{ℕ, List, Option}
use centaur_context.Common.Integer.{ℤ}
use centaur_context.Text.{Text}
use centaur_context.EventTime.{EventTime}

pub record EventLink : Type 0 where
  pub target_id : ℕ
  pub kind : Text
  pub description : Text

pub record EventProposal : Type 0 where
  pub object_id : Option ℕ
  pub expected_revision : Option ℤ
  pub title : Text
  pub description : Text
  pub starts_at : Option Text
  pub starts_at_precision : Option Text
  pub ends_at : Option Text
  pub ends_at_precision : Option Text
  pub timezone : Option Text
  pub evidence_ids : List ℕ
  pub connections : List EventLink

pub data MemoryAction : Type 0 where
  create : MemoryAction
  update : MemoryAction
  retire : MemoryAction

pub record MemoryProposal : Type 0 where
  pub action : MemoryAction
  pub object_id : Option ℕ
  pub expected_revision : Option ℤ
  pub title : Text
  pub description : Text
  pub event_ids : List ℕ
  pub reason : Text

abbrev pub timing : EventProposal → EventTime
timing e = record {
  starts_at = e.starts_at;
  starts_at_precision = e.starts_at_precision;
  ends_at = e.ends_at;
  ends_at_precision = e.ends_at_precision;
  timezone = e.timezone;
}
