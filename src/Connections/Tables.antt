-- ===== src/Connections/Tables.antt =====
-- src/db/connections.rs: the rows of the tables, and the requests.
use centaur_context.Common.{ℕ, Bool, List, Option}
use centaur_context.Text.{Text}
use centaur_context.Json.{Value}

pub record Connection : Type 0 where
  pub id : ℕ
  pub source_object_id : ℕ
  pub kind : Text
  pub target_object_id : ℕ
  pub description : Text
  pub protected : Bool
  pub revision : ℕ
  pub created_by_type : Text
  pub created_by_id : Text
  pub updated_by_type : Text
  pub updated_by_id : Text
  pub provenance : Value
  pub created_at : ℕ
  pub updated_at : ℕ
  pub archived_at : Option ℕ

pub record NewConnection : Type 0 where
  pub source_object_id : ℕ
  pub kind : Text
  pub target_object_id : ℕ
  pub description : Text
  pub provenance : Value
  pub protected : Bool

pub record ConnectionChanges : Type 0 where
  pub kind : Option Text
  pub description : Option Text
  pub provenance : Option Value
  pub protected : Option Bool

-- Who writes, and when.
pub record Writer : Type 0 where
  pub actor_type : Text
  pub actor_id : Text
  pub now : ℕ

-- A row of `object_events`.
pub record Event : Type 0 where
  pub actor_type : Text
  pub actor_id : Text
  pub idempotency_key : Option Text
  pub target_id : ℕ
  pub action : Text
  pub from_revision : Option ℕ
  pub to_revision : ℕ

pub record ObjectRow : Type 0 where
  pub kind : Text
  pub archived : Bool

pub record ConnectionState : Type 0 where
  pub connections : List Connection
  pub events : List Event
  pub objects : ℕ → Option ObjectRow
