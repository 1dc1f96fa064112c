-- ===== src/EmbeddingJobs.antt =====
-- src/db/embeddings.rs: the queue of embeddings and the operations of its workers. A time is a number
-- of seconds. Each operation is one statement, which changes the rows where they stand.
pub mod Rows
pub mod Attempts
pub mod Again
mod Tests
use Prim.Native.String.{String}
use centaur_context.Common.{
  ℕ, ◌+◌, ◌*◌, ◌^◌, ◌==◌, min, Bool, true, false, not, ◌&&◌, ◌||◌, List, [], ◌∷◌, map, Option, none,
  some, ltb, leb, take, any, if◌then◌else◌, Result, ok, err,
}
use centaur_context.Errors.{DbError, conflict}
use centaur_context.Text.{Text, lit, text_eq}

-- A row of `embeddings`, with its vector as the text of its literal.
pub record Embedding : Type 0 where
  pub id : ℕ
  pub object_id : ℕ
  pub artifact_id : Option ℕ
  pub model : Text
  pub dimensions : ℕ
  pub source_hash : Text
  pub format_version : Text
  pub input_mode : Text
  pub status : Text
  pub attempts : ℕ
  pub available_at : ℕ
  pub started_at : Option ℕ
  pub completed_at : Option ℕ
  pub last_error : Option Text
  pub embedding : Option Text
  pub updated_at : ℕ

abbrev pub has_status : String → Embedding → Bool
has_status s e = text_eq e.status (lit s)

abbrev lease_ended : ℕ → Option ℕ → Bool
lease_ended now none = false
lease_ended now (some started) = ltb (started + 300) now

-- `WITH recovered`: a running job whose lease of five minutes has ended.
abbrev pub is_lost : ℕ → Embedding → Bool
is_lost now e = has_status "running" e && lease_ended now e.started_at

abbrev pub recover : ℕ → Embedding → Embedding
recover now e = record e {
  status = lit "failed";
  started_at = none;
  available_at = now;
  last_error = some (lit "worker lease expired");
  updated_at = now;
}

-- What a worker asks for. `indexed` tells of an Object and an artifact whether it is the current one,
-- complete, and to be indexed.
pub record Demand : Type 0 where
  pub model : Text
  pub dimensions : ℕ
  pub input_mode : Text
  pub now : ℕ
  pub indexed : ℕ → ℕ → Bool

abbrev pub is_wanted : Demand → ℕ → Option ℕ → Bool
is_wanted d object_id none = true
is_wanted d object_id (some artifact_id) = d.indexed object_id artifact_id

abbrev pub is_claimable : Demand → Embedding → Bool
is_claimable d e =
    (has_status "pending" e || has_status "failed" e)
    && ltb e.attempts 5
    && text_eq e.model d.model
    && e.dimensions == d.dimensions
    && text_eq e.input_mode d.input_mode
    && leb e.available_at d.now
    && is_wanted d e.object_id e.artifact_id

-- `ORDER BY e.available_at, e.updated_at, e.id`
abbrev pub comes_first : Embedding → Embedding → Bool
comes_first a b =
    ltb a.available_at b.available_at
    || (a.available_at == b.available_at
        && (ltb a.updated_at b.updated_at || (a.updated_at == b.updated_at && leb a.id b.id)))

abbrev pub earlier : Embedding → Option Embedding → Embedding
earlier a none = a
earlier a (some b) = if comes_first a b then a else b

-- `ORDER BY … LIMIT 1`
unfoldable pub first_claimable : Demand → List Embedding → Option Embedding
first_claimable d [] = none
first_claimable d (e ∷ es) =
    let rest = first_claimable d es in if is_claimable d e then some (earlier e rest) else rest

abbrev pub start : ℕ → Embedding → Embedding
start now e = record e {
  status = lit "running";
  attempts = e.attempts + 1;
  started_at = some now;
  updated_at = now;
}

abbrev pub is_chosen : Option Embedding → Embedding → Bool
is_chosen none e = false
is_chosen (some c) e = e.id == c.id

-- Both parts of the statement see the rows as they were.
abbrev pub claim_row : Demand → Option Embedding → Embedding → Embedding
claim_row d chosen e =
    if is_lost d.now e then recover d.now e else if is_chosen chosen e then start d.now e else e

-- `claim_embedding_job`: the row of the job, as it was, and the table.
unfoldable pub claim_embedding_job : Demand → List Embedding → Option Embedding × List Embedding
claim_embedding_job d table =
    let chosen = first_claimable d table in (chosen, map (claim_row d chosen) table)

abbrev pub is_job : Embedding → Embedding → Bool
is_job job e =
    e.id == job.id
    && text_eq e.model job.model
    && e.dimensions == job.dimensions
    && text_eq e.format_version job.format_version
    && text_eq e.input_mode job.input_mode
    && text_eq e.source_hash job.source_hash
    && has_status "running" e

abbrev pub complete_row : ℕ → Embedding → Text → Embedding → Embedding
complete_row now job vector e =
    if is_job job e
    then record e {
      status = lit "completed";
      embedding = some vector;
      completed_at = some now;
      started_at = none;
      last_error = none;
      updated_at = now;
    }
    else e

-- `rows_affected()`
unfoldable pub affected : (Embedding → Bool) → List Embedding → ℕ
affected hit [] = 0
affected hit (e ∷ es) = let rest = affected hit es in if hit e then rest + 1 else rest

unfoldable pub complete_embedding_job :
    ℕ → Embedding → Text → List Embedding → Result DbError (List Embedding)
complete_embedding_job now job vector table =
    if affected (is_job job) table == 1
    then ok (map (complete_row now job vector) table)
    else err conflict

abbrev pub failed : ℕ → Text → Embedding → Embedding
failed now error e = record e {
  status = lit "failed";
  started_at = none;
  available_at = now + min 3600 (30 * 2 ^ min e.attempts 7);
  last_error = some (take 1000 error);
  updated_at = now;
}

abbrev pub fail_row : ℕ → ℕ → Text → Embedding → Embedding
fail_row now id error e = if e.id == id && has_status "running" e then failed now error e else e

unfoldable pub fail_embedding_job : ℕ → ℕ → Text → List Embedding → List Embedding
fail_embedding_job now id error table = map (fail_row now id error) table
