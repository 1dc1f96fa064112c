-- ===== src/EmbeddingJobs/Attempts.antt =====
-- src/db/embeddings.rs: how often a job is handed to a worker.
use centaur_context.Common.{
  ℕ, ◌+◌, ◌≤◌, ◌==◌, ◌≡◌, refl, Bool, true, false, List, [], ◌∷◌, map, Option, none, some, arith,
  if◌then◌else◌, Result, ok, err,
}
use centaur_context.Errors.{DbError}
use centaur_context.Text.{Text}
use centaur_context.EmbeddingJobs.{
  Embedding, Demand, is_lost, recover, start, first_claimable, is_chosen, claim_row,
  claim_embedding_job, complete_embedding_job, fail_row, fail_embedding_job,
}
use centaur_context.EmbeddingJobs.Rows.{ids, row_at}

-- What a worker does.
pub data Work : Type 0 where
  claim : Demand → Work
  complete : ℕ → Embedding → Text → Work
  fail : ℕ → ℕ → Text → Work

-- A completion that is refused changes nothing.
abbrev kept : List Embedding → Result DbError (List Embedding) → List Embedding
kept table (ok table') = table'
kept table (err e) = table

abbrev pub perform : Work → List Embedding → List Embedding
perform (claim d) table = (claim_embedding_job d table).1
perform (complete now job vector) table = kept table (complete_embedding_job now job vector table)
perform (fail now id error) table = fail_embedding_job now id error table

abbrev count : ℕ → Option Embedding → ℕ
count id none = 0
count id (some c) = if c.id == id then 1 else 0

-- One if it hands out the job of the id.
abbrev pub handed : ℕ → Work → List Embedding → ℕ
handed id (claim d) table = count id (first_claimable d table)
handed id (complete now job vector) table = 0
handed id (fail now other error) table = 0

-- How often the job of the id is handed out.
abbrev pub times : ℕ → List Work → List Embedding → ℕ
times id [] table = 0
times id (w ∷ ws) table = handed id w table + times id ws (perform w table)

pub claim_row-id : (d : Demand) (o : Option Embedding) (e : Embedding) → (claim_row d o e).id ≡ e.id
claim_row-id d o e = pick (is_lost d.now e) (is_chosen o e)
  where
    pick : (a b : Bool) → (if a then recover d.now e else if b then start d.now e else e).id ≡ e.id
    pick true b = refl
    pick false true = refl
    pick false false = refl

-- Between two tables the ids stay, and a row gets `n` more attempts, at most five in all.
abbrev Counted : ℕ → ℕ → List Embedding → List Embedding → Embedding → Type 0
Counted id n table table' e =
    (ids table' ≡ ids table)
    × (e' : Embedding) × (row_at id table' ≡ some e')
    × (e'.attempts ≡ e.attempts + n)
    × (e'.attempts ≤ 5)

abbrev Claimed : ℕ → Demand → List Embedding → Embedding → Option Embedding → Type 0
Claimed id d table e o = Counted id (count id o) table (map (claim_row d o) table) e

pub fail_row-keeps :
    (now id : ℕ) (error : Text) (q : Embedding)
    → ((fail_row now id error q).id ≡ q.id) × ((fail_row now id error q).attempts ≡ q.attempts)
fail_row-keeps now id error q = ground arith
