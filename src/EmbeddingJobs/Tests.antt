-- ===== src/EmbeddingJobs/Tests.antt =====
-- src/db/embeddings.rs: runs of the queue, and the witness.
use centaur_context.Common.{ℕ, ◌≡◌, refl, List, [], ◌∷◌, true, none, some, arith}
use centaur_context.Text.{lit, text_eq}
use centaur_context.EmbeddingJobs.{
  Embedding, Demand, first_claimable, claim_embedding_job, fail_embedding_job, failed, recover,
}
use centaur_context.EmbeddingJobs.Attempts.{Work, claim, fail, times}
use centaur_context.EmbeddingJobs.Again.{Handed, fail_again, lost_again}

abbrev waiting : ℕ → Embedding
waiting n = record {
  id = n;
  object_id = 40;
  artifact_id = none;
  model = lit "m";
  dimensions = 3;
  source_hash = lit "h";
  format_version = lit "1";
  input_mode = lit "shared";
  status = lit "pending";
  attempts = 0;
  available_at = 100;
  started_at = none;
  completed_at = none;
  last_error = none;
  embedding = none;
  updated_at = 100;
}

abbrev worker : ℕ → Demand
worker t = record {
  model = lit "m";
  dimensions = 3;
  input_mode = lit "shared";
  now = t;
  indexed = λ o a. true;
}

abbrev queue : List Embedding
queue = waiting 7 ∷ waiting 8 ∷ []

-- Claimed, failed, not yet to be claimed again, and then claimed again.
abbrev retried : List Work
retried =
    claim (worker 100) ∷ fail 101 7 (lit "timeout") ∷ claim (worker 120) ∷ claim (worker 161) ∷ []

retried_twice : times 7 retried queue ≡ 2
unfolding first_claimable claim_embedding_job fail_embedding_job text_eq
retried_twice = refl

-- The first job, which a worker has begun at 100.
abbrev begun : Embedding
begun = record (waiting 7) { status = lit "running"; attempts = 1; started_at = some 100 }

fail_again_example :
    Handed
      (worker 3701)
      (fail_embedding_job 101 7 (lit "timeout") (begun ∷ waiting 8 ∷ []))
      (failed 101 (lit "timeout") begun)
unfolding text_eq
fail_again_example =
    fail_again (worker 3701) 101 7 (lit "timeout") (begun ∷ waiting 8 ∷ []) begun refl refl
      (omega arith) refl (omega arith)

lost_again_example :
    Handed
      (worker 402)
      (claim_embedding_job (worker 401) (begun ∷ waiting 8 ∷ [])).1
      (recover 401 begun)
unfolding text_eq
lost_again_example =
    lost_again (worker 401) (worker 402) 7 (begun ∷ waiting 8 ∷ []) begun refl refl (omega arith)
      refl (omega arith)
