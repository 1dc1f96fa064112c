-- ===== src/EmbeddingJobs/Again.antt =====
-- src/db/embeddings.rs: a job that has failed or was lost is handed out again.
use centaur_context.Common.{
  ℕ, ◌+◌, ◌*◌, ◌^◌, ◌≤◌, ◌<◌, ◌==◌, min, ◌≡◌, inl, inr, refl, sym, ◌∙◌, ap, Bool, true, false, ◌&&◌,
  ◌||◌, List, [], ◌∷◌, map, Option, none, some, ltb, leb, subst, find-here, find-past, ==-refl,
  Bool-cases, arith, if◌then◌else◌,
}
use centaur_context.Text.{Text, text_eq}
use centaur_context.EmbeddingJobs.{
  Embedding, Demand, has_status, is_lost, recover, is_claimable, is_wanted, comes_first, earlier,
  first_claimable, claim_row, claim_embedding_job, failed, fail_row, fail_embedding_job,
}
use centaur_context.EmbeddingJobs.Attempts.{claim_row-id, fail_row-keeps}
use centaur_context.EmbeddingJobs.Rows.{row_at, row_at-map, row_at-id}

comes_first_refl : (a : Embedding) → comes_first a a ≡ true
comes_first_refl a = ground arith

comes_first_total : (a b : Embedding) → comes_first a b ≡ false → comes_first b a ≡ true
comes_first_total a b h = ground arith

comes_first_trans :
    (a b c : Embedding) → comes_first a b ≡ true → comes_first b c ≡ true → comes_first a c ≡ true
comes_first_trans a b c h k = ground arith

-- A claim hands out the row or one that comes before it.
abbrev pub Handed : Demand → List Embedding → Embedding → Type 0
Handed d table e = (c : Embedding) × (first_claimable d table ≡ some c) × (comes_first c e ≡ true)

earlier-first : (x : Embedding) (o : Option Embedding) → comes_first (earlier x o) x ≡ true
earlier-first x none = comes_first_refl x
earlier-first x (some b) = pick (comes_first x b) refl
  where
    pick : (t : Bool) → comes_first x b ≡ t → comes_first (if t then x else b) x ≡ true
    pick true h = comes_first_refl x
    pick false h = comes_first_total x b h

earlier-rest : (x b : Embedding) → comes_first (earlier x (some b)) b ≡ true
earlier-rest x b = pick (comes_first x b) refl
  where
    pick : (t : Bool) → comes_first x b ≡ t → comes_first (if t then x else b) b ≡ true
    pick true h = h
    pick false h = comes_first_refl b

row_now :
    (id : ℕ) (x : Embedding) (xs : List Embedding) (e : Embedding)
    → (x.id == id) ≡ true
    → row_at id (x ∷ xs) ≡ some e
    → x ≡ e
row_now id x xs e here k =
    let same : some x ≡ some e = sym (find-here (λ q. q.id == id) x xs here) ∙ k in cc

-- A claimable row is handed out, unless another one comes first.
first_claimable_lem :
    (d : Demand) (id : ℕ) (table : List Embedding) (e : Embedding)
    → row_at id table ≡ some e
    → is_claimable d e ≡ true
    → Handed d table e
unfolding first_claimable
first_claimable_lem d id [] e k good = cc
first_claimable_lem d id (x ∷ xs) e k good = elim (Bool-cases (x.id == id)) [
  | inl here ↦
      let same = row_now id x xs e here k in
      let ready : is_claimable d x ≡ true = rw (same) good in
      subst (Handed d (x ∷ xs)) same
        (earlier x (first_claimable d xs), rw (ready) refl, earlier-first x (first_claimable d xs))
  | inr other ↦
      let (c, found, order) =
        first_claimable_lem d id xs e (sym (find-past (λ q. q.id == id) x xs other) ∙ k) good in
      elim (Bool-cases (is_claimable d x)) [
        | inl ready ↦ (
          earlier x (some c),
          rw (ready, found) refl,
          comes_first_trans (earlier x (some c)) c e (earlier-rest x c) order,
        )
        | inr waiting ↦ (c, rw (waiting) found, order)
      ]
]

-- A worker asks for the model, the dimensions and the mode of a row, and its Object is indexed.
abbrev pub serves : Demand → Embedding → Bool
serves d e =
    text_eq e.model d.model
    && e.dimensions == d.dimensions
    && text_eq e.input_mode d.input_mode
    && is_wanted d e.object_id e.artifact_id

failed-claimable :
    (d : Demand) (e : Embedding)
    → has_status "failed" e ≡ true
    → e.attempts < 5
    → serves d e ≡ true
    → e.available_at ≤ d.now
    → is_claimable d e ≡ true
failed-claimable d e failed room serving due =
    all (has_status "pending" e) (has_status "failed" e) (ltb e.attempts 5)
      (text_eq e.model d.model) (e.dimensions == d.dimensions) (text_eq e.input_mode d.input_mode)
      (leb e.available_at d.now) (is_wanted d e.object_id e.artifact_id) failed (ground arith)
      serving (ground arith)
  where
    all :
        (p f r m n i t w : Bool)
        → f ≡ true
        → r ≡ true
        → (m && n && i && w) ≡ true
        → t ≡ true
        → ((p || f) && r && m && n && i && t && w) ≡ true
    all p f r m n i t w hf hr hs ht = ground arith

-- A job that fails below its fifth attempt is handed out again to a worker that asks for it, an hour
-- later or after that, unless another job comes first in the order of claims.
pub fail_again :
    (d : Demand) (now id : ℕ) (error : Text) (table : List Embedding) (e : Embedding)
    → row_at id table ≡ some e
    → has_status "running" e ≡ true
    → e.attempts < 5
    → serves d e ≡ true
    → now + 3600 ≤ d.now
    → Handed d (fail_embedding_job now id error table) (failed now error e)
unfolding fail_embedding_job text_eq
fail_again d now id error table e k running room serving later =
    let own : (e.id == id) ≡ true = ap (λ n. n == id) (row_at-id id table e k) ∙ ==-refl id in
    let changed : fail_row now id error e ≡ failed now error e = rw (own, running) refl in
    first_claimable_lem d id (map (fail_row now id error) table) (failed now error e)
      (row_at-map (fail_row now id error) id table e (λ q. (fail_row-keeps now id error q).0) k
        ∙ ap (λ q. some q) changed)
      (failed-claimable d (failed now error e) refl room serving
        (due (30 * 2 ^ min e.attempts 7) later))
  where
    due : (wait : ℕ) → now + 3600 ≤ d.now → now + min 3600 wait ≤ d.now
    due wait h = omega arith

-- A job that was lost below its fifth attempt is recovered by any claim, and handed out by a claim for it
-- from then on, unless another job comes first in the order of claims.
pub lost_again :
    (d next : Demand) (id : ℕ) (table : List Embedding) (e : Embedding)
    → row_at id table ≡ some e
    → is_lost d.now e ≡ true
    → e.attempts < 5
    → serves next e ≡ true
    → d.now ≤ next.now
    → Handed next (claim_embedding_job d table).1 (recover d.now e)
unfolding claim_embedding_job text_eq
lost_again d next id table e k lost room serving later =
    first_claimable_lem next id (map (claim_row d (first_claimable d table)) table)
      (recover d.now e)
      (row_at-map (claim_row d (first_claimable d table)) id table e
          (claim_row-id d (first_claimable d table)) k
        ∙ ap (λ q. some q) (rw (lost) refl))
      (failed-claimable next (recover d.now e) refl room serving later)
