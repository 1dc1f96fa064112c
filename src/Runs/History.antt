-- ===== src/Runs/History.antt =====
-- migrations/0017_consolidated_schema.sql, `preserve_run_identity_input`: the trigger that guards the
-- `runs` table, as a relation, and the rules by which transactions keep it.
use centaur_context.Common.{
  ◌≡◌, refl, sym, ◌∙◌, ap, subst, ℕ, Bool, true, false, List, [], ◌∷◌, ◌++◌, arith, Bool-cases, inl,
  inr, Result, ok, err, any, if◌then◌else◌,
}
use mathlib.Core.List.{append-nil, append_assoc}
use centaur_context.Errors.{DbError}
use centaur_context.Json.{Value}
use centaur_context.Runs.Updates.{Rewritten, ends, writes, leaves, update-Rewritten}
use centaur_context.Runs.{
  Run, push_trace, Table, Tx, ◌>>=◌, ◌>>◌, return, fail, ensure, select, go_on, commit, update,
  insert_run, insert_if_new, settle, has_id,
}

-- A row keeps its identity and its input, and its trace only grows.
pub record Evolves (r s : Run) : Type 0 where
  pub same_run : s.id ≡ r.id
  pub same_kind : s.kind ≡ r.kind
  pub same_actor_type : s.actor_type ≡ r.actor_type
  pub same_actor : s.actor_id ≡ r.actor_id
  pub same_idempotency : s.idempotency_key ≡ r.idempotency_key
  pub same_input : s.input ≡ r.input
  pub same_creation : s.created_at ≡ r.created_at
  pub appended : (more : List Value) × (s.trace ≡ r.trace ++ more)

-- An update that leaves these columns as they are.
pub touched :
    (r : Run) {s : Run}
    → s.id ≡ r.id
    → s.kind ≡ r.kind
    → s.actor_type ≡ r.actor_type
    → s.actor_id ≡ r.actor_id
    → s.idempotency_key ≡ r.idempotency_key
    → s.input ≡ r.input
    → s.created_at ≡ r.created_at
    → s.trace ≡ r.trace
    → Evolves r s
touched r a b c d e f g h = record {
  same_run = a;
  same_kind = b;
  same_actor_type = c;
  same_actor = d;
  same_idempotency = e;
  same_input = f;
  same_creation = g;
  appended = ([], h ∙ sym (append-nil r.trace));
}

pub pushed : (entry : Value) (now : ℕ) (r : Run) → Evolves r (push_trace entry now r)
pushed entry now r = record {
  same_run = refl;
  same_kind = refl;
  same_actor_type = refl;
  same_actor = refl;
  same_idempotency = refl;
  same_input = refl;
  same_creation = refl;
  appended = (entry ∷ [], refl);
}

-- No row is lost, each evolves, and new rows stand at the end.
abbrev pub Grows : Table → Table → Type 0
Grows [] runs' = Unit
Grows (r ∷ runs) [] = ⊥
Grows (r ∷ runs) (s ∷ runs') = Evolves r s × Grows runs runs'

pub Evolves-refl : (r : Run) → Evolves r r
Evolves-refl r = record {
  same_run = refl;
  same_kind = refl;
  same_actor_type = refl;
  same_actor = refl;
  same_idempotency = refl;
  same_input = refl;
  same_creation = refl;
  appended = ([], sym (append-nil r.trace));
}

pub Evolves-trans : {r s t : Run} → Evolves r s → Evolves s t → Evolves r t
Evolves-trans {r} {s} {t} e f = record {
  same_run = f.same_run ∙ e.same_run;
  same_kind = f.same_kind ∙ e.same_kind;
  same_actor_type = f.same_actor_type ∙ e.same_actor_type;
  same_actor = f.same_actor ∙ e.same_actor;
  same_idempotency = f.same_idempotency ∙ e.same_idempotency;
  same_input = f.same_input ∙ e.same_input;
  same_creation = f.same_creation ∙ e.same_creation;
  appended = (
    e.appended.0 ++ f.appended.0,
    f.appended.1
        ∙ ap (λ x. x ++ f.appended.0) e.appended.1
        ∙ append_assoc r.trace e.appended.0 f.appended.0,
  );
}

pub Grows-refl : (runs : Table) → Grows runs runs
Grows-refl [] = tt
Grows-refl (r ∷ runs) = (Evolves-refl r, Grows-refl runs)

pub Grows-trans :
    (runs runs' runs'' : Table) → Grows runs runs' → Grows runs' runs'' → Grows runs runs''
Grows-trans [] runs' runs'' g h = tt
Grows-trans (r ∷ runs) [] runs'' g h = absurd g
Grows-trans (r ∷ runs) (s ∷ runs') [] g h = absurd h
Grows-trans (r ∷ runs) (s ∷ runs') (t ∷ runs'') (e, g) (f, h) =
    (Evolves-trans e f, Grows-trans runs runs' runs'' g h)

pub Grows-append : (runs more : Table) → Grows runs (runs ++ more)
Grows-append [] more = tt
Grows-append (r ∷ runs) more = (Evolves-refl r, Grows-append runs more)

-- A transaction that keeps the trigger's rule.
abbrev pub Keeps : {A : Type 0} → Tx A → Type 0
Keeps {A} m = (runs runs' : Table) (a : A) → m runs ≡ ok (a, runs') → Grows runs runs'

go_on-eq-ok :
    {A B : Type 0} (o : Result DbError (A × Table)) (f : A → Tx B) {b : B} {runs' : Table}
    → go_on o f ≡ ok (b, runs')
    → (a : A) × (mid : Table) × (o ≡ ok (a, mid)) × (f a mid ≡ ok (b, runs'))
go_on-eq-ok (err e) f h = cc
go_on-eq-ok (ok (a, mid)) f h = (a, mid, refl, h)

-- Inversion of a transaction in two parts.
pub tx-bind :
    {A B : Type 0} (m : Tx A) (f : A → Tx B) (runs : Table) {b : B} {runs' : Table}
    → (m >>= f) runs ≡ ok (b, runs')
    → (a : A) × (mid : Table) × (m runs ≡ ok (a, mid)) × (f a mid ≡ ok (b, runs'))
unfolding ◌>>=◌
tx-bind m f runs h = go_on-eq-ok (m runs) f h

pub tx-then :
    {A B : Type 0} (m : Tx A) (k : Tx B) (runs : Table) {b : B} {runs' : Table}
    → (m >> k) runs ≡ ok (b, runs')
    → (a : A) × (mid : Table) × (m runs ≡ ok (a, mid)) × (k mid ≡ ok (b, runs'))
unfolding ◌>>◌
tx-then m k runs h = tx-bind m (λ _. k) runs h

pub Keeps-bind :
    {A B : Type 0} (m : Tx A) (f : A → Tx B) → Keeps m → ((a : A) → Keeps (f a)) → Keeps (m >>= f)
Keeps-bind m f km kf runs runs'' b h =
    let (a, mid, first, second) = tx-bind m f runs h in
    Grows-trans runs mid runs'' (km runs mid a first) (kf a mid runs'' b second)

pub Keeps-then : {A B : Type 0} (m : Tx A) (k : Tx B) → Keeps m → Keeps k → Keeps (m >> k)
unfolding ◌>>◌
Keeps-then m k km kk = Keeps-bind m (λ _. k) km (λ _. kk)

Grows-eq : (runs runs' : Table) → runs ≡ runs' → Grows runs runs'
Grows-eq runs runs' e = subst (Grows runs) e (Grows-refl runs)

pub Keeps-return : {A : Type 0} (a : A) → Keeps (return a)
Keeps-return a runs runs' b h = Grows-eq runs runs' (cc)

pub Keeps-fail : {A : Type 0} (e : DbError) → Keeps (fail {A = A} e)
Keeps-fail e runs runs' b h = cc

pub Keeps-ensure : (b : Bool) (e : DbError) → Keeps (ensure b e)
Keeps-ensure true e = Keeps-return tt
Keeps-ensure false e = Keeps-fail e

pub Keeps-if : {A : Type 0} (b : Bool) (m k : Tx A) → Keeps m → Keeps k → Keeps (if b then m else k)
Keeps-if true m k km kk = km
Keeps-if false m k km kk = kk

pub Keeps-select : (p : Run → Bool) → Keeps (select p)
Keeps-select p runs runs' b h = Grows-eq runs runs' (cc)

Rewritten-Grows :
    (p : Run → Bool) (f : Run → Run)
    → ((r : Run) → Evolves r (f r))
    → {runs : Table} {n : ℕ} {runs' : Table} → Rewritten p f runs n runs'
    → Grows runs runs'
Rewritten-Grows p f ev ends = tt
Rewritten-Grows p f ev (writes {r = x} e w) = (ev x, Rewritten-Grows p f ev w)
Rewritten-Grows p f ev (leaves {r = x} e w) = (Evolves-refl x, Rewritten-Grows p f ev w)

pub Keeps-update :
    (allowed p : Run → Bool) (f : Run → Run)
    → ((r : Run) → Evolves r (f r))
    → Keeps (update allowed p f)
Keeps-update allowed p f ev runs runs' n h =
    Rewritten-Grows p f ev (update-Rewritten allowed p f runs n runs' h)

pub Keeps-insert_run : (allowed : Run → Bool) (r : Run) → Keeps (insert_run allowed r)
unfolding insert_run
Keeps-insert_run allowed r runs runs' a h =
    let same : runs ++ r ∷ [] ≡ runs' = ground arith in
    subst (Grows runs) same (Grows-append runs (r ∷ []))

pub Keeps-insert_if_new : (allowed : Run → Bool) (r : Run) → Keeps (insert_if_new allowed r)
unfolding insert_if_new
Keeps-insert_if_new allowed r runs runs' a h = elim (Bool-cases (any (has_id r.id) runs)) [
  | inl old ↦ Keeps-return tt runs runs' a (rw old at h)
  | inr new ↦ Keeps-insert_run allowed r runs runs' a (rw new at h)
]

-- What the caller sees keeps the rule as well: a failed transaction changes nothing.
pub Grows-commit : {A : Type 0} (m : Tx A) (runs : Table) → Keeps m → Grows runs (commit m runs).0
Grows-commit {A} m runs keep = outcome (m runs) refl
  where
    outcome : (o : Result DbError (A × Table)) → m runs ≡ o → Grows runs (settle runs o).0
    outcome (ok (a, runs')) e = keep runs runs' a e
    outcome (err e') e = Grows-refl runs
