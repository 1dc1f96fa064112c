-- ===== src/Runs/Rows.antt =====
-- What an update leaves in the row of an id.
use centaur_context.Common.{
  ℕ, ◌≡◌, ◌∙◌, refl, sym, subst, Bool, true, false, [], ◌∷◌, none, some, arith, Bool-cases, inl,
  inr, Result, ok, err, All, ◌≢◌, find, find-here, find-past,
}
use centaur_context.Errors.{DbError}
use centaur_context.Runs.{Run, Table, Tx, update_rows, update, has_id, ensure, commit, settle}
use centaur_context.Runs.Updates.{Rewritten, ends, writes, leaves, update-Rewritten}
use centaur_context.Runs.History.{Evolves}

-- The row of an id after the update of a matching row, or of a row that does not match.
abbrev pub updated : Bool → (Run → Run) → Run → Run
updated true f r = f r
updated false f r = r

pub has_id_of_find :
    (id : ℕ) (runs : Table) (r : Run) → find (has_id id) runs ≡ some r → has_id id r ≡ true
has_id_of_find id [] r h = cc
has_id_of_find id (x ∷ runs) r h = elim (Bool-cases (has_id id x)) [
  | inl here ↦
      let same : some x ≡ some r = rw (find-here (has_id id) x runs here) at h in
      let eq : x ≡ r = cc in subst (λ y. has_id id y ≡ true) eq here
  | inr away ↦ has_id_of_find id runs r (rw (find-past (has_id id) x runs away) at h)
]

module _ (p : Run → Bool) (f : Run → Run) (ev : (r : Run) → Evolves r (f r)) (id : ℕ) where
  same_id : (r : Run) → has_id id (f r) ≡ has_id id r
  same_id r = rw (ev r).same_run refl

  find-Rewritten :
      {runs : Table} {n : ℕ} {runs' : Table} (r : Run)
      → Rewritten p f runs n runs'
      → find (has_id id) runs ≡ some r
      → find (has_id id) runs' ≡ some (updated (p r) f r)
  find-Rewritten r ends h = cc
  find-Rewritten r (writes {r = x} {runs} {n} {runs' = mid} e w) h =
      elim (Bool-cases (has_id id x)) [
        | inl here ↦
            let both : some x ≡ some r = sym (find-here (has_id id) x runs here) ∙ h in
            let same : x ≡ r = cc in
            rw (find-here (has_id id) (f x) mid (same_id x ∙ here), ← same, e) refl
        | inr away ↦
            rw (find-past (has_id id) (f x) mid (same_id x ∙ away))
              (find-Rewritten r w (sym (find-past (has_id id) x runs away) ∙ h))
      ]
  find-Rewritten r (leaves {r = x} {runs} {n} {runs' = mid} e w) h =
      elim (Bool-cases (has_id id x)) [
        | inl here ↦
            let both : some x ≡ some r = sym (find-here (has_id id) x runs here) ∙ h in
            let same : x ≡ r = cc in rw (find-here (has_id id) x mid here, ← same, e) refl
        | inr away ↦
            rw (find-past (has_id id) x mid away)
              (find-Rewritten r w (sym (find-past (has_id id) x runs away) ∙ h))
      ]

-- The row of an id after an update that leaves the ids.
pub find-update :
    (allowed p : Run → Bool) (f : Run → Run) (ev : (r : Run) → Evolves r (f r)) (id : ℕ)
    (runs : Table) (n : ℕ) (runs' : Table) (r : Run)
    → find (has_id id) runs ≡ some r
    → update allowed p f runs ≡ ok (n, runs')
    → find (has_id id) runs' ≡ some (updated (p r) f r)
find-update allowed p f ev id runs n runs' r h k =
    find-Rewritten p f ev id r (update-Rewritten allowed p f runs n runs' k) h

-- What the caller sees of a transaction that succeeded.
pub commit-eq-ok :
    {A : Type 0} (m : Tx A) (runs runs' : Table) (a : A)
    → commit m runs ≡ (runs', ok a)
    → m runs ≡ ok (a, runs')
commit-eq-ok {A} m runs runs' a h = outcome (m runs) refl h
  where
    outcome :
        (o : Result DbError (A × Table))
        → m runs ≡ o
        → settle runs o ≡ (runs', ok a)
        → m runs ≡ ok (a, runs')
    outcome (ok (b, mid)) e k = cc
    outcome (err e') e k = cc

-- A check that passes.
pub ensure-eq-ok :
    (b : Bool) (e : DbError) (runs runs' : Table) {x : Unit {0}}
    → ensure b e runs ≡ ok (x, runs')
    → (b ≡ true) × (runs ≡ runs')
ensure-eq-ok true e runs runs' h = (refl, cc)
ensure-eq-ok false e runs runs' h = cc

-- An update that matches no row.
pub update_rows-none :
    (allowed p : Run → Bool) (f : Run → Run) (runs : Table)
    → All (λ r. p r ≡ false) runs
    → update_rows allowed p f runs ≡ some (0, runs)
unfolding update_rows
update_rows-none allowed p f [] h = refl
update_rows-none allowed p f (r ∷ runs) (miss, h) = rw (update_rows-none allowed p f runs h, miss)

module _ (p q : Run → Bool) (f : Run → Run) where
  -- What an update leaves: every row satisfies `q`, if the rows that it writes and those that it
  -- skips do.
  pub All-Rewritten :
      ((r : Run) → p r ≡ true → q (f r) ≡ true)
      → ((r : Run) → p r ≡ false → q r ≡ true)
      → {runs : Table} {n : ℕ} {runs' : Table} → Rewritten p f runs n runs'
      → All (λ r. q r ≡ true) runs'
  All-Rewritten wrote skipped ends = tt
  All-Rewritten wrote skipped (writes {r = x} e w) = (wrote x e, All-Rewritten wrote skipped w)
  All-Rewritten wrote skipped (leaves {r = x} e w) = (skipped x e, All-Rewritten wrote skipped w)

  find-past_any : (r : Run) (runs : Table) → find q runs ≢ none → find q (r ∷ runs) ≢ none
  find-past_any r runs h = ground arith

  -- If a row was written, the table has a row that satisfies what the written ones do.
  pub find-written :
      ((r : Run) → p r ≡ true → q (f r) ≡ true)
      → {runs : Table} {n : ℕ} {runs' : Table} → Rewritten p f runs n runs'
      → n ≢ 0
      → find q runs' ≢ none
  find-written wrote ends pos = absurd (pos refl)
  find-written wrote (writes {r = x} {runs} {n} {runs' = mid} e w) pos =
      rw (find-here q (f x) mid (wrote x e)) (cc)
  find-written wrote (leaves {r = x} {runs} {n} {runs' = mid} e w) pos =
      find-past_any x mid (find-written wrote w pos)
