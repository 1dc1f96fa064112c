-- ===== src/Runs/Updates.antt =====
-- What an `UPDATE` does, as a relation between the table before it and the table after it.
use centaur_context.Common.{
  ℕ, zero, suc, ◌≡◌, refl, subst, Bool, true, false, [], ◌∷◌, Option, none, some, Option-cases, inl,
  inr, ok, ok_or,
}
use centaur_context.Errors.{DbError, sqlx}
use centaur_context.Runs.{Run, Table, put_row, update_rows, update}

-- The rows that `p` takes are written by `f`, and counted.
pub data Rewritten (p : Run → Bool) (f : Run → Run) : Table → ℕ → Table → Type 0 where
  ends : Rewritten p f [] zero []
  writes :
      {r : Run} {runs : Table} {n : ℕ} {runs' : Table}
      → p r ≡ true
      → Rewritten p f runs n runs'
      → Rewritten p f (r ∷ runs) (suc n) (f r ∷ runs')
  leaves :
      {r : Run} {runs : Table} {n : ℕ} {runs' : Table}
      → p r ≡ false
      → Rewritten p f runs n runs'
      → Rewritten p f (r ∷ runs) n (r ∷ runs')

module _ (allowed p : Run → Bool) (f : Run → Run) where
  put_row-Rewritten :
      (r : Run) (runs mid runs' : Table) (m n : ℕ) (taken fine : Bool)
      → p r ≡ taken
      → Rewritten p f runs m mid
      → put_row taken fine (f r) r m mid ≡ some (n, runs')
      → Rewritten p f (r ∷ runs) n runs'
  put_row-Rewritten r runs mid runs' m n true true e w h =
      let count : suc m ≡ n = cc in
      let table : f r ∷ mid ≡ runs' = cc in
      subst (Rewritten p f (r ∷ runs) n) table
        (subst (λ k. Rewritten p f (r ∷ runs) k (f r ∷ mid)) count (writes e w))
  put_row-Rewritten r runs mid runs' m n true false e w h = cc
  put_row-Rewritten r runs mid runs' m n false fine e w h =
      let count : m ≡ n = cc in
      let table : r ∷ mid ≡ runs' = cc in
      subst (Rewritten p f (r ∷ runs) n) table
        (subst (λ k. Rewritten p f (r ∷ runs) k (r ∷ mid)) count (leaves e w))

  pub update_rows-Rewritten :
      (runs : Table) (n : ℕ) (runs' : Table)
      → update_rows allowed p f runs ≡ some (n, runs')
      → Rewritten p f runs n runs'
  unfolding update_rows
  update_rows-Rewritten [] n runs' h =
      let count : 0 ≡ n = cc in
      let table : [] ≡ runs' = cc in
      subst (Rewritten p f [] n) table (subst (λ k. Rewritten p f [] k []) count ends)
  update_rows-Rewritten (r ∷ runs) n runs' h = elim (Option-cases (update_rows allowed p f runs)) [
    | inl bad ↦ let broken : ◌≡◌ {A = Option (ℕ × Table)} none (some (n, runs')) = rw bad at h in cc
    | inr ((m, mid), good) ↦
        put_row-Rewritten r runs mid runs' m n (p r) (allowed (f r)) refl
          (update_rows-Rewritten runs m mid good) (rw good at h)
  ]

  pub update-eq-ok :
      (runs mid : Table) (n : ℕ)
      → update allowed p f runs ≡ ok (n, mid)
      → update_rows allowed p f runs ≡ some (n, mid)
  unfolding update
  update-eq-ok runs mid n h = outcome (update_rows allowed p f runs) refl h
    where
      outcome :
          (o : Option (ℕ × Table))
          → update_rows allowed p f runs ≡ o
          → ok_or {E = DbError} o sqlx ≡ ok (n, mid)
          → update_rows allowed p f runs ≡ some (n, mid)
      outcome none e k = cc
      outcome (some (m, t)) e k = cc

  pub update-Rewritten :
      (runs : Table) (n : ℕ) (runs' : Table)
      → update allowed p f runs ≡ ok (n, runs')
      → Rewritten p f runs n runs'
  update-Rewritten runs n runs' h = update_rows-Rewritten runs n runs' (update-eq-ok runs runs' n h)
