-- ===== src/Runs/Once.antt =====
-- An update that its own effect bars: made again, it writes nothing.
use centaur_context.Common.{
  ℕ, ◌≡◌, refl, sym, ◌∙◌, Bool, true, false, not, ◌&&◌, Bool-cases, inl, inr, find, find-here,
  find-past, [], ◌∷◌, none, some, arith, All, ok,
}
use centaur_context.Runs.{Run, Table, has_id, update}
use centaur_context.Runs.Updates.{update-Rewritten}
use centaur_context.Runs.Rows.{All-Rewritten, update_rows-none}

not-true : (b : Bool) → b ≡ false → not b ≡ true
not-true b h = ground arith

not-false : (b : Bool) → not b ≡ true → b ≡ false
not-false b h = ground arith

-- The rows that the update takes no more.
abbrev pub Passed : (Run → Bool) → Table → Type 0
Passed p runs = All (λ r. not (p r) ≡ true) runs

Passed-miss : (p : Run → Bool) (runs : Table) → Passed p runs → All (λ r. p r ≡ false) runs
Passed-miss p [] g = tt
Passed-miss p (r ∷ runs) (fine, g) = (not-false (p r) fine, Passed-miss p runs g)

pub update-Passed :
    (allowed p : Run → Bool) (f : Run → Run)
    → ((r : Run) → p r ≡ true → p (f r) ≡ false)
    → (runs runs' : Table) (n : ℕ) → update allowed p f runs ≡ ok (n, runs')
    → Passed p runs'
update-Passed allowed p f barred runs runs' n h =
    All-Rewritten p (λ r. not (p r)) f (λ r e. not-true (p (f r)) (barred r e))
      (λ r e. not-true (p r) e) (update-Rewritten allowed p f runs n runs' h)

pub Passed-update :
    (allowed p : Run → Bool) (f : Run → Run) (runs : Table)
    → Passed p runs
    → update allowed p f runs ≡ ok (0, runs)
unfolding update
Passed-update allowed p f runs passed =
    rw (update_rows-none allowed p f runs (Passed-miss p runs passed)) refl

-- Where no row has the id, no row is taken.
pub no_row-Passed :
    (id : ℕ) (q : Run → Bool) (runs : Table)
    → find (has_id id) runs ≡ none
    → Passed (λ r. has_id id r && q r) runs
no_row-Passed id q [] h = tt
no_row-Passed id q (r ∷ runs) h = elim (Bool-cases (has_id id r)) [
  | inl here ↦ let both : some r ≡ none = sym (find-here (has_id id) r runs here) ∙ h in cc
  | inr away ↦
      (rw (away) refl, no_row-Passed id q runs (sym (find-past (has_id id) r runs away) ∙ h))
]
