-- ===== src/Embeddings/Windows.antt =====
-- src/embeddings.rs: the loop that cuts a text into windows.
use centaur_context.Common.{
  ℕ, zero, suc, ◌+◌, ◌-◌, ◌≤◌, ◌<◌, ◌≡◌, refl, true, false, List, [], ◌∷◌, some, max, arith, ◌==◌,
  ==→eq, lt→ltb, Bool-cases, inl, inr, length, All,
}
use centaur_context.Text.{Text}
use centaur_context.Embeddings.{fits_limit, chunks_from, artifact_chunk_characters}
use centaur_context.Embeddings.Fit.{IsWindowEnd, window_end_lem}

-- A window lies in the text, is not empty, and is within both limits.
abbrev pub IsWindow : Text → Text → ℕ × ℕ → Type 0
IsWindow title characters (start, end) =
    (start < end)
    × (end ≤ length characters)
    × (end ≤ start + artifact_chunk_characters)
    × (fits_limit title characters start end ≡ true)

-- Each window begins at or before the end of the one before it, and the last ends at `total`.
abbrev pub Links : ℕ → ℕ → List (ℕ × ℕ) → Type 0
Links total reach [] = reach ≡ total
Links total reach ((start, end) ∷ ws) = (start ≤ reach) × (start < end) × Links total end ws

-- Every single character fits under the title.
abbrev pub FitsSingly : Text → Text → Type 0
FitsSingly title characters =
    (i : ℕ) → i < length characters → fits_limit title characters i (i + 1) ≡ true

abbrev Cut : Text → Text → ℕ → ℕ → Type 0
Cut title characters fuel start =
    (ws : List (ℕ × ℕ)) × (chunks_from title characters fuel start ≡ some ws)
    × All (IsWindow title characters) ws
    × (FitsSingly title characters
        → (reach : ℕ) → start ≤ reach
        → Links (length characters) reach ws)

==-ne : (a b : ℕ) → (a == b) ≡ false → b ≤ a → b < a
==-ne a b h le = ground arith

==-ne_below : (a b : ℕ) → (a == b) ≡ false → a ≤ b → a < b
==-ne_below a b h le = ground arith

-- A window that has moved fits.
moved_fits :
    (title characters : Text) (start e : ℕ)
    → IsWindowEnd title characters start e
    → start < e
    → fits_limit title characters start e ≡ true
moved_fits title characters start e w lt = elim w.fitting [
  | inl same ↦ absurd (omega arith)
  | inr fit ↦ fit
]

-- With fuel for the characters left, the loop ends with the windows described.
pub chunks_from_lem :
    (title characters : Text) (fuel start : ℕ)
    → start < length characters
    → length characters - start < fuel
    → Cut title characters fuel start
unfolding chunks_from
chunks_from_lem title characters zero start h enough = absurd (omega arith)
chunks_from_lem title characters (suc fuel) start h enough =
    let (e, w) = window_end_lem title characters start h in
    let here = lt→ltb start (length characters) h in
    elim (Bool-cases (e == start)) [
      | inl stuck ↦
          let same : e ≡ start = ==→eq e start stuck in
          (
            [],
            rw (here, w.chosen, stuck),
            tt,
            λ single reach le. absurd (omega (arith, w.moving (single start h))),
          )
      | inr moved ↦
          let lt : start < e = ==-ne e start moved w.above in
          let fit = moved_fits title characters start e w lt in
          elim (Bool-cases (e == length characters)) [
            | inl last ↦
                let same : e ≡ length characters = ==→eq e (length characters) last in
                (
                  (start, length characters) ∷ [],
                  rw (here, w.chosen, moved, last),
                  ((omega arith, omega arith, omega (arith, w.sized), rw same at fit), tt),
                  λ single reach le. (le, omega arith, refl),
                )
            | inr more ↦
                let next = max (e - 600) (start + 1) in
                let inner : e < length characters =
                  ==-ne_below e (length characters) more w.inside in
                let (ws, found, good, links) =
                  chunks_from_lem title characters fuel next (omega arith) (omega arith) in
                (
                  (start, e) ∷ ws,
                  rw (here, w.chosen, moved, more, found),
                  ((lt, w.inside, w.sized, fit), good),
                  λ single reach le. (le, lt, links single e (omega arith)),
                )
          ]
    ]
