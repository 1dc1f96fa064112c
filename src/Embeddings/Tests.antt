-- ===== src/Embeddings/Tests.antt =====
-- Runs of the Artifact windows, and the theorems at concrete inputs.
use centaur_context.Common.{
  ℕ, ◌<◌, ◌≤◌, ◌≡◌, refl, true, List, [], ◌∷◌, some, arith, length, All, leb,
}
use centaur_context.Common.Integer.{ℤ, pos}
use centaur_context.Text.{Text, len, lit}
use centaur_context.Embeddings.{artifact_chunks, longest_fit}
use centaur_context.Embeddings.Fit.{IsLongest, longest_fit_lem}
use centaur_context.Embeddings.Laws.{
  IsEmbeddable, Covered, artifact_chunks-IsEmbeddable, artifact_chunks_cover,
}

abbrev title : Text
title = lit "Report"

abbrev content : Text
content = lit "First paragraph."

one_window : artifact_chunks title content ≡ some ((pos 0, pos 16) ∷ [])
unfolding artifact_chunks
one_window = refl

artifact_chunks-IsEmbeddable_example :
    (ws : List (ℤ × ℤ)) × (artifact_chunks title content ≡ some ws)
    × All (IsEmbeddable title content) ws
artifact_chunks-IsEmbeddable_example = artifact_chunks-IsEmbeddable title content (omega arith)

title_fits : len title ≤ 7_953
unfolding len
title_fits = omega arith

artifact_chunks_cover_example :
    (ws : List (ℤ × ℤ)) × (artifact_chunks title content ≡ some ws)
    × ((i : ℕ) → i < length content → Covered i ws)
artifact_chunks_cover_example = artifact_chunks_cover title content title_fits (omega arith)

under_seven_mono : (a b : ℕ) → a ≤ b → leb b 7 ≡ true → leb a 7 ≡ true
under_seven_mono a b h f = ground arith

longest_fit_lem_example :
    (e : ℕ) × (longest_fit (λ n. leb n 7) 13 1 12 0 ≡ some e) × IsLongest (λ n. leb n 7) 0 12 e
longest_fit_lem_example =
    longest_fit_lem (λ n. leb n 7) under_seven_mono 13 1 12 0 (omega arith) refl (omega arith)
