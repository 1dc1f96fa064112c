-- ===== src/Embeddings/Laws.antt =====
-- src/embeddings.rs: what the windows of an Artifact guarantee.
use centaur_context.Common.{
  ℕ, ◌+◌, ◌-◌, ◌≤◌, ◌<◌, ◌≡◌, refl, List, [], ◌∷◌, some, arith, ◌⊎◌, inl, inr, length, All, map,
  drop, length-take, length-drop, leb→le, le→leb, ltb, Bool-cases, ltb→le,
}
use centaur_context.Common.Integer.{ℤ}
use centaur_context.Text.{Text, len, lit}
use centaur_context.Text.Laws.{len-append, len-le-length}
use centaur_context.Embeddings.{
  artifact_header, format_artifact_document, fits_limit, slice, as_i32, as_usize, as_offsets,
  artifact_chunks, character_window, artifact_embedding_max_bytes, artifact_chunk_characters,
}
use centaur_context.Embeddings.Windows.{IsWindow, Links, FitsSingly, chunks_from_lem}

-- An offset below 2^31 survives the two casts.
as_usize-as_i32 : (n : ℕ) → n < 2_147_483_648 → as_usize (as_i32 n) ≡ n
as_usize-as_i32 n h = ground arith

-- What the embedding of a window needs.
abbrev pub IsEmbeddable : Text → Text → ℤ × ℤ → Type 0
IsEmbeddable title content (start, end) =
    (0 < length (character_window content start end))
    × (length (character_window content start end) ≤ artifact_chunk_characters)
    × (len (format_artifact_document title (character_window content start end))
        ≤ artifact_embedding_max_bytes)

-- The text that is embedded is the window that was measured.
character_window-as_offsets :
    (content : Text) (w : ℕ × ℕ)
    → w.0 < w.1
    → w.1 ≤ length content
    → length content < 2_147_483_648
    → character_window content (as_offsets w).0 (as_offsets w).1 ≡ slice content w.0 w.1
unfolding character_window
character_window-as_offsets content (s, e) lt le short =
    rw (as_usize-as_i32 s (omega arith), as_usize-as_i32 e (omega arith))

embeddable :
    (title content : Text) (w : ℕ × ℕ)
    → length content < 2_147_483_648
    → IsWindow title content w
    → IsEmbeddable title content (as_offsets w)
unfolding fits_limit
embeddable title content (s, e) short (lt, inside, sized, fit) =
    rw (character_window-as_offsets content (s, e) lt inside short) (
      omega (arith, length-take (e - s) (drop s content), length-drop s content),
      omega (arith, length-take (e - s) (drop s content), length-drop s content),
      leb→le _ _ fit,
    )

All-IsEmbeddable :
    (title content : Text) (ws : List (ℕ × ℕ))
    → length content < 2_147_483_648
    → All (IsWindow title content) ws
    → All (IsEmbeddable title content) (map as_offsets ws)
All-IsEmbeddable title content [] short h = tt
All-IsEmbeddable title content (w ∷ ws) short (p, h) =
    (embeddable title content w short p, All-IsEmbeddable title content ws short h)

-- Some window of the list holds the offset.
abbrev pub Covered : ℕ → List (ℤ × ℤ) → Type 0
Covered i [] = ⊥
Covered i ((start, end) ∷ ws) = ((as_usize start ≤ i) × (i < as_usize end)) ⊎ Covered i ws

covered :
    (title content : Text) (total i reach : ℕ) (ws : List (ℕ × ℕ))
    → All (IsWindow title content) ws
    → length content < 2_147_483_648
    → Links total reach ws
    → reach ≤ i
    → i < total
    → Covered i (map as_offsets ws)
covered title content total i reach [] h short l le lt = omega arith
covered title content total i reach ((s, e) ∷ ws) (w, h) short (joined, grows, l) le lt =
    elim (Bool-cases (ltb i e)) [
      | inl inside ↦ inl (
          rw (as_usize-as_i32 s (omega (arith, w.0, w.1)), as_usize-as_i32 e (omega (arith, w.1)))
            (omega arith, ground arith))
      | inr beyond ↦ inr (covered title content total i e ws h short l (ltb→le i e beyond) lt)
    ]

-- A header that leaves four bytes lets every single character through.
len-header : (title : Text) → len (artifact_header title) ≡ len title + 43
unfolding artifact_header len
len-header title = omega (arith, len-append title (10 ∷ lit "content: "))

FitsSingly-of_len : (title content : Text) → len title ≤ 7_953 → FitsSingly title content
unfolding fits_limit
FitsSingly-of_len title content h i lt = le→leb _ _ (
    omega (
      arith,
      len-header title,
      len-append (artifact_header title) (slice content i (i + 1)),
      len-le-length (slice content i (i + 1)),
      length-take (i + 1 - i) (drop i content),
    ))

Links-Covered :
    (title content : Text) (ws : List (ℕ × ℕ))
    → length content < 2_147_483_648
    → All (IsWindow title content) ws
    → Links (length content) 0 ws
    → (i : ℕ) → i < length content
    → Covered i (map as_offsets ws)
Links-Covered title content ws short good l i lt =
    covered title content (length content) i 0 ws good short l (omega arith) lt

-- Of a text of fewer than 2^31 characters `artifact_chunks` returns windows, and the text of each
-- is not empty, has at most 6000 characters, and makes a document of at most 8000 bytes.
pub artifact_chunks-IsEmbeddable :
    (title content : Text)
    → length content < 2_147_483_648
    → (ws : List (ℤ × ℤ)) × (artifact_chunks title content ≡ some ws)
      × All (IsEmbeddable title content) ws
unfolding artifact_chunks
artifact_chunks-IsEmbeddable title [] short = ([], refl, tt)
artifact_chunks-IsEmbeddable title (c ∷ content) short =
    let (ws, found, good, links) =
      chunks_from_lem title (c ∷ content) (length (c ∷ content) + 1) 0 (omega arith)
        (omega arith) in
    (map as_offsets ws, rw found, All-IsEmbeddable title (c ∷ content) ws short good)

-- If the title has at most 7953 bytes and the text fewer than 2^31 characters, every character of
-- the text lies in some window that `artifact_chunks` returns.
pub artifact_chunks_cover :
    (title content : Text)
    → len title ≤ 7_953
    → length content < 2_147_483_648
    → (ws : List (ℤ × ℤ)) × (artifact_chunks title content ≡ some ws)
      × ((i : ℕ) → i < length content → Covered i ws)
unfolding artifact_chunks
artifact_chunks_cover title [] room short = ([], refl, λ i lt. absurd (omega arith))
artifact_chunks_cover title (c ∷ content) room short =
    let text = c ∷ content in
    let (ws, found, good, links) =
      chunks_from_lem title text (length text + 1) 0 (omega arith) (omega arith) in
    let linked = links (FitsSingly-of_len title text room) 0 (omega arith) in
    (map as_offsets ws, rw found, Links-Covered title text ws short good linked)
