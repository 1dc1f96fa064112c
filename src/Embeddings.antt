-- ===== src/Embeddings.antt =====
-- src/embeddings.rs: the windows of an Artifact that are embedded one by one.
-- A document is a text; a window is a pair of character offsets. The two loops run on fuel, `none`
-- when it runs out.
pub mod Fit
pub mod Windows
pub mod Laws
mod Tests
use centaur_context.Common.{
  ℕ, zero, suc, ◌+◌, ◌-◌, ◌/◌, ◌%◌, ◌≡◌, Bool, true, false, ◌&&◌, List, [], ◌∷◌, ◌++◌, Option, none,
  some, min, max, leb, ltb, ◌==◌, if◌then◌else◌, length, get_elem?, take, drop, is_none, map,
}
use centaur_context.Common.Integer.{ℤ, pos, negsuc, pos_part, neg_part}
use centaur_context.Text.{Text, lit, len}

abbrev pub artifact_embedding_format : Text
artifact_embedding_format = lit "centaur-artifact-chunk-v1"

abbrev pub artifact_chunk_characters : ℕ
artifact_chunk_characters = 6_000

abbrev pub artifact_chunk_overlap : ℕ
artifact_chunk_overlap = 600

abbrev pub artifact_embedding_max_bytes : ℕ
artifact_embedding_max_bytes = 8_000

abbrev newline : ℕ
newline = 10

-- What stands before the content.
unfoldable pub artifact_header : Text → Text
artifact_header title =
    artifact_embedding_format ++ newline ∷ lit "title: " ++ title ++ newline ∷ lit "content: "

unfoldable pub format_artifact_document : Text → Text → Text
unfolding artifact_header
format_artifact_document title content = artifact_header title ++ content

-- `characters[start..end]`
abbrev pub slice : Text → ℕ → ℕ → Text
slice characters start end = take (end - start) (drop start characters)

abbrev is_newline : Option ℕ → Bool
is_newline none = false
is_newline (some c) = c == newline

abbrev is_break : Text → ℕ → Bool
is_break characters index =
    ltb 0 index
    && is_newline (get_elem? characters (index - 1))
    && is_newline (get_elem? characters index)

-- `(from..from + count).rev().find(…)`
unfoldable pub last_break : Text → ℕ → ℕ → Option ℕ
last_break characters from zero = none
last_break characters from (suc count) =
    let earlier = last_break characters from count in
    if is_break characters (from + count) then some (from + count) else earlier

abbrev pub get_or_end : Option ℕ → ℕ → ℕ
get_or_end none end = end
get_or_end (some boundary) end = boundary

-- The first choice of a window's end: the last paragraph break of its second half, if there is one.
unfoldable pub preferred_end : Text → ℕ → ℕ
unfolding last_break
preferred_end characters start =
    let hard_end = min (start + artifact_chunk_characters) (length characters) in
    let minimum_boundary = start + artifact_chunk_characters / 2 in
    if ltb hard_end (length characters)
    then get_or_end (last_break characters minimum_boundary (hard_end - minimum_boundary)) hard_end
    else hard_end

-- The binary search of the longest prefix that fits, over the test `fits`.
unfoldable pub longest_fit : (ℕ → Bool) → ℕ → ℕ → ℕ → ℕ → Option ℕ
longest_fit fits zero low high safe_end = none
longest_fit fits (suc fuel) low high safe_end =
    let middle = low + (high - low) / 2 in
    let longer = longest_fit fits fuel (middle + 1) high middle in
    let shorter = longest_fit fits fuel low (middle - 1) safe_end in
    if leb low high then (if fits middle then longer else shorter) else some safe_end

-- `format_artifact_document(title, characters[start..end]).len() <= ARTIFACT_EMBEDDING_MAX_BYTES`
unfoldable pub fits_limit : Text → Text → ℕ → ℕ → Bool
unfolding format_artifact_document len artifact_header
fits_limit title characters start end =
    leb (len (format_artifact_document title (slice characters start end)))
      artifact_embedding_max_bytes

-- The end of the window that begins at `start`.
unfoldable pub window_end : Text → Text → ℕ → Option ℕ
unfolding preferred_end longest_fit fits_limit
window_end title characters start =
    let end = preferred_end characters start in
    if fits_limit title characters start end
    then some end
    else longest_fit (fits_limit title characters start) (end - start + 1) (start + 1) end start

infixl 5 ◌>>=◌
abbrev ◌>>=◌ : {A B : Type 0} → Option A → (A → Option B) → Option B
none >>= f = none
some a >>= f = f a

-- The outer loop from `start`, with the windows that it pushes.
unfoldable pub chunks_from : Text → Text → ℕ → ℕ → Option (List (ℕ × ℕ))
chunks_from title characters zero start = none
chunks_from title characters (suc fuel) start =
    let next = λ (end : ℕ).
      chunks_from title characters fuel (max (end - artifact_chunk_overlap) (start + 1)) in
    let last = some ((start, length characters) ∷ []) in
    let window = λ (end : ℕ).
      let more = next end >>= λ rest. some ((start, end) ∷ rest) in
      if end == start then some [] else if end == length characters then last else more in
    if ltb start (length characters)
    then (window_end title characters start >>= window)
    else some []

-- `n as i32`
abbrev pub as_i32 : ℕ → ℤ
as_i32 n =
    let low = n % 4_294_967_296 in
    if ltb low 2_147_483_648 then pos low else negsuc (4_294_967_295 - low)

-- `n as usize` for a signed number.
abbrev pub as_usize : ℤ → ℕ
as_usize (pos n) = n
as_usize (negsuc n) = 18_446_744_073_709_551_615 - n

abbrev as_offsets : ℕ × ℕ → ℤ × ℤ
as_offsets (start, end) = (as_i32 start, as_i32 end)

abbrev map_option : {A B : Type 0} → (A → B) → Option A → Option B
map_option f none = none
map_option f (some a) = some (f a)

unfoldable pub artifact_chunks : Text → Text → Option (List (ℤ × ℤ))
unfolding chunks_from window_end
artifact_chunks title content =
    map_option (map as_offsets) (chunks_from title content (length content + 1) 0)

-- `end - start` is computed in `i32`; the windows have `start <= end`.
unfoldable pub character_window : Text → ℤ → ℤ → Text
character_window content start end =
    take (as_usize end - as_usize start) (drop (as_usize start) content)
