-- ===== src/Embeddings/Fit.antt =====
-- src/embeddings.rs: the binary search of a window's end, and the window that it gives.
use centaur_context.Common.{
  ℕ, zero, suc, ◌+◌, ◌-◌, ◌/◌, ◌≤◌, ◌<◌, ◌≡◌, refl, Bool, true, false, some, min, arith, leb, ltb,
  leb→le, le→leb, leb→lt, Bool-cases, Option-cases, ltb→lt, ◌⊎◌, inl, inr, length, drop,
}
use centaur_context.Text.{Text}
use centaur_context.Text.Laws.{len-append, len-take_mono}
use centaur_context.Embeddings.{
  longest_fit, artifact_header, slice, fits_limit, preferred_end, window_end, last_break,
  get_or_end, artifact_chunk_characters,
}

-- What the search finds between `best`, the bound below, and `high`.
abbrev pub IsLongest : (ℕ → Bool) → ℕ → ℕ → ℕ → Type 0
IsLongest fits best high e =
    (best ≤ e)
    × (e ≤ high)
    × ((e ≡ best) ⊎ (fits e ≡ true))
    × ((m : ℕ) → m ≤ high → fits m ≡ true → m ≤ e)

module _ (fits : ℕ → Bool) (mono : (a b : ℕ) → a ≤ b → fits b ≡ true → fits a ≡ true) where
  below_misfit : (m k : ℕ) → fits k ≡ false → fits m ≡ true → m < k
  below_misfit m k no_fit h = elim (Bool-cases (leb k m)) [
    | inl le ↦ let f : fits k ≡ true = mono k m (leb→le k m le) h in cc
    | inr lt ↦ leb→lt k m lt
  ]

  -- With fuel for the interval the search ends, at the longest fit.
  pub longest_fit_lem :
      (fuel low high best : ℕ)
      → high + 1 - low < fuel
      → best + 1 ≡ low
      → best ≤ high
      → (e : ℕ) × (longest_fit fits fuel low high best ≡ some e) × IsLongest fits best high e
  unfolding longest_fit
  longest_fit_lem zero low high best enough next h = absurd (omega arith)
  longest_fit_lem (suc fuel) low high best enough next h = elim (Bool-cases (leb low high)) [
    | inr done ↦
        let ends : high ≡ best = omega (arith, leb→lt low high done) in
        (best, rw done, (omega arith, omega arith, inl refl, λ m le f. omega arith))
    | inl more ↦
        let le : low ≤ high = leb→le low high more in
        let middle = low + (high - low) / 2 in
        elim (Bool-cases (fits middle)) [
          | inl good ↦
              let (e, found, (above, under, chosen, longest)) =
                longest_fit_lem fuel (middle + 1) high middle (omega arith) refl (omega arith) in
              (
                e,
                rw (more, good) found,
                (omega arith, under, inr (fit_of middle e good chosen), longest),
              )
          | inr bad ↦
              let (e, found, (above, under, chosen, longest)) =
                longest_fit_lem fuel low (middle - 1) best (omega arith) next (omega arith) in
              (
                e,
                rw (more, bad) found,
                (
                  above,
                  omega arith,
                  chosen,
                  λ m le f. longest m (omega (arith, below_misfit m middle bad f)) f,
                ),
              )
        ]
  ]
    where
      fit_of : (k e : ℕ) → fits k ≡ true → (e ≡ k) ⊎ (fits e ≡ true) → fits e ≡ true
      fit_of k e good (inl same) = rw same good
      fit_of k e good (inr fit) = fit

-- A shorter window fits if a longer one does.
pub fits_limit_mono :
    (title characters : Text) (start a b : ℕ)
    → a ≤ b
    → fits_limit title characters start b ≡ true
    → fits_limit title characters start a ≡ true
unfolding fits_limit
fits_limit_mono title characters start a b h f = le→leb _ _ (
    omega (
      arith,
      leb→le _ _ f,
      len-append (artifact_header title) (slice characters start a),
      len-append (artifact_header title) (slice characters start b),
      len-take_mono (a - start) (b - start) (drop start characters),
    ))

last_break_range :
    (characters : Text) (from count b : ℕ)
    → last_break characters from count ≡ some b
    → (from ≤ b) × (b < from + count)
unfolding last_break
last_break_range characters from zero b h = cc
last_break_range characters from (suc count) b h =
    ground (arith, last_break_range characters from count b)

get_or_end_range :
    (characters : Text) (from count high : ℕ)
    → from + count ≤ high
    → (get_or_end (last_break characters from count) high ≤ high)
      × (min from high ≤ get_or_end (last_break characters from count) high)
get_or_end_range characters from count high h =
    elim (Option-cases (last_break characters from count)) [
      | inl nothing ↦ rw nothing (omega arith)
      | inr (b, found) ↦
          let range = last_break_range characters from count b found in rw found (omega arith)
    ]

-- The first choice of an end lies behind the start, within the text and the size of a window.
pub preferred_end_range :
    (characters : Text) (start : ℕ)
    → start < length characters
    → (start < preferred_end characters start)
      × (preferred_end characters start ≤ length characters)
      × (preferred_end characters start ≤ start + artifact_chunk_characters)
unfolding preferred_end
preferred_end_range characters start h = elim (Bool-cases (ltb hard_end (length characters))) [
  | inr last ↦ rw last (omega arith)
  | inl short ↦
      let past : hard_end < length characters = ltb→lt _ _ short in
      let found =
        get_or_end_range characters (start + 3_000) (hard_end - (start + 3_000)) hard_end in
      rw short (omega (arith, found (omega arith)))
]
  where
    hard_end : ℕ
    hard_end = min (start + 6_000) (length characters)

-- What the end of a window satisfies.
pub record IsWindowEnd (title characters : Text) (start e : ℕ) : Type 0 where
  pub chosen : window_end title characters start ≡ some e
  pub above : start ≤ e
  pub inside : e ≤ length characters
  pub sized : e ≤ start + artifact_chunk_characters
  pub fitting : (e ≡ start) ⊎ (fits_limit title characters start e ≡ true)
  pub moving : fits_limit title characters start (start + 1) ≡ true → start < e

pub window_end_lem :
    (title characters : Text) (start : ℕ)
    → start < length characters
    → (e : ℕ) × IsWindowEnd title characters start e
unfolding window_end
window_end_lem title characters start h =
    let (behind, inside, sized) = preferred_end_range characters start h in
    let end = preferred_end characters start in
    elim (Bool-cases (fits_limit title characters start end)) [
      | inl good ↦ (
        end,
        record {
          chosen = rw good;
          above = omega arith;
          inside = inside;
          sized = sized;
          fitting = inr good;
          moving = λ f. behind;
        },
      )
      | inr bad ↦
          let (e, found, (above, under, chosen, longest)) =
            longest_fit_lem (fits_limit title characters start)
              (fits_limit_mono title characters start) (end - start + 1) (start + 1) end start
              (omega arith) refl (omega arith) in
          (
            e,
            record {
              chosen = rw bad found;
              above = above;
              inside = omega arith;
              sized = omega arith;
              fitting = chosen;
              moving = λ f. omega (arith, longest (start + 1) (omega arith) f);
            },
          )
    ]
