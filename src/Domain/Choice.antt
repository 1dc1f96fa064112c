-- ===== src/Domain/Choice.antt =====
-- src/domain.rs: `allowed`, the choice of one of some texts.
use Prim.Native.String.{String}
use centaur_context.Common.{◌≡◌, refl, true, List, All, Bool-cases, inl, inr, ok}
use centaur_context.Text.{Text, trim, contains}
use centaur_context.Text.Laws.{contains-All}
use centaur_context.Domain.{Unicode, allowed}

module _ (u : Unicode) where
  pub allowed-eq-ok :
      (v : Text) (name : String) (values : List Text) (w : Text)
      → allowed u v name values ≡ ok w
      → (w ≡ u.to_lowercase (trim v)) × (contains values w ≡ true)
  unfolding allowed
  allowed-eq-ok v name values w h = elim (Bool-cases (contains values (u.to_lowercase (trim v)))) [
    | inl known ↦ let same = taken known in (same, rw (same) known)
    | inr other ↦ let refused = rw (other) at h in cc
  ]
    where
      taken : contains values (u.to_lowercase (trim v)) ≡ true → w ≡ u.to_lowercase (trim v)
      taken known = let passed = rw (known) at h in cc

  -- The choices that trimming and lower case leave alone.
  abbrev pub IsSettled : Text → Type 0
  IsSettled s = u.to_lowercase (trim s) ≡ s

  -- An accepted choice is accepted again, unchanged.
  pub allowed_idem :
      (v : Text) (name : String) (values : List Text) (w : Text)
      → All IsSettled values
      → allowed u v name values ≡ ok w
      → allowed u w name values ≡ ok w
  unfolding allowed
  allowed_idem v name values w settled h =
      let (_, known) = allowed-eq-ok v name values w h in
      let same = contains-All IsSettled values w settled known in rw (same, known) refl
