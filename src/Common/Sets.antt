-- ===== src/Common/Sets.antt =====
-- Rust's sets of ids and texts, as lists with a test for equality.
use Prim.Native.Nat.{ℕ, suc, ◌≤◌}
use mathlib.Core.Path.{◌≡◌, refl}
use mathlib.Core.Bool.{Bool, false, ◌||◌}
use mathlib.Core.List.{List, [], ◌∷◌}
use mathlib.Core.Logic.{inl, inr}
use native.Mathlib.Omega.{arith}
use centaur_context.Common.Tests.{if◌then◌else◌, ◌==◌, Bool-cases}
use centaur_context.Common.Lists.{length, any, All}

module _ {A : Type 0} (eq : A → A → Bool) where
  abbrev pub has : A → List A → Bool
  has x ys = any (eq x) ys

  -- `iter().collect::<HashSet<_>>()`
  abbrev pub unique : List A → List A
  unique [] = []
  unique (x ∷ xs) = let rest = unique xs in if has x rest then rest else x ∷ rest

  abbrev pub Distinct : List A → Type 0
  Distinct [] = Unit
  Distinct (x ∷ xs) = (has x xs ≡ false) × Distinct xs

  pub length-unique-le : (xs : List A) → length (unique xs) ≤ length xs
  length-unique-le [] = omega arith
  length-unique-le (x ∷ xs) = ground (arith, length-unique-le xs)

  dropped : {m n : ℕ} → m ≤ n → m ≡ suc n → ⊥
  dropped p q = omega arith

  kept : {m n : ℕ} → suc m ≡ suc n → m ≡ n
  kept q = omega arith

  unique_full : (xs : List A) → length (unique xs) ≡ length xs → unique xs ≡ xs
  unique_full [] h = refl
  unique_full (x ∷ xs) h = elim (Bool-cases (has x (unique xs))) [
    | inl seen ↦ absurd (dropped (length-unique-le xs) (rw seen at h))
    | inr new ↦ rw (new, unique_full xs (kept (rw new at h))) refl
  ]

  -- A list as long as its set has no element twice.
  pub Distinct-of_length : (xs : List A) → length (unique xs) ≡ length xs → Distinct xs
  Distinct-of_length [] h = tt
  Distinct-of_length (x ∷ xs) h = elim (Bool-cases (has x (unique xs))) [
    | inl seen ↦ absurd (dropped (length-unique-le xs) (rw seen at h))
    | inr new ↦
        let same = kept (rw new at h) in
        (rw (unique_full xs same) at new, Distinct-of_length xs same)
  ]

abbrev pub same_number : ℕ → ℕ → Bool
same_number a b = a == b

pub same_number_comm : (a b : ℕ) → same_number a b ≡ same_number b a
same_number_comm a b = ground arith

-- Ids that a loop takes one at a time, each of them not yet taken.
module _ {A : Type 0} (eq : A → A → Bool) where
  pub record IsFresh (taken ids : List A) : Type 0 where
    pub distinct : Distinct eq ids
    pub untaken : All (λ id. has eq id taken ≡ false) ids

  pub IsFresh-nil : (taken : List A) → IsFresh taken []
  IsFresh-nil taken = record { distinct = tt; untaken = tt }

  module _ (comm : (a b : A) → eq a b ≡ eq b a) where
    later : (x id : A) (b : Bool) → (eq id x || b) ≡ false → (eq x id ≡ false) × (b ≡ false)
    later x id b h = rw (comm x id) (both _ b h)
      where
        both : (a b : Bool) → (a || b) ≡ false → (a ≡ false) × (b ≡ false)
        both a b k = (ground arith, ground arith)

    fresh_past :
        (x : A) (taken ids : List A)
        → All (λ id. has eq id (x ∷ taken) ≡ false) ids
        → (has eq x ids ≡ false) × All (λ id. has eq id taken ≡ false) ids
    fresh_past x taken [] h = (refl, tt)
    fresh_past x taken (id ∷ ids) (h, k) =
        let (other, past) = later x id (has eq id taken) h in
        let (others, rest) = fresh_past x taken ids k in (rw (other) others, (past, rest))

    pub IsFresh-cons :
        (x : A) (taken ids : List A)
        → has eq x taken ≡ false
        → IsFresh (x ∷ taken) ids
        → IsFresh taken (x ∷ ids)
    IsFresh-cons x taken ids new f =
        let (others, rest) = fresh_past x taken ids f.untaken in
        record { distinct = (others, f.distinct); untaken = (new, rest) }
