-- ===== src/EventMemory/Candidates.antt =====
-- src/event_memory.rs: what an accepted change has for its candidate and its evidence.
use Prim.Native.String.{String}
use centaur_context.Common.{
  ℕ, ◌==◌, ◌≡◌, inl, inr, refl, Bool, true, false, not, ◌||◌, List, [], ◌∷◌, Option, none, some,
  ltb, length, all, Bool-cases, arith, has, unique, same_number, Distinct, Distinct-of_length,
  IsFresh, same_number_comm, IsFresh-cons, ok, reject_if-eq-ok, reject_if-ok, ==→eq,
}
use centaur_context.Common.Integer.{ℤ, pos, ltb_ℤ}
use centaur_context.Text.{Text, lit}
use centaur_context.Json.{Value, is_null}
use centaur_context.EventMemory.{
  at, is_text, is_true, is_revision, refs, revision, check_candidate, found, once, target_is,
}

-- The candidate of an update is supplied, of the kind, at the revision, and neither protected nor
-- archived.
pub record IsCurrent (v : Value) (n : ℤ) (kind : Text) : Type 0 where
  pub positive : ltb_ℤ (pos 0) n ≡ true
  pub of_kind : is_text (at v (lit "kind")) kind ≡ true
  pub at_revision : is_revision (at v (lit "revision")) n ≡ true
  pub unprotected : is_true (at v (lit "protected")) ≡ false
  pub live : is_null (at v (lit "archived_at")) ≡ true

abbrev pub IsTarget : (Value → Bool) → (ℕ → Option Value) → Text → Option ℕ → Option ℤ → Type 0
IsTarget barred candidates kind none none = Unit
IsTarget barred candidates kind (some id) (some n) =
    (v : Value) × (candidates id ≡ some v) × IsCurrent v n kind × (barred v ≡ false)
IsTarget barred candidates kind _ _ = ⊥

pub both_true : (a b : Bool) → (not a || not b) ≡ false → (a ≡ true) × (b ≡ true)
both_true a b h = (ground arith, ground arith)

pub neither : (a b : Bool) → (a || not b) ≡ false → (a ≡ false) × (b ≡ true)
neither a b h = (ground arith, ground arith)

pub check_candidate_lem :
    (o : Option Value) (n : ℤ) (kind : Text)
    → ltb_ℤ (pos 0) n ≡ true
    → check_candidate o n kind ≡ ok tt
    → (v : Value) × (o ≡ some v) × IsCurrent v n kind
check_candidate_lem none n kind p h = cc
check_candidate_lem (some v) n kind p h =
    let (same, free) = reject_if-eq-ok _ _ _ h in
    let (of_kind, at_revision) = both_true _ _ same in
    let (unprotected, live) = neither _ _ (reject_if-ok _ _ free) in
    (
      v,
      refl,
      record {
        positive = p;
        of_kind = of_kind;
        at_revision = at_revision;
        unprotected = unprotected;
        live = live;
      },
    )

module _ (test : Value → Bool) (candidates : ℕ → Option Value) (kind : Text) where
  found_lem :
      (id : ℕ) (v : Value)
      → candidates id ≡ some v
      → test (found candidates id) ≡ false
      → test v ≡ false
  found_lem id v same h = rw (found, same) at h

  -- An accepted pair of an id and a revision, whose candidate passes the test as well.
  pub revision-IsTarget :
      (o : Option ℕ) (r : Option ℤ)
      → revision o r candidates kind ≡ ok tt
      → target_is test candidates o ≡ false
      → IsTarget test candidates kind o r
  unfolding revision
  revision-IsTarget none none h k = tt
  revision-IsTarget none (some n) h k = cc
  revision-IsTarget (some id) none h k = cc
  revision-IsTarget (some id) (some n) h k = elim (Bool-cases (ltb_ℤ (pos 0) n)) [
    | inl positive ↦
        let (v, same, current) =
          check_candidate_lem (candidates id) n kind positive (rw (positive) at h) in
        (v, same, current, found_lem id v same k)
    | inr other ↦ let refused = rw (other) at h in cc
  ]

-- A list of supplied ids, at least one and at most `max`, none twice.
pub record IsSupported (ids available : List ℕ) (max : ℕ) : Type 0 where
  pub given : (length ids == 0) ≡ false
  pub bounded : ltb max (length ids) ≡ false
  pub distinct : Distinct same_number ids
  pub supplied : all (λ id. has same_number id available) (unique same_number ids) ≡ true

pub refs-IsSupported :
    (ids available : List ℕ) (max : ℕ)
    → refs ids available max ≡ ok tt
    → IsSupported ids available max
unfolding refs
refs-IsSupported ids available max h =
    let (a, b, c, e) = four _ _ _ _ (reject_if-ok _ _ h) in
    record {
      given = a;
      bounded = b;
      distinct = Distinct-of_length same_number ids (==→eq _ _ c);
      supplied = e;
    }
  where
    four :
        (a b c d : Bool)
        → (a || b || not c || not d) ≡ false
        → (a ≡ false) × (b ≡ false) × (c ≡ true) × (d ≡ true)
    four a b c d k = (ground arith, ground arith, ground arith, ground arith)

abbrev with_target : Option ℕ → List ℕ → List ℕ
with_target none ids = ids
with_target (some n) ids = n ∷ ids

-- The ids that the proposals of a plan change.
abbrev pub targets : {A : Type 0} → (A → Option ℕ) → List A → List ℕ
targets id [] = []
targets id (x ∷ xs) = with_target (id x) (targets id xs)

pub once-IsFresh :
    (o : Option ℕ) (taken taken' ids : List ℕ) (message : String)
    → once o taken message ≡ ok taken'
    → IsFresh same_number taken' ids
    → IsFresh same_number taken (with_target o ids)
once-IsFresh none taken taken' ids message h f = let same : taken ≡ taken' = cc in rw (same) f
once-IsFresh (some n) taken taken' ids message h f = elim (Bool-cases (has same_number n taken)) [
  | inl again ↦ let refused = rw (again) at h in cc
  | inr new ↦ IsFresh-cons same_number same_number_comm n taken ids new (rw (← grown new) at f)
]
  where
    grown : has same_number n taken ≡ false → n ∷ taken ≡ taken'
    grown new = let passed = rw (new) at h in cc
