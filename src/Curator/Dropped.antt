-- ===== src/Curator/Dropped.antt =====
-- src/curator.rs: the ids that the worker's filter drops, and what uses them.
use mathlib.Core.List.{Memᴰ}
use mathlib.Core.List.Memᴰ
use centaur_context.Common.{
  ◌≡◌, ◌↔◌, refl, sym, Bool, true, false, not, ◌&&◌, ◌||◌, List, [], ◌∷◌, All, has, Bool-cases, inl,
  inr, arith,
}
use centaur_context.Text.{Text, text_eq}
use centaur_context.Text.Laws.{text_eq_sound, text_eq_refl}
use centaur_context.Json.{text_lt}
use centaur_context.Curator.Plans.{CreateObject, CreateConnection, ObjectRef, existing, created}
use centaur_context.Curator.Evidence.{
  retain, uses_client, insert_sorted, sorted_ids, disallowed_ids,
}

module _ {A : Type 0} where
  pub Mem-retain :
      (keep : A → Bool) (xs : List A) (x : A) → Memᴰ x xs → keep x ≡ true → Memᴰ x (retain keep xs)
  Mem-retain keep [] x m k = absurd (Memᴰ.not-nil m)
  Mem-retain keep (y ∷ ys) x (Memᴰ.head e) k = rw (← e, k) (Memᴰ.head refl)
  Mem-retain keep (y ∷ ys) x (Memᴰ.tail m) k = elim (Bool-cases (keep y)) [
    | inl kept ↦ rw (kept) (Memᴰ.tail (Mem-retain keep ys x m k))
    | inr lost ↦ rw (lost) (Mem-retain keep ys x m k)
  ]

  pub retain-Mem :
      (keep : A → Bool) (xs : List A) (x : A)
      → Memᴰ x (retain keep xs)
      → Memᴰ x xs × (keep x ≡ true)
  retain-Mem keep [] x m = absurd (Memᴰ.not-nil m)
  retain-Mem keep (y ∷ ys) x m = elim (Bool-cases (keep y)) [
    | inl kept ↦ elim (Memᴰ.cases_cons (rw (kept) at m)) [
      | inl e ↦ (Memᴰ.head e, rw (e) kept)
      | inr later ↦ let (inside, k) = retain-Mem keep ys x later in (Memᴰ.tail inside, k)
    ]
    | inr lost ↦ let (inside, k) = retain-Mem keep ys x (rw (lost) at m) in (Memᴰ.tail inside, k)
  ]

  pub retain_nothing :
      (keep : A → Bool) (xs : List A) → All (λ x. keep x ≡ false) xs → retain keep xs ≡ []
  retain_nothing keep [] h = refl
  retain_nothing keep (x ∷ xs) (p, h) = rw (p, retain_nothing keep xs h) refl

pub has-Mem : (ids : List Text) (s : Text) → Memᴰ s ids → has text_eq s ids ≡ true
has-Mem [] s m = absurd (Memᴰ.not-nil m)
has-Mem (t ∷ ts) s (Memᴰ.head e) = rw (e, text_eq_refl t) refl
has-Mem (t ∷ ts) s (Memᴰ.tail m) = rw (has-Mem ts s m) (or_true (text_eq s t))
  where
    or_true : (a : Bool) → (a || true) ≡ true
    or_true a = ground arith

module _ (bad : CreateObject → Bool) where
  -- The ids that are dropped are those of the disallowed items.
  pub bad-has :
      (items : List CreateObject) (item : CreateObject)
      → Memᴰ item items
      → bad item ≡ true
      → has text_eq item.client_id (disallowed_ids bad items) ≡ true
  bad-has [] item m h = absurd (Memᴰ.not-nil m)
  bad-has (i ∷ items) item (Memᴰ.head e) h = rw (← e, h, text_eq_refl item.client_id) refl
  bad-has (i ∷ items) item (Memᴰ.tail m) h = elim (Bool-cases (bad i)) [
    | inl worse ↦ rw (worse, bad-has items item m h) (or_true (text_eq item.client_id i.client_id))
    | inr fine ↦ rw (fine) (bad-has items item m h)
  ]
    where
      or_true : (a : Bool) → (a || true) ≡ true
      or_true a = ground arith

  pub has-bad :
      (items : List CreateObject) (s : Text)
      → has text_eq s (disallowed_ids bad items) ≡ true
      → (i : CreateObject) × Memᴰ i items × (i.client_id ≡ s) × (bad i ≡ true)
  has-bad [] s h = cc
  has-bad (i ∷ items) s h = elim (Bool-cases (bad i)) [
    | inl worse ↦ elim (Bool-cases (text_eq s i.client_id)) [
      | inl same ↦ (i, Memᴰ.head refl, sym (text_eq_sound s i.client_id same), worse)
      | inr other ↦ later (has-bad items s (rw (worse, other) at h))
    ]
    | inr fine ↦ later (has-bad items s (rw (fine) at h))
  ]
    where
      later :
          (j : CreateObject) × Memᴰ j items × (j.client_id ≡ s) × (bad j ≡ true)
          → (j : CreateObject) × Memᴰ j (i ∷ items) × (j.client_id ≡ s) × (bad j ≡ true)
      later (j, m, e, worse) = (j, Memᴰ.tail m, e, worse)

has-insert_sorted :
    (s t : Text) (ts : List Text)
    → has text_eq s (insert_sorted t ts) ≡ (text_eq s t || has text_eq s ts)
unfolding insert_sorted
has-insert_sorted s t [] = refl
has-insert_sorted s t (x ∷ ts) = elim (Bool-cases (text_eq t x)) [
  | inl same ↦ rw (same, text_eq_sound t x same) (twice (text_eq s x) (has text_eq s ts))
  | inr other ↦ elim (Bool-cases (text_lt t x)) [
    | inl before ↦ rw (other, before) refl
    | inr after ↦
        rw (other, after, has-insert_sorted s t ts)
          (swap (text_eq s x) (text_eq s t) (has text_eq s ts))
  ]
]
  where
    twice : (a b : Bool) → (a || b) ≡ (a || (a || b))
    twice a b = ground arith

    swap : (a b c : Bool) → (a || (b || c)) ≡ (b || (a || c))
    swap a b c = ground arith

pub has-sorted_ids :
    (s : Text) (ids : List Text) → has text_eq s (sorted_ids ids) ≡ has text_eq s ids
has-sorted_ids s [] = refl
has-sorted_ids s (t ∷ ts) = rw (has-insert_sorted s t (sorted_ids ts), has-sorted_ids s ts) refl

-- Neither end of the connection is one of the clients.
abbrev pub IsFree : List Text → CreateConnection → Type 0
IsFree clients connection =
    (uses_client clients connection.source ≡ false)
    × (uses_client clients connection.target ≡ false)

sorted_uses : (ids : List Text) (r : ObjectRef) → uses_client (sorted_ids ids) r ≡ uses_client ids r
sorted_uses ids (existing id) = refl
sorted_uses ids (created c) = has-sorted_ids c ids

abbrev pub is_free : List Text → CreateConnection → Bool
is_free ids c = not (uses_client ids c.source) && not (uses_client ids c.target)

pub is_free_lem :
    (ids : List Text) (c : CreateConnection) → (is_free ids c ≡ true) ↔ IsFree (sorted_ids ids) c
is_free_lem ids c = (
  λ h.
      let (source, target) = both _ _ h in
      (rw (sorted_uses ids c.source) source, rw (sorted_uses ids c.target) target),
  λ (source, target).
      rw (rw (sorted_uses ids c.source) at source, rw (sorted_uses ids c.target) at target) refl,
)
  where
    both : (a b : Bool) → (not a && not b) ≡ true → (a ≡ false) × (b ≡ false)
    both a b k = (ground arith, ground arith)

pub IsFree-nil : (c : CreateConnection) → IsFree [] c
IsFree-nil c = (none_used c.source, none_used c.target)
  where
    none_used : (r : ObjectRef) → uses_client [] r ≡ false
    none_used (existing id) = refl
    none_used (created c) = refl
