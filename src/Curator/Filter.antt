-- ===== src/Curator/Filter.antt =====
-- src/curator.rs: what the worker's filter leaves of a plan.
use mathlib.Core.List.{Memᴰ}
use centaur_context.Common.{
  ◌≡◌, ◌⊎◌, refl, sym, Bool, true, false, not, List, [], ◌∷◌, All, All-of, has, Bool-cases, inl,
  inr, no_clash, ◌∙◌, arith,
}
use centaur_context.Text.{Text, text_eq}
use centaur_context.Domain.{Unicode}
use centaur_context.Curator.Plans.{CreateObject, ReconciliationPlan}
use centaur_context.Curator.Allowed.{IsAllowed, is_disallowed_lem}
use centaur_context.Curator.Dropped.{
  Mem-retain, retain-Mem, retain_nothing, has-Mem, bad-has, has-bad, has-sorted_ids, IsFree,
  is_free, is_free_lem, IsFree-nil,
}
use centaur_context.Curator.Evidence.{
  MessageEvidence, human_message_ids, is_disallowed, retain, sorted_ids, disallowed_ids, drop_ids,
  without, drop_disallowed_worker_creates,
}

-- What the filter makes of a plan: the plan that it leaves, and the client ids that it reports.
pub record IsFiltered (u : Unicode) (capture : Bool) (messages : List MessageEvidence)
    (plan left : ReconciliationPlan) (dropped : List Text) : Type 0 where
  pub allowed :
      All (λ i. Memᴰ i plan.create_objects × IsAllowed u capture messages i) left.create_objects
  pub objects :
      All
        (λ i. Memᴰ i left.create_objects ⊎ (has text_eq i.client_id dropped ≡ true))
        plan.create_objects
  pub reported :
      All
        (λ s.
          (i : CreateObject) × Memᴰ i plan.create_objects
          × (i.client_id ≡ s)
          × ¬ IsAllowed u capture messages i)
        dropped
  pub free : All (λ c. Memᴰ c plan.create_connections × IsFree dropped c) left.create_connections
  pub connections :
      All (λ c. Memᴰ c left.create_connections ⊎ (¬ IsFree dropped c)) plan.create_connections
  pub again : drop_disallowed_worker_creates u capture messages left ≡ (left, [])

module _ (u : Unicode) (capture : Bool) (messages : List MessageEvidence) where
  abbrev bad : CreateObject → Bool
  bad = is_disallowed u capture (human_message_ids u capture messages)

  is_allowed : (i : CreateObject) → bad i ≡ false → IsAllowed u capture messages i
  is_allowed i h = (is_disallowed_lem u capture messages i).0 h

  is_refused : (i : CreateObject) → bad i ≡ true → ¬ IsAllowed u capture messages i
  is_refused i h a = no_clash h ((is_disallowed_lem u capture messages i).1 a)

  again_lem :
      (plan : ReconciliationPlan)
      → ((i : CreateObject) → Memᴰ i plan.create_objects → bad i ≡ false)
      → drop_disallowed_worker_creates u capture messages plan ≡ (plan, [])
  unfolding drop_disallowed_worker_creates
  again_lem plan fine =
      rw (retain_nothing bad plan.create_objects (All-of _ plan.create_objects fine)) refl

  fine_of :
      (items : List CreateObject) (ids : List Text) (i : CreateObject)
      → disallowed_ids bad items ≡ ids
      → Memᴰ i items
      → not (has text_eq i.client_id ids) ≡ true
      → bad i ≡ false
  fine_of items ids i same m k = elim (Bool-cases (bad i)) [
    | inl worse ↦ absurd (clash _ (rw (same) at (bad-has bad items i m worse)) k)
    | inr fine ↦ fine
  ]
    where
      clash : (a : Bool) → a ≡ true → not a ≡ true → ⊥
      clash a p q = ground arith

  filtered :
      (ids : List Text) (plan : ReconciliationPlan)
      → disallowed_ids bad plan.create_objects ≡ ids
      → IsFiltered u capture messages plan (drop_ids ids plan).0 (drop_ids ids plan).1
  filtered [] plan same =
      let fine : (i : CreateObject) → Memᴰ i plan.create_objects → bad i ≡ false =
        (λ i m. fine_of plan.create_objects [] i same m refl) in
      record {
        allowed = All-of _ plan.create_objects (λ i m. (m, is_allowed i (fine i m)));
        objects = All-of _ plan.create_objects (λ i m. inl m);
        reported = tt;
        free = All-of _ plan.create_connections (λ c m. (m, IsFree-nil c));
        connections = All-of _ plan.create_connections (λ c m. inl m);
        again = again_lem plan fine;
      }
  filtered (id ∷ ids) plan same =
      let all_ids = id ∷ ids in
      let keep = λ (i : CreateObject). not (has text_eq i.client_id all_ids) in
      let kept = retain-Mem keep plan.create_objects in
      let fine : (i : CreateObject) → Memᴰ i (retain keep plan.create_objects) → bad i ≡ false =
        (λ i m. fine_of plan.create_objects all_ids i same (kept i m).0 (kept i m).1) in
      record {
        allowed = All-of _ _ (λ i m. ((kept i m).0, is_allowed i (fine i m)));
        objects = All-of _ plan.create_objects (λ i m. elim (Bool-cases (keep i)) [
          | inl stays ↦ inl (Mem-retain keep plan.create_objects i m stays)
          | inr goes ↦ inr (has-sorted_ids i.client_id all_ids ∙ not_kept _ goes)
        ]);
        reported = All-of _ (sorted_ids all_ids) (λ s m.
            let given = sym (has-sorted_ids s all_ids) ∙ has-Mem (sorted_ids all_ids) s m in
            let (i, inside, e, worse) = has-bad bad plan.create_objects s (rw (same) given) in
            (i, inside, e, is_refused i worse));
        free = All-of _ _ (λ c m.
            let (inside, k) = retain-Mem (is_free all_ids) plan.create_connections c m in
            (inside, (is_free_lem all_ids c).0 k));
        connections = All-of _ plan.create_connections (λ c m.
            elim (Bool-cases (is_free all_ids c)) [
              | inl stays ↦ inl (Mem-retain (is_free all_ids) plan.create_connections c m stays)
              | inr goes ↦ inr (λ f. no_clash ((is_free_lem all_ids c).1 f) goes)
            ]);
        again = again_lem (without all_ids plan) fine;
      }
    where
      not_kept : (a : Bool) → not a ≡ false → a ≡ true
      not_kept a h = ground arith

  abbrev pub left_by : ReconciliationPlan → ReconciliationPlan
  left_by plan = (drop_disallowed_worker_creates u capture messages plan).0

  -- The filter leaves new Objects of the plan only that are Memories, that cite messages, all of them
  -- by humans and no noise, and that report no creation if those are captured. A new Object that it
  -- does not leave has one of the client ids that it reports as dropped, and each of those is the id
  -- of a new Object of the plan that is not so. Of the new connections it leaves those that use no
  -- dropped id, and no others. Of what it leaves it drops nothing.
  pub drop_disallowed_worker_creates_lem :
      (plan : ReconciliationPlan)
      → IsFiltered u capture messages plan
          (left_by plan)
          (drop_disallowed_worker_creates u capture messages plan).1
  unfolding drop_disallowed_worker_creates
  drop_disallowed_worker_creates_lem plan =
      filtered (disallowed_ids bad plan.create_objects) plan refl
