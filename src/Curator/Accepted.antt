-- ===== src/Curator/Accepted.antt =====
-- src/curator.rs: what an accepted reconciliation plan may do.
use centaur_context.Common.{
  ℕ, ◌+◌, ◌≤◌, ◌≡◌, refl, sym, Bool, true, false, not, ◌||◌, List, [], ◌∷◌, map, ltb, length, all,
  All, arith, has, Distinct, IsFresh, IsFresh-nil, IsFresh-cons, ok, map_err-eq-ok, >>=-eq-ok,
  reject_if-eq-ok,
}
use centaur_context.Text.{Text, lit, text_eq, contains}
use centaur_context.Text.Laws.{text_eq_sound, text_eq_comm}
use centaur_context.Domain.{Unicode}
use centaur_context.Domain.Choice.{allowed-eq-ok}
use centaur_context.Curator.{
  is_nil, other_fields, connection_kinds, has_provenance, validate_reference, validate_object,
  validate_objects, validate_connection, validate_connections, validate_plan,
}
use centaur_context.Curator.Plans.{
  CreateObject, CreateConnection, ObjectRef, existing, created, ReconciliationPlan,
}

-- A new Object is a Memory and nothing else.
pub record IsMemory (item : CreateObject) : Type 0 where
  pub of_kind : item.kind ≡ lit "memory"
  pub only_fields : other_fields item ≡ false

-- A client id is one of the plan's. The id of an Object that exists is not looked up.
abbrev pub IsKnown : List Text → ObjectRef → Type 0
IsKnown clients (existing id) = Unit
IsKnown clients (created c) = has text_eq c clients ≡ true

-- A connection is of a kind of the curator's, and a client id at its ends is one of the plan's.
pub record IsJoined (clients : List Text) (item : CreateConnection) : Type 0 where
  pub source : IsKnown clients item.source
  pub target : IsKnown clients item.target
  pub of_kind : contains connection_kinds item.kind ≡ true

abbrev pub client_ids : List CreateObject → List Text
client_ids items = map (λ item. item.client_id) items

pub record IsAppendOnly (plan : ReconciliationPlan) : Type 0 where
  pub no_object_update : plan.update_objects ≡ []
  pub no_connection_update : plan.update_connections ≡ []
  pub memories : All IsMemory plan.create_objects
  pub distinct : Distinct text_eq (client_ids plan.create_objects)
  pub joined : All (IsJoined (client_ids plan.create_objects)) plan.create_connections
  pub provenance : all (has_provenance plan.create_connections) plan.create_objects ≡ true
  pub bounded : length plan.create_objects + length plan.create_connections ≤ 100

pub positive : (a : Bool) → not a ≡ false → a ≡ true
positive a k = ground arith

one_of : (v s : Text) → contains (v ∷ []) s ≡ true → s ≡ v
unfolding contains
one_of v s h = sym (text_eq_sound v s (only _ h))
  where
    only : (a : Bool) → (a || false) ≡ true → a ≡ true
    only a k = ground arith

is_nil-eq : {A : Type 0} (xs : List A) → not (is_nil xs) ≡ false → xs ≡ []
is_nil-eq [] h = refl
is_nil-eq (x ∷ xs) h = cc

module _ (u : Unicode) (max : ℕ) where
  object_lem :
      (taken : List Text) (item item' : CreateObject)
      → validate_object u max taken item ≡ ok item'
      → IsMemory item' × (has text_eq item'.client_id taken ≡ false)
  unfolding validate_object
  object_lem taken item item' h =
      let (client_id, _, h1) = >>=-eq-ok _ _ h in
      let (new, h2) = reject_if-eq-ok _ _ _ h1 in
      let (kind, chosen, h3) = >>=-eq-ok _ _ h2 in
      let (title, _, h4) = >>=-eq-ok _ _ h3 in
      let (description, _, h5) = >>=-eq-ok _ _ h4 in
      let (only, h6) = reject_if-eq-ok _ _ _ h5 in
      let (_, memory) = allowed-eq-ok u item.kind "kind" _ kind (map_err-eq-ok _ _ chosen) in
      let same : record item {
        client_id = client_id;
        kind = kind;
        title = title;
        description = description;
      }
          ≡ item' =
        cc in
      rw (← same) (record { of_kind = one_of _ _ memory; only_fields = only }, new)

  pub objects_lem :
      (taken : List Text) (items items' : List CreateObject)
      → validate_objects u max taken items ≡ ok items'
      → All IsMemory items'
        × IsFresh text_eq taken (client_ids items')
        × (length items' ≡ length items)
  unfolding validate_objects
  objects_lem taken [] items' h =
      let same : [] ≡ items' = cc in rw (← same) (tt, IsFresh-nil text_eq taken, refl)
  objects_lem taken (item ∷ items) items' h =
      let (first, made, h1) = >>=-eq-ok _ _ h in
      let (rest, others, h2) = >>=-eq-ok _ _ h1 in
      let same : first ∷ rest ≡ items' = cc in
      let (memory, new) = object_lem taken item first made in
      let (memories, fresh, long) = objects_lem (first.client_id ∷ taken) items rest others in
      rw (← same) (
        (memory, memories),
        IsFresh-cons text_eq text_eq_comm first.client_id taken _ new fresh,
        omega (arith, long),
      )

  reference_lem :
      (clients : List Text) (r r' : ObjectRef)
      → validate_reference clients r ≡ ok r'
      → IsKnown clients r'
  unfolding validate_reference
  reference_lem clients (existing id) r' h = let same : existing id ≡ r' = cc in rw (← same) tt
  reference_lem clients (created c) r' h =
      let (c', _, h1) = >>=-eq-ok _ _ h in
      let (known, h2) = reject_if-eq-ok (not (has text_eq c' clients)) _ (ok (created c')) h1 in
      let same : created c' ≡ r' = cc in rw (← same) (positive _ known)

  connection_lem :
      (clients : List Text) (item item' : CreateConnection)
      → validate_connection u clients item ≡ ok item'
      → IsJoined clients item'
  unfolding validate_connection
  connection_lem clients item item' h =
      let (source, from, h1) = >>=-eq-ok _ _ h in
      let (target, to, h2) = >>=-eq-ok _ _ h1 in
      let (kind, chosen, h3) = >>=-eq-ok _ _ h2 in
      let (description, _, h4) = >>=-eq-ok _ _ h3 in
      let (_, known) =
        allowed-eq-ok u item.kind "connection kind" _ kind (map_err-eq-ok _ _ chosen) in
      let same : record item {
        source = source;
        target = target;
        kind = kind;
        description = description;
      }
          ≡ item' =
        cc in
      rw (← same) record {
        source = reference_lem clients _ source from;
        target = reference_lem clients _ target to;
        of_kind = known;
      }

  pub connections_lem :
      (clients : List Text) (items items' : List CreateConnection)
      → validate_connections u clients items ≡ ok items'
      → All (IsJoined clients) items' × (length items' ≡ length items)
  unfolding validate_connections
  connections_lem clients [] items' h = let same : [] ≡ items' = cc in rw (← same) (tt, refl)
  connections_lem clients (item ∷ items) items' h =
      let (first, made, h1) = >>=-eq-ok _ _ h in
      let (rest, others, h2) = >>=-eq-ok _ _ h1 in
      let same : first ∷ rest ≡ items' = cc in
      let (joined, long) = connections_lem clients items rest others in
      rw (← same) ((connection_lem clients item first made, joined), omega (arith, long))

  -- A plan that `validate_plan` accepts leaves a plan of at most 100 operations that updates nothing:
  -- it creates Memories only, under client ids of which no two are the same, each with a derived_from
  -- connection from it to the id of an Object outside the plan that cites the same messages; its
  -- connections are of the curator's kinds, and every client id at their ends is one of a Memory that
  -- it creates. Whether an Object has the id that an end names is not part of it.
  pub validate_plan-IsAppendOnly :
      (plan plan' : ReconciliationPlan) → validate_plan u max plan ≡ ok plan' → IsAppendOnly plan'
  unfolding validate_plan
  validate_plan-IsAppendOnly plan plan' h =
      let (few, h1) = reject_if-eq-ok _ _ _ h in
      let (no_objects, h2) = reject_if-eq-ok _ _ _ h1 in
      let (no_connections, h3) = reject_if-eq-ok _ _ _ h2 in
      let (objects, made, h4) = >>=-eq-ok _ _ h3 in
      let (connections, joined, h5) = >>=-eq-ok _ _ h4 in
      let (supported, h6) = reject_if-eq-ok _ _ _ h5 in
      let (memories, fresh, m) = objects_lem [] _ objects made in
      let (ends, n) = connections_lem _ _ connections joined in
      let same : record plan { create_objects = objects; create_connections = connections }
          ≡ plan' =
        cc in
      rw (← same) record {
        no_object_update = is_nil-eq _ no_objects;
        no_connection_update = is_nil-eq _ no_connections;
        memories = memories;
        distinct = fresh.distinct;
        joined = ends;
        provenance = positive _ supported;
        bounded = small _ _ _ _ _ _ m n few;
      }
    where
      small : (a b c d p q : ℕ) → p ≡ a → q ≡ c → ltb 100 (a + b + c + d) ≡ false → p + q ≤ 100
      small a b c d p q m n few = ground arith
