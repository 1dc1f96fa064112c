-- ===== src/Curator/Again.antt =====
-- src/curator.rs: a plan is validated when it is proposed and once more when it is committed.
use Prim.Native.String.{String}
use centaur_context.Common.{
  ℕ, ◌+◌, ◌≡◌, refl, false, not, List, [], ◌∷◌, map, ltb, all, All, arith, has, ok, ◌>>=◌, ◌>>◌,
  map_err, map_err-eq-ok, >>=-eq-ok, reject_if-eq-ok,
}
use centaur_context.Text.{Text, lit, text_eq}
use centaur_context.Domain.{Unicode, required_text, allowed, object_description}
use centaur_context.Domain.Choice.{allowed_idem, IsSettled}
use centaur_context.Domain.Description.{required_text_idem, object_description-IsDescription}
use centaur_context.Curator.{
  is_nil, operations, other_fields, connection_kinds, has_provenance, validate_reference,
  validate_object, validate_objects, validate_connection, validate_connections, validate_plan,
}
use centaur_context.Curator.Plans.{
  invalid_value, CreateObject, CreateConnection, ObjectRef, existing, created, ReconciliationPlan,
}
use centaur_context.Curator.Accepted.{objects_lem, connections_lem}

abbrev IsText : Text → String → ℕ → Type 0
IsText v name n = map_err invalid_value (required_text v name n) ≡ ok v

required_again :
    (v : Text) (name : String) (n : ℕ) (w : Text)
    → map_err invalid_value (required_text v name n) ≡ ok w
    → IsText w name n
required_again v name n w h =
    let again = required_text_idem v name n w (map_err-eq-ok _ _ h) in rw (again) refl

module _ (u : Unicode) where
  object_built :
      (max : ℕ) (taken : List Text) (i : CreateObject)
      → IsText i.client_id "client_id" 100
      → has text_eq i.client_id taken ≡ false
      → allowed u i.kind "kind" (lit "memory" ∷ []) ≡ ok i.kind
      → IsText i.title "title" 300
      → object_description u max i.title i.description ≡ ok i.description
      → other_fields i ≡ false
      → validate_object u max taken i ≡ ok i
  unfolding validate_object ◌>>=◌ ◌>>◌
  object_built max taken i a b c d e f = rw (a, b, c, d, e, f) refl

  objects_built :
      (max : ℕ) (taken : List Text) (i : CreateObject) (is : List CreateObject)
      → validate_object u max taken i ≡ ok i
      → validate_objects u max (i.client_id ∷ taken) is ≡ ok is
      → validate_objects u max taken (i ∷ is) ≡ ok (i ∷ is)
  unfolding validate_objects ◌>>=◌
  objects_built max taken i is a b = rw (a, b) refl

  reference_built :
      (clients : List Text) (c : Text)
      → IsText c "client_id" 100
      → not (has text_eq c clients) ≡ false
      → validate_reference clients (created c) ≡ ok (created c)
  unfolding validate_reference ◌>>=◌ ◌>>◌
  reference_built clients c a b = rw (a, b) refl

  connection_built :
      (clients : List Text) (i : CreateConnection)
      → validate_reference clients i.source ≡ ok i.source
      → validate_reference clients i.target ≡ ok i.target
      → allowed u i.kind "connection kind" connection_kinds ≡ ok i.kind
      → IsText i.description "connection description" 1000
      → validate_connection u clients i ≡ ok i
  unfolding validate_connection ◌>>=◌
  connection_built clients i a b c d = rw (a, b, c, d) refl

  connections_built :
      (clients : List Text) (i : CreateConnection) (is : List CreateConnection)
      → validate_connection u clients i ≡ ok i
      → validate_connections u clients is ≡ ok is
      → validate_connections u clients (i ∷ is) ≡ ok (i ∷ is)
  unfolding validate_connections ◌>>=◌
  connections_built clients i is a b = rw (a, b) refl

  plan_built :
      (max : ℕ) (plan : ReconciliationPlan)
      → ltb 100 (operations plan) ≡ false
      → not (is_nil plan.update_objects) ≡ false
      → not (is_nil plan.update_connections) ≡ false
      → validate_objects u max [] plan.create_objects ≡ ok plan.create_objects
      → validate_connections u
          (map (λ item. item.client_id) plan.create_objects)
          plan.create_connections
        ≡ ok plan.create_connections
      → not (all (has_provenance plan.create_connections) plan.create_objects) ≡ false
      → validate_plan u max plan ≡ ok plan
  unfolding validate_plan ◌>>=◌ ◌>>◌
  plan_built max plan a b c d e f = rw (a, b, c, d, e, f) refl

module _ (u : Unicode) (max : ℕ)
    (settled : All (IsSettled u) (lit "memory" ∷ connection_kinds)) where
  object_again :
      (taken : List Text) (item item' : CreateObject)
      → validate_object u max taken item ≡ ok item'
      → validate_object u max taken item' ≡ ok item'
  unfolding validate_object
  object_again taken item item' h =
      let (client_id, named, h1) = >>=-eq-ok _ _ h in
      let (new, h2) = reject_if-eq-ok _ _ _ h1 in
      let (kind, chosen, h3) = >>=-eq-ok _ _ h2 in
      let (title, titled, h4) = >>=-eq-ok _ _ h3 in
      let (description, described, h5) = >>=-eq-ok _ _ h4 in
      let (only, h6) = reject_if-eq-ok _ _ _ h5 in
      let same : record item {
        client_id = client_id;
        kind = kind;
        title = title;
        description = description;
      }
          ≡ item' =
        cc in
      let memory =
        allowed_idem u item.kind "kind" (lit "memory" ∷ []) kind (settled.0, tt)
          (map_err-eq-ok _ _ chosen) in
      let (_, _, text) =
        object_description-IsDescription u max title _ description (map_err-eq-ok _ _ described) in
      let name = required_again item.client_id "client_id" 100 client_id named in
      let heading = required_again item.title "title" 300 title titled in
      rw (← same) (object_built u max taken _ name new memory heading text only)

  objects_again :
      (taken : List Text) (items items' : List CreateObject)
      → validate_objects u max taken items ≡ ok items'
      → validate_objects u max taken items' ≡ ok items'
  unfolding validate_objects
  objects_again taken [] items' h = let same : [] ≡ items' = cc in rw (← same) refl
  objects_again taken (item ∷ items) items' h =
      let (first, made, h1) = >>=-eq-ok _ _ h in
      let (rest, others, h2) = >>=-eq-ok _ _ h1 in
      let same : first ∷ rest ≡ items' = cc in
      let one = object_again taken item first made in
      let more = objects_again (first.client_id ∷ taken) items rest others in
      rw (← same) (objects_built u max taken first rest one more)

  reference_again :
      (clients : List Text) (r r' : ObjectRef)
      → validate_reference clients r ≡ ok r'
      → validate_reference clients r' ≡ ok r'
  unfolding validate_reference
  reference_again clients (existing id) r' h = let same : existing id ≡ r' = cc in rw (← same) refl
  reference_again clients (created c) r' h =
      let (c', named, h1) = >>=-eq-ok _ _ h in
      let (known, h2) = reject_if-eq-ok (not (has text_eq c' clients)) _ (ok (created c')) h1 in
      let same : created c' ≡ r' = cc in
      let name = required_again c "client_id" 100 c' named in
      rw (← same) (reference_built u clients c' name known)

  connection_again :
      (clients : List Text) (item item' : CreateConnection)
      → validate_connection u clients item ≡ ok item'
      → validate_connection u clients item' ≡ ok item'
  unfolding validate_connection
  connection_again clients item item' h =
      let (source, from, h1) = >>=-eq-ok _ _ h in
      let (target, to, h2) = >>=-eq-ok _ _ h1 in
      let (kind, chosen, h3) = >>=-eq-ok _ _ h2 in
      let (description, described, h4) = >>=-eq-ok _ _ h3 in
      let same : record item {
        source = source;
        target = target;
        kind = kind;
        description = description;
      }
          ≡ item' =
        cc in
      let known =
        allowed_idem u item.kind "connection kind" connection_kinds kind settled.1
          (map_err-eq-ok _ _ chosen) in
      let text =
        required_again item.description "connection description" 1000 description described in
      let one = reference_again clients item.source source from in
      let other = reference_again clients item.target target to in
      rw (← same) (connection_built u clients _ one other known text)

  connections_again :
      (clients : List Text) (items items' : List CreateConnection)
      → validate_connections u clients items ≡ ok items'
      → validate_connections u clients items' ≡ ok items'
  unfolding validate_connections
  connections_again clients [] items' h = let same : [] ≡ items' = cc in rw (← same) refl
  connections_again clients (item ∷ items) items' h =
      let (first, made, h1) = >>=-eq-ok _ _ h in
      let (rest, others, h2) = >>=-eq-ok _ _ h1 in
      let same : first ∷ rest ≡ items' = cc in
      let one = connection_again clients item first made in
      let more = connections_again clients items rest others in
      rw (← same) (connections_built u clients first rest one more)

  -- A plan that `validate_plan` left when it was proposed passes again, unchanged, when it is
  -- committed, if lower case changes none of the curator's kinds.
  pub validate_plan_idem :
      (plan plan' : ReconciliationPlan)
      → validate_plan u max plan ≡ ok plan'
      → validate_plan u max plan' ≡ ok plan'
  unfolding validate_plan
  validate_plan_idem plan plan' h =
      let (few, h1) = reject_if-eq-ok _ _ _ h in
      let (no_objects, h2) = reject_if-eq-ok _ _ _ h1 in
      let (no_connections, h3) = reject_if-eq-ok _ _ _ h2 in
      let (objects, made, h4) = >>=-eq-ok _ _ h3 in
      let (connections, joined, h5) = >>=-eq-ok _ _ h4 in
      let (supported, h6) = reject_if-eq-ok _ _ _ h5 in
      let same : record plan { create_objects = objects; create_connections = connections }
          ≡ plan' =
        cc in
      let (_, _, m) = objects_lem u max [] _ objects made in
      let (_, n) = connections_lem u max _ _ connections joined in
      let short = as_few _ _ _ _ _ _ m n few in
      let one = objects_again [] _ objects made in
      let more = connections_again _ _ connections joined in
      rw (← same) (plan_built u max _ short no_objects no_connections one more supported)
    where
      as_few :
          (a b c d p q : ℕ)
          → p ≡ a
          → q ≡ c
          → ltb 100 (a + b + c + d) ≡ false
          → ltb 100 (p + b + q + d) ≡ false
      as_few a b c d p q m n few = ground arith
