-- ===== src/Curator/Grounds.antt =====
-- src/curator.rs: what a plan has that passes the checks of the commit.
use centaur_context.Common.{
  both_false, ℕ, ◌==◌, ◌≡◌, Bool, true, false, not, ◌&&◌, List, [], ◌∷◌, Option, none, some, length,
  any, all, All, arith, has, same_number, ok, reject_if-ok, ok_or, >>=-eq-ok, >>-eq-ok,
  reject_if-eq-ok,
}
use centaur_context.Text.{Text}
use centaur_context.Domain.{Unicode}
use centaur_context.Curator.Plans.{
  CreateObject, CreateConnection, ObjectRef, existing, created, ReconciliationPlan,
}
use centaur_context.Curator.Accepted.{IsAppendOnly, validate_plan-IsAppendOnly, positive}
use centaur_context.Curator.Evidence.{
  MessageEvidence, evidence_of, is_human, only_noise, only_requests, is_object_creation_report,
  is_request_framed_memory, supports, validate_grounds, validate_human_grounded_objects,
  validate_message_refs,
}
use centaur_context.Curator.Commit.{
  View, commit_endpoint_kind, is_memory_kind, is_origin, validate_endpoints, validate_all_endpoints,
  validate_commit_policy, validate_commit,
}

-- A Memory whose evidence is of humans, and neither noise nor requests that it takes for results.
pub record IsHumanGrounded (u : Unicode) (capture : Bool) (messages : ℕ → Option MessageEvidence)
    (item : CreateObject) : Type 0 where
  pub filled : (length (evidence_of messages item.supporting_message_ids) == 0) ≡ false
  pub human :
      any (λ message. not (is_human message)) (evidence_of messages item.supporting_message_ids)
      ≡ false
  pub no_report : (capture && is_object_creation_report u item.description) ≡ false
  pub signal : only_noise u capture (evidence_of messages item.supporting_message_ids) ≡ false
  pub framed :
      (only_requests u capture (evidence_of messages item.supporting_message_ids)
        && not (is_request_framed_memory item.description))
      ≡ false

-- An existing end of a connection is the Chat, or an Object that the run consulted; it is live.
abbrev pub IsReached : View → ObjectRef → Type 0
IsReached view (created c) = Unit
IsReached view (existing id) =
    ((not (id == view.chat) && not (has same_number id view.consulted)) ≡ false)
    × (kind : Text) × (view.kind_of id ≡ some kind)

pub record IsAnchored (view : View) (items : List CreateObject) (connection : CreateConnection)
    : Type 0 where
  pub source : IsReached view connection.source
  pub target : IsReached view connection.target
  pub memory_end :
      (kind : Text) × (kind' : Text) × (commit_endpoint_kind view items connection.source ≡ ok kind)
      × (commit_endpoint_kind view items connection.target ≡ ok kind')
      × ((not (is_memory_kind kind) && not (is_memory_kind kind')) ≡ false)

module _ (u : Unicode) (capture : Bool) (messages : ℕ → Option MessageEvidence) where
  grounds_lem :
      (item : CreateObject)
      → validate_grounds u capture messages item ≡ ok tt
      → IsHumanGrounded u capture messages item
  unfolding validate_grounds
  grounds_lem item h =
      let (human, h1) = reject_if-eq-ok _ _ _ h in
      let (report, h2) = reject_if-eq-ok _ _ _ h1 in
      let (noise, h3) = reject_if-eq-ok _ _ _ h2 in
      let (filled, of_humans) = both_false _ _ human in
      record {
        filled = filled;
        human = of_humans;
        no_report = report;
        signal = noise;
        framed = reject_if-ok _ _ h3;
      }

  All-grounds :
      (items : List CreateObject)
      → validate_human_grounded_objects u capture messages items ≡ ok tt
      → All (IsHumanGrounded u capture messages) items
  unfolding validate_human_grounded_objects
  All-grounds [] h = tt
  All-grounds (item ∷ items) h =
      let (first, rest) = >>-eq-ok _ _ h in (grounds_lem item first, All-grounds items rest)

module _ (view : View) (items : List CreateObject) where
  endpoint_lem :
      (r : ObjectRef) (kind : Text) → commit_endpoint_kind view items r ≡ ok kind → IsReached view r
  unfolding commit_endpoint_kind
  endpoint_lem (created c) kind h = tt
  endpoint_lem (existing id) kind h =
      let (near, h1) = reject_if-eq-ok _ _ _ h in (near, kind, live _ _ h1)
    where
      live : {E A : Type 0} (o : Option A) (e : E) {a : A} → ok_or o e ≡ ok a → o ≡ some a
      live none e k = cc
      live (some a) e k = cc

  endpoints_lem :
      (connection : CreateConnection)
      → validate_endpoints view items connection ≡ ok tt
      → IsAnchored view items connection
  unfolding validate_endpoints
  endpoints_lem connection h =
      let (_, h1) = reject_if-eq-ok _ _ _ h in
      let (source, from, h2) = >>=-eq-ok _ _ h1 in
      let (target, to, h3) = >>=-eq-ok _ _ h2 in
      record {
        source = endpoint_lem connection.source source from;
        target = endpoint_lem connection.target target to;
        memory_end = (source, target, from, to, reject_if-ok _ _ h3);
      }

  All-endpoints :
      (connections : List CreateConnection)
      → validate_all_endpoints view items connections ≡ ok tt
      → All (IsAnchored view items) connections
  unfolding validate_all_endpoints
  All-endpoints [] h = tt
  All-endpoints (connection ∷ connections) h =
      let (first, rest) = >>-eq-ok _ _ h in
      (endpoints_lem connection first, All-endpoints connections rest)

-- What a plan has that may be written.
pub record IsCommittable (u : Unicode) (capture : Bool) (messages : ℕ → Option MessageEvidence)
    (message_ids : List ℕ) (view : View) (plan : ReconciliationPlan) : Type 0 where
  pub append_only : IsAppendOnly plan
  pub grounded : All (IsHumanGrounded u capture messages) plan.create_objects
  pub cited :
      all
        (λ i. supports (λ id. has same_number id message_ids) i.supporting_message_ids)
        plan.create_objects
      ≡ true
  pub anchored : All (IsAnchored view plan.create_objects) plan.create_connections
  pub origin :
      all (λ memory. any (is_origin view.chat memory) plan.create_connections) plan.create_objects
      ≡ true

policy_lem :
    (view : View) (plan : ReconciliationPlan)
    → validate_commit_policy view plan ≡ ok tt
    → All (IsAnchored view plan.create_objects) plan.create_connections
      × (all
            (λ memory. any (is_origin view.chat memory) plan.create_connections)
            plan.create_objects
          ≡ true)
unfolding validate_commit_policy
policy_lem view plan h =
    let (_, h1) = reject_if-eq-ok _ _ _ h in
    let (_, h2) = reject_if-eq-ok _ _ _ h1 in
    let (ends, h3) = >>-eq-ok _ _ h2 in
    (All-endpoints view _ _ ends, positive _ (reject_if-ok _ _ h3))

refs_lem :
    (plan : ReconciliationPlan) (ids : List ℕ)
    → validate_message_refs plan ids ≡ ok tt
    → all
        (λ i. supports (λ id. has same_number id ids) i.supporting_message_ids)
        plan.create_objects
      ≡ true
unfolding validate_message_refs
refs_lem plan ids h = first _ _ _ _ (reject_if-ok _ _ h)
  where
    first : (a b c d : Bool) → not (a && b && c && d) ≡ false → a ≡ true
    first a b c d k = ground arith

-- A plan that passes the checks of the commit is append-only. Each of its Memories cites messages of
-- the run's window, at least one, all of them of humans and not all of them noise, and has a
-- derived_from connection to the Chat of the run that cites the same messages. Each of its
-- connections has a Memory at one end, and at an existing end the Chat or an Object that the run
-- consulted, which is live.
pub validate_commit-IsCommittable :
    (u : Unicode) (max : ℕ) (capture : Bool) (messages : ℕ → Option MessageEvidence)
    (message_ids : List ℕ) (view : View) (plan plan' : ReconciliationPlan)
    → validate_commit u max capture messages message_ids view plan ≡ ok plan'
    → IsCommittable u capture messages message_ids view plan'
unfolding validate_commit
validate_commit-IsCommittable u max capture messages message_ids view plan plan' h =
    let (proposed, _, h1) = >>=-eq-ok _ _ h in
    let (left, accepted, h2) = >>=-eq-ok _ _ h1 in
    let (cited, h3) = >>-eq-ok _ _ h2 in
    let (grounded, h4) = >>-eq-ok _ _ h3 in
    let (policy, h5) = >>-eq-ok _ _ h4 in
    let same : left ≡ plan' = cc in
    let (anchored, origin) = policy_lem view left policy in
    rw (← same) record {
      append_only = validate_plan-IsAppendOnly u max proposed left accepted;
      grounded = All-grounds u capture messages _ grounded;
      cited = refs_lem left message_ids cited;
      anchored = anchored;
      origin = origin;
    }
