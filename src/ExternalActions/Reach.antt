-- ===== src/ExternalActions/Reach.antt =====
-- src/external_actions.rs: the tables that any sequence of requests can make.
use centaur_context.Common.{ℕ, zero, suc, ◌≡◌, Bool, true, [], ◌∷◌, some, get_elem?, subst, All}
use centaur_context.Text.{lit}
use centaur_context.Json.{Value}
use centaur_context.Runs.{Run, Printer, Table}
use centaur_context.ExternalActions.States.History.{follows, to_preview, delivery_follows_approval}
use centaur_context.ExternalActions.Ledger.{IsReplayed, NoDup, ids, IsLedger, event_types}
use centaur_context.ExternalActions.Audit.{append_event-IsLedger, reserve-IsLedger}
use centaur_context.ExternalActions.{append_event}
use centaur_context.ExternalActions.Reservations.{reserve}
use centaur_context.ExternalActions.Requests.{Actor, ReserveRequest, EventRequest, is_external}

module _ (p : Printer) (encoded_len : Value → ℕ) (allowed : Run → Bool) where
  -- The tables that the two handlers reach from the empty one, by any requests at any times.
  pub data Reaches : Table → Type 0 where
    nothing : Reaches []
    reserves :
        {runs : Table} (now new_id : ℕ) (actor : Actor) (request : ReserveRequest)
        → Reaches runs
        → Reaches (reserve p encoded_len allowed now new_id actor request runs).0
    appends :
        {runs : Table} (now : ℕ) (created_at entry_id : Value) (actor : Actor) (run_id : ℕ)
        (request : EventRequest)
        → Reaches runs
        → Reaches
            (append_event p encoded_len allowed now created_at entry_id actor run_id request runs).0

  -- In a table that requests have made from the empty one, no two actions have one id, and the
  -- events in the trace of each lead from `reserved` to its state.
  pub reached-IsLedger : (runs : Table) → Reaches runs → IsLedger runs
  unfolding ids NoDup
  reached-IsLedger _ nothing = record { unique = tt; replayed = tt }
  reached-IsLedger _ (reserves {runs} now new_id actor request r) =
      reserve-IsLedger p encoded_len allowed now new_id actor request runs (reached-IsLedger runs r)
  reached-IsLedger _ (appends {runs} now created_at entry_id actor run_id request r) =
      append_event-IsLedger p encoded_len allowed now created_at entry_id actor run_id request runs
        (reached-IsLedger runs r)

  -- In a table that requests have made from the empty one, an action that is delivered has the events
  -- of its preview, of an approval, of the start of an attempt, of an acceptance and of the delivery
  -- in its trace, in this order.
  pub reached-IsApproved :
      (runs : Table) (i : ℕ) (r : Run)
      → Reaches runs
      → get_elem? runs i ≡ some r
      → is_external r ≡ true
      → r.status ≡ lit "delivered"
      → follows to_preview (event_types r.trace) ≡ true
  unfolding IsReplayed
  reached-IsApproved runs i r made h external done =
      let g = each runs i r (reached-IsLedger runs made).replayed h in
      delivery_follows_approval (event_types r.trace) (rw done at (g external))
    where
      each :
          (runs : Table) (i : ℕ) (r : Run)
          → All IsReplayed runs
          → get_elem? runs i ≡ some r
          → IsReplayed r
      each [] i r g h = cc
      each (x ∷ runs) zero r (gx, g) h = let same : x ≡ r = cc in subst IsReplayed same gx
      each (x ∷ runs) (suc i) r (gx, g) h = each runs i r g h
