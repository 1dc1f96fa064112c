-- ===== src/ExternalActions/States.antt =====
-- src/external_actions.rs: `transition`, the states of an action.
pub mod Laws
pub mod History
use Prim.Native.String.{String}
use centaur_context.Common.{
  Bool, true, false, not, ◌&&◌, ◌||◌, List, [], ◌∷◌, if◌then◌else◌, Result, ok, err, ◌>>=◌,
}
use centaur_context.Errors.{Message, about, IntakeError, conflict_with}
use centaur_context.Text.{Text, lit, text_eq}

abbrev pub is_state : Text → String → Text → String → Bool
is_state current state event name = text_eq current (lit state) && text_eq event (lit name)

abbrev invalid_event : Result IntakeError Text
invalid_event = err (conflict_with (about "event" "is invalid from this state"))

-- An arm of the `match`, before the arms that follow it.
unfoldable pub arm : Bool → String → Result IntakeError Text → Result IntakeError Text
arm matched next rest = if matched then ok (lit next) else rest

unfoldable pub transition : Text → Text → Result IntakeError Text
transition current event =
    let on = is_state current in
    arm (on "reserved" event "previewed" || on "previewed" event "previewed") "previewed" (
      arm (on "previewed" event "approved") "approved" (
        arm (on "approved" event "attempt_started") "attempting" (
          arm
            (on "attempting" event "accepted"
              || on "reconciliation_required" event "reconciled_accepted")
            "accepted"
            (arm (on "attempting" event "reconciliation_required") "reconciliation_required" (
              arm (on "reconciliation_required" event "reconciled_absent") "approved" (
                arm (on "accepted" event "delivered" || on "delivered" event "delivered")
                  "delivered"
                  (arm (on "suppressed" event "suppressed") "suppressed" (
                    arm
                      (text_eq event (lit "suppressed")
                        && not
                            (text_eq current (lit "delivered") || text_eq current (lit "failed")))
                      "suppressed"
                      (arm
                        (text_eq event (lit "failed")
                          && not (
                              text_eq current (lit "delivered")
                              || text_eq current (lit "suppressed")))
                        "failed" invalid_event)))))))))

-- The state that a list of events leads to.
unfoldable pub replay : Text → List Text → Result IntakeError Text
unfolding transition
replay state [] = ok state
replay state (e ∷ es) = transition state e >>= λ next. replay next es
