-- ===== src/ExternalActions/States/History.antt =====
-- src/external_actions.rs: what a history of events that `transition` admits shows.
use Prim.Native.String.{String}
use centaur_context.Common.{
  ◌≡◌, inl, inr, refl, sym, ◌∙◌, subst, Bool, true, false, Bool-cases, List, [], ◌∷◌, if◌then◌else◌,
  ok, >>=-eq-ok,
}
use centaur_context.Text.{Text, lit, text_eq, contains}
use centaur_context.Text.Laws.{text_eq_refl}
use centaur_context.ExternalActions.States.{replay}
use centaur_context.ExternalActions.States.Laws.{
  Step, preview, preview_again, approve, attempt, accept, reconcile, find_accepted, find_absent,
  deliver, deliver_again, suppress, fail, transition-Step,
}

-- Distinct literals.
away : {t u : Text} {S : Type 0} → t ≡ u → text_eq t u ≡ false → S
away {t} {u} same apart =
    let here : text_eq t u ≡ true = rw same (text_eq_refl u) in
    let broken : true ≡ false = sym here ∙ apart in cc

from_delivered : {e n : Text} → Step (lit "delivered") e n → n ≡ lit "delivered"
unfolding text_eq
from_delivered (preview a b c) = away a refl
from_delivered (preview_again a b c) = away a refl
from_delivered (approve a b c) = away a refl
from_delivered (attempt a b c) = away a refl
from_delivered (accept a b c) = away a refl
from_delivered (reconcile a b c) = away a refl
from_delivered (find_accepted a b c) = away a refl
from_delivered (find_absent a b c) = away a refl
from_delivered (deliver a b c) = away a refl
from_delivered (deliver_again a b c) = c
from_delivered (suppress a b c d) = absurd (a refl)
from_delivered (fail a b c d) = absurd (a refl)

from_suppressed : {e n : Text} → Step (lit "suppressed") e n → n ≡ lit "suppressed"
unfolding text_eq
from_suppressed (preview a b c) = away a refl
from_suppressed (preview_again a b c) = away a refl
from_suppressed (approve a b c) = away a refl
from_suppressed (attempt a b c) = away a refl
from_suppressed (accept a b c) = away a refl
from_suppressed (reconcile a b c) = away a refl
from_suppressed (find_accepted a b c) = away a refl
from_suppressed (find_absent a b c) = away a refl
from_suppressed (deliver a b c) = away a refl
from_suppressed (deliver_again a b c) = away a refl
from_suppressed (suppress a b c d) = d
from_suppressed (fail a b c d) = absurd (b refl)

from_failed : {e n : Text} → Step (lit "failed") e n → n ≡ lit "failed"
unfolding text_eq
from_failed (preview a b c) = away a refl
from_failed (preview_again a b c) = away a refl
from_failed (approve a b c) = away a refl
from_failed (attempt a b c) = away a refl
from_failed (accept a b c) = away a refl
from_failed (reconcile a b c) = away a refl
from_failed (find_accepted a b c) = away a refl
from_failed (find_absent a b c) = away a refl
from_failed (deliver a b c) = away a refl
from_failed (deliver_again a b c) = away a refl
from_failed (suppress a b c d) = absurd (b refl)
from_failed (fail a b c d) = d

-- A state that no event leaves.
pub data IsFinal (s : Text) : Type 0 where
  delivered : s ≡ lit "delivered" → IsFinal s
  suppressed : s ≡ lit "suppressed" → IsFinal s
  failed : s ≡ lit "failed" → IsFinal s

final_step : (s e n : Text) → IsFinal s → Step s e n → n ≡ s
final_step s e n (delivered h) step = from_delivered (subst (λ t. Step t e n) h step) ∙ sym h
final_step s e n (suppressed h) step = from_suppressed (subst (λ t. Step t e n) h step) ∙ sym h
final_step s e n (failed h) step = from_failed (subst (λ t. Step t e n) h step) ∙ sym h

-- From `delivered`, `suppressed` and `failed` no history leads to another state.
pub replay_final : (s : Text) (es : List Text) (n : Text) → IsFinal s → replay s es ≡ ok n → n ≡ s
unfolding replay
replay_final s [] n final h = cc
replay_final s (e ∷ es) n final h =
    let (t, step, rest) = >>=-eq-ok _ _ h in
    let same = final_step s e t final (transition-Step s e t step) in
    replay_final s es n final (rw same at rest)

-- The events of a list, in order and with others between them: each element is a list of
-- alternatives.
unfoldable pub follows : List (List Text) → List Text → Bool
follows [] es = true
follows (m ∷ ms) [] = false
follows (m ∷ ms) (e ∷ es) = if contains m e then follows ms es else follows (m ∷ ms) es

-- What must come between a state and `delivered`.
abbrev to_deliver : List (List Text)
to_deliver = (lit "delivered" ∷ []) ∷ []

abbrev to_accept : List (List Text)
to_accept = (lit "accepted" ∷ lit "reconciled_accepted" ∷ []) ∷ to_deliver

abbrev to_attempt : List (List Text)
to_attempt = (lit "attempt_started" ∷ []) ∷ to_accept

abbrev to_approve : List (List Text)
to_approve = (lit "approved" ∷ []) ∷ to_attempt

abbrev pub to_preview : List (List Text)
to_preview = (lit "previewed" ∷ []) ∷ to_approve

follows_past :
    (ms : List (List Text)) (e : Text) (es : List Text)
    → ((m : List Text) (ms : List (List Text)) → follows (m ∷ ms) es ≡ true → follows ms es ≡ true)
    → follows ms es ≡ true
    → follows ms (e ∷ es) ≡ true
unfolding follows
follows_past [] e es fewer h = refl
follows_past (m ∷ ms) e es fewer h = elim (Bool-cases (contains m e)) [
  | inl hit ↦ rw hit (fewer m ms h)
  | inr miss ↦ rw miss h
]

follows_fewer :
    (es : List Text) (m : List Text) (ms : List (List Text))
    → follows (m ∷ ms) es ≡ true
    → follows ms es ≡ true
unfolding follows
follows_fewer [] m ms h = cc
follows_fewer (e ∷ es) m ms h = elim (Bool-cases (contains m e)) [
  | inl hit ↦ follows_past ms e es (follows_fewer es) (rw hit at h)
  | inr miss ↦ follows_past ms e es (follows_fewer es) (follows_fewer es m ms (rw miss at h))
]

-- What is still to come in each state.
owed : Text → List (List Text)
owed s =
    if text_eq s (lit "reserved")
    then to_preview
    else if text_eq s (lit "previewed")
    then to_approve
    else if text_eq s (lit "approved")
    then to_attempt
    else if text_eq s (lit "attempting")
    then to_accept
    else if text_eq s (lit "reconciliation_required")
    then to_accept
    else if text_eq s (lit "accepted")
    then to_deliver
    else []

-- A step pays at most what its event is, and leaves the rest to the events after it.
module _ (e n : Text) (es : List Text) (h : follows (owed n) es ≡ true)
    (end : replay n es ≡ ok (lit "delivered")) where
  not_stopped :
      {S : Type 0} (s : String)
      → n ≡ lit s
      → IsFinal n
      → text_eq (lit "delivered") (lit s) ≡ false
      → S
  not_stopped s same final apart = away (replay_final n es (lit "delivered") final end ∙ same) apart

  pays : {s : Text} → Step s e n → follows (owed s) (e ∷ es) ≡ true
  unfolding follows owed contains text_eq
  pays (preview a b c) = rw (a, b) (rw c at h)
  pays (preview_again a b c) = rw (a, b) (rw c at h)
  pays (approve a b c) = rw (a, b) (rw c at h)
  pays (attempt a b c) = rw (a, b) (rw c at h)
  pays (accept a b c) = rw (a, b) (rw c at h)
  pays (reconcile a b c) = rw (a, b) (rw c at h)
  pays (find_accepted a b c) = rw (a, b) (rw c at h)
  pays (find_absent a b c) =
      rw (a, b) (follows_fewer es (lit "attempt_started" ∷ []) to_accept (rw c at h))
  pays (deliver a b c) = rw (a, b) refl
  pays (deliver_again a b c) = rw a refl
  pays (suppress a b c d) = not_stopped "suppressed" d (suppressed d) refl
  pays (fail a b c d) = not_stopped "failed" d (failed d) refl

replay-owed :
    (s : Text) (es : List Text) → replay s es ≡ ok (lit "delivered") → follows (owed s) es ≡ true
unfolding replay
replay-owed s [] end =
    let same : s ≡ lit "delivered" = cc in unfold follows owed text_eq in rw same refl
replay-owed s (e ∷ es) end =
    let (n, step, rest) = >>=-eq-ok _ _ end in
    pays e n es (replay-owed n es rest) rest (transition-Step s e n step)

-- Every history from `reserved` to `delivered` has a preview, then an approval, then the start of an
-- attempt, then an acceptance, then the delivery, in this order.
pub delivery_follows_approval :
    (es : List Text)
    → replay (lit "reserved") es ≡ ok (lit "delivered")
    → follows to_preview es ≡ true
unfolding owed text_eq
delivery_follows_approval es end = replay-owed (lit "reserved") es end
