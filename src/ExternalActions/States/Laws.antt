-- ===== src/ExternalActions/States/Laws.antt =====
-- src/external_actions.rs: the steps that `transition` admits, and the histories made of them.
use Prim.Native.String.{String}
use centaur_context.Common.{
  ◌≡◌, ◌≢◌, ◌↔◌, inl, inr, refl, sym, ◌∙◌, Bool, true, false, not, ◌&&◌, ◌||◌, Bool-cases, arith,
  Result, ok,
}
use centaur_context.Errors.{IntakeError}
use centaur_context.Text.{Text, lit, text_eq}
use centaur_context.Text.Laws.{text_eq_sound, text_eq_refl}
use centaur_context.ExternalActions.States.{is_state, arm, transition}

-- The diagram of an action's life, an edge per constructor. Any state but the two others that are
-- final may be suppressed, and likewise for a failure.
pub data Step (s e n : Text) : Type 0 where
  preview : s ≡ lit "reserved" → e ≡ lit "previewed" → n ≡ lit "previewed" → Step s e n
  preview_again : s ≡ lit "previewed" → e ≡ lit "previewed" → n ≡ lit "previewed" → Step s e n
  approve : s ≡ lit "previewed" → e ≡ lit "approved" → n ≡ lit "approved" → Step s e n
  attempt : s ≡ lit "approved" → e ≡ lit "attempt_started" → n ≡ lit "attempting" → Step s e n
  accept : s ≡ lit "attempting" → e ≡ lit "accepted" → n ≡ lit "accepted" → Step s e n
  reconcile :
      s ≡ lit "attempting"
      → e ≡ lit "reconciliation_required"
      → n ≡ lit "reconciliation_required"
      → Step s e n
  find_accepted :
      s ≡ lit "reconciliation_required"
      → e ≡ lit "reconciled_accepted"
      → n ≡ lit "accepted"
      → Step s e n
  find_absent :
      s ≡ lit "reconciliation_required"
      → e ≡ lit "reconciled_absent"
      → n ≡ lit "approved"
      → Step s e n
  deliver : s ≡ lit "accepted" → e ≡ lit "delivered" → n ≡ lit "delivered" → Step s e n
  deliver_again : s ≡ lit "delivered" → e ≡ lit "delivered" → n ≡ lit "delivered" → Step s e n
  suppress :
      s ≢ lit "delivered"
      → s ≢ lit "failed"
      → e ≡ lit "suppressed"
      → n ≡ lit "suppressed"
      → Step s e n
  fail :
      s ≢ lit "delivered" → s ≢ lit "suppressed" → e ≡ lit "failed" → n ≡ lit "failed" → Step s e n

arm-cases :
    (b : Bool) (t : String) (k : Result IntakeError Text) {n : Text} {S : Type 0}
    → (b ≡ true → n ≡ lit t → S)
    → (k ≡ ok n → S)
    → arm b t k ≡ ok n
    → S
unfolding arm
arm-cases true t k hit miss h = hit refl (cc)
arm-cases false t k hit miss h = miss h

or-cases : (a b : Bool) {S : Type 0} → (a ≡ true → S) → (b ≡ true → S) → (a || b) ≡ true → S
or-cases true b on_left on_right h = on_left refl
or-cases false b on_left on_right h = on_right h

and-cases : (a b : Bool) → (a && b) ≡ true → (a ≡ true) × (b ≡ true)
and-cases true b h = (refl, h)
and-cases false b h = absurd (cc)

is_state-true :
    (s e : Text) (state name : String)
    → is_state s state e name ≡ true
    → (s ≡ lit state) × (e ≡ lit name)
is_state-true s e state name h =
    let (a, b) = and-cases _ _ h in (text_eq_sound s (lit state) a, text_eq_sound e (lit name) b)

neither : (s t u : Text) → not (text_eq s t || text_eq s u) ≡ true → (s ≢ t) × (s ≢ u)
neither s t u h = (
  λ e. left (text_eq s t) (text_eq s u) (rw e (text_eq_refl t)) h,
  λ e. right (text_eq s t) (text_eq s u) (rw e (text_eq_refl u)) h,
)
  where
    left : (a b : Bool) → a ≡ true → not (a || b) ≡ true → ⊥
    left a b e k = ground arith

    right : (a b : Bool) → b ≡ true → not (a || b) ≡ true → ⊥
    right a b e k = ground arith

module _ (s e n : Text) where
  other :
      (state : String)
      → s ≡ lit "suppressed"
      → text_eq (lit "suppressed") (lit state) ≡ false
      → s ≢ lit state
  other state same apart e =
      let here : text_eq (lit "suppressed") (lit state) ≡ true =
        rw (← same, e) (text_eq_refl (lit state)) in
      let broken : true ≡ false = sym here ∙ apart in cc

  edge :
      (state name : String) {t : Text} {S : Type 0}
      → (s ≡ lit state → e ≡ lit name → n ≡ t → S)
      → is_state s state e name ≡ true
      → n ≡ t
      → S
  edge state name make hit h = let (a, b) = is_state-true s e state name hit in make a b h

  barred_edge :
      (name t u : Text) {S : Type 0}
      → (s ≢ t → s ≢ u → e ≡ name → n ≡ name → S)
      → (text_eq e name && not (text_eq s t || text_eq s u)) ≡ true
      → n ≡ name
      → S
  barred_edge name t u make hit h =
      let (a, b) = and-cases _ _ hit in
      let (x, y) = neither s t u b in make x y (text_eq_sound e name a) h

  -- Every step of `transition` is an edge of the diagram.
  pub transition-Step : transition s e ≡ ok n → Step s e n
  unfolding transition text_eq
  transition-Step =
      arm-cases _ _ _
        (or-cases _ _ (edge "reserved" "previewed" preview)
          (edge "previewed" "previewed" preview_again))
        (arm-cases _ _ _ (edge "previewed" "approved" approve) (
          arm-cases _ _ _ (edge "approved" "attempt_started" attempt) (
            arm-cases _ _ _
              (or-cases _ _ (edge "attempting" "accepted" accept)
                (edge "reconciliation_required" "reconciled_accepted" find_accepted))
              (arm-cases _ _ _ (edge "attempting" "reconciliation_required" reconcile) (
                arm-cases _ _ _ (edge "reconciliation_required" "reconciled_absent" find_absent) (
                  arm-cases _ _ _
                    (or-cases _ _ (edge "accepted" "delivered" deliver)
                      (edge "delivered" "delivered" deliver_again))
                    (arm-cases _ _ _
                      (edge "suppressed" "suppressed"
                        (λ a. suppress (other "delivered" a refl) (other "failed" a refl)))
                      (arm-cases _ _ _
                        (barred_edge (lit "suppressed") (lit "delivered") (lit "failed") suppress)
                        (arm-cases _ _ _
                          (barred_edge (lit "failed") (lit "delivered") (lit "suppressed") fail)
                          (λ h. cc))))))))))

  apart : {t u : Text} → t ≢ u → text_eq t u ≡ false
  apart {t} {u} h = elim (Bool-cases (text_eq t u)) [
    | inl same ↦ absurd (h (text_eq_sound t u same))
    | inr differ ↦ differ
  ]

  suppress_arm :
      text_eq s (lit "delivered") ≡ false
      → text_eq s (lit "failed") ≡ false
      → transition s (lit "suppressed") ≡ ok (lit "suppressed")
  unfolding transition arm text_eq
  suppress_arm a b = ground arith

  fail_arm :
      text_eq s (lit "delivered") ≡ false
      → text_eq s (lit "suppressed") ≡ false
      → transition s (lit "failed") ≡ ok (lit "failed")
  unfolding transition arm text_eq
  fail_arm a b = ground arith

  -- Every edge of the diagram is a step of `transition`.
  Step-transition : Step s e n → transition s e ≡ ok n
  unfolding transition arm text_eq
  Step-transition (preview a b c) = rw (a, b, c) refl
  Step-transition (preview_again a b c) = rw (a, b, c) refl
  Step-transition (approve a b c) = rw (a, b, c) refl
  Step-transition (attempt a b c) = rw (a, b, c) refl
  Step-transition (accept a b c) = rw (a, b, c) refl
  Step-transition (reconcile a b c) = rw (a, b, c) refl
  Step-transition (find_accepted a b c) = rw (a, b, c) refl
  Step-transition (find_absent a b c) = rw (a, b, c) refl
  Step-transition (deliver a b c) = rw (a, b, c) refl
  Step-transition (deliver_again a b c) = rw (a, b, c) refl
  Step-transition (suppress a b c d) = rw (c, d) (suppress_arm (apart a) (apart b))
  Step-transition (fail a b c d) = rw (c, d) (fail_arm (apart a) (apart b))

-- `transition` admits exactly the edges of the diagram.
pub transition_lem : (s e n : Text) → (transition s e ≡ ok n) ↔ Step s e n
transition_lem s e n = (transition-Step s e n, Step-transition s e n)

-- A state that no event leaves.
pub is_final : Text → Bool
is_final s = text_eq s (lit "delivered") || text_eq s (lit "suppressed") || text_eq s (lit "failed")
