-- ===== src/ExternalActions/Rows.antt =====
-- src/external_actions.rs: the row of a new reservation, for the lookups of a later request.
use centaur_context.Common.{
  ℕ, ◌==◌, ◌≡◌, refl, find-here, find-past, Bool, true, false, ◌&&◌, ◌||◌, Bool-cases, [], ◌∷◌,
  ◌++◌, Option, none, some, inl, inr, arith, any, find, ok, ◌>>=◌,
}
use centaur_context.Text.{text_eq}
use centaur_context.Text.Laws.{text_eq_refl}
use centaur_context.Json.{Value, get, jsonb}
use centaur_context.Json.Laws.{value_eq_refl}
use centaur_context.Runs.{Run, Printer, arrow_text, Table, has_id}
use centaur_context.ExternalActions.{owns_key, get_action, action_of}
use centaur_context.ExternalActions.Reservations.{reserved_run, is_same_action}
use centaur_context.ExternalActions.Requests.{Actor, ExternalAction, Reservation, is_action}

pub find-append :
    (f : Run → Bool) (runs : Table) (r : Run)
    → find f runs ≡ none
    → f r ≡ true
    → find f (runs ++ r ∷ []) ≡ some r
find-append f [] r h k = find-here f r [] k
find-append f (x ∷ runs) r h k = elim (Bool-cases (f x)) [
  | inl here ↦
      let broken : ◌≡◌ {A = Option Run} (some x) none = rw (find-here f x runs here) at h in cc
  | inr missed ↦
      rw (find-past f x (runs ++ r ∷ []) missed)
        (find-append f runs r (rw (find-past f x runs missed) at h) k)
]

no_action : (id : ℕ) (runs : Table) → any (has_id id) runs ≡ false → find (is_action id) runs ≡ none
no_action id [] h = refl
no_action id (x ∷ runs) h =
    let missed : is_action id x ≡ false = first (has_id id x) (any (has_id id) runs) _ h in
    rw (find-past (is_action id) x runs missed) (no_action id runs (later _ _ h))
  where
    first : (a b c : Bool) → (a || b) ≡ false → (a && c) ≡ false
    first a b c e = ground arith

    later : (a b : Bool) → (a || b) ≡ false → b ≡ false
    later a b e = ground arith

module _ (p : Printer) (encoded_len : Value → ℕ) (allowed : Run → Bool) (actor : Actor) where
  module _ (now new_id : ℕ) (q : Reservation) where
    abbrev pub row : Run
    row = reserved_run p encoded_len allowed now new_id actor q

    pub row_action :
        (a : ExternalAction)
        → jsonb p.jsonb_float q.metadata ≡ q.metadata
        → action_of p encoded_len row ≡ ok a
        → is_same_action p encoded_len q a ≡ true
    unfolding action_of arrow_text get ◌>>=◌ text_eq
    row_action a kept h = same_action a (cc) (cc) (cc) (cc)
      where
        same_action :
            (a : ExternalAction)
            → a.provider ≡ q.provider
            → a.action_kind ≡ q.action_kind
            → a.external_key ≡ q.external_key
            → a.metadata ≡ q.metadata
            → is_same_action p encoded_len q a ≡ true
        same_action a e f g h =
            rw
              (
                e,
                f,
                g,
                h,
                text_eq_refl q.provider,
                text_eq_refl q.action_kind,
                text_eq_refl q.external_key,
                value_eq_refl q.metadata,
              )
              refl

    pub row_owned : owns_key p encoded_len actor q.key row ≡ true
    unfolding text_eq
    row_owned =
        rw (text_eq_refl actor.actor_type, text_eq_refl actor.actor_id, text_eq_refl q.key) refl

    pub get_row :
        (runs : Table)
        → any (has_id new_id) runs ≡ false
        → get_action p encoded_len new_id (runs ++ row ∷ []) ≡ action_of p encoded_len row
    unfolding get_action ◌>>=◌ text_eq
    get_row runs free =
        rw (find-append (is_action new_id) runs row (no_action new_id runs free) (self new_id)) refl
      where
        self : (n : ℕ) → (n == n && true) ≡ true
        self n = ground arith
