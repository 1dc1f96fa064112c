-- ===== src/ExternalActions/Ledger.antt =====
-- src/external_actions.rs: the ledger as a whole. The trace of an action replays to its state.
use centaur_context.Common.{
  ℕ, ◌==◌, ◌≡◌, refl, sym, ◌∙◌, ap, Bool, true, false, ◌&&◌, Bool-cases, List, [], ◌∷◌, ◌++◌,
  Option, some, inl, inr, arith, All, find, find-here, find-past, ok, ◌>>=◌, >>=-eq-ok,
  reject_if-eq-ok,
}
use mathlib.Core.List.{append-nil, append_assoc}
use centaur_context.Text.{Text, lit}
use centaur_context.Json.{Value, string, object, get}
use centaur_context.Runs.Updates.{Rewritten, ends, writes, leaves}
use centaur_context.Runs.{Run, Printer, Table}
use centaur_context.ExternalActions.States.{transition, replay}
use centaur_context.ExternalActions.{action_of, next_state}
use centaur_context.ExternalActions.Requests.{ExternalAction, Event, is_external, is_action}

abbrev text_values : Option Value → List Text
text_values (some (string s)) = s ∷ []
text_values _ = []

-- The types of the events in a trace.
unfoldable pub event_types_of : Value → List Text
unfolding get
event_types_of (object fs) = text_values (get (lit "event_type") fs)
event_types_of _ = []

unfoldable pub event_types : List Value → List Text
unfolding event_types_of
event_types [] = []
event_types (v ∷ vs) = event_types_of v ++ event_types vs

-- The events of an action lead from `reserved` to its state.
unfoldable pub IsReplayed : Run → Type 0
IsReplayed r = is_external r ≡ true → replay (lit "reserved") (event_types r.trace) ≡ ok r.status

unfoldable pub NoDup : List ℕ → Type 0
NoDup [] = Unit
NoDup (i ∷ is) = All (λ j. (j == i) ≡ false) is × NoDup is

unfoldable pub ids : Table → List ℕ
ids [] = []
ids (r ∷ runs) = r.id ∷ ids runs

pub record IsLedger (runs : Table) : Type 0 where
  pub unique : NoDup (ids runs)
  pub replayed : All IsReplayed runs

pub event_types-append :
    (vs : List Value) (v : Value) → event_types (vs ++ v ∷ []) ≡ event_types vs ++ event_types_of v
unfolding event_types
event_types-append [] v = append-nil (event_types_of v)
event_types-append (w ∷ vs) v =
    ap (λ x. event_types_of w ++ x) (event_types-append vs v)
    ∙ sym (append_assoc (event_types_of w) (event_types vs) (event_types_of v))

-- One more event is one more step.
pub replay-append :
    (s : Text) (es : List Text) (t e n : Text)
    → replay s es ≡ ok t
    → transition t e ≡ ok n
    → replay s (es ++ e ∷ []) ≡ ok n
unfolding replay ◌>>=◌
replay-append s [] t e n h k = let same : s ≡ t = cc in rw (same, k) refl
replay-append s (x ∷ es) t e n h k =
    let (m, step, rest) = >>=-eq-ok (transition s x) (λ next. replay next es) h in
    rw step (replay-append m es t e n rest k)

module _ (p : Run → Bool) (f : Run → Run) where
  -- An update keeps what holds of all rows, if the rows that it writes keep it.
  pub All-updated :
      (P : Run → Type 0) {runs : Table} {n : ℕ} {runs' : Table}
      → Rewritten p f runs n runs'
      → All (λ r. p r ≡ true → P (f r)) runs
      → All P runs
      → All P runs'
  All-updated P ends w g = tt
  All-updated P (writes e u) (wr, w) (gr, g) = (wr e, All-updated P u w g)
  All-updated P (leaves e u) (wr, w) (gr, g) = (gr, All-updated P u w g)

  pub ids-Rewritten :
      ((r : Run) → (f r).id ≡ r.id)
      → {runs : Table} {n : ℕ} {runs' : Table} → Rewritten p f runs n runs'
      → ids runs' ≡ ids runs
  unfolding ids
  ids-Rewritten keep ends = refl
  ids-Rewritten keep (writes {r = x} e u) = rw (keep x, ids-Rewritten keep u) refl
  ids-Rewritten keep (leaves e u) = rw (ids-Rewritten keep u) refl

-- A row of another id.
none_else :
    (id : ℕ) (x : Run) (P : Run → Type 0) (runs : Table)
    → (x.id == id) ≡ true
    → All (λ j. (j == x.id) ≡ false) (ids runs)
    → All (λ r. is_action id r ≡ true → P r) runs
unfolding ids
none_else id x P [] here apart = tt
none_else id x P (r ∷ runs) here (other, apart) =
    (λ hit. absurd (clash r.id x.id id _ here other hit), none_else id x P runs here apart)
  where
    clash : (a b c : ℕ) (k : Bool) → (b == c) ≡ true → (a == b) ≡ false → (a == c && k) ≡ true → ⊥
    clash a b c k e f g = ground arith

-- No two rows have one id, so a search for it finds the only one.
pub only_row :
    (id : ℕ) (row : Run) (runs : Table)
    → NoDup (ids runs)
    → find (is_action id) runs ≡ some row
    → All (λ r. is_action id r ≡ true → r ≡ row) runs
unfolding ids NoDup
only_row id row [] u h = tt
only_row id row (x ∷ runs) (apart, u) h = elim (Bool-cases (is_action id x)) [
  | inl here ↦
      let same : some x ≡ some row = rw (find-here (is_action id) x runs here) at h in
      (λ _. cc, none_else id x (λ r. r ≡ row) runs (id_of _ _ here) apart)
  | inr missed ↦ (
    λ hit. absurd (contrary missed hit),
    only_row id row runs u (rw (find-past (is_action id) x runs missed) at h),
  )
]
  where
    id_of : (a b : Bool) → (a && b) ≡ true → a ≡ true
    id_of a b e = ground arith

    contrary : {b : Bool} → b ≡ false → b ≡ true → ⊥
    contrary e k = cc

module _ (p : Printer) (encoded_len : Value → ℕ) where
  action_of-state :
      (r : Run) {a : ExternalAction} → action_of p encoded_len r ≡ ok a → a.state ≡ r.status
  unfolding action_of
  action_of-state r h =
      let (_, _, h1) = >>=-eq-ok _ _ h in
      let (_, _, h2) = >>=-eq-ok _ _ h1 in
      let (_, _, h3) = >>=-eq-ok _ _ h2 in
      let (_, _, h4) = >>=-eq-ok _ _ h3 in let (_, _, h5) = >>=-eq-ok _ _ h4 in ground arith

  module _ (allowed : Run → Bool) (now : ℕ) (created_at entry_id : Value) where
    pub next_state-transition :
        (e : Event) (r : Run) (n : Text)
        → next_state p encoded_len allowed now created_at entry_id e r ≡ ok n
        → transition r.status e.event_type ≡ ok n
    next_state-transition e r n h =
        let (a, read, h1) = >>=-eq-ok _ _ h in
        let (_, h2) = reject_if-eq-ok _ _ _ h1 in rw (← action_of-state r read) h2
