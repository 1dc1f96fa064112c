-- ===== src/Routines/History.antt =====
-- src/db/routines.rs: what reports in any number and order leave of an occurrence.
use centaur_context.Common.{
  ℕ, ◌≡◌, ◌∙◌, ◌⊎◌, inl, inr, refl, sym, true, false, List, [], ◌∷◌, Option, is_some, Result, ok,
  err, no_clash,
}
use centaur_context.Errors.{DbError}
use centaur_context.Text.{Text, lit, text_eq, contains}
use centaur_context.Text.Laws.{contains-All, text_eq_refl}
use centaur_context.Routines.{RoutineRun, RoutineState, is_active, is_terminal, terminal_statuses}
use centaur_context.Routines.Occurrences.{Reporter, RoutineRunUpdate, update_run}
use centaur_context.Routines.Life.{IsLinked, Move, stay, start, finish, confirm, update_run-Move}

-- A report: the state that it meets, its time, its author and what it says.
pub record Report : Type 0 where
  pub state : RoutineState
  pub now : ℕ
  pub actor : Option Reporter
  pub input : RoutineRunUpdate

-- A report that is refused changes nothing.
abbrev kept : RoutineRun → Result DbError RoutineRun → RoutineRun
kept run (ok run') = run'
kept run (err e) = run

abbrev pub report : RoutineRun → Report → RoutineRun
report run r = kept run (update_run r.state r.now r.actor run r.input)

abbrev pub reports : RoutineRun → List Report → RoutineRun
reports run [] = run
reports run (r ∷ rs) = reports (report run r) rs

-- What a property of the occurrence needs, to last.
report-Keeps :
    (P : RoutineRun → Type 0)
    → ((state : RoutineState) (actor : Option Reporter) (run run' : RoutineRun)
        → Move state actor run run'
        → P run
        → P run')
    → (rs : List Report) (run : RoutineRun) → P run
    → P (reports run rs)
report-Keeps P step [] run p = p
report-Keeps P step (r ∷ rs) run p = report-Keeps P step rs (report run r) (
    one (update_run r.state r.now r.actor run r.input)
      (λ run' h. (update_run-Move r.state r.now r.actor run r.input run' h).0))
  where
    one :
        (m : Result DbError RoutineRun)
        → ((run' : RoutineRun) → m ≡ ok run' → Move r.state r.actor run run')
        → P (kept run m)
    one (ok run') h = step r.state r.actor run run' (h run' refl) p
    one (err e) h = p

-- The end of an occurrence, other than for review.
abbrev pub closed_statuses : List Text
closed_statuses = lit "completed" ∷ lit "blocked" ∷ lit "skipped" ∷ []

abbrev IsShut : Text → Type 0
IsShut s = (is_active s ≡ false) × (text_eq s (lit "review") ≡ false)

closed-IsShut : (s : Text) → contains closed_statuses s ≡ true → IsShut s
unfolding contains text_eq
closed-IsShut s h =
    contains-All IsShut closed_statuses s ((refl, refl), ((refl, refl), ((refl, refl), tt))) h

shut_move :
    (state : RoutineState) (actor : Option Reporter) (run run' : RoutineRun)
    → Move state actor run run'
    → IsShut run.status
    → run ≡ run'
shut_move state actor run run' stay shut = refl
shut_move state actor run run' (start a active c d e f) (inactive, other) =
    absurd (no_clash active inactive)
shut_move state actor run run' (finish active b c) (inactive, other) =
    absurd (no_clash active inactive)
shut_move state actor run run' (confirm a reviewed c d) (inactive, other) =
    absurd (no_clash (same run.status reviewed) other)
  where
    same : (s : Text) → s ≡ lit "review" → text_eq s (lit "review") ≡ true
    same s h = rw (h) (text_eq_refl (lit "review"))

-- No report changes an occurrence that is completed, blocked or skipped.
pub reports-closed :
    (run : RoutineRun) (rs : List Report)
    → contains closed_statuses run.status ≡ true
    → reports run rs ≡ run
reports-closed run rs h = report-Keeps (λ r. r ≡ run) fixed rs run refl
  where
    shut_like : (r : RoutineRun) → r ≡ run → IsShut r.status
    shut_like r same = rw (same) (closed-IsShut run.status h)

    fixed :
        (state : RoutineState) (actor : Option Reporter) (r r' : RoutineRun)
        → Move state actor r r'
        → r ≡ run
        → r' ≡ run
    fixed state actor r r' move same =
        sym (shut_move state actor r r' move (shut_like r same)) ∙ same

-- It is active or has an end, which is when it has the time of its end; and if it runs, then with an
-- execution thread and an https link.
pub record IsSound (run : RoutineRun) : Type 0 where
  pub known : (is_active run.status ≡ true) ⊎ (is_terminal run.status ≡ true)
  pub timed : is_terminal run.status ≡ is_some run.completed_at
  pub linked : (text_eq run.status (lit "running") ≡ false) ⊎ IsLinked run

abbrev IsOver : Text → Type 0
IsOver s = text_eq s (lit "running") ≡ false

over : (s : Text) → is_terminal s ≡ true → IsOver s
unfolding contains text_eq
over s h = contains-All IsOver terminal_statuses s (refl, (refl, (refl, (refl, tt)))) h

running_active : is_active (lit "running") ≡ true
unfolding contains text_eq
running_active = refl

running_going : is_terminal (lit "running") ≡ false
unfolding contains text_eq
running_going = refl

completed_ended : is_terminal (lit "completed") ≡ true
unfolding contains text_eq
completed_ended = refl

IsSound-move :
    (state : RoutineState) (actor : Option Reporter) (run run' : RoutineRun)
    → Move state actor run run'
    → IsSound run
    → IsSound run'
IsSound-move state actor run run' stay sound = sound
IsSound-move state actor run run' (start a b c running linked open_time) sound = record {
  known = inl (rw (running) running_active);
  timed = rw (running, open_time) running_going;
  linked = inr linked;
}
IsSound-move state actor run run' (finish a ended stamped) sound = record {
  known = inr ended;
  timed = ended ∙ sym stamped;
  linked = inl (over run'.status ended);
}
IsSound-move state actor run run' (confirm a b completed stamped) sound = record {
  known = inr ended;
  timed = ended ∙ sym stamped;
  linked = inl (over run'.status ended);
}
  where
    ended : is_terminal run'.status ≡ true
    ended = rw (completed) completed_ended

-- An occurrence that is sound, as a new one is, stays so: whatever is reported on it in whatever
-- order, it is active or has an end, it has the time of its end exactly if it has one, and if it
-- runs, it has an execution thread and an https link.
pub reports-IsSound : (run : RoutineRun) (rs : List Report) → IsSound run → IsSound (reports run rs)
reports-IsSound run rs sound = report-Keeps IsSound IsSound-move rs run sound
