-- ===== src/Routines/Life.antt =====
-- src/db/routines.rs: the moves of an occurrence.
use centaur_context.Common.{
  both_false, ℕ, ◌≡◌, ◌⊎◌, inl, inr, refl, Bool, true, false, not, ◌&&◌, ◌||◌, Option, none, some,
  Bool-cases, arith, is_none, is_some, if◌then◌else◌, ok, err, reject_if-ok, reject_if-eq-ok,
  >>-eq-ok,
}
use centaur_context.Errors.{DbError}
use centaur_context.Text.{Text, lit, text_eq, contains}
use centaur_context.Text.Laws.{text_eq_sound}
use centaur_context.Routines.{RoutineRun, RoutineState, is_active, is_terminal}
use centaur_context.Routines.Occurrences.{
  Reporter, RoutineRunUpdate, is_human, is_barred, is_missing, is_not_https, is_current,
  check_start, coalesce, written, apply_update, update_run,
}

-- It names an execution thread and a link by https.
pub record IsLinked (run : RoutineRun) : Type 0 where
  pub thread : is_missing run.execution_thread ≡ false
  pub https : is_not_https run.execution_url ≡ false

-- The moves of an occurrence that a report can make.
pub data Move (state : RoutineState) (actor : Option Reporter)
    : RoutineRun → RoutineRun → Type 0 where
  stay : {run : RoutineRun} → Move state actor run run
  start :
      {run run' : RoutineRun}
      → actor ≡ none
      → is_active run.status ≡ true
      → is_current state run ≡ true
      → run'.status ≡ lit "running"
      → IsLinked run'
      → run'.completed_at ≡ none
      → Move state actor run run'
  finish :
      {run run' : RoutineRun}
      → is_active run.status ≡ true
      → is_terminal run'.status ≡ true
      → is_some run'.completed_at ≡ true
      → Move state actor run run'
  confirm :
      {run run' : RoutineRun}
      → is_human actor ≡ true
      → run.status ≡ lit "review"
      → run'.status ≡ lit "completed"
      → is_some run'.completed_at ≡ true
      → Move state actor run run'

module _ (state : RoutineState) (now : ℕ) (actor : Option Reporter) (run : RoutineRun)
    (input : RoutineRunUpdate) where
  -- An accepted report changes nothing, or passes every guard.
  update_cases :
      (run' : RoutineRun)
      → update_run state now actor run input ≡ ok run'
      → (run ≡ run')
        ⊎ ((is_barred actor run.status input.status ≡ false)
            × (apply_update state now run input ≡ ok run'))
  unfolding update_run
  update_cases run' h = elim (Bool-cases (is_none actor && is_terminal run.status)) [
    | inl over ↦ inl (let same = rw (over) at h in cc)
    | inr open_run ↦ let (_, h1) = >>-eq-ok _ _ (rw (open_run) at h) in guarded _ h1
  ]
    where
      repeated : (b : Bool) (e : DbError) → (if b then ok run else err e) ≡ ok run' → run ≡ run'
      repeated true e k = cc
      repeated false e k = cc

      guarded :
          (e : DbError)
          → (if is_barred actor run.status input.status
              then if text_eq run.status input.status then ok run else err e
              else apply_update state now run input)
            ≡ ok run'
          → (run ≡ run')
            ⊎ ((is_barred actor run.status input.status ≡ false)
                × (apply_update state now run input ≡ ok run'))
      guarded e k = elim (Bool-cases (is_barred actor run.status input.status)) [
        | inl barred ↦ inl (repeated (text_eq run.status input.status) e (rw (barred) at k))
        | inr free ↦ inr (free, rw (free) at k)
      ]

  -- What `check_start` has checked of a report that starts an execution.
  start_lem :
      text_eq input.status (lit "running") ≡ true
      → check_start state run input ≡ ok tt
      → (is_current state run ≡ true) × IsLinked (written now run input)
  start_lem running h = elim (Bool-cases (is_current state run)) [
    | inl current ↦
        let (thread, https) = both_false _ _ (reject_if-ok _ _ (rw (running, current) at h)) in
        (current, record { thread = bound _ _ thread; https = linked _ _ https })
    | inr stale ↦ let refused = rw (running, stale) at h in cc
  ]
    where
      bound :
          (new old : Option Text) → is_missing new ≡ false → is_missing (coalesce new old) ≡ false
      bound none old k = cc
      bound (some s) old k = k

      linked :
          (new old : Option Text)
          → is_not_https new ≡ false
          → is_not_https (coalesce new old) ≡ false
      linked none old k = cc
      linked (some s) old k = k

  abbrev after : RoutineRun
  after = written now run input

  -- A start is a report of the dispatcher on an active occurrence.
  start_guard :
      text_eq input.status (lit "running") ≡ true
      → is_barred actor run.status input.status ≡ false
      → (is_none actor ≡ true) × (is_active run.status ≡ true)
  unfolding contains text_eq
  start_guard running free =
      let same = text_eq_sound input.status (lit "running") running in
      started (is_none actor) (is_active run.status) (text_eq run.status (lit "review"))
        (is_human actor) (rw (same) at free)
    where
      started :
          (n a v k : Bool)
          → (not (false || (n && true)) || (not a && not (v && k && false))) ≡ false
          → (n ≡ true) × (a ≡ true)
      started n a v k h = (ground arith, ground arith)

  other_guard :
      text_eq input.status (lit "running") ≡ false
      → is_barred actor run.status input.status ≡ false
      → (is_terminal input.status ≡ true)
        × ((is_active run.status ≡ true)
            ⊎ ((text_eq run.status (lit "review") ≡ true)
                × (is_human actor ≡ true)
                × (text_eq input.status (lit "completed") ≡ true)))
  other_guard other free = split _ _ _ _ _ _ _ other free
    where
      split :
          (t n r a v k c : Bool)
          → r ≡ false
          → (not (t || (n && r)) || (not a && not (v && k && c))) ≡ false
          → (t ≡ true) × ((a ≡ true) ⊎ ((v ≡ true) × (k ≡ true) × (c ≡ true)))
      split t n r true v k c p h = (ground arith, inl refl)
      split t n r false v k c p h = (ground arith, inr (ground arith, ground arith, ground arith))

  stamped : is_terminal input.status ≡ true → is_some after.completed_at ≡ true
  stamped over = rw (over) refl

  unstamped : is_terminal input.status ≡ false → after.completed_at ≡ none
  unstamped going = rw (going) refl

  running_open : text_eq input.status (lit "running") ≡ true → is_terminal input.status ≡ false
  unfolding contains text_eq
  running_open running = rw (text_eq_sound input.status (lit "running") running) refl

  nobody : (o : Option Reporter) → is_none o ≡ true → o ≡ none
  nobody none h = refl
  nobody (some a) h = cc

  -- An update that passes the guards of the transition moves the occurrence.
  moved :
      is_barred actor run.status input.status ≡ false
      → check_start state run input ≡ ok tt
      → Move state actor run after
  moved free h = elim (Bool-cases (text_eq input.status (lit "running"))) [
    | inl running ↦
        let (none_else, active) = start_guard running free in
        let (current, linked) = start_lem running h in
        start (nobody actor none_else) active current (text_eq_sound _ _ running) linked
          (unstamped (running_open running))
    | inr other ↦ let (over, cases) = other_guard other free in ending over cases
  ]
    where
      ending :
          is_terminal input.status ≡ true
          → (is_active run.status ≡ true)
            ⊎ ((text_eq run.status (lit "review") ≡ true)
                × (is_human actor ≡ true)
                × (text_eq input.status (lit "completed") ≡ true))
          → Move state actor run after
      ending over (inl active) = finish active over (stamped over)
      ending over (inr (reviewed, human, completed)) =
          confirm human (text_eq_sound _ _ reviewed) (text_eq_sound _ _ completed) (stamped over)

  -- A report that is accepted is one of the moves: it changes nothing; it starts an active occurrence
  -- of an enabled and unchanged routine with an execution thread and an https link, and is the
  -- dispatcher's; it ends an active occurrence, with the time; or it is a human's, and completes one
  -- in review. The occurrence keeps its id, its task and its definition.
  pub update_run-Move :
      (run' : RoutineRun)
      → update_run state now actor run input ≡ ok run'
      → Move state actor run run'
        × (run'.id ≡ run.id)
        × (run'.task_id ≡ run.task_id)
        × (run'.definition_revision ≡ run.definition_revision)
  update_run-Move run' h = elim (update_cases run' h) [
    | inl same ↦ rw (← same) (stay, refl, refl, refl)
    | inr (free, applied) ↦
        let (_, h1) = reject_if-eq-ok _ _ _ applied in
        let (checked, h2) = >>-eq-ok _ _ h1 in
        let same : after ≡ run' = cc in rw (← same) (moved free checked, refl, refl, refl)
  ]
