-- ===== src/Routines/Occurrences.antt =====
-- src/db/routines.rs: `routine_run_update`, the report of a dispatcher (no actor), of an execution or
-- of a human on an occurrence.
use centaur_context.Common.{
  ℕ, ◌==◌, Bool, true, false, not, ◌&&◌, ◌||◌, List, [], ◌∷◌, Option, none, some, ltb, any, find,
  is_none, is_some, if◌then◌else◌, Result, ok, err, ◌>>=◌, ◌>>◌, reject_if, ok_or,
}
use centaur_context.Errors.{plain, DbError, invalid, not_found}
use centaur_context.Text.{Text, lit, len, trim, text_eq, is_empty, starts_with}
use centaur_context.Routines.{RoutineRun, TaskRow, RoutineState, is_active, is_terminal, is_ready}

pub record Reporter : Type 0 where
  pub actor_type : Text
  pub centaur_thread_key : Option Text

pub record RoutineRunUpdate : Type 0 where
  pub status : Text
  pub execution_thread : Option Text
  pub execution_url : Option Text
  pub result : Option Text

abbrev pub is_human : Option Reporter → Bool
is_human none = false
is_human (some actor) = text_eq actor.actor_type (lit "human")

abbrev same_thread : Option Text → Option Text → Bool
same_thread (some s) (some t) = text_eq s t
same_thread _ _ = false

abbrev pub check_reporter :
    Option Reporter → RoutineRun → RoutineRunUpdate → Result DbError (Unit {0})
check_reporter none run input = ok tt
check_reporter (some actor) run input =
    if not (text_eq actor.actor_type (lit "human"))
      && not (same_thread run.execution_thread actor.centaur_thread_key)
    then err (invalid (plain "Only the assigned execution thread may report this occurrence"))
    else reject_if (is_some input.execution_thread || is_some input.execution_url)
        (invalid (plain "Only the trusted dispatcher can bind an execution"))

-- The transitions that are refused, or that change nothing.
abbrev pub is_barred : Option Reporter → Text → Text → Bool
is_barred actor old new =
    not (is_terminal new || (is_none actor && text_eq new (lit "running")))
    || (not (is_active old)
        && not (text_eq old (lit "review") && is_human actor && text_eq new (lit "completed")))

abbrev is_long : Option Text → Bool
is_long none = false
is_long (some v) = ltb 20000 (len v)

abbrev is_blank : Option Text → Bool
is_blank none = true
is_blank (some v) = is_empty (trim v)

abbrev pub bad_result : RoutineRunUpdate → Bool
bad_result input =
    is_long input.result || (text_eq input.status (lit "blocked") && is_blank input.result)

abbrev pub is_missing : Option Text → Bool
is_missing none = true
is_missing (some s) = is_empty s

abbrev pub is_not_https : Option Text → Bool
is_not_https none = true
is_not_https (some s) = not (starts_with s (lit "https://"))

abbrev allows : ℕ → Option TaskRow → Bool
allows revision none = false
allows revision (some task) = task.revision == revision && not task.archived && is_ready task.status

-- The routine is enabled in the definition of the occurrence, and its task is live and ready.
unfoldable pub is_current : RoutineState → RoutineRun → Bool
is_current state run =
    any
      (λ routine.
        routine.task_id == run.task_id
        && routine.enabled
        && routine.definition_revision == run.definition_revision
        && allows run.definition_revision (state.tasks run.task_id))
      state.routines

abbrev pub check_start : RoutineState → RoutineRun → RoutineRunUpdate → Result DbError (Unit {0})
check_start state run input =
    if not (text_eq input.status (lit "running"))
    then ok tt
    else if not (is_current state run)
    then err (invalid (plain "Routine is paused or its definition changed"))
    else reject_if (is_missing input.execution_thread || is_not_https input.execution_url)
        (invalid (plain "Execution thread and HTTPS link are required"))

-- `coalesce(a, b)`
abbrev pub coalesce : Option Text → Option Text → Option Text
coalesce none old = old
coalesce (some new) old = some new

abbrev pub written : ℕ → RoutineRun → RoutineRunUpdate → RoutineRun
written now run input = record run {
  status = input.status;
  execution_thread = coalesce input.execution_thread run.execution_thread;
  execution_url = coalesce input.execution_url run.execution_url;
  result = coalesce input.result run.result;
  completed_at = if is_terminal input.status then some now else none;
}

abbrev pub apply_update :
    RoutineState → ℕ → RoutineRun → RoutineRunUpdate → Result DbError RoutineRun
apply_update state now run input = do
  reject_if (bad_result input)
      (invalid (plain "Result must be at most 20000 bytes; a blocked run requires a reason"))
  check_start state run input
  ok (written now run input)

-- What is left of the occurrence, for one that the store has.
unfoldable pub update_run :
    RoutineState → ℕ → Option Reporter → RoutineRun → RoutineRunUpdate → Result DbError RoutineRun
update_run state now actor run input =
    if is_none actor && is_terminal run.status
    then ok run
    else check_reporter actor run input
      >> (if is_barred actor run.status input.status
          then if text_eq run.status input.status
            then ok run
            else err (invalid (plain "Invalid occurrence transition"))
          else apply_update state now run input)

abbrev pub put_run : RoutineRun → List RoutineRun → List RoutineRun
put_run run [] = []
put_run run (r ∷ rs) = let rest = put_run run rs in if r.id == run.id then run ∷ rs else r ∷ rest

-- `routine_run_update`: the answer, and the state that is committed.
unfoldable pub routine_run_update :
    ℕ
    → Option Reporter
    → ℕ
    → RoutineRunUpdate
    → RoutineState
    → Result DbError (RoutineRun × RoutineState)
routine_run_update now actor id input state = do
  run ← ok_or (find (λ r. r.id == id) state.runs) not_found
  run' ← update_run state now actor run input
  ok (run', record state { runs = put_run run' state.runs })
