-- ===== src/Routines/Claims.antt =====
-- src/db/routines.rs: `routine_configure` and `routine_claim_due`, on one PostgreSQL, whose unique
-- indexes leave out an occurrence that a task has at that time, or while one is active.
use centaur_context.Common.{
  ℕ, ◌+◌, ◌==◌, Bool, true, false, not, ◌&&◌, ◌||◌, List, [], ◌∷◌, map, Option, none, some, ltb,
  leb, any, take, is_none, if◌then◌else◌, Result, ok, ◌>>=◌, ◌>>◌, reject_if, ok_or,
}
use centaur_context.Errors.{plain, DbError, invalid, not_found, conflict}
use centaur_context.Text.{Text, lit, trim, text_eq, is_empty}
use centaur_context.Routines.{
  RoutineSchedule, RoutineRun, Routine, TaskRow, RoutineState, Clock, routine_next, is_active,
  is_ready,
}

pub record RoutineConfigure : Type 0 where
  pub expected_revision : ℕ
  pub schedule : RoutineSchedule
  pub enabled : Bool
  pub confirmed : Bool

abbrev is_blank_brief : Option Text → Bool
is_blank_brief none = true
is_blank_brief (some b) = is_empty (trim b)

abbrev pub is_unfit : TaskRow → Bool
is_unfit task =
    not task.agent_suitable
    || is_none task.owner_object_id
    || is_none task.due_at
    || is_blank_brief task.brief_markdown
    || not (is_ready task.status)

-- `INSERT … ON CONFLICT(task_id) DO UPDATE`
abbrev pub put_routine : Routine → List Routine → List Routine
put_routine routine [] = routine ∷ []
put_routine routine (r ∷ rs) =
    let rest = put_routine routine rs in
    if r.task_id == routine.task_id then routine ∷ rs else r ∷ rest

-- The new revision of the task's Object pauses its routine, which is written after that.
unfoldable pub routine_configure :
    Clock → ℕ → ℕ → RoutineConfigure → RoutineState → Result DbError RoutineState
routine_configure clock now id input state = do
  reject_if (input.enabled && not input.confirmed)
      (invalid (plain "Explicit confirmation is required to enable recurring execution"))
  next ← routine_next clock input.schedule now
  task ← ok_or (state.tasks id) not_found
  reject_if (task.archived || (input.enabled && is_unfit task)) (
      invalid (
        plain
          "Enable requires an active, Ready or Review, agent-suitable task with owner, review date and execution brief"))
  reject_if (not (task.revision == input.expected_revision)) conflict
  ok record state {
    routines =
        put_routine
          record {
            task_id = id;
            schedule = input.schedule;
            enabled = input.enabled;
            definition_revision = task.revision + 1;
            next_run_at = if input.enabled then some next else none;
          }
          state.routines;
    tasks = λ other.
        if other == id
        then some record task { revision = task.revision + 1 }
        else state.tasks other;
  }

abbrev is_stale : ℕ → Routine → Option TaskRow → Bool
is_stale revision routine none = false
is_stale revision routine (some task) =
    not routine.enabled
    || not (routine.definition_revision == revision)
    || not (task.revision == revision)
    || task.archived

-- A pending occurrence of a routine that is paused or changed is skipped.
abbrev pub expire : RoutineState → ℕ → RoutineRun → RoutineRun
expire state now run =
    if text_eq run.status (lit "pending")
      && any
          (λ routine.
            routine.task_id == run.task_id
            && is_stale run.definition_revision routine (state.tasks run.task_id))
          state.routines
    then record run {
      status = lit "skipped";
      result = some (lit "Routine paused or definition changed before dispatch");
      completed_at = some now;
    }
    else run

abbrev is_startable : ℕ → Option TaskRow → Bool
is_startable revision none = false
is_startable revision (some task) =
    not task.archived && task.revision == revision && is_ready task.status

abbrev due_by : ℕ → Option ℕ → Bool
due_by now none = false
due_by now (some t) = leb t now

abbrev pub is_due : RoutineState → ℕ → Routine → Bool
is_due state now routine =
    routine.enabled
    && due_by now routine.next_run_at
    && is_startable routine.definition_revision (state.tasks routine.task_id)

abbrev time_of : Option ℕ → ℕ
time_of none = 0
time_of (some t) = t

-- `ORDER BY r.next_run_at,r.task_id`
abbrev insert_due : Routine → List Routine → List Routine
insert_due r [] = r ∷ []
insert_due r (q ∷ qs) =
    let later = q ∷ insert_due r qs in
    if ltb (time_of r.next_run_at) (time_of q.next_run_at)
      || (time_of r.next_run_at == time_of q.next_run_at && leb r.task_id q.task_id)
    then r ∷ q ∷ qs
    else later

abbrev pub due : RoutineState → ℕ → List Routine → List Routine
due state now [] = []
due state now (r ∷ rs) =
    let rest = due state now rs in if is_due state now r then insert_due r rest else rest

abbrev pub collides : RoutineRun → RoutineRun → Bool
collides run other =
    other.task_id == run.task_id
    && (is_active other.status || other.scheduled_for == run.scheduled_for)

-- `INSERT … ON CONFLICT DO NOTHING`
abbrev pub insert_run : RoutineRun → List RoutineRun → List RoutineRun
insert_run run runs = if any (collides run) runs then runs else run ∷ runs

abbrev pub pending_run : ℕ → Routine → RoutineRun
pending_run id routine = record {
  id = id;
  task_id = routine.task_id;
  scheduled_for = time_of routine.next_run_at;
  definition_revision = routine.definition_revision;
  status = lit "pending";
  execution_thread = none;
  execution_url = none;
  result = none;
  completed_at = none;
}

-- The body of the loop: `id` is the new `Uuid`.
unfoldable pub claim_one : Clock → ℕ → ℕ → Routine → RoutineState → Result DbError RoutineState
claim_one clock now id routine state = routine_next clock routine.schedule now >>= λ next.
    ok record state {
      runs = insert_run (pending_run id routine) state.runs;
      routines = put_routine record routine { next_run_at = some next } state.routines;
    }

unfoldable pub claim_all :
    Clock → ℕ → (ℕ → ℕ) → List Routine → RoutineState → Result DbError RoutineState
claim_all clock now new_id [] state = ok state
claim_all clock now new_id (r ∷ rs) state =
    claim_one clock now (new_id r.task_id) r state >>= λ state'.
    claim_all clock now new_id rs state'

-- `routine_claim_due` commits this state; it answers with the active runs of it. `new_id` gives the
-- id of a task's new occurrence.
unfoldable pub routine_claim_due : Clock → ℕ → (ℕ → ℕ) → RoutineState → Result DbError RoutineState
routine_claim_due clock now new_id state =
    let expired = record state { runs = map (expire state now) state.runs } in
    claim_all clock now new_id (take 25 (due expired now expired.routines)) expired
