-- ===== src/Routines/Tests.antt =====
-- src/db/routines.rs: a routine that is configured, claimed, started and completed.
use centaur_context.Common.{
  ◌+◌, ◌==◌, ◌≡◌, inl, refl, true, false, List, [], ◌∷◌, none, some, if◌then◌else◌, ok, ◌>>=◌, ◌>>◌,
}
use centaur_context.Common.Integer.{pos}
use centaur_context.Text.{lit, len, text_eq, trim, trim_start, is_whitespace, contains, starts_with}
use centaur_context.Routines.{
  RoutineSchedule, RoutineRun, TaskRow, RoutineState, Clock, is_clock, validate_schedule,
  routine_next,
}
use centaur_context.Routines.Occurrences.{
  Reporter, RoutineRunUpdate, is_current, update_run, routine_run_update,
}
use centaur_context.Routines.Claims.{routine_configure, claim_one, claim_all, routine_claim_due}
use centaur_context.Routines.Life.{Move, update_run-Move}
use centaur_context.Routines.History.{
  Report, closed_statuses, reports, IsSound, reports-closed, reports-IsSound,
}
use centaur_context.Routines.Overlap.{NoOverlap}
use centaur_context.Routines.Requests.{
  Request, configure, claim, report_on, serve_all, serve_all-NoOverlap,
}

routine_code : Unit {0}
unfolding len text_eq trim trim_start is_whitespace contains starts_with is_clock validate_schedule
    routine_next is_current update_run routine_run_update routine_configure claim_one claim_all
    routine_claim_due ◌>>=◌ ◌>>◌
routine_code = tt

abbrev hourly : RoutineSchedule
hourly = record {
  timezone = lit "UTC";
  every_minutes = some (pos 60);
  local_time = none;
  weekdays = [];
}

-- A sign is read as part of an hour and of a minute.
signed_clock : is_clock (some (lit "+9:+5")) ≡ true
unfolding routine_code
signed_clock = refl

abbrev clock : Clock
clock = record { timezone_exists = λ s. true; next = λ s t. none }

abbrev task : TaskRow
task = record {
  revision = 3;
  archived = false;
  status = lit "todo";
  agent_suitable = true;
  owner_object_id = some 2;
  due_at = some 9;
  brief_markdown = some (lit "Report");
}

abbrev empty : RoutineState
empty = record { runs = []; routines = []; tasks = λ id. if id == 1 then some task else none }

abbrev enable : Request
enable =
    configure clock 0 1
      record { expected_revision = 3; schedule = hourly; enabled = true; confirmed = true }

abbrev claimed : RoutineRun
claimed = record {
  id = 51;
  task_id = 1;
  scheduled_for = 3_600_000_000;
  definition_revision = 4;
  status = lit "pending";
  execution_thread = none;
  execution_url = none;
  result = none;
  completed_at = none;
}

abbrev started : RoutineRunUpdate
started = record {
  status = lit "running";
  execution_thread = some (lit "t1");
  execution_url = some (lit "https://example.org/t1");
  result = none;
}

abbrev running : RoutineRun
running = record claimed {
  status = lit "running";
  execution_thread = some (lit "t1");
  execution_url = some (lit "https://example.org/t1");
}

abbrev done : RoutineRunUpdate
done = record {
  status = lit "completed";
  execution_thread = none;
  execution_url = none;
  result = some (lit "Sent");
}

abbrev completed : RoutineRun
completed = record running {
  status = lit "completed";
  result = some (lit "Sent");
  completed_at = some 4_000_000_002;
}

abbrev agent : Reporter
agent = record { actor_type = lit "agent"; centaur_thread_key = some (lit "t1") }

abbrev morning : List Request
morning =
    enable
    ∷ claim clock 4_000_000_000 (λ task. 50 + task)
    ∷ claim clock 4_000_000_000 (λ task. 60 + task)
    ∷ report_on 4_000_000_001 none 51 started
    ∷ []

abbrev working : RoutineState
working = serve_all (enable ∷ claim clock 4_000_000_000 (λ task. 50 + task) ∷ []) empty

one_claim : working.runs ≡ claimed ∷ []
unfolding routine_code
one_claim = refl

one_run : (serve_all morning empty).runs ≡ running ∷ []
unfolding routine_code
one_run = refl

run_started : update_run working 4_000_000_001 none claimed started ≡ ok running
unfolding routine_code
run_started = refl

update_run-Move_example :
    Move working none claimed running
    × (running.id ≡ claimed.id)
    × (running.task_id ≡ claimed.task_id)
    × (running.definition_revision ≡ claimed.definition_revision)
update_run-Move_example =
    update_run-Move working 4_000_000_001 none claimed started running run_started

abbrev reported : List Report
reported =
    record { state = working; now = 4_000_000_001; actor = none; input = started }
    ∷ record { state = working; now = 4_000_000_002; actor = some agent; input = done }
    ∷ []

run_completed : reports claimed reported ≡ completed
unfolding routine_code
run_completed = refl

completed_closed : contains closed_statuses completed.status ≡ true
unfolding routine_code
completed_closed = refl

claimed-IsSound : IsSound claimed
unfolding routine_code
claimed-IsSound = record { known = inl refl; timed = refl; linked = inl refl }

reports-closed_example : reports completed reported ≡ completed
reports-closed_example = reports-closed completed reported completed_closed

reports-IsSound_example : IsSound (reports claimed reported)
reports-IsSound_example = reports-IsSound claimed reported claimed-IsSound

serve_all-NoOverlap_example : NoOverlap (serve_all morning empty).runs
serve_all-NoOverlap_example = serve_all-NoOverlap morning empty tt
