-- ===== src/Routines.antt =====
-- src/db/routines.rs: schedules, the occurrences of routines, and the state that they live in. A time
-- is a number of microseconds. `next` of a clock stands for PostgreSQL's reading of a schedule.
pub mod Occurrences
pub mod Claims
pub mod Life
pub mod History
pub mod Overlap
pub mod Requests
mod Tests
use Prim.Native.String.{String}
use centaur_context.Common.{
  ℕ, ◌+◌, ◌-◌, ◌*◌, ◌==◌, Bool, true, false, not, ◌&&◌, ◌||◌, List, [], ◌∷◌, Option, none, some,
  ltb, leb, length, all, take, drop, get_elem?, is_none, if◌then◌else◌, Result, ok, err, ◌>>=◌,
  ◌>>◌, reject_if,
}
use centaur_context.Common.Integer.{ℤ, pos, leb_ℤ}
use centaur_context.Errors.{plain, DbError, invalid}
use centaur_context.Text.{Text, lit, len, is_empty, is_ascii_digit, contains}

pub record RoutineSchedule : Type 0 where
  pub timezone : Text
  pub every_minutes : Option ℤ
  pub local_time : Option Text
  pub weekdays : List ℤ

abbrev pub in_range : ℤ → ℤ → ℤ → Bool
in_range low high n = leb_ℤ low n && leb_ℤ n high

-- `parse::<u8>()` of at most two characters, which cannot overflow. A sign `+` is read as well.
abbrev digits_from : ℕ → Text → Option ℕ
digits_from n [] = some n
digits_from n (c ∷ s) =
    let rest = digits_from (n * 10 + (c - b'0')) s in if is_ascii_digit c then rest else none

abbrev parse_u8 : Text → Option ℕ
parse_u8 [] = none
parse_u8 (c ∷ []) = digits_from 0 (c ∷ [])
parse_u8 (c ∷ d ∷ s) = if c == b'+' then digits_from 0 (d ∷ s) else digits_from 0 (c ∷ d ∷ s)

abbrev below : ℕ → Option ℕ → Bool
below bound none = false
below bound (some n) = ltb n bound

abbrev is_colon : Option ℕ → Bool
is_colon none = false
is_colon (some c) = c == b':'

unfoldable pub is_clock : Option Text → Bool
is_clock none = false
is_clock (some s) =
    len s == 5
    && all (λ c. ltb c 128) s
    && is_colon (get_elem? s 2)
    && below 24 (parse_u8 (take 2 s))
    && below 60 (parse_u8 (drop 3 s))

abbrev is_interval : Option ℤ → Bool
is_interval none = false
is_interval (some m) = in_range (pos 1) (pos 525600) m

-- `RoutineSchedule::validate`
unfoldable pub validate_schedule : RoutineSchedule → Result DbError (Unit {0})
validate_schedule s =
    reject_if
      (is_empty s.timezone
        || ltb 100 (len s.timezone)
        || not (
            (is_interval s.every_minutes && is_none s.local_time && length s.weekdays == 0)
            || (is_none s.every_minutes
                && is_clock s.local_time
                && not (length s.weekdays == 0)
                && leb (length s.weekdays) 7
                && all (in_range (pos 1) (pos 7)) s.weekdays)))
      (invalid (
        plain
          "Use every_minutes (1–525600), or local_time HH:MM and weekdays (Monday=1…Sunday=7), plus an IANA timezone"))

-- A row of `task_routine_runs`.
pub record RoutineRun : Type 0 where
  pub id : ℕ
  pub task_id : ℕ
  pub scheduled_for : ℕ
  pub definition_revision : ℕ
  pub status : Text
  pub execution_thread : Option Text
  pub execution_url : Option Text
  pub result : Option Text
  pub completed_at : Option ℕ

-- A row of `task_routines`.
pub record Routine : Type 0 where
  pub task_id : ℕ
  pub schedule : RoutineSchedule
  pub enabled : Bool
  pub definition_revision : ℕ
  pub next_run_at : Option ℕ

-- A task and its Object.
pub record TaskRow : Type 0 where
  pub revision : ℕ
  pub archived : Bool
  pub status : Text
  pub agent_suitable : Bool
  pub owner_object_id : Option ℕ
  pub due_at : Option ℕ
  pub brief_markdown : Option Text

pub record RoutineState : Type 0 where
  pub runs : List RoutineRun
  pub routines : List Routine
  pub tasks : ℕ → Option TaskRow

pub record Clock : Type 0 where
  pub timezone_exists : Text → Bool
  pub next : RoutineSchedule → ℕ → Option ℕ

abbrev next_occurrence : Clock → RoutineSchedule → ℕ → Option ℤ → Result DbError ℕ
next_occurrence clock schedule after (some (pos minutes)) = ok (after + minutes * 60_000_000)
next_occurrence clock schedule after _ = elim (clock.next schedule after) [
  | none ↦ err (invalid (plain "Schedule has no next occurrence"))
  | some t ↦ ok t
]

-- `routine_next`; a schedule that was validated has positive minutes.
unfoldable pub routine_next : Clock → RoutineSchedule → ℕ → Result DbError ℕ
routine_next clock schedule after = do
  validate_schedule schedule
  reject_if (not (clock.timezone_exists schedule.timezone)) (invalid (plain "Unknown timezone"))
  next_occurrence clock schedule after schedule.every_minutes

abbrev pub active_statuses : List Text
active_statuses = lit "pending" ∷ lit "running" ∷ []

abbrev pub terminal_statuses : List Text
terminal_statuses = lit "review" ∷ lit "completed" ∷ lit "blocked" ∷ lit "skipped" ∷ []

abbrev pub is_active : Text → Bool
is_active status = contains active_statuses status

abbrev pub is_terminal : Text → Bool
is_terminal status = contains terminal_statuses status

-- The statuses of a task whose routine may start.
abbrev pub is_ready : Text → Bool
is_ready status = contains (lit "todo" ∷ lit "review" ∷ []) status
