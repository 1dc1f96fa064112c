-- ===== src/Runs.antt =====
-- src/runs.rs: the `runs` table. A row is a record, the table a list of rows in order of insertion.
-- A transaction is a function of the table that fails as a whole; a statement outside a transaction
-- is one of its own. `allowed` stands for the constraints of the table that the code relies on the
-- database to check (lengths, references, the statuses of a kind); the clock is an argument.
pub mod Usage
pub mod Updates
pub mod History
pub mod Rows
pub mod Once
pub mod Validation
pub mod Workflow
pub mod Interactions
use centaur_context.Common.{
  ℕ, zero, suc, ◌+◌, ◌≡◌, Bool, true, false, not, ◌&&◌, ◌||◌, List, [], ◌∷◌, ◌++◌, Option, none,
  some, ◌==◌, if◌then◌else◌, find, any, Result, ok, err, ok_or,
}
use centaur_context.Errors.{DbError, sqlx, not_found, conflict}
use centaur_context.Text.{Text, lit, text_eq}
use centaur_context.Json.{Value, null, string, Fields, get, as_object, object}
use centaur_context.Runs.Validation.{WorkflowTraceEntry}

pub record Run : Type 0 where
  pub id : ℕ
  pub parent_run_id : Option ℕ
  pub kind : Text
  pub status : Text
  pub actor_type : Text
  pub actor_id : Text
  pub chat_object_id : Option ℕ
  pub primary_object_id : Option ℕ
  pub idempotency_key : Text
  pub input : Value
  pub trace : List Value
  pub result : Fields
  pub consulted_object_ids : List ℕ
  pub error : Option Text
  pub verdict : Text
  pub review_notes : Option Text
  pub pinned : Bool
  pub reviewed_by : Option Text
  pub reviewed_at : Option ℕ
  pub available_at : Option ℕ
  pub started_at : Option ℕ
  pub completed_at : Option ℕ
  pub created_at : ℕ
  pub updated_at : ℕ

-- How other code prints: `Uuid`'s `Display`, `->>` of a value that is no string, the derived
-- serializer of a trace entry, and a float that a `jsonb` column has kept.
pub record Printer : Type 0 where
  pub uuid_text : ℕ → Text
  pub json_text : Value → Text
  pub to_value : WorkflowTraceEntry → Value
  pub jsonb_float : Text → Value

-- `value->>key`: a JSON null and a missing key are NULL.
abbrev pub scalar_text : Printer → Option Value → Option Text
scalar_text p none = none
scalar_text p (some null) = none
scalar_text p (some (string s)) = some s
scalar_text p (some v) = some (p.json_text v)

abbrev get_from : Text → Option Fields → Option Value
get_from key none = none
get_from key (some fs) = get key fs

unfoldable pub arrow_text : Printer → Value → Text → Option Text
unfolding get
arrow_text p v key = scalar_text p (get_from key (as_object v))

-- `a = b` in SQL, where NULL equals nothing.
abbrev pub sql_eq : Option Text → Text → Bool
sql_eq none t = false
sql_eq (some s) t = text_eq s t

abbrev pub same_id : Option ℕ → ℕ → Bool
same_id none n = false
same_id (some m) n = m == n

abbrev pub Table : Type 0
Table = List Run

abbrev pub Tx : Type 0 → Type 0
Tx A = Table → Result DbError (A × Table)

abbrev pub go_on :
    {A B : Type 0} → Result DbError (A × Table) → (A → Tx B) → Result DbError (B × Table)
go_on (err e) f = err e
go_on (ok (a, runs)) f = f a runs

infixl 5 ◌>>=◌ ◌>>◌
unfoldable pub ◌>>=◌ : {A B : Type 0} → Tx A → (A → Tx B) → Tx B
◌>>=◌ m f runs = go_on (m runs) f

unfoldable pub ◌>>◌ : {A B : Type 0} → Tx A → Tx B → Tx B
unfolding ◌>>=◌
m >> k = m >>= λ _. k

abbrev pub return : {A : Type 0} → A → Tx A
return a runs = ok (a, runs)

abbrev pub fail : {A : Type 0} → DbError → Tx A
fail e runs = err e

abbrev pub ensure : Bool → DbError → Tx (Unit {0})
ensure true e = return tt
ensure false e = fail e

-- A transaction as the caller sees it: a failure changes nothing.
abbrev pub settle : {A : Type 0} → Table → Result DbError (A × Table) → Table × Result DbError A
settle runs (ok (a, runs')) = (runs', ok a)
settle runs (err e) = (runs, err e)

abbrev pub commit : {A : Type 0} → Tx A → Table → Table × Result DbError A
commit m runs = settle runs (m runs)

-- `SELECT … WHERE …`, of the first row.
abbrev pub select : (Run → Bool) → Tx (Option Run)
select p runs = ok (find p runs, runs)

abbrev pub has_id : ℕ → Run → Bool
has_id id r = r.id == id

abbrev pub put_row : Bool → Bool → Run → Run → ℕ → Table → Option (ℕ × Table)
put_row true true new old n runs = some (suc n, new ∷ runs)
put_row true false new old n runs = none
put_row false _ new old n runs = some (n, old ∷ runs)

-- `UPDATE … WHERE …`: the number of rows, or `none` if a new row violates a constraint.
unfoldable pub update_rows : (Run → Bool) → (Run → Bool) → (Run → Run) → Table → Option (ℕ × Table)
update_rows allowed p f [] = some (0, [])
update_rows allowed p f (r ∷ runs) = elim (update_rows allowed p f runs) [
  | none ↦ none
  | some (n, runs') ↦ put_row (p r) (allowed (f r)) (f r) r n runs'
]

unfoldable pub update : (Run → Bool) → (Run → Bool) → (Run → Run) → Tx ℕ
unfolding update_rows
update allowed p f runs = ok_or (update_rows allowed p f runs) sqlx

-- The unique index on kind and idempotency key.
abbrev pub same_key : Run → Run → Bool
same_key r s = text_eq r.kind s.kind && text_eq r.idempotency_key s.idempotency_key

-- `INSERT`, with the primary key, the unique index and the other constraints.
unfoldable pub insert_run : (Run → Bool) → Run → Tx (Unit {0})
insert_run allowed r runs =
    if any (has_id r.id) runs || any (same_key r) runs || not (allowed r)
    then err sqlx
    else ok (tt, runs ++ r ∷ [])

-- `INSERT … ON CONFLICT (id) DO NOTHING`
unfoldable pub insert_if_new : (Run → Bool) → Run → Tx (Unit {0})
insert_if_new allowed r runs =
    if any (has_id r.id) runs then ok (tt, runs) else insert_run allowed r runs

-- A row with the columns that an `INSERT` names here; the others have their defaults.
abbrev pub new_run : ℕ → Text → Text → Text → Text → Text → Value → Fields → ℕ → Run
new_run id kind status actor_type actor_id key input result now = record {
  id = id;
  parent_run_id = none;
  kind = kind;
  status = status;
  actor_type = actor_type;
  actor_id = actor_id;
  chat_object_id = none;
  primary_object_id = none;
  idempotency_key = key;
  input = input;
  trace = [];
  result = result;
  consulted_object_ids = [];
  error = none;
  verdict = lit "unreviewed";
  review_notes = none;
  pinned = false;
  reviewed_by = none;
  reviewed_at = none;
  available_at = some now;
  started_at = none;
  completed_at = none;
  created_at = now;
  updated_at = now;
}

-- `trace || jsonb_build_array(entry)`, with the `updated_at` that each statement sets.
abbrev pub push_trace : Value → ℕ → Run → Run
push_trace entry now r = record r { trace = r.trace ++ entry ∷ []; updated_at = now }

-- `EXISTS(SELECT 1 FROM jsonb_array_elements(trace) item WHERE item->>'id'=id)`
abbrev pub has_entry : Printer → Text → Run → Bool
has_entry p id r = any (λ item. sql_eq (arrow_text p item (lit "id")) id) r.trace
