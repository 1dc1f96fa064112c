-- ===== src/Runs/Usage/Recording/Entries.antt =====
-- src/runs.rs: the entry of a model call, and the trace that has it.
use centaur_context.Common.{
  and_false, ℕ, ==-refl, ◌++◌, ◌≡◌, refl, ◌∙◌, ap, Bool, true, false, ◌&&◌, List, [], ◌∷◌, Option,
  none, some, arith, if◌then◌else◌,
}
use centaur_context.Common.Integer.{ℤ, pos, negsuc, eq_ℤ, fits, i32_bound}
use centaur_context.Text.{Text, lit, text_eq}
use centaur_context.Text.Laws.{text_eq_refl}
use centaur_context.Json.{Value, null, int, string, Fields, get, insert}
use centaur_context.Json.Laws.{get-insert}
use centaur_context.Runs.{Run, Printer, scalar_text, arrow_text, has_id, push_trace}
use centaur_context.Runs.Usage.{NormalizedUsage}
use centaur_context.Runs.Usage.Recording.{
  or_empty, or_one, Attempts, attempt_entry, is_attempt, call_index_of, cast_index, is_recorded,
  found, is_false, is_missing_in,
}

abbrev pub text_value : Option Text → Value
text_value none = null
text_value (some t) = string t

abbrev pub number_value : Option ℤ → Value
number_value none = null
number_value (some n) = int n

-- The serializer writes the fields that tell a call, the index is an `i32`, and the cast to `integer`
-- reads every printed number of 32 bits as itself.
pub record IsWritten (p : Printer) (a : Attempts) (u : NormalizedUsage) : Type 0 where
  pub component : get (lit "component") (a.fields_of u) ≡ some (string u.component)
  pub execution :
      get (lit "source_execution_id") (a.fields_of u) ≡ some (string u.source_execution_id)
  pub turn : get (lit "source_turn_id") (a.fields_of u) ≡ some (text_value u.source_turn_id)
  pub index : get (lit "call_index") (a.fields_of u) ≡ some (number_value u.call_index)
  pub index_type : fits i32_bound (or_one u.call_index) ≡ true
  pub reads : (n : ℤ) → fits i32_bound n ≡ true → a.integer_of (p.json_text (int n)) ≡ some n

with_entry : (v t i : Value) → Fields → Fields
with_entry v t i fs =
    insert (lit "created_at") v (insert (lit "entry_type") t (insert (lit "id") i fs))

-- A key that the entry takes from the usage.
get-with_entry :
    (v t i : Value) (fs : Fields) (j : Text)
    → text_eq (lit "created_at") j ≡ false
    → text_eq (lit "entry_type") j ≡ false
    → text_eq (lit "id") j ≡ false
    → get j (with_entry v t i fs) ≡ get j fs
unfolding with_entry
get-with_entry v t i fs j created typed named =
    rw
      (
        get-insert j (lit "created_at") v (insert (lit "entry_type") t (insert (lit "id") i fs)),
        get-insert j (lit "entry_type") t (insert (lit "id") i fs),
        get-insert j (lit "id") i fs,
        created,
        typed,
        named,
      )
      refl

get-entry_type :
    (v t i : Value) (fs : Fields) → get (lit "entry_type") (with_entry v t i fs) ≡ some t
unfolding with_entry text_eq
get-entry_type v t i fs =
    rw
      (
        get-insert (lit "entry_type") (lit "created_at") v
            (insert (lit "entry_type") t (insert (lit "id") i fs)),
        get-insert (lit "entry_type") (lit "entry_type") t (insert (lit "id") i fs),
      )
      refl

scalar-or_empty :
    (p : Printer) (o : Option Text) → or_empty (scalar_text p (some (text_value o))) ≡ or_empty o
scalar-or_empty p none = refl
scalar-or_empty p (some t) = refl

scalar-cast :
    (p : Printer) (a : Attempts) (o : Option ℤ)
    → fits i32_bound (or_one o) ≡ true
    → ((n : ℤ) → fits i32_bound n ≡ true → a.integer_of (p.json_text (int n)) ≡ some n)
    → cast_index p a (scalar_text p (some (number_value o))) ≡ some (or_one o)
scalar-cast p a none small reads = refl
scalar-cast p a (some n) small reads = reads n small

-- One step of the scan that finds nothing.
past_one :
    (p : Printer) (a : Attempts) (t : Bool) (c : Option ℤ) (n : ℤ) (r r' : Option Bool)
    → (if t then found p a c n r else r) ≡ some false
    → (r ≡ some false) × (r' ≡ some true → (if t then found p a c n r' else r') ≡ some true)
past_one p a false c n r r' h = (h, λ k. k)
past_one p a true none n r r' h = cc
past_one p a true (some m) n r r' h = split (eq_ℤ m n) h
  where
    split :
        (b : Bool)
        → (if b then some true else r) ≡ some false
        → (r ≡ some false) × (r' ≡ some true → (if b then some true else r') ≡ some true)
    split true k = cc
    split false k = (k, λ e. e)

eq_ℤ_refl : (n : ℤ) → eq_ℤ n n ≡ true
eq_ℤ_refl (pos n) = ==-refl n
eq_ℤ_refl (negsuc n) = ==-refl n

module _ (p : Printer) (a : Attempts) (u : NormalizedUsage) (w : IsWritten p a u) where
  arrow-kept :
      (id now : ℕ) (j : Text)
      → text_eq (lit "created_at") j ≡ false
      → text_eq (lit "entry_type") j ≡ false
      → text_eq (lit "id") j ≡ false
      → arrow_text p (attempt_entry p a id now u) j ≡ scalar_text p (get j (a.fields_of u))
  unfolding arrow_text attempt_entry with_entry
  arrow-kept id now j created typed named = ap (scalar_text p) (
      get-with_entry (a.time_of now) (string (lit "model_attempt")) (string (p.uuid_text id))
        (a.fields_of u) j created typed named)

  arrow-entry_type :
      (id now : ℕ)
      → arrow_text p (attempt_entry p a id now u) (lit "entry_type") ≡ some (lit "model_attempt")
  unfolding arrow_text attempt_entry with_entry
  arrow-entry_type id now = ap (scalar_text p) (
      get-entry_type (a.time_of now) (string (lit "model_attempt")) (string (p.uuid_text id))
        (a.fields_of u))

  attempt_entry-is_attempt : (id now : ℕ) → is_attempt p a u (attempt_entry p a id now u) ≡ true
  unfolding is_attempt text_eq
  attempt_entry-is_attempt id now =
      let component =
        arrow-kept id now (lit "component") refl refl refl ∙ ap (scalar_text p) w.component in
      let execution =
        arrow-kept id now (lit "source_execution_id") refl refl refl
        ∙ ap (scalar_text p) w.execution in
      let turn =
        ap or_empty
          (arrow-kept id now (lit "source_turn_id") refl refl refl ∙ ap (scalar_text p) w.turn)
        ∙ scalar-or_empty p u.source_turn_id in
      rw
        (
          arrow-entry_type id now,
          component,
          execution,
          turn,
          text_eq_refl u.component,
          text_eq_refl u.source_execution_id,
          text_eq_refl (or_empty u.source_turn_id),
        )
        refl

  attempt_entry-index :
      (id now : ℕ) → call_index_of p a (attempt_entry p a id now u) ≡ some (or_one u.call_index)
  unfolding call_index_of text_eq
  attempt_entry-index id now =
      ap (cast_index p a)
        (arrow-kept id now (lit "call_index") refl refl refl ∙ ap (scalar_text p) w.index)
      ∙ scalar-cast p a u.call_index w.index_type w.reads

  -- An entry at the end of a trace without one of the call.
  pub recorded-append :
      (id now : ℕ) (es : List Value)
      → is_recorded p a u es ≡ some false
      → is_recorded p a u (es ++ attempt_entry p a id now u ∷ []) ≡ some true
  unfolding is_recorded
  recorded-append id now [] h =
      rw
        (
          attempt_entry-is_attempt id now,
          attempt_entry-index id now,
          eq_ℤ_refl (or_one u.call_index),
        )
        refl
  recorded-append id now (e ∷ es) h =
      let (rest, wanted) =
        past_one p a (is_attempt p a u e) (call_index_of p a e) (or_one u.call_index)
          (is_recorded p a u es) (is_recorded p a u (es ++ attempt_entry p a id now u ∷ [])) h in
      wanted (recorded-append id now es rest)

  pub barred :
      (id now : ℕ) (r : Run)
      → is_missing_in p a u r ≡ true
      → is_missing_in p a u (push_trace (attempt_entry p a id now u) now r) ≡ false
  barred id now r h =
      let missing = unrecorded (has_id u.run_id r) (is_recorded p a u r.trace) h in
      rw (recorded-append id now r.trace missing) (and_false (has_id u.run_id r))
    where
      unrecorded : (b : Bool) (o : Option Bool) → (b && is_false p a o) ≡ true → o ≡ some false
      unrecorded b none k = ground arith
      unrecorded b (some true) k = ground arith
      unrecorded b (some false) k = refl
