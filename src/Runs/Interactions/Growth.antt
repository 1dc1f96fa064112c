-- ===== src/Runs/Interactions/Growth.antt =====
-- src/runs.rs: the operations on traces, links, Slack interactions and curator runs keep the rule of
-- the trigger.
use centaur_context.Common.{
  ℕ, ◌==◌, ◌≡◌, refl, Bool, true, false, Bool-cases, List, [], ◌∷◌, Option, none, some, inl, inr,
  any, ok,
}
use centaur_context.Common.Integer.{ℤ}
use centaur_context.Errors.{not_found, validation, required}
use centaur_context.Text.{Text, lit, text_eq}
use centaur_context.Json.{Value}
use centaur_context.Runs.{Run, Printer, Table, Tx, ◌>>◌, return, has_id, update}
use centaur_context.Runs.History.{
  Evolves, touched, pushed, Grows, Keeps, Keeps-bind, Keeps-then, Keeps-return, Keeps-fail,
  Keeps-ensure, Keeps-if, Keeps-select, Keeps-update, Keeps-insert_run,
}
use centaur_context.Runs.Interactions.{
  set_context, link_object, link_consulted, link_affected, is_consulted, push_named, end_slack,
  append_trace, push_new, append_external_trace, open_row, open_slack_interaction,
  attach_slack_chat, record_slack_response_evidence, finish_slack_interaction, link_all,
  is_entry_id,
}
use centaur_context.Runs.Interactions.Curation.{
  attach_curator_run, finish_curator_run, fail_curator, reverse_curator_run,
}
use centaur_context.Runs.Interactions.Values.{has_object, consult, SlackInteractionOpen}

module _ (p : Printer) (allowed : Run → Bool) (now : ℕ) where
  consulted : (o : ℕ) (r : Run) → Evolves r (record (consult o r) { updated_at = now })
  consulted o r = elim (Bool-cases (has_object o r.consulted_object_ids)) [
    | inl known ↦ rw known (touched r refl refl refl refl refl refl refl refl)
    | inr new ↦ rw new (touched r refl refl refl refl refl refl refl refl)
  ]

  Keeps-set_context : (run_id : ℕ) → Keeps (set_context p allowed now run_id)
  unfolding set_context
  Keeps-set_context run_id runs runs' a h = elim (Bool-cases (any (has_id run_id) runs)) [
    | inl known ↦ Keeps-return tt runs runs' a (rw known at h)
    | inr missing ↦ Keeps-fail not_found runs runs' a (rw missing at h)
  ]

  Keeps-link_object : (run_id o : ℕ) (role : Text) → Keeps (link_object p allowed now run_id o role)
  unfolding link_object link_consulted link_affected
  Keeps-link_object run_id o role =
      Keeps-if (is_consulted p allowed now role) (link_consulted p allowed now run_id o)
        (link_affected p allowed now run_id o)
        (Keeps-then _ _ (Keeps-update allowed _ _ (consulted o)) (Keeps-return tt))
        (Keeps-then _ _
          (Keeps-update allowed _ _ (λ r. touched r refl refl refl refl refl refl refl refl))
          (Keeps-return tt))

  Keeps-append_trace :
      (entry_id created_at : Value) (run_id : ℕ) (entry_type : Text) (facts : Value)
      → Keeps (append_trace p allowed now entry_id created_at run_id entry_type facts)
  unfolding append_trace
  Keeps-append_trace entry_id created_at run_id entry_type facts =
      Keeps-bind _ _ (Keeps-update allowed _ _ (λ r. pushed _ now r))
        (λ n. Keeps-ensure (n == 1) not_found)

  Keeps-push_new :
      (run_id : ℕ) (entry : Value) (id : Option Text)
      → Keeps (push_new p allowed now run_id entry id)
  unfolding push_named
  Keeps-push_new run_id entry none = Keeps-fail (validation (required "run.trace.id"))
  Keeps-push_new run_id entry (some id) =
      Keeps-if (is_entry_id p allowed now id) (push_named p allowed now run_id entry id) _
        (Keeps-then _ _ (Keeps-update allowed _ _ (pushed entry now)) (Keeps-return tt))
        (Keeps-fail (validation (required "run.trace.id")))

  Keeps-append_external_trace :
      (run_id : ℕ) (entry : Value) → Keeps (append_external_trace p allowed now run_id entry)
  unfolding append_external_trace
  Keeps-append_external_trace run_id entry = Keeps-push_new run_id entry _

  Keeps-open_slack_interaction :
      (new_id : ℕ) (i : SlackInteractionOpen)
      → Keeps (open_slack_interaction p allowed now new_id i)
  unfolding open_slack_interaction
  Keeps-open_slack_interaction new_id i = Keeps-bind _ _ (Keeps-select _) row
    where
      row : (r : Option Run) → Keeps (open_row p allowed now new_id i r)
      row (some r) = Keeps-return (r.id, false)
      row none =
          Keeps-then _ _ (Keeps-insert_run allowed _)
            (Keeps-then _ _ (Keeps-append_external_trace new_id _) (Keeps-return (new_id, true)))

  Keeps-end_slack :
      (run_id : ℕ) (status : Text) (completed_at : Option ℕ) (error : Option Text)
      (affected : List ℕ)
      → Keeps (end_slack p allowed now run_id status completed_at error affected)
  unfolding end_slack
  Keeps-end_slack run_id status completed_at error affected =
      Keeps-then _ _
        (Keeps-update allowed _ _ (λ r. touched r refl refl refl refl refl refl refl refl))
        (Keeps-append_external_trace run_id _)

  Keeps-link_all : (run_id : ℕ) (os : List ℕ) → Keeps (link_all p allowed now run_id os)
  unfolding link_all
  Keeps-link_all run_id [] = Keeps-return tt
  Keeps-link_all run_id (o ∷ os) =
      Keeps-then _ _ (Keeps-link_object run_id o (lit "consulted")) (Keeps-link_all run_id os)

  attached :
      (o : ℕ) (r : Run)
      → Evolves r (record (consult o r) { chat_object_id = some o; updated_at = now })
  attached o r = elim (Bool-cases (has_object o r.consulted_object_ids)) [
    | inl known ↦ rw known (touched r refl refl refl refl refl refl refl refl)
    | inr new ↦ rw new (touched r refl refl refl refl refl refl refl refl)
  ]

  -- The changes that these operations make to the table of runs.
  pub data Change : Tx (Unit {0}) → Type 0 where
    links : (run_id o : ℕ) (role : Text) → Change (link_object p allowed now run_id o role)
    opens :
        (new_id : ℕ) (i : SlackInteractionOpen)
        → Change (open_slack_interaction p allowed now new_id i >> return tt)
    links_all : (run_id : ℕ) (os : List ℕ) → Change (link_all p allowed now run_id os)
    traces :
        (entry_id created_at : Value) (run_id : ℕ) (entry_type : Text) (facts : Value)
        → Change (append_trace p allowed now entry_id created_at run_id entry_type facts)
    traces_external :
        (run_id : ℕ) (entry : Value) → Change (append_external_trace p allowed now run_id entry)
    attaches_chat : (run_id chat : ℕ) → Change (attach_slack_chat p allowed now run_id chat)
    records_response :
        (run_id : ℕ) (response : Option Value)
        → Change (record_slack_response_evidence p allowed now run_id response)
    finishes_slack :
        (run_id : ℕ) (status : Text) (completed_at : Option ℕ) (error : Option Text)
        (affected : List ℕ)
        → Change (finish_slack_interaction p allowed now run_id status completed_at error affected)
    attaches_curator :
        (entry_id created_at : Value) (run_id curator : ℕ)
        → Change (attach_curator_run p allowed now entry_id created_at run_id curator)
    finishes_curator :
        (entry_id created_at : Value) (run_id : ℕ) (change_count : ℤ)
        → Change (finish_curator_run p allowed now entry_id created_at run_id change_count)
    fails_curator :
        (entry_id created_at : Value) (run_id : ℕ) (message : Text)
        → Change (fail_curator p allowed now entry_id created_at run_id message)
    reverses_curator :
        (entry_id created_at : Value) (run_id reversal change_count : ℕ)
        → Change
            (reverse_curator_run p allowed now entry_id created_at run_id reversal change_count)

  plain_update :
      {B : Type 0} (q : Run → Bool) (f : Run → Run) (k : Tx B)
      → ((r : Run) → Evolves r (f r))
      → Keeps k
      → Keeps (update allowed q f >> k)
  plain_update q f k ev kk = Keeps-then _ _ (Keeps-update allowed q f ev) kk

  Change-Keeps : (m : Tx (Unit {0})) → Change m → Keeps m
  unfolding attach_slack_chat record_slack_response_evidence finish_slack_interaction
      attach_curator_run finish_curator_run fail_curator reverse_curator_run
  Change-Keeps _ (links run_id o role) = Keeps-link_object run_id o role
  Change-Keeps _ (opens new_id i) =
      Keeps-then _ _ (Keeps-open_slack_interaction new_id i) (Keeps-return tt)
  Change-Keeps _ (links_all run_id os) = Keeps-link_all run_id os
  Change-Keeps _ (traces entry_id created_at run_id entry_type facts) =
      Keeps-append_trace entry_id created_at run_id entry_type facts
  Change-Keeps _ (traces_external run_id entry) = Keeps-append_external_trace run_id entry
  Change-Keeps _ (attaches_chat run_id chat) = plain_update _ _ _ (attached chat) (Keeps-return tt)
  Change-Keeps _ (records_response run_id none) = Keeps-return tt
  Change-Keeps _ (records_response run_id (some response)) =
      plain_update _ _ _ (λ r. touched r refl refl refl refl refl refl refl refl) (Keeps-return tt)
  Change-Keeps _ (finishes_slack run_id status completed_at error affected) =
      Keeps-if (text_eq status (lit "running")) _
        (end_slack p allowed now run_id status completed_at error affected) (Keeps-return tt)
        (Keeps-end_slack run_id status completed_at error affected)
  Change-Keeps _ (attaches_curator entry_id created_at run_id curator) =
      plain_update _ _ _ (λ r. touched r refl refl refl refl refl refl refl refl)
        (Keeps-append_trace entry_id created_at run_id _ _)
  Change-Keeps _ (finishes_curator entry_id created_at run_id change_count) =
      Keeps-then _ _ (Keeps-append_trace entry_id created_at run_id _ _) (
        plain_update _ _ _ (λ r. touched r refl refl refl refl refl refl refl refl)
          (Keeps-return tt))
  Change-Keeps _ (fails_curator entry_id created_at run_id message) =
      Keeps-then _ _ (Keeps-append_trace entry_id created_at run_id _ _) (
        plain_update _ _ _ (λ r. touched r refl refl refl refl refl refl refl refl)
          (Keeps-return tt))
  Change-Keeps _ (reverses_curator entry_id created_at run_id reversal change_count) =
      Keeps-then _ _ (Keeps-append_trace entry_id created_at reversal _ _) (
        plain_update _ _ _ (λ r. touched r refl refl refl refl refl refl refl refl)
          (Keeps-return tt))

  -- Every change of a Slack interaction, of a curator run, of a link or of a trace that succeeds
  -- leaves every row's identity, input and creation time as they are, only appends to traces, and
  -- loses no row.
  pub Change-Grows :
      (m : Tx (Unit {0})) (runs runs' : Table)
      → Change m
      → m runs ≡ ok (tt, runs')
      → Grows runs runs'
  Change-Grows m runs runs' c h = Change-Keeps m c runs runs' tt h
