-- ===== src/Routines/Requests.antt =====
-- src/db/routines.rs: requests in any number and order.
use centaur_context.Common.{
  ℕ, ◌≡◌, refl, ◌∙◌, List, [], ◌∷◌, Option, none, some, Result, ok, err, ok_or, >>=-eq-ok,
  reject_if-eq-ok,
}
use centaur_context.Errors.{DbError}
use centaur_context.Routines.{RoutineRun, Routine, RoutineState, Clock}
use centaur_context.Routines.Occurrences.{Reporter, RoutineRunUpdate, put_run, routine_run_update}
use centaur_context.Routines.Claims.{
  RoutineConfigure, insert_run, pending_run, claim_one, claim_all, routine_claim_due,
  routine_configure,
}
use centaur_context.Routines.Overlap.{
  NoOverlap, Shrunk-NoOverlap, expire-Shrunk, found_id, put_run-Shrunk, update-Shrinks,
  insert_run-NoOverlap,
}

pub routine_run_update-NoOverlap :
    (now : ℕ) (actor : Option Reporter) (id : ℕ) (input : RoutineRunUpdate)
    (state state' : RoutineState) (run' : RoutineRun)
    → routine_run_update now actor id input state ≡ ok (run', state')
    → NoOverlap state.runs
    → NoOverlap state'.runs
unfolding routine_run_update
routine_run_update-NoOverlap now actor id input state state' run' h p =
    let (run, found, h1) = >>=-eq-ok _ _ h in
    let (left, updated, h2) = >>=-eq-ok _ _ h1 in
    let at_id = found_some _ _ found in
    let (shrinks, same_id) = update-Shrinks state now actor run input left updated in
    let same : record state { runs = put_run left state.runs } ≡ state' = cc in
    let e = same_id ∙ found_id id state.runs run at_id in
    rw (← same)
      (Shrunk-NoOverlap state.runs _ (put_run-Shrunk id state.runs run left at_id e shrinks) p)
  where
    found_some : {A : Type 0} (o : Option A) (e : DbError) {a : A} → ok_or o e ≡ ok a → o ≡ some a
    found_some none e k = cc
    found_some (some a) e k = cc

claim_one-NoOverlap :
    (clock : Clock) (now id : ℕ) (r : Routine) (state state' : RoutineState)
    → claim_one clock now id r state ≡ ok state'
    → NoOverlap state.runs
    → NoOverlap state'.runs
unfolding claim_one
claim_one-NoOverlap clock now id r state state' h p =
    let (next, _, h1) = >>=-eq-ok _ _ h in
    let same : insert_run (pending_run id r) state.runs ≡ state'.runs = cc in
    rw (← same) (insert_run-NoOverlap (pending_run id r) state.runs p)

claim_all-NoOverlap :
    (clock : Clock) (now : ℕ) (new_id : ℕ → ℕ) (rs : List Routine) (state state' : RoutineState)
    → claim_all clock now new_id rs state ≡ ok state'
    → NoOverlap state.runs
    → NoOverlap state'.runs
unfolding claim_all
claim_all-NoOverlap clock now new_id [] state state' h p =
    let same : state ≡ state' = cc in rw (← same) p
claim_all-NoOverlap clock now new_id (r ∷ rs) state state' h p =
    let (next, one, rest) = >>=-eq-ok _ _ h in
    claim_all-NoOverlap clock now new_id rs next state' rest
      (claim_one-NoOverlap clock now (new_id r.task_id) r state next one p)

pub routine_claim_due-NoOverlap :
    (clock : Clock) (now : ℕ) (new_id : ℕ → ℕ) (state state' : RoutineState)
    → routine_claim_due clock now new_id state ≡ ok state'
    → NoOverlap state.runs
    → NoOverlap state'.runs
unfolding routine_claim_due
routine_claim_due-NoOverlap clock now new_id state state' h p =
    claim_all-NoOverlap clock now new_id _ _ state' h
      (Shrunk-NoOverlap state.runs _ (expire-Shrunk state now state.runs) p)

pub routine_configure-runs :
    (clock : Clock) (now id : ℕ) (input : RoutineConfigure) (state state' : RoutineState)
    → routine_configure clock now id input state ≡ ok state'
    → state.runs ≡ state'.runs
unfolding routine_configure
routine_configure-runs clock now id input state state' h =
    let (_, h1) = reject_if-eq-ok _ _ _ h in
    let (next, _, h2) = >>=-eq-ok _ _ h1 in
    let (task, _, h3) = >>=-eq-ok _ _ h2 in
    let (_, h4) = reject_if-eq-ok _ _ _ h3 in let (_, h5) = reject_if-eq-ok _ _ _ h4 in cc

-- What is asked of the routines.
pub data Request : Type 0 where
  configure : Clock → ℕ → ℕ → RoutineConfigure → Request
  claim : Clock → ℕ → (ℕ → ℕ) → Request
  report_on : ℕ → Option Reporter → ℕ → RoutineRunUpdate → Request

-- A request that is refused changes nothing.
abbrev committed :
    {A : Type 0} → RoutineState → (A → RoutineState) → Result DbError A → RoutineState
committed state f (ok a) = f a
committed state f (err e) = state

abbrev pub serve : Request → RoutineState → RoutineState
serve (configure clock now id input) state =
    committed state (λ s. s) (routine_configure clock now id input state)
serve (claim clock now new_id) state =
    committed state (λ s. s) (routine_claim_due clock now new_id state)
serve (report_on now actor id input) state =
    committed state (λ p. p.1) (routine_run_update now actor id input state)

abbrev pub serve_all : List Request → RoutineState → RoutineState
serve_all [] state = state
serve_all (r ∷ rs) state = serve_all rs (serve r state)

committed-NoOverlap :
    {A : Type 0} (state : RoutineState) (f : A → RoutineState) (m : Result DbError A)
    → ((a : A) → m ≡ ok a → NoOverlap (f a).runs)
    → NoOverlap state.runs
    → NoOverlap (committed state f m).runs
committed-NoOverlap state f (ok a) h p = h a refl
committed-NoOverlap state f (err e) h p = p

serve-NoOverlap :
    (r : Request) (state : RoutineState) → NoOverlap state.runs → NoOverlap (serve r state).runs
serve-NoOverlap (configure clock now id input) state p =
    committed-NoOverlap state (λ s. s) _
      (λ s h. rw (← routine_configure-runs clock now id input state s h) p) p
serve-NoOverlap (claim clock now new_id) state p =
    committed-NoOverlap state (λ s. s) _
      (λ s h. routine_claim_due-NoOverlap clock now new_id state s h p) p
serve-NoOverlap (report_on now actor id input) state p =
    committed-NoOverlap state (λ q. q.1) _
      (λ (run, s) h. routine_run_update-NoOverlap now actor id input state s run h p) p

-- No task gets two active occurrences: configurations, claims and reports in any number and order
-- keep it so, from a state in which it holds.
pub serve_all-NoOverlap :
    (rs : List Request) (state : RoutineState)
    → NoOverlap state.runs
    → NoOverlap (serve_all rs state).runs
serve_all-NoOverlap [] state p = p
serve_all-NoOverlap (r ∷ rs) state p =
    serve_all-NoOverlap rs (serve r state) (serve-NoOverlap r state p)
