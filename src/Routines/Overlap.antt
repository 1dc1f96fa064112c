-- ===== src/Routines/Overlap.antt =====
-- src/db/routines.rs: active occurrences of one task.
use centaur_context.Common.{
  both_false, ℕ, ◌==◌, ◌≡◌, ◌⊎◌, inl, inr, refl, sym, ◌∙◌, Bool, true, false, ◌&&◌, ◌||◌, List, [],
  ◌∷◌, map, Option, some, any, find, find-here, find-past, arith, Bool-cases, ==→eq, has, Distinct,
  if◌then◌else◌, ok,
}
use centaur_context.Text.{Text, lit, text_eq, contains}
use centaur_context.Text.Laws.{contains-All}
use centaur_context.Routines.{RoutineRun, RoutineState, is_active, is_terminal, terminal_statuses}
use centaur_context.Routines.Occurrences.{Reporter, RoutineRunUpdate, update_run, put_run}
use centaur_context.Routines.Claims.{expire, collides, insert_run}
use centaur_context.Routines.Life.{Move, stay, start, finish, confirm, update_run-Move}

-- Two active occurrences of one task.
abbrev pub overlaps : RoutineRun → RoutineRun → Bool
overlaps r q = r.task_id == q.task_id && is_active r.status && is_active q.status

abbrev pub NoOverlap : List RoutineRun → Type 0
NoOverlap runs = Distinct overlaps runs

-- The occurrence keeps its task, and was active if it is.
abbrev Shrinks : RoutineRun → RoutineRun → Type 0
Shrinks r r' =
    (r'.task_id ≡ r.task_id) × ((is_active r'.status ≡ false) ⊎ (is_active r.status ≡ true))

abbrev Shrunk : List RoutineRun → List RoutineRun → Type 0
Shrunk [] [] = Unit
Shrunk (r ∷ rs) (r' ∷ rs') = Shrinks r r' × Shrunk rs rs'
Shrunk _ _ = ⊥

Shrinks-pair :
    (r r' q q' : RoutineRun)
    → Shrinks r r'
    → Shrinks q q'
    → overlaps r q ≡ false
    → overlaps r' q' ≡ false
Shrinks-pair r r' q q' (a, b) (c, d) h = rw (a, c) (less (r.task_id == q.task_id) _ _ _ _ b d h)
  where
    less :
        (t x x' y y' : Bool)
        → (x' ≡ false) ⊎ (x ≡ true)
        → (y' ≡ false) ⊎ (y ≡ true)
        → (t && x && y) ≡ false
        → (t && x' && y') ≡ false
    less t x x' y y' p q k = ground arith

Shrunk-has :
    (r r' : RoutineRun) (rs rs' : List RoutineRun)
    → Shrinks r r'
    → Shrunk rs rs'
    → has overlaps r rs ≡ false
    → has overlaps r' rs' ≡ false
Shrunk-has r r' [] [] s t h = refl
Shrunk-has r r' [] (q' ∷ qs') s t h = absurd t
Shrunk-has r r' (q ∷ qs) [] s t h = absurd t
Shrunk-has r r' (q ∷ qs) (q' ∷ qs') s (one, rest) h =
    let (first, others) = both_false _ _ h in
    neither (Shrinks-pair r r' q q' s one first) (Shrunk-has r r' qs qs' s rest others)
  where
    neither : {a b : Bool} → a ≡ false → b ≡ false → (a || b) ≡ false
    neither p k = ground arith

pub Shrunk-NoOverlap : (rs rs' : List RoutineRun) → Shrunk rs rs' → NoOverlap rs → NoOverlap rs'
Shrunk-NoOverlap [] [] t h = tt
Shrunk-NoOverlap [] (q ∷ qs) t h = absurd t
Shrunk-NoOverlap (r ∷ rs) [] t h = absurd t
Shrunk-NoOverlap (r ∷ rs) (r' ∷ rs') (one, rest) (alone, others) =
    (Shrunk-has r r' rs rs' one rest alone, Shrunk-NoOverlap rs rs' rest others)

same-Shrinks : (r : RoutineRun) → Shrinks r r
same-Shrinks r = elim (Bool-cases (is_active r.status)) [
  | inl active ↦ (refl, inr active)
  | inr over ↦ (refl, inl over)
]

same-Shrunk : (rs : List RoutineRun) → Shrunk rs rs
same-Shrunk [] = tt
same-Shrunk (r ∷ rs) = (same-Shrinks r, same-Shrunk rs)

abbrev IsStill : Text → Type 0
IsStill s = is_active s ≡ false

terminal-IsStill : (s : Text) → is_terminal s ≡ true → IsStill s
unfolding contains text_eq
terminal-IsStill s h = contains-All IsStill terminal_statuses s (refl, (refl, (refl, (refl, tt)))) h

completed_still : is_active (lit "completed") ≡ false
unfolding contains text_eq
completed_still = refl

skipped_still : is_active (lit "skipped") ≡ false
unfolding contains text_eq
skipped_still = refl

pending_active : is_active (lit "pending") ≡ true
unfolding contains text_eq
pending_active = refl

move-Shrinks :
    (state : RoutineState) (actor : Option Reporter) (r r' : RoutineRun)
    → Move state actor r r'
    → r'.task_id ≡ r.task_id
    → Shrinks r r'
move-Shrinks state actor r r' stay same = same-Shrinks r
move-Shrinks state actor r r' (start a active c d e f) same = (same, inr active)
move-Shrinks state actor r r' (finish active b c) same = (same, inr active)
move-Shrinks state actor r r' (confirm a b completed d) same =
    (same, inl (rw (completed) completed_still))

expire-Shrinks : (state : RoutineState) (now : ℕ) (r : RoutineRun) → Shrinks r (expire state now r)
expire-Shrinks state now r = skipped _ _ refl skipped_still
  where
    skipped :
        (b : Bool) (gone : RoutineRun)
        → gone.task_id ≡ r.task_id
        → is_active gone.status ≡ false
        → Shrinks r (if b then gone else r)
    skipped true gone same still = (same, inl still)
    skipped false gone same still = same-Shrinks r

pub expire-Shrunk :
    (state : RoutineState) (now : ℕ) (rs : List RoutineRun) → Shrunk rs (map (expire state now) rs)
expire-Shrunk state now [] = tt
expire-Shrunk state now (r ∷ rs) = (expire-Shrinks state now r, expire-Shrunk state now rs)

pub found_id :
    (id : ℕ) (rs : List RoutineRun) (run : RoutineRun)
    → find (λ r. r.id == id) rs ≡ some run
    → run.id ≡ id
found_id id [] run h = cc
found_id id (r ∷ rs) run h = elim (Bool-cases (r.id == id)) [
  | inl here ↦
      let same : r ≡ run = (let k = find-here (λ q. q.id == id) r rs here in cc) in
      rw (← same) (==→eq _ _ here)
  | inr past ↦ found_id id rs run (sym (find-past (λ q. q.id == id) r rs past) ∙ h)
]

pub put_run-Shrunk :
    (id : ℕ) (rs : List RoutineRun) (run run' : RoutineRun)
    → find (λ r. r.id == id) rs ≡ some run
    → run'.id ≡ id
    → Shrinks run run'
    → Shrunk rs (put_run run' rs)
put_run-Shrunk id [] run run' h e s = tt
put_run-Shrunk id (r ∷ rs) run run' h e s = elim (Bool-cases (r.id == id)) [
  | inl here ↦
      let same : r ≡ run = (let k = find-here (λ q. q.id == id) r rs here in cc) in
      rw (e, here, same) (s, same-Shrunk rs)
  | inr past ↦
      rw (e, past)
        (
          same-Shrinks r,
          put_run-Shrunk id rs run run' (sym (find-past (λ q. q.id == id) r rs past) ∙ h) e s,
        )
]

pub update-Shrinks :
    (state : RoutineState) (now : ℕ) (actor : Option Reporter) (run : RoutineRun)
    (input : RoutineRunUpdate) (run' : RoutineRun)
    → update_run state now actor run input ≡ ok run'
    → Shrinks run run' × (run'.id ≡ run.id)
update-Shrinks state now actor run input run' h =
    let (move, same_id, same_task, _) = update_run-Move state now actor run input run' h in
    (move-Shrinks state actor run run' move same_task, same_id)

-- The new occurrence is left out where it would overlap.
pub insert_run-NoOverlap :
    (run : RoutineRun) (runs : List RoutineRun) → NoOverlap runs → NoOverlap (insert_run run runs)
insert_run-NoOverlap run runs h = elim (Bool-cases (any (collides run) runs)) [
  | inl taken ↦ rw (taken) h
  | inr new ↦ rw (new) (alone runs new, h)
]
  where
    apart : (q : RoutineRun) → collides run q ≡ false → overlaps run q ≡ false
    apart q k = ground (arith)

    neither : {a b : Bool} → a ≡ false → b ≡ false → (a || b) ≡ false
    neither p k = ground arith

    alone : (qs : List RoutineRun) → any (collides run) qs ≡ false → has overlaps run qs ≡ false
    alone [] k = refl
    alone (q ∷ qs) k =
        let (first, rest) = both_false _ _ k in neither (apart q first) (alone qs rest)
