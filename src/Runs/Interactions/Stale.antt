-- ===== src/Runs/Interactions/Stale.antt =====
-- src/runs.rs: a review that was made on an old revision.
use centaur_context.Common.{
  and_false, ℕ, ◌==◌, ◌≡◌, ◌≢◌, refl, sym, ◌∙◌, ap, find, Option-cases, inl, inr, Bool, true, false,
  not, ◌&&◌, Option, none, some, arith, if◌then◌else◌, Result, ok, err, suc, zero,
}
use centaur_context.Common.Integer.{ℤ, pos, negsuc, ◌+ℤ◌, checked, i64_bound, eq_ℤ, fits}
use centaur_context.Errors.{DbError, sqlx, conflict}
use centaur_context.Text.{Text, lit, text_eq}
use centaur_context.Json.{int}
use centaur_context.Json.Laws.{get-insert}
use centaur_context.Runs.{Run, Printer, Table, ◌>>=◌, ◌>>◌, ensure, select, has_id, update}
use centaur_context.Runs.History.{Evolves, touched, tx-bind, tx-then}
use centaur_context.Runs.Rows.{updated, find-update, commit-eq-ok, ensure-eq-ok}
use centaur_context.Runs.Once.{Passed, update-Passed, Passed-update, no_row-Passed}
use centaur_context.Runs.Workflow.{detail, read_run}
use centaur_context.Runs.Interactions.Review.{
  review_revision, is_at, is_numbered, reviewed, write_review, review_tx, review,
}

next_differs : (n : ℤ) → eq_ℤ (n +ℤ pos 1) n ≡ false
unfolding ◌+ℤ◌
next_differs (pos n) = ground arith
next_differs (negsuc zero) = refl
next_differs (negsuc (suc n)) = ground arith

module _ (p : Printer) (allowed : Run → Bool) (bigint_of : Text → Option ℤ) (now : ℕ) (id : ℕ)
    (prints : (n : ℤ) → fits i64_bound n ≡ true → bigint_of (p.json_text (int n)) ≡ some n) where
  abbrev hit : ℤ → Run → Bool
  hit expected r = has_id id r && is_at p allowed bigint_of now expected r

  module _ (verdict : Text) (notes : Option Text) (pinned : Option Bool) (reviewer : Text) where
    abbrev write : ℤ → Run → Run
    write next = reviewed p allowed bigint_of now verdict notes pinned reviewer next

    review_revision-write :
        (next : ℤ) (r : Run)
        → fits i64_bound next ≡ true
        → review_revision p allowed bigint_of now (write next r) ≡ some next
    unfolding text_eq
    review_revision-write next r small =
        rw (get-insert (lit "review_revision") (lit "review_revision") (int next) r.result)
          (prints next small)

    missed_after :
        (expected : ℤ) (r : Run)
        → fits i64_bound (expected +ℤ pos 1) ≡ true
        → hit expected (write (expected +ℤ pos 1) r) ≡ false
    missed_after expected r small =
        rw (review_revision-write (expected +ℤ pos 1) r small, next_differs expected)
          (and_false (has_id id r))

    -- What a review that succeeded leaves.
    record IsReviewed (expected : ℤ) (runs' : Table) : Type 0 where
      passed : Passed (hit expected) runs'
      numbered : is_numbered p allowed bigint_of now (find (has_id id) runs') ≡ true
      bounded : checked i64_bound (expected +ℤ pos 1) ≡ some (expected +ℤ pos 1)

    numbered_after :
        (expected next : ℤ) (n : ℕ) (runs runs' : Table)
        → fits i64_bound next ≡ true
        → is_numbered p allowed bigint_of now (find (has_id id) runs) ≡ true
        → n ≢ 0
        → update allowed (hit expected) (write next) runs ≡ ok (n, runs')
        → is_numbered p allowed bigint_of now (find (has_id id) runs') ≡ true
    numbered_after expected next n runs runs' small numbered some_row h =
        elim (Option-cases (find (has_id id) runs)) [
          | inl nothing ↦
              let unwritten =
                Passed-update allowed (hit expected) (write next) runs
                  (no_row-Passed id (λ r. is_at p allowed bigint_of now expected r) runs nothing) in
              let same : ◌≡◌ {A = Result DbError (ℕ × Table)} (ok (0, runs)) (ok (n, runs')) =
                sym unwritten ∙ h in
              absurd (some_row (cc))
          | inr (r, here) ↦
              let after =
                find-update allowed (hit expected) (write next) (λ q. rewritten q next) id runs n
                  runs' r here h in
              rw (after) (kept r (hit expected r) (rw (here) at numbered))
        ]
      where
        rewritten : (q : Run) (next : ℤ) → Evolves q (write next q)
        rewritten q next = touched q refl refl refl refl refl refl refl refl

        kept :
            (r : Run) (b : Bool)
            → is_numbered p allowed bigint_of now (some r) ≡ true
            → is_numbered p allowed bigint_of now (some (updated b (write next) r)) ≡ true
        kept r true e = rw (review_revision-write next r small) refl
        kept r false e = e

    detail_keeps :
        (runs runs' : Table) (r : Run) → detail p allowed now id runs ≡ ok (r, runs') → runs ≡ runs'
    unfolding detail
    detail_keeps runs runs' r h =
        let (row, mid, first, second) = tx-bind (select (has_id id)) _ runs h in
        selected row mid first ∙ read row mid second
      where
        selected :
            (row : Option Run) (mid : Table) → select (has_id id) runs ≡ ok (row, mid) → runs ≡ mid
        selected row mid k = cc

        read :
            (row : Option Run) (mid : Table)
            → read_run p allowed now id row mid ≡ ok (r, runs')
            → mid ≡ runs'
        read none mid k = cc
        read (some s) mid k = cc

    write_review-IsReviewed :
        (expected : ℤ) (next : Option ℤ) (runs runs' : Table) (r : Run)
        → next ≡ checked i64_bound (expected +ℤ pos 1)
        → is_numbered p allowed bigint_of now (find (has_id id) runs) ≡ true
        → write_review p allowed bigint_of now id verdict notes pinned reviewer expected next runs
          ≡ ok (r, runs')
        → IsReviewed expected runs'
    write_review-IsReviewed expected none runs runs' r e numbered h =
        let (row, mid, first, second) = tx-bind (select (hit expected)) _ runs h in
        absurd (failed _ mid second)
      where
        failed :
            (x : DbError) (mid : Table)
            → ◌≡◌ {A = Result DbError (Run × Table)} (err x) (ok (r, runs'))
            → ⊥
        failed x mid k = cc
    write_review-IsReviewed expected (some next) runs runs' r e numbered h =
        let (n, mid, first, h1) = tx-bind (update allowed (hit expected) (write next)) _ runs h in
        let (_, mid', second, h2) = tx-then (ensure (not (n == 0)) conflict) _ mid h1 in
        let (changed, same) = ensure-eq-ok _ _ mid mid' second in
        let last = same ∙ detail_keeps mid' runs' r h2 in
        let (is_next, small) = next_is next (expected +ℤ pos 1) e in
        let wrote : update allowed (hit expected) (write (expected +ℤ pos 1)) runs ≡ ok (n, runs') =
          rw (← is_next, ← last) first in
        record {
          passed =
              update-Passed allowed (hit expected) (write (expected +ℤ pos 1))
                (λ s _. missed_after expected s small) runs runs' n wrote;
          numbered =
              numbered_after expected (expected +ℤ pos 1) n runs runs' small numbered
                (nonzero n changed) wrote;
          bounded = sym e ∙ ap (λ k. some k) is_next;
        }
      where
        nonzero : (n : ℕ) → not (n == 0) ≡ true → n ≢ 0
        nonzero n k = λ z. ground arith

        next_is : (m k : ℤ) → some m ≡ checked i64_bound k → (m ≡ k) × (fits i64_bound k ≡ true)
        next_is m k w = kept (fits i64_bound k) refl w
          where
            kept :
                (b : Bool)
                → fits i64_bound k ≡ b
                → some m ≡ (if b then some k else none)
                → (m ≡ k) × (fits i64_bound k ≡ true)
            kept true e w = (cc, e)
            kept false e w = cc

    review-IsReviewed :
        (expected : ℤ) (runs runs' : Table) (r : Run)
        → review p allowed bigint_of now id verdict notes pinned reviewer expected runs
          ≡ (runs', ok r)
        → IsReviewed expected runs'
    unfolding review review_tx
    review-IsReviewed expected runs runs' r h =
        let done =
          commit-eq-ok (review_tx p allowed bigint_of now id verdict notes pinned reviewer expected)
            runs runs' r h in
        let (row, mid, first, h1) = tx-bind (select (has_id id)) _ runs done in
        let (_, mid', second, h2) =
          tx-then (ensure (is_numbered p allowed bigint_of now row) sqlx) _ mid h1 in
        let (numbered, same) = ensure-eq-ok _ _ mid mid' second in
        let start : runs ≡ mid = cc in
        let found : find (has_id id) runs ≡ row = cc in
        write_review-IsReviewed expected _ mid' runs' r refl (rw (← same, ← start, found) numbered)
          h2

  -- Where the cast to bigint reads every printed number of 64 bits as itself: once a review at some revision was accepted,
  -- every other review of that run at the same revision, at any later time, is a conflict and changes
  -- nothing, whatever it says.
  pub review_stale :
      (later : ℕ) (expected : ℤ) (verdict verdict' : Text) (notes notes' : Option Text)
      (pinned pinned' : Option Bool) (reviewer reviewer' : Text) (runs runs' : Table) (r : Run)
      → review p allowed bigint_of now id verdict notes pinned reviewer expected runs
        ≡ (runs', ok r)
      → review p allowed bigint_of later id verdict' notes' pinned' reviewer' expected runs'
        ≡ (runs', err conflict)
  unfolding review review_tx ◌>>=◌ ◌>>◌
  review_stale later expected verdict verdict' notes notes' pinned pinned' reviewer reviewer' runs
        runs' r h =
      let i = review-IsReviewed verdict notes pinned reviewer expected runs runs' r h in
      rw
        (
          i.numbered,
          i.bounded,
          Passed-update allowed (hit expected)
              (reviewed p allowed bigint_of later verdict' notes' pinned' reviewer'
                (expected +ℤ pos 1))
              runs' i.passed,
        )
        refl
