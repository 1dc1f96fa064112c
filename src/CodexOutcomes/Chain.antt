-- ===== src/CodexOutcomes/Chain.antt =====
-- src/codex_outcomes.rs: what a receipt is that passes.
use centaur_context.Common.{
  ℕ, ◌≤◌, ◌==◌, ◌≡◌, refl, ap, subst, Bool, true, false, not, ◌||◌, List, [], ◌∷◌, length, Option,
  none, some, ltb, arith, if◌then◌else◌, ok, ok_or, >>=-eq-ok, reject_if-eq-ok,
}
use centaur_context.Errors.{DbError, invalid, plain}
use centaur_context.Text.{Text, len, text_eq, starts_with, has_substring}
use centaur_context.Text.Laws.{text_eq_sound}
use centaur_context.CodexOutcomes.{
  GitCommit, GitReceipt, Digests, is_oid, lines, split_headers, first_parent, is_parent, has_tree,
  looks_secret, omitted, first_subject, subject_of, actual_oid, mismatch, verify_commit,
  verify_commits, verify,
}

-- A commit is named by the hash of its contents, and names its parent in them.
pub record Follows (hash : Digests) (size : ℕ) (parent : Text) (c : GitCommit) : Type 0 where
  pub named : is_oid c.oid size ≡ true
  pub bounded : len c.raw ≤ 16384
  pub hashed : actual_oid hash size c.raw ≡ c.oid
  pub follows :
      (headers : Text) × (message : Text) × (split_headers c.raw ≡ some (headers, message))
      × (first_parent (lines headers) ≡ some parent)
      × (has_tree size (lines headers) ≡ true)

pub data Chain (hash : Digests) (size : ℕ) : Text → List GitCommit → Type 0 where
  done : {parent : Text} → Chain hash size parent []
  next :
      {parent : Text} {c : GitCommit} {cs : List GitCommit}
      → Follows hash size parent c
      → Chain hash size c.oid cs
      → Chain hash size parent (c ∷ cs)

subject_of-safe : (m : Text) → looks_secret (subject_of m) ≡ false
unfolding has_substring starts_with
subject_of-safe m = pick (looks_secret (first_subject m)) refl
  where
    pick :
        (t : Bool)
        → looks_secret (first_subject m) ≡ t
        → looks_secret (if t then omitted else first_subject m) ≡ false
    pick true h = refl
    pick false h = h

is_parent-some : (parent : Text) (o : Option Text) → is_parent parent o ≡ true → o ≡ some parent
is_parent-some parent none h = cc
is_parent-some parent (some p) h = ap (λ q. some q) (text_eq_sound p parent h)

ok_or-some : {A : Type 0} (o : Option A) (e : DbError) {a : A} → ok_or o e ≡ ok a → o ≡ some a
ok_or-some none e h = cc
ok_or-some (some a) e h = cc

no_subject : looks_secret [] ≡ false
unfolding has_substring starts_with
no_subject = refl

-- One commit that passes.
verify_commit-Follows :
    (hash : Digests) (size : ℕ) (parent : Text) (c : GitCommit) (s : Text)
    → verify_commit hash size parent c ≡ ok s
    → Follows hash size parent c × (looks_secret s ≡ false)
unfolding verify_commit
verify_commit-Follows hash size parent c s h =
    let (bounds, more) =
      reject_if-eq-ok (not (is_oid c.oid size) || ltb 16384 (len c.raw))
        (invalid (plain "Invalid Git commit size or identity")) _ h in
    let (parts, split, accepted) =
      >>=-eq-ok (ok_or (split_headers c.raw) (invalid (plain "Invalid Git commit format"))) _
        more in
    let (matched, last) =
      reject_if-eq-ok (mismatch hash size parent c parts.0)
        (invalid (plain "Git proof hash or parent chain mismatch")) _ accepted in
    let (named, bounded) = both (is_oid c.oid size) (ltb 16384 (len c.raw)) bounds in
    let (hashed, follows, tree) =
      kept (text_eq (actual_oid hash size c.raw) c.oid)
        (is_parent parent (first_parent (lines parts.0))) (has_tree size (lines parts.0)) matched in
    let subject : subject_of parts.1 ≡ s = cc in
    (
      record {
        named = named;
        bounded = ground (arith, bounded);
        hashed = text_eq_sound (actual_oid hash size c.raw) c.oid hashed;
        follows = (
          parts.0,
          parts.1,
          ok_or-some (split_headers c.raw) _ split,
          is_parent-some parent (first_parent (lines parts.0)) follows,
          tree,
        );
      },
      subst (λ t. looks_secret t ≡ false) subject (subject_of-safe parts.1),
    )
  where
    both : (a b : Bool) → (not a || b) ≡ false → (a ≡ true) × (b ≡ false)
    both a b p = (ground arith, ground arith)

    kept : (a b c : Bool) → (not a || not b || not c) ≡ false → (a ≡ true) × (b ≡ true) × (c ≡ true)
    kept a b c p = (ground arith, ground arith, ground arith)

verify_commits-Chain :
    (hash : Digests) (size : ℕ) (parent subject : Text) (cs : List GitCommit) (s : Text)
    → looks_secret subject ≡ false
    → verify_commits hash size parent subject cs ≡ ok s
    → Chain hash size parent cs × (looks_secret s ≡ false)
unfolding verify_commits
verify_commits-Chain hash size parent subject [] s safe h =
    (let same : subject ≡ s = cc in (done, rw (← same) safe))
verify_commits-Chain hash size parent subject (c ∷ cs) s safe h =
    let (t, first, rest) = >>=-eq-ok (verify_commit hash size parent c) _ h in
    let (follows, safe') = verify_commit-Follows hash size parent c t first in
    let (chain, last) = verify_commits-Chain hash size c.oid t cs s safe' rest in
    (next follows chain, last)

-- A receipt that passes has one to ten commits that follow each other from its baseline, each of at
-- most 16,384 bytes, named by the hash of its contents, with a tree and with the commit before it as
-- its first parent, and its subject has no mark of a credential.
pub verify-Chain :
    (hash : Digests) (receipt : GitReceipt) (subject : Text)
    → verify hash receipt ≡ ok subject
    → (1 ≤ length receipt.commits)
      × (length receipt.commits ≤ 10)
      × Chain hash (len receipt.baseline) receipt.baseline receipt.commits
      × (looks_secret subject ≡ false)
unfolding verify
verify-Chain hash receipt subject h =
    let (checks, rest) =
      reject_if-eq-ok
        (not (len receipt.baseline == 40 || len receipt.baseline == 64)
          || not (is_oid receipt.baseline (len receipt.baseline))
          || length receipt.commits == 0
          || ltb 10 (length receipt.commits))
        (invalid (plain "Invalid bounded Git receipt"))
        (verify_commits hash (len receipt.baseline) receipt.baseline [] receipt.commits) h in
    let (many, few) =
      counts (len receipt.baseline == 40 || len receipt.baseline == 64)
        (is_oid receipt.baseline (len receipt.baseline)) (length receipt.commits) checks in
    let (chain, safe) =
      verify_commits-Chain hash (len receipt.baseline) receipt.baseline [] receipt.commits subject
        no_subject rest in
    (many, few, chain, safe)
  where
    counts :
        (a b : Bool) (n : ℕ) → (not a || not b || n == 0 || ltb 10 n) ≡ false → (1 ≤ n) × (n ≤ 10)
    counts a b n p = (ground arith, ground arith)
