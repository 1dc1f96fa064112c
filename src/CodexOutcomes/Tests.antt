-- ===== src/CodexOutcomes/Tests.antt =====
-- src/codex_outcomes.rs: a receipt that passes, and the witness.
use centaur_context.Common.{◌≤◌, ◌≡◌, refl, false, [], ◌∷◌, ◌++◌, length, ◌>>=◌, ◌>>◌, ok, err}
use centaur_context.Errors.{invalid, plain}
use centaur_context.Text.{Text, lit, len, text_eq, starts_with, has_substring}
use centaur_context.CodexOutcomes.{
  GitReceipt, Digests, is_oid, lines, split_headers, first_parent, has_tree, without_controls,
  looks_secret, verify_commit, verify_commits, verify,
}
use centaur_context.CodexOutcomes.Chain.{Chain, verify-Chain}

abbrev base : Text
base = lit "0123456789abcdef0123456789abcdef01234567"

abbrev head : Text
head = lit "89abcdef0123456789abcdef0123456789abcdef"

abbrev message : Text → Text
message subject =
    lit "tree "
    ++ base
    ++ (10 ∷ [])
    ++ lit "parent "
    ++ base
    ++ (10 ∷ 10 ∷ [])
    ++ subject
    ++ (10 ∷ [])

-- A hash that knows one text.
abbrev hashes : Digests
hashes = record { sha1 = λ bytes. head; sha256 = λ bytes. base; print = λ n. lit "109" }

abbrev receipt : Text → GitReceipt
receipt subject = record {
  turn_id = 5;
  baseline = base;
  commits = record { oid = head; raw = message subject } ∷ [];
}

accepted : verify hashes (receipt (lit "Fix the clock")) ≡ ok (lit "Fix the clock")
unfolding verify verify_commits verify_commit is_oid lines split_headers first_parent has_tree
    without_controls len text_eq starts_with has_substring ◌>>=◌ ◌>>◌
accepted = refl

secret_omitted :
    verify hashes (receipt (lit "Use sk-12")) ≡ ok (lit "[subject omitted: possible credential]")
unfolding verify verify_commits verify_commit is_oid lines split_headers first_parent has_tree
    without_controls len text_eq starts_with has_substring ◌>>=◌ ◌>>◌
secret_omitted = refl

-- A commit that names another parent.
parent_refused :
    verify hashes (record (receipt (lit "Fix the clock")) { baseline = head })
    ≡ err (invalid (plain "Git proof hash or parent chain mismatch"))
unfolding verify verify_commits verify_commit is_oid lines split_headers first_parent has_tree
    without_controls len text_eq starts_with has_substring ◌>>=◌ ◌>>◌
parent_refused = refl

verify-Chain_example :
    (1 ≤ length (receipt (lit "Fix the clock")).commits)
    × (length (receipt (lit "Fix the clock")).commits ≤ 10)
    × Chain hashes (len base) base (receipt (lit "Fix the clock")).commits
    × (looks_secret (lit "Fix the clock") ≡ false)
verify-Chain_example =
    verify-Chain hashes (receipt (lit "Fix the clock")) (lit "Fix the clock") accepted
