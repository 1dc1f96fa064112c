-- ===== src/CodexOutcomes.antt =====
-- src/codex_outcomes.rs: the verification of a receipt of Git commits. The two hashes, in hexadecimal,
-- and the printing of a length are parameters.
mod Chain
mod Tests
use Prim.Native.String.{String}
use centaur_context.Common.{
  ℕ, ◌==◌, Bool, true, false, not, ◌&&◌, ◌||◌, List, [], ◌∷◌, ◌++◌, length, all, any, drop, take,
  Option, none, some, ltb, leb, if◌then◌else◌, Result, ok, err, ◌>>=◌, ◌>>◌, reject_if, ok_or,
}
use centaur_context.Errors.{DbError, invalid, plain}
use centaur_context.Text.{Text, lit, len, text_eq, starts_with, has_substring, is_ascii_digit}

pub record GitCommit : Type 0 where
  pub oid : Text
  pub raw : Text

pub record GitReceipt : Type 0 where
  pub turn_id : ℕ
  pub baseline : Text
  pub commits : List GitCommit

pub record Digests : Type 0 where
  pub sha1 : Text → Text
  pub sha256 : Text → Text
  pub print : ℕ → Text

abbrev pub is_hex : ℕ → Bool
is_hex b = is_ascii_digit b || (leb 97 b && leb b 102)

unfoldable pub is_oid : Text → ℕ → Bool
is_oid value size = len value == size && all is_hex value

abbrev prepend : ℕ → List Text → List Text
prepend c [] = (c ∷ []) ∷ []
prepend c (l ∷ ls) = (c ∷ l) ∷ ls

-- `str::lines`
unfoldable pub lines : Text → List Text
lines [] = []
lines (c ∷ s) =
    let rest = lines s in
    if c == 10
    then [] ∷ rest
    else if c == 13 && starts_with s (10 ∷ [])
    then rest
    else prepend c rest

abbrev behind : ℕ → Option (Text × Text) → Option (Text × Text)
behind c none = none
behind c (some (before, after)) = some (c ∷ before, after)

-- `raw.split_once("\n\n")`
unfoldable pub split_headers : Text → Option (Text × Text)
split_headers [] = none
split_headers (c ∷ s) =
    let rest = split_headers s in
    if starts_with (c ∷ s) (10 ∷ 10 ∷ []) then some ([], drop 1 s) else behind c rest

-- `headers.lines().find_map(|v| v.strip_prefix("parent "))`
unfoldable pub first_parent : List Text → Option Text
first_parent [] = none
first_parent (l ∷ ls) =
    let rest = first_parent ls in if starts_with l (lit "parent ") then some (drop 7 l) else rest

abbrev pub is_parent : Text → Option Text → Bool
is_parent parent none = false
is_parent parent (some p) = text_eq p parent

unfoldable pub has_tree : ℕ → List Text → Bool
has_tree size [] = false
has_tree size (l ∷ ls) = starts_with l (lit "tree ") && is_oid (drop 5 l) size

abbrev pub is_control : ℕ → Bool
is_control c = ltb c 32 || (leb 127 c && leb c 159)

-- `.filter(|c| !c.is_control())`
unfoldable pub without_controls : Text → Text
without_controls [] = []
without_controls (c ∷ s) = let rest = without_controls s in if is_control c then rest else c ∷ rest

abbrev first_line : List Text → Text
first_line [] = []
first_line (l ∷ ls) = l

abbrev pub markers : List Text
markers =
    lit "sk-"
    ∷ lit "ghp_"
    ∷ lit "github_pat_"
    ∷ lit "xoxb-"
    ∷ lit "PRIVATE KEY"
    ∷ lit "Bearer "
    ∷ []

abbrev pub looks_secret : Text → Bool
looks_secret subject = any (λ v. has_substring subject v) markers

abbrev pub omitted : Text
omitted = lit "[subject omitted: possible credential]"

abbrev pub first_subject : Text → Text
first_subject message = take 240 (without_controls (first_line (lines message)))

abbrev pub subject_of : Text → Text
subject_of message = if looks_secret (first_subject message) then omitted else first_subject message

abbrev pub commit_bytes : Digests → Text → Text
commit_bytes hash raw = lit "commit " ++ hash.print (len raw) ++ (0 ∷ []) ++ raw

abbrev pub actual_oid : Digests → ℕ → Text → Text
actual_oid hash size raw =
    if size == 40 then hash.sha1 (commit_bytes hash raw) else hash.sha256 (commit_bytes hash raw)

abbrev pub mismatch : Digests → ℕ → Text → GitCommit → Text → Bool
mismatch hash size parent commit headers =
    not (text_eq (actual_oid hash size commit.raw) commit.oid)
    || not (is_parent parent (first_parent (lines headers)))
    || not (has_tree size (lines headers))

-- One turn of the loop: the subject.
unfoldable pub verify_commit : Digests → ℕ → Text → GitCommit → Result DbError Text
verify_commit hash size parent commit =
    reject_if (not (is_oid commit.oid size) || ltb 16384 (len commit.raw))
      (invalid (plain "Invalid Git commit size or identity"))
    >> (ok_or (split_headers commit.raw) (invalid (plain "Invalid Git commit format")) >>= λ parts.
        (reject_if (mismatch hash size parent commit parts.0)
            (invalid (plain "Git proof hash or parent chain mismatch"))
          >> ok (subject_of parts.1)))

unfoldable pub verify_commits : Digests → ℕ → Text → Text → List GitCommit → Result DbError Text
verify_commits hash size parent subject [] = ok subject
verify_commits hash size parent subject (c ∷ cs) =
    verify_commit hash size parent c >>= λ s. verify_commits hash size c.oid s cs

unfoldable pub verify : Digests → GitReceipt → Result DbError Text
verify hash receipt =
    reject_if
      (not (len receipt.baseline == 40 || len receipt.baseline == 64)
        || not (is_oid receipt.baseline (len receipt.baseline))
        || length receipt.commits == 0
        || ltb 10 (length receipt.commits))
      (invalid (plain "Invalid bounded Git receipt"))
    >> verify_commits hash (len receipt.baseline) receipt.baseline [] receipt.commits
