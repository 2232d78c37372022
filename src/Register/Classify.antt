-- ===== src/Register/Classify.antt =====
-- tra-audit-skills/round6/scripts/normalize_r6_register.py: how findings are classified, and the
-- summary that `main` rebuilds. Reading, writing and printing are left out. The script of round 5 is
-- the same but for its names.
pub mod Totals
use translation_runtime_arch.Prelude.{
  ℕ, String, Bool, ◌&&◌, ◌||◌, List, [], ◌∷◌, ◌++◌, map, any, filter, length, ◌==◌, if◌then◌else◌,
}
use translation_runtime_arch.Text.{strip, starts_with, contains, split, or_else}
use translation_runtime_arch.Text.Order.{before_or_same}
use translation_runtime_arch.Dict.{Dict}
use translation_runtime_arch.Regex.{Unicode}
use translation_runtime_arch.Register.{Finding, counted_all, by_number}

-- `normalize_severity`
unfoldable pub normalize_severity : Unicode → String → String
normalize_severity u s =
    let t = u.upper (strip s) in
    if starts_with t "BLOCKING"
    then "BLOCKING"
    else if starts_with t "WARNING"
    then "WARNING"
    else "INFO"

abbrev pub positive_markers : List String
positive_markers =
    "verified holding" ∷ "verified safe" ∷ "verified fixed" ∷ "fixed —" ∷ "fixed and-verified"
    ∷ "fixed-and-verified" ∷ "verified —" ∷ "confirmed" ∷ "byte-reproducibility confirmed"
    ∷ "all 9 runtime artifacts" ∷ "all gates green" ∷ "now fixed" ∷ "fully resolved" ∷ "positive"
    ∷ []

-- `categorize_finding`
unfoldable pub categorize_finding : Unicode → Finding → String
categorize_finding u f =
    let title = u.lower f.title in
    let detail = u.lower f.detail in
    if any (λ m. contains m title || contains m detail) positive_markers
    then "positive_verification"
    else "issue"

-- the first loop of `main`
unfoldable pub classified : Unicode → Finding → Finding
classified u f =
    let g = record f { severity = normalize_severity u f.severity } in
    record g { finding_type = categorize_finding u g }

-- the token that a status in lower case counts under
unfoldable pub status_token : String → String
status_token s =
    if contains "fixed" s && contains "verified" s
    then "fixed-and-verified"
    else if contains "fixed" s
    then "fixed"
    else if contains "partial" s
    then "partial"
    else if contains "persistent" s
    then "persistent"
    else if contains "new" s
    then "new"
    else if contains "new-regression" s
    then "new-regression"
    else if contains "verified" s || contains "safe" s || contains "holding" s
    then "verified-holding"
    else if contains "carry" s
    then "carry-over"
    else "other"

unfoldable pub status_key : Unicode → Finding → String
status_key u f = status_token (u.lower (or_else f.round6_status "new"))

-- `Counter(xs)`
unfoldable pub counter : List String → Dict ℕ
unfolding counted_all
counter xs = counted_all xs []

tracks_of : List Finding → List String
tracks_of [] = []
tracks_of (f ∷ fs) = split b',' f.track ++ tracks_of fs

-- `sorted(items)`, whose keys are all different
insert_key : String × ℕ → Dict ℕ → Dict ℕ
insert_key (k, n) [] = (k, n) ∷ []
insert_key (k, n) ((j, m) ∷ d) =
    if before_or_same k j then (k, n) ∷ (j, m) ∷ d else (j, m) ∷ insert_key (k, n) d

pub by_key : Dict ℕ → Dict ℕ
by_key [] = []
by_key (i ∷ d) = insert_key i (by_key d)

pub record Statistics : Type 0 where
  pub total_findings : ℕ
  pub by_severity_all : Dict ℕ
  pub by_finding_type : Dict ℕ
  pub issue_count : ℕ
  pub issues_by_severity : Dict ℕ
  pub by_track : Dict ℕ
  pub by_status : Dict ℕ

is_issue : Finding → Bool
is_issue f = f.finding_type == "issue"

-- the summary of a register that is classified
unfoldable pub statistics : Unicode → List Finding → Statistics
unfolding tracks_of is_issue by_number by_key insert_key
statistics u master =
    let issues = filter is_issue master in
    record {
      total_findings = length master;
      by_severity_all = counter (map (λ f. f.severity) master);
      by_finding_type = counter (map (λ f. f.finding_type) master);
      issue_count = length issues;
      issues_by_severity = counter (map (λ f. f.severity) issues);
      by_track = by_key (counter (tracks_of master));
      by_status = by_number (counter (map (status_key u) master));
    }

-- `main` between reading and writing
unfoldable pub rebuilt : Unicode → List Finding → Statistics
rebuilt u master = statistics u (map (classified u) master)
