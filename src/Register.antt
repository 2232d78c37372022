-- ===== src/Register.antt =====
-- tra-audit-skills/round7/scripts: how the findings of an audit become a register. This is
-- `dedupe_findings` and `build_summary` of synthesize_findings_r7.py; Register.Normalize is
-- normalize_r7_register.py. Files, what is printed, and the patterns that cut a report into findings
-- are left out.
pub mod Normalize
pub mod Conserved
pub mod Classify
use translation_runtime_arch.Prelude.{
  ℕ, zero, suc, ◌+◌, String, code, Bool, true, false, ◌&&◌, ◌||◌, Option, none, some, List, [], ◌∷◌,
  ◌++◌, map, if◌then◌else◌, ◌==◌, ltb, leb, eqb, elem, from_option,
}
use translation_runtime_arch.Text.{◌+++◌, starts_with, drop_text, take_text, join, split, or_else}
use translation_runtime_arch.Text.Order.{sorted, before_or_same}
use translation_runtime_arch.Dict.{Dict, get, put}
use translation_runtime_arch.Regex.{Unicode}
use Prim.Native.String

pub record Finding : Type 0 where
  pub id : String
  pub track : String
  pub title : String
  pub severity : String
  pub category : String
  pub evidence : String
  pub detail : String
  pub suggested_fix : String
  pub round6_status : String
  pub finding_type : String
  pub source_findings : List String
  pub root_id : String

-- three digits at the start of a text
three_digits : Unicode → ℕ → String → Bool
three_digits u zero s = true
three_digits u (suc n) String.[] = false
three_digits u (suc n) (String.◌∷◌ c s) = u.is_digit (code c) && three_digits u n s

-- `re.search(r"TRA-(\d{3})", text)`, and the id that it gives
unfoldable pub find_root : Unicode → String → Option String
unfolding three_digits
find_root u String.[] = none
find_root u (String.◌∷◌ c s) =
    let rest = find_root u s in
    let here = String.◌∷◌ c s in
    if starts_with here "TRA-" && three_digits u 3 (drop_text 4 here)
    then some (take_text 7 here)
    else rest

unfoldable pub root_of : Unicode → Finding → String
root_of u f = from_option f.id (find_root u (f.title +++ " " +++ f.detail))

abbrev pub Groups : Type 0
Groups = Dict (List Finding)

-- `groups.setdefault(root_id, []).append(f)`
unfoldable pub add_to_group : String → Finding → Groups → Groups
add_to_group root f [] = (root, f ∷ []) ∷ []
add_to_group root f ((r, fs) ∷ groups) =
    if r == root then (r, fs ++ f ∷ []) ∷ groups else (r, fs) ∷ add_to_group root f groups

unfoldable pub grouped : Unicode → List Finding → Groups → Groups
grouped u [] groups = groups
grouped u (f ∷ fs) groups = grouped u fs (add_to_group (root_of u f) f groups)

unfoldable pub severity_rank : String → ℕ
severity_rank s =
    if s == "BLOCKING" then 0 else if s == "WARNING" then 1 else if s == "INFO" then 2 else 3

-- the first finding of the least rank, which heads the sorted group
unfoldable pub primary : Finding → List Finding → Finding
primary f [] = f
primary f (g ∷ gs) =
    primary (if ltb (severity_rank g.severity) (severity_rank f.severity) then g else f) gs

-- the set of some texts
distinct : List String → List String
distinct [] = []
distinct (s ∷ ss) = let rest = distinct ss in if elem s rest then rest else s ∷ rest

cross_reference : Finding → String
cross_reference g = "Also cited by " +++ g.id +++ " (" +++ g.track +++ "): " +++ g.title

with_references : String → List Finding → String
unfolding cross_reference
with_references detail [] = detail
with_references detail (g ∷ gs) = detail +++ " || " +++ join " | " (map cross_reference (g ∷ gs))

-- one finding for a group that is not empty
unfoldable pub merged_group : String → Finding → List Finding → Finding
unfolding with_references distinct
merged_group root f [] = record f { root_id = root }
merged_group root f (g ∷ gs) =
    let first = primary f (g ∷ gs) in
    record first {
      root_id = root;
      track = join "," (sorted (distinct (map (λ x. x.track) (f ∷ g ∷ gs))));
      source_findings = map (λ x. x.id) (f ∷ g ∷ gs);
      detail = with_references first.detail (g ∷ gs);
    }

unfoldable pub merged : Groups → List Finding
merged [] = []
merged ((root, []) ∷ groups) = merged groups
merged ((root, f ∷ fs) ∷ groups) = merged_group root f fs ∷ merged groups

-- the key of the final sort: rank, then root
unfoldable pub ranks_before : Finding → Finding → Bool
ranks_before f g =
    ltb (severity_rank f.severity) (severity_rank g.severity)
    || (eqb (severity_rank f.severity) (severity_rank g.severity)
        && before_or_same f.root_id g.root_id)

unfoldable pub insert_ranked : Finding → List Finding → List Finding
insert_ranked f [] = f ∷ []
insert_ranked f (g ∷ gs) = if ranks_before f g then f ∷ g ∷ gs else g ∷ insert_ranked f gs

unfoldable pub rank_sorted : List Finding → List Finding
rank_sorted [] = []
rank_sorted (f ∷ fs) = insert_ranked f (rank_sorted fs)

-- `dedupe_findings`
unfoldable pub dedupe_findings : Unicode → List Finding → List Finding
dedupe_findings u fs = rank_sorted (merged (grouped u fs []))

-- `d[k] = d.get(k, 0) + 1`
unfoldable pub counted : String → Dict ℕ → Dict ℕ
counted k d = put k (from_option 0 (get k d) + 1) d

pub counted_all : List String → Dict ℕ → Dict ℕ
counted_all [] d = d
counted_all (k ∷ ks) d = counted_all ks (counted k d)

pub record Summary : Type 0 where
  pub total : ℕ
  pub by_severity : Dict ℕ
  pub by_track : Dict ℕ
  pub by_category : Dict ℕ
  pub by_status : Dict ℕ
  pub by_type : Dict ℕ

-- one finding more
unfoldable pub summed : Finding → Summary → Summary
unfolding counted_all
summed f s = record s {
  total = s.total + 1;
  by_severity = counted f.severity s.by_severity;
  by_track = counted_all (split b',' f.track) s.by_track;
  by_category = counted f.category s.by_category;
  by_status = counted (or_else f.round6_status "new") s.by_status;
  by_type = counted f.finding_type s.by_type;
}

summed_all : List Finding → Summary → Summary
summed_all [] s = s
summed_all (f ∷ fs) s = summed_all fs (summed f s)

-- `sorted(items, key=lambda x: -x[1])`
insert_number : String × ℕ → Dict ℕ → Dict ℕ
insert_number (k, n) [] = (k, n) ∷ []
insert_number (k, n) ((j, m) ∷ d) =
    if leb m n then (k, n) ∷ (j, m) ∷ d else (j, m) ∷ insert_number (k, n) d

by_number : Dict ℕ → Dict ℕ
by_number [] = []
by_number (i ∷ d) = insert_number i (by_number d)

by_number_in : Summary → Summary
by_number_in s = record s { by_category = by_number s.by_category }

-- `build_summary`
unfoldable pub build_summary : List Finding → Summary
unfolding summed_all by_number_in by_number insert_number
build_summary fs = by_number_in (
    summed_all fs (record {
      total = 0;
      by_severity = ("BLOCKING", 0) ∷ ("WARNING", 0) ∷ ("INFO", 0) ∷ [];
      by_track = [];
      by_category = [];
      by_status = [];
      by_type = [];
    }))
