-- ===== src/Register/Normalize/Script.antt =====
-- tra-audit-skills/round7/scripts/normalize_r7_register.py: `main`, which normalizes the register,
-- writes it back, and writes its summary as data and as a text. What it prints is left out.
pub mod Sums
pub mod Rerun
use translation_runtime_arch.Prelude.{
  suc, ℕ, zero, suc, ◌-◌, String, Option, none, some, List, [], ◌∷◌, ◌++◌, map, from_option, length,
  take,
}
use translation_runtime_arch.Text.{◌+++◌, len, join, split, or_else, show}
use translation_runtime_arch.Dict.{Dict, get}
use translation_runtime_arch.Regex.{Unicode}
use translation_runtime_arch.Register.{Summary, counted_all, by_number}
use translation_runtime_arch.Register.Classify.{by_key}
use translation_runtime_arch.Register.Normalize.{Entry, normalize}

pub cons_option {ℓ} : {A : Type ℓ} → Option A → Option (List A) → Option (List A)
cons_option none _ = none
cons_option (some x) none = none
cons_option (some x) (some xs) = some (x ∷ xs)

-- every entry normalized; `none` is an `IndexError`
unfoldable pub normalize_all : Unicode → List Entry → Option (List Entry)
unfolding cons_option
normalize_all u [] = some []
normalize_all u (e ∷ es) = cons_option (normalize u e) (normalize_all u es)

-- `f[key]` of every entry; `none` is a `KeyError`
unfoldable pub column : (Entry → Option String) → List Entry → Option (List String)
unfolding cons_option
column key [] = some []
column key (e ∷ es) = cons_option (key e) (column key es)

abbrev pub no_severities : Dict ℕ
no_severities = ("BLOCKING", 0) ∷ ("WARNING", 0) ∷ ("INFO", 0) ∷ []

unfoldable pub status_of : Entry → String
status_of e = or_else (from_option "" e.round6_status) "new"

unfoldable pub type_of : Entry → String
type_of e = from_option "issue" e.finding_type

each_track : List String → List String
each_track [] = []
each_track (t ∷ ts) = split b',' t ++ each_track ts

unfoldable pub summary_of : List Entry → List String → List String → List String → Summary
unfolding each_track counted_all by_number
summary_of master sevs tracks categories = record {
  total = length master;
  by_severity = counted_all sevs no_severities;
  by_track = counted_all (each_track tracks) [];
  by_category = by_number (counted_all categories []);
  by_status = counted_all (map status_of master) [];
  by_type = counted_all (map type_of master) [];
}

with_columns :
    List Entry → Option (List String) → Option (List String) → Option (List String) → Option Summary
with_columns master (some sevs) (some tracks) (some categories) =
    some (summary_of master sevs tracks categories)
with_columns master _ _ _ = none

-- `build_summary`
unfoldable pub summarized : List Entry → Option Summary
unfolding with_columns
summarized master =
    with_columns master (column (λ e. e.severity) master) (column (λ e. e.track) master)
      (column (λ e. e.category) master)

repeated : ℕ → String → String
repeated zero s = ""
repeated (suc n) s = s +++ repeated n s

-- `f"{s:ns}"` and `f"{k:nd}"`
left_aligned : ℕ → String → String
left_aligned n s = s +++ repeated (n - len s) " "

right_aligned : ℕ → ℕ → String
right_aligned n k = repeated (n - len (show k)) " " +++ show k

count_line : ℕ → String × ℕ → String
count_line n (key, count) = "  " +++ left_aligned n key +++ ": " +++ show count +++ "\n"

category_line : String × ℕ → String
category_line (key, count) = "  " +++ right_aligned 3 count +++ "  " +++ key +++ "\n"

severity_line : Dict ℕ → String → String
severity_line d s = count_line 10 (s, from_option 0 (get s d))

-- what `summary.txt` holds
unfoldable pub summary_text : Summary → String
unfolding severity_line category_line count_line left_aligned right_aligned repeated
summary_text s =
    "TRA Round 7 Audit — Master Findings Register Summary\n"
    +++ repeated 60 "="
    +++ "\n\nHEAD audited: 6d3144a\nTotal findings (deduplicated): "
    +++ show s.total
    +++ "\n\nBy severity:\n"
    +++ join "" (map (severity_line s.by_severity) ("BLOCKING" ∷ "WARNING" ∷ "INFO" ∷ []))
    +++ "\nBy finding type:\n"
    +++ join "" (map (count_line 25) (by_key s.by_type))
    +++ "\nBy track:\n"
    +++ join "" (map (count_line 0) (by_key s.by_track))
    +++ "\nBy Round 6 status:\n"
    +++ join "" (map (count_line 0) (by_key s.by_status))
    +++ "\nBy category (top 10):\n"
    +++ join "" (map category_line (take 10 s.by_category))

-- How the script ends: without a register, in an exception with the register as it then is (`none`
-- if it is untouched), or with the register, the summary and the text written.
pub data ScriptEnd : Type 0 where
  not_found : ScriptEnd
  raised : Option (List Entry) → ScriptEnd
  written : List Entry → Summary → String → ScriptEnd

with_summary : List Entry → Option Summary → ScriptEnd
with_summary master none = raised (some master)
with_summary master (some s) = written master s (summary_text s)

with_normalized : Option (List Entry) → ScriptEnd
unfolding with_summary
with_normalized none = raised none
with_normalized (some master) = with_summary master (summarized master)

-- `main`, on the register if there is one
unfoldable pub normalize_register : Unicode → Option (List Entry) → ScriptEnd
unfolding with_normalized
normalize_register u none = not_found
normalize_register u (some master) = with_normalized (normalize_all u master)
