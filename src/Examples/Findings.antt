-- ===== src/Examples/Findings.antt =====
-- The register of audit findings on concrete entries.
use translation_runtime_arch.Prelude.{◌+◌, String, ◌≡◌, refl, none, some, List, [], ◌∷◌}
use translation_runtime_arch.Regex.Tests.{ascii}
use translation_runtime_arch.Register.{Finding, dedupe_findings}
use translation_runtime_arch.Register.Conserved.{
  cited, reported, IsRanked, dedupe_findings-conserved,
}
use translation_runtime_arch.Register.Classify.{rebuilt}
use translation_runtime_arch.Register.Classify.Totals.{number, severity_total, rebuilt_sums}
use translation_runtime_arch.Register.Normalize.{Entry}
use translation_runtime_arch.Register.Normalize.Script.Rerun.{Ends, normalize_register-Ends}

abbrev first : Finding
first = record {
  id = "TRA-A7-001";
  track = "A7";
  title = "TRA-014 is fixed";
  severity = "INFO";
  category = "Kernel";
  evidence = "";
  detail = "";
  suggested_fix = "";
  round6_status = "";
  finding_type = "issue";
  source_findings = "TRA-A7-001" ∷ [];
  root_id = "";
}

abbrev second : Finding
second = record first {
  id = "TRA-B7-002";
  track = "B7";
  title = "again TRA-014";
  severity = "WARNING";
  source_findings = "TRA-B7-002" ∷ [];
}

abbrev third : Finding
third = record first {
  id = "TRA-B7-003";
  track = "B7";
  title = "no test";
  severity = "BLOCKING";
  source_findings = "TRA-B7-003" ∷ [];
}

abbrev findings : List Finding
findings = first ∷ second ∷ third ∷ []

dedupe_findings-conserved_example :
    ((x : String) → cited x (dedupe_findings ascii findings) ≡ reported x findings)
    × IsRanked (dedupe_findings ascii findings)
dedupe_findings-conserved_example =
    dedupe_findings-conserved ascii findings (refl, (refl, (refl, tt)))

abbrev entry : Entry
entry = record {
  id = "TRA-001";
  track = some "A1,A7";
  severity = some "INFO (still open)";
  finding_type = none;
  category = none;
  evidence = none;
  detail = none;
  suggested_fix = none;
  round6_status = none;
  root_id = none;
  source_findings = none;
  round6_status_detail = none;
  finding_type_detail = none;
}

abbrev normal : Entry
normal = record {
  id = "TRA-001";
  track = some "A1,A7";
  severity = some "INFO";
  finding_type = some "issue";
  category = some "Uncategorized";
  evidence = some "";
  detail = some "";
  suggested_fix = some "";
  round6_status = some "";
  root_id = some "TRA-001";
  source_findings = some ("TRA-001" ∷ []);
  round6_status_detail = some "INFO (still open)";
  finding_type_detail = none;
}

normalize_register-Ends_example : Ends ascii (entry ∷ normal ∷ [])
normalize_register-Ends_example =
    normalize_register-Ends ascii
      (record { blocking = refl; warning = refl; info = refl; issue = refl; positive = refl })
      (entry ∷ normal ∷ [])

rebuilt_sums_example :
    let s = rebuilt ascii findings in
    (s.total_findings ≡ 3)
    × (severity_total s.by_severity_all ≡ s.total_findings)
    × (number "issue" s.by_finding_type + number "positive_verification" s.by_finding_type
        ≡ s.total_findings)
    × (number "issue" s.by_finding_type ≡ s.issue_count)
    × (severity_total s.issues_by_severity ≡ s.issue_count)
rebuilt_sums_example = rebuilt_sums ascii findings
