-- ===== src/Reporting.antt =====
-- reporting.py: the summary of an audit trail, the diagram of a run, and the trace of a target.
pub mod Audit
pub mod Trace
use translation_runtime_arch.Prelude.{
  ℕ, ◌+◌, String, code, Bool, true, false, not, ◌||◌, ◌&&◌, List, [], ◌∷◌, ◌++◌, length, filter,
  map, is_empty, if◌then◌else◌, ◌==◌, eqb, from_option,
}
use translation_runtime_arch.Text.{◌+++◌, contains, join, strip, truthy, replace}
use translation_runtime_arch.Dict.{Dict, put, get}
use translation_runtime_arch.Diagnostics.{
  AuditTrail, AuditRecord, EvidenceRecord, EvidenceRegistry, all, load,
}
use translation_runtime_arch.Kernel.{
  KernelState, bootstrap, initialize_runtime, analyze_document, build_artifacts,
  execute_translation, verify_output, repair_if_needed, audit_diagnostics, emit_payload,
  state_value,
}
use Prim.Native.String

-- `collections.Counter`: a missing key counts as 0
unfoldable pub count_of : String → Dict ℕ → ℕ
count_of k d = from_option 0 (get k d)

-- `d[k] += 1`
unfoldable pub increment : String → Dict ℕ → Dict ℕ
increment k d = put k (count_of k d + 1) d

pub record AuditSummary : Type 0 where
  pub total : ℕ
  pub by_severity : Dict ℕ
  pub by_instruction : Dict ℕ
  pub blocking_flags : ℕ
  pub l3_conformant : Bool

-- the loop over the flags of a record, with the two counters
unfoldable pub count_flags : List String → Dict ℕ → ℕ → Dict ℕ × ℕ
count_flags [] d n = (d, n)
count_flags (f ∷ fs) d n = count_flags fs (increment f d) (if f == "BLOCKING" then n + 1 else n)

flags_of : AuditRecord → List String
flags_of r = from_option [] r.flags_raised

-- the loop over the records
unfoldable pub count_records : List AuditRecord → AuditSummary → AuditSummary
unfolding flags_of
count_records [] s = s
count_records (r ∷ rs) s =
    let (flags, blocking) = count_flags (flags_of r) s.by_severity s.blocking_flags in
    count_records rs (record s {
      by_severity = flags;
      by_instruction = increment r.isa_instruction s.by_instruction;
      blocking_flags = blocking;
    })

-- `audit._buffer or audit.load()`
unfoldable pub audit_records : AuditTrail → List AuditRecord
audit_records t = if is_empty t.buffer then load t else t.buffer

abbrev pub no_counts : ℕ → AuditSummary
no_counts n = record {
  total = n;
  by_severity = [];
  by_instruction = [];
  blocking_flags = 0;
  l3_conformant = true;
}

unfoldable pub summarize_audit : AuditTrail → AuditSummary
summarize_audit t =
    let s = count_records (audit_records t) (no_counts (length (audit_records t))) in
    record s { l3_conformant = eqb s.blocking_flags 0 }

abbrev pub canonical_states : List KernelState
canonical_states =
    bootstrap ∷ initialize_runtime ∷ analyze_document ∷ build_artifacts ∷ execute_translation
    ∷ verify_output ∷ repair_if_needed ∷ audit_diagnostics ∷ emit_payload ∷ []

-- one line for each pair of neighbours
unfoldable pub edges : List String → List String
edges [] = []
edges (a ∷ []) = []
edges (a ∷ b ∷ ss) = ("    " +++ a +++ " --> " +++ b) ∷ edges (b ∷ ss)

-- the log, or the states of `_KERNEL_ORDER` if it is empty
unfoldable pub traversed : List String → List String
traversed [] = map state_value canonical_states
traversed (s ∷ ss) = s ∷ ss

first_of : List String → String
first_of [] = ""
first_of (s ∷ ss) = s

-- a loop on the only state in place of no edge
unfoldable pub edges_or_loop : List String → List String
unfolding first_of
edges_or_loop ss =
    if is_empty (edges ss)
    then ("    " +++ first_of ss +++ " --> " +++ first_of ss) ∷ []
    else edges ss

-- `title` is `str.title` on the name of a state
unfoldable pub state_line : (String → String) → KernelState → String
state_line title s =
    "    " +++ state_value s +++ "[\"" +++ title (replace (state_value s) "_" " ") +++ "\"]"

unfoldable pub mermaid_state_diagram : (String → String) → List String → String
mermaid_state_diagram title log =
    join "\n"
      ("flowchart LR" ∷ map (state_line title) canonical_states ++ edges_or_loop (traversed log))

-- the code points at which `str.splitlines` ends a line
unfoldable pub ends_line : ℕ → Bool
ends_line c =
    eqb c b'\n'
    || eqb c 13
    || eqb c 11
    || eqb c 12
    || eqb c 28
    || eqb c 29
    || eqb c 30
    || eqb c 0x85
    || eqb c 0x2028
    || eqb c 0x2029

-- a code point in front of the first line
on_first : String → List String → List String
on_first c [] = c ∷ []
on_first c (w ∷ ws) = (c +++ w) ∷ ws

-- `s.splitlines()`; a line feed behind a carriage return ends no further line
lines_from : Bool → String → List String
unfolding on_first ends_line
lines_from after_return String.[] = []
lines_from after_return (String.◌∷◌ c s) =
    let plain = lines_from false s in
    let rest = lines_from (eqb (code c) 13) s in
    if after_return && eqb (code c) b'\n'
    then plain
    else if ends_line (code c)
    then String.[] ∷ rest
    else on_first (String.◌∷◌ c String.[]) plain

unfoldable pub split_lines : String → List String
unfolding lines_from
split_lines s = lines_from false s

pub record TraceLine : Type 0 where
  pub line : ℕ
  pub text : String
  pub evidence_ids : List String
  pub attributed : Bool

-- `r.target_span and r.target_span in line`
unfoldable pub supports : String → EvidenceRecord → Bool
supports line r = truthy r.target_span && contains r.target_span line

unfoldable pub trace_line : List EvidenceRecord → ℕ → String → TraceLine
trace_line records n line =
    let hits = map (λ (r : EvidenceRecord). r.id) (filter (supports line) records) in
    record { line = n; text = line; evidence_ids = hits; attributed = not (is_empty hits) }

-- the loop, with the number of the next line
unfoldable pub trace_from : List EvidenceRecord → ℕ → List String → List TraceLine
trace_from records n [] = []
trace_from records n (l ∷ ls) =
    let rest = trace_from records (n + 1) ls in
    if truthy (strip l) then trace_line records n l ∷ rest else rest

unfoldable pub line_by_line_trace : String → EvidenceRegistry → List TraceLine
line_by_line_trace target evidence = trace_from (all evidence) 1 (split_lines target)
