-- ===== src/Reporting/Trace.antt =====
-- What the trace of a target says of each of its lines.
use translation_runtime_arch.Prelude.{
  subst, subst⁻¹, ℕ, zero, suc, ◌+◌, ◌<◌, ◌≡◌, refl, ◌∙◌, String, List, [], ◌∷◌, filter, any, arith,
  if◌then◌else◌, eqb, Option, none, some,
}
use translation_runtime_arch.Text.{strip, truthy}
use translation_runtime_arch.Diagnostics.{EvidenceRecord, EvidenceRegistry, all}
use translation_runtime_arch.Reporting.{
  TraceLine, supports, trace_line, trace_from, line_by_line_trace, split_lines,
}

-- the entry of the trace for a line number, and a line by its number, counted from `n`
unfoldable pub entry_at : ℕ → List TraceLine → Option TraceLine
entry_at n [] = none
entry_at n (t ∷ ts) = if eqb t.line n then some t else entry_at n ts

unfoldable pub line_at : ℕ → List String → Option String
line_at n [] = none
line_at zero (l ∷ ls) = some l
line_at (suc n) (l ∷ ls) = line_at n ls

-- what is expected for a line
unfoldable pub expected : List EvidenceRecord → ℕ → Option String → Option TraceLine
expected records n none = none
expected records n (some l) = if truthy (strip l) then some (trace_line records n l) else none

-- no entry has an earlier number
entry_at-later :
    (records : List EvidenceRecord) (k n : ℕ) (ls : List String)
    → k < n
    → entry_at k (trace_from records n ls) ≡ none
unfolding entry_at trace_from trace_line
entry_at-later records k n [] h = refl
entry_at-later records k n (l ∷ ls) h =
    ground (arith, entry_at-later records k (n + 1) ls (omega (arith, h)), h)

no_line :
    (records : List EvidenceRecord) (k n : ℕ)
    → entry_at k (trace_from records n []) ≡ expected records k none
unfolding entry_at trace_from expected
no_line records k n = refl

entry_at-first :
    (records : List EvidenceRecord) (n : ℕ) (l : String) (ls : List String)
    → entry_at n (trace_from records n (l ∷ ls)) ≡ expected records n (some l)
unfolding entry_at trace_from trace_line expected
entry_at-first records n l ls = ground (arith, entry_at-later records n (n + 1) ls (omega arith))

entry_at-next :
    (records : List EvidenceRecord) (k n : ℕ) (l : String) (ls : List String)
    → n < k
    → entry_at k (trace_from records n (l ∷ ls)) ≡ entry_at k (trace_from records (n + 1) ls)
unfolding entry_at trace_from trace_line
entry_at-next records k n l ls h = ground (arith, h)

entry_at-trace :
    (records : List EvidenceRecord) (i n : ℕ) (ls : List String)
    → entry_at (n + i) (trace_from records n ls) ≡ expected records (n + i) (line_at i ls)
unfolding line_at
entry_at-trace records zero n [] = no_line records (n + 0) n
entry_at-trace records (suc i) n [] = no_line records (n + suc i) n
entry_at-trace records zero n (l ∷ ls) =
    subst⁻¹ (λ k. entry_at k (trace_from records n (l ∷ ls)) ≡ expected records k (some l))
      (omega arith) (entry_at-first records n l ls)
entry_at-trace records (suc i) n (l ∷ ls) =
    entry_at-next records (n + suc i) n l ls (omega arith)
    ∙ subst (λ k. entry_at k (trace_from records (n + 1) ls) ≡ expected records k (line_at i ls))
        (omega arith) (entry_at-trace records i (n + 1) ls)

attributed-any :
    (line : String) (n : ℕ) (records : List EvidenceRecord)
    → (trace_line records n line).attributed ≡ any (supports line) records
unfolding trace_line filter any
attributed-any line n [] = refl
attributed-any line n (r ∷ rs) = ground (arith, attributed-any line n rs)

-- Under each number from 1 on, the trace of a target has an entry if that line is there and is not
-- blank, and none otherwise: the entry holds the line, the ids of the records whose
-- nonempty target span occurs in it, and whether there is such a record.
pub line_by_line_trace-entries :
    (target : String) (evidence : EvidenceRegistry) (i : ℕ)
    → (entry_at (1 + i) (line_by_line_trace target evidence)
        ≡ expected (all evidence) (1 + i) (line_at i (split_lines target)))
      × ((line : String)
          → (trace_line (all evidence) (1 + i) line).attributed
            ≡ any (supports line) (all evidence))
unfolding line_by_line_trace
line_by_line_trace-entries target evidence i = (
  entry_at-trace (all evidence) i 1 (split_lines target),
  λ line. attributed-any line (1 + i) (all evidence),
)
