-- ===== src/Isa/Analyze.antt =====
-- ANALYZE_DOCUMENT of isa.py.
use translation_runtime_arch.Prelude.{
  ℕ, ◌+◌, ◌%◌, String, code, ◌||◌, Option, none, some, List, [], ◌∷◌, length, eqb, if◌then◌else◌,
  ◌==◌,
}
use translation_runtime_arch.Text.{◌+++◌, contains, strip, show, truthy}
use translation_runtime_arch.Text.Repr.{repr}
use translation_runtime_arch.Regex.{
  Unicode, Regex, seqs, alt, star, plus, class, at_least, literal, one_of, none_of, line_start,
  line_end, space, found, pieces, Piece, plain, hit, Match,
}
use translation_runtime_arch.Regex.Case.{any_case}
use translation_runtime_arch.Exceptions.{TraException, tra, new_broken_markdown}
use translation_runtime_arch.Memory.{DocumentProfile, Nodes}
use translation_runtime_arch.Memory.Leaves.{node_count}
use translation_runtime_arch.Diagnostics.{text, number}
use translation_runtime_arch.Anchor.{AnchorRegistry}
use translation_runtime_arch.Builder.{build_structural_map, built, failed}
use translation_runtime_arch.Utils.{sanitize_input}
use translation_runtime_arch.Vm.{Host, Vm, log}
use translation_runtime_arch.Vm.Exec.{Exec, ok, err}
use translation_runtime_arch.Isa.Common.{hash}

-- `^[ \t]*(`{3,}|~{3,})[^\n]*$`
fence_re : Regex
fence_re = seqs (
    line_start
    ∷ star (one_of " \t")
    ∷ alt (at_least 3 (literal "`")) (at_least 3 (literal "~"))
    ∷ star (none_of "\n")
    ∷ line_end
    ∷ [])

newlines : String → ℕ
newlines String.[] = 0
newlines (String.◌∷◌ c s) = let n = newlines s in if eqb (code c) b'\n' then n + 1 else n

-- the matches, each with the number of its line, counted from `line`
fence_lines : ℕ → List Piece → List (ℕ × Match)
unfolding newlines
fence_lines line [] = []
fence_lines line (plain c ∷ ps) = fence_lines (if eqb (code c) b'\n' then line + 1 else line) ps
fence_lines line (hit m ∷ ps) = (line, m) ∷ fence_lines (line + newlines m.text) ps

unfoldable pub fences : Unicode → String → List (ℕ × Match)
unfolding fence_re fence_lines
fences u source = fence_lines 1 (pieces u fence_re source)

unclosed : ℕ × Match → TraException
unclosed (line, m) =
    new_broken_markdown
      ("MALFORMED_MARKDOWN: unclosed fenced code block at line "
        +++ show line
        +++ " (fence: "
        +++ repr (strip m.text)
        +++ "). markdown-it-py parses this leniently, but the TRA spec requires a closed fence.")
      ""

last_fence : List (ℕ × Match) → Option (ℕ × Match)
last_fence [] = none
last_fence (f ∷ []) = some f
last_fence (f ∷ g ∷ fs) = last_fence (g ∷ fs)

-- `_validate_markdown_structure`: the exception that it raises
unfoldable pub validate_markdown_structure : Unicode → String → Option TraException
unfolding unclosed last_fence
validate_markdown_structure u source =
    let fs = fences u source in
    if eqb (length fs % 2) 0
    then none
    else elim (last_fence fs) [ none ↦ none | some f ↦ some (unclosed f) ]

-- `^#\s+RFC\s+\d+`
rfc_re : Unicode → Regex
rfc_re u = seqs (
    line_start
    ∷ literal "#"
    ∷ plus space
    ∷ any_case "RFC"
    ∷ plus space
    ∷ plus (class u.is_digit)
    ∷ [])

-- `MUST|SHALL|REQUIRED`
requirement_re : Regex
requirement_re = alt (literal "MUST") (alt (literal "SHALL") (literal "REQUIRED"))

unfoldable pub detect_document_type : Unicode → String → String
unfolding rfc_re
detect_document_type u source =
    let lower = u.lower source in
    if found u (rfc_re u) source
    then "RFC"
    else if contains "advisory" lower || contains "vulnerability" lower
    then "Advisory"
    else if contains "guide" lower || contains "how to" lower
    then "Guide"
    else "README"

unfoldable pub detect_register : Unicode → String → String
unfolding requirement_re
detect_register u source =
    if found u requirement_re source then "Authoritative" else "Instructional"

unfoldable pub detect_intent : Unicode → String → String
detect_intent u source =
    if contains "advisory" (u.lower source)
    then "Disclose Vulnerability"
    else "Standardize Protocol"

unfoldable pub detect_evidence_style : Unicode → String → Option String
detect_evidence_style u source =
    let lower = u.lower source in
    if contains "according to" lower || contains "per " lower then some "Cited" else none

unfoldable pub profile_of : Unicode → String → DocumentProfile
profile_of u source =
    let register = detect_register u source in
    record {
      type_ = detect_document_type u source;
      register_ = if register == "Authoritative" then "Formal/Authoritative" else register;
      intent = detect_intent u source;
      audience = "Technical readers (engineers, operators)";
      evidence_style = detect_evidence_style u source;
    }

-- behind the two tests of the structure
unfoldable pub accept : Host → String → Nodes → AnchorRegistry → Vm → Vm
accept h source nodes registry v =
    let profile = profile_of h.unicode source in
    log "ANALYZE_DOCUMENT" (hash h source) []
      (("node_count", number (node_count nodes)) ∷ ("type", text profile.type_) ∷ []) none
      (record v {
        ctx = record v.ctx {
          anchor_registry = some registry;
          document_profile = some profile;
          structural_map = some nodes;
        };
      })

unfoldable pub analyze_document : Host → String → Exec Vm Unit
unfolding accept
analyze_document h raw v =
    let source = sanitize_input raw in
    if truthy (strip source)
    then elim (build_structural_map h.unicode (h.parse source)) [
      | failed problem ↦ (
        err (
            tra (
              new_broken_markdown
                ("MALFORMED_MARKDOWN: unable to parse structure (" +++ problem +++ ")") "")),
        v,
      )
      | built nodes registry ↦ elim (validate_markdown_structure h.unicode source) [
        | some e ↦ (err (tra e), v)
        | none ↦ (ok tt, accept h source nodes registry v)
      ]
    ]
    else (
      err (tra (new_broken_markdown "" "EMPTY_SOURCE: document contains no translatable content")),
      v,
    )
