-- ===== src/Kernel/Hitl.antt =====
-- hitl.py: the hand-off to a reviewer. What the reviewer types is a parameter; a reviewer answers, so
-- that the prompt is not left by an end of input or an interrupt.
use translation_runtime_arch.Prelude.{◌+◌, ◌-◌, String, List, ◌&&◌, if◌then◌else◌}
use translation_runtime_arch.Text.{◌+++◌, contains, before_first, len, truthy, take_text, drop_text}
use translation_runtime_arch.Diagnostics.{Diagnostic}

-- The reviewer's choice, with the text of an override.
pub data Choice : Type 0 where
  accept skip : Choice
  override : String → Choice

-- What the reviewer sees: the ambiguity, the excerpt, the candidate and the glossary options.
abbrev pub Reviewer : Type 0
Reviewer = String → String → String → List String → Choice

resolution : Choice → String → String × String
resolution accept candidate = ("accept", candidate)
resolution skip candidate = ("skip", candidate)
resolution (override edited) candidate = ("override", edited)

-- `review_decision` without `on_override`, as the kernel calls it
unfoldable pub review_decision : Reviewer → String → String → String → List String → String × String
unfolding resolution
review_decision reviewer uncertainty excerpt candidate options =
    resolution (reviewer uncertainty excerpt candidate options) candidate

-- 40 code points on each side of the start of the evidence
excerpt : String → String → String
excerpt evidence source =
    let at = len (before_first evidence source) in
    "…" +++ take_text (at + 40 - (at - 40)) (drop_text (at - 40) source) +++ "…"

unfoldable pub format_unrecoverable : Diagnostic → String → String × String
unfolding excerpt
format_unrecoverable d source = (
  "UNRECOVERABLE: " +++ d.issue +++ " [" +++ d.subsystem +++ "] — manual intervention required",
  if truthy d.evidence && contains d.evidence source then excerpt d.evidence source else source,
)
