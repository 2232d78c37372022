-- ===== src/Exceptions.antt =====
-- exceptions.py: the exception hierarchy. An exception is its class with the attributes that
-- `__init__` sets; what is no `TRAException` keeps its `repr` only.
use translation_runtime_arch.Prelude.{ℕ, String}
use translation_runtime_arch.Text.{◌+++◌, or_else, show}
use translation_runtime_arch.Text.Repr.{repr}

pub data TraException : Type 0 where
  tra_error : String → TraException
  unknown_term : String → String → TraException  -- message, term
  broken_markdown : String → String → TraException  -- message, detail
  certainty_conflict : String → String → TraException  -- message, term
  entity_ambiguity : String → String → TraException  -- message, token
  glossary_conflict : String → String → String → TraException  -- message, term, canonical_target
  unrecoverable : String → TraException
  conformance_failure : String → ℕ → TraException  -- message, blocking_count

pub data Exception : Type 0 where
  tra : TraException → Exception
  other : String → Exception

-- The constructors: a message that is not given gets its default.
unfoldable pub new_unknown_term : String → String → TraException
new_unknown_term message term =
    unknown_term (or_else message ("UNKNOWN_TERM: " +++ repr term +++ " not in glossary/module"))
      term

unfoldable pub new_broken_markdown : String → String → TraException
new_broken_markdown message detail =
    let shown = or_else detail message in
    broken_markdown (or_else message ("BROKEN_MARKDOWN: " +++ shown)) shown

unfoldable pub new_certainty_conflict : String → String → TraException
new_certainty_conflict message term =
    certainty_conflict
      (or_else message ("CERTAINTY_CONFLICT: hedging " +++ repr term +++ " vs target norms")) term

unfoldable pub new_entity_ambiguity : String → String → TraException
new_entity_ambiguity message token =
    entity_ambiguity (or_else message ("ENTITY_AMBIGUITY: " +++ repr token +++ " is entity or NL?"))
      token

unfoldable pub new_glossary_conflict : String → String → String → TraException
new_glossary_conflict message term canonical_target =
    glossary_conflict (or_else message ("GLOSSARY_CONFLICT: " +++ repr term +++ " conflicts")) term
      canonical_target

unfoldable pub new_conformance_failure : String → ℕ → TraException
new_conformance_failure message count =
    conformance_failure
      (or_else message
        ("CONFORMANCE_FAILURE: " +++ show count +++ " BLOCKING diagnostic(s) remain after repair"))
      count

unfoldable pub exception_code : TraException → String
exception_code (tra_error m) = "TRA_ERROR"
exception_code (unknown_term m t) = "UNKNOWN_TERM"
exception_code (broken_markdown m d) = "BROKEN_MARKDOWN"
exception_code (certainty_conflict m t) = "CERTAINTY_CONFLICT"
exception_code (entity_ambiguity m t) = "ENTITY_AMBIGUITY"
exception_code (glossary_conflict m t c) = "GLOSSARY_CONFLICT"
exception_code (unrecoverable m) = "UNRECOVERABLE"
exception_code (conformance_failure m n) = "CONFORMANCE_FAILURE"

unfoldable pub message : TraException → String
message (tra_error m) = m
message (unknown_term m t) = m
message (broken_markdown m d) = m
message (certainty_conflict m t) = m
message (entity_ambiguity m t) = m
message (glossary_conflict m t c) = m
message (unrecoverable m) = m
message (conformance_failure m n) = m

-- `str(exc)`
unfoldable pub to_text : TraException → String
unfolding message exception_code
to_text e = or_else (message e) (exception_code e)

class_name : TraException → String
class_name (tra_error m) = "TRAException"
class_name (unknown_term m t) = "UnknownTerm"
class_name (broken_markdown m d) = "BrokenMarkdown"
class_name (certainty_conflict m t) = "CertaintyConflict"
class_name (entity_ambiguity m t) = "EntityAmbiguity"
class_name (glossary_conflict m t c) = "GlossaryConflict"
class_name (unrecoverable m) = "Unrecoverable"
class_name (conformance_failure m n) = "ConformanceFailure"

-- `repr(exc)`
unfoldable pub exception_repr : TraException → String
unfolding class_name message
exception_repr e = class_name e +++ "(" +++ repr (message e) +++ ")"
