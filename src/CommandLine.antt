-- ===== src/CommandLine.antt =====
-- tra_cli.py: how the command line reads a conformance level and a language pair. The commands
-- are CommandLine.Commands.
pub mod Pairs
pub mod Commands
pub mod Exit
use translation_runtime_arch.Prelude.{String, not, ◌&&◌, Option, none, some, [], ◌∷◌, if◌then◌else◌}
use translation_runtime_arch.Text.{◌+++◌, contains, strip, truthy, strip_prefix}
use translation_runtime_arch.Regex.{Unicode}
use translation_runtime_arch.Dict.{Dict, get}
use translation_runtime_arch.Memory.{ConformanceLevel, level_named}
use Prim.Native.String

abbrev pub level_aliases : Dict String
level_aliases =
    ("l1", "L1_BASIC")
    ∷ ("l2", "L2_PROFESSIONAL")
    ∷ ("l3", "L3_STRICT")
    ∷ ("l4", "L4_FORENSIC")
    ∷ []

-- the value that a shorthand stands for
aliased : Option String → Option ConformanceLevel
aliased none = none
aliased (some canonical) = level_named canonical

-- `_resolve_level`, where `none` is a `BadParameter`
unfoldable pub resolve_level : Unicode → String → Option ConformanceLevel
unfolding aliased
resolve_level u value = elim (level_named value) [
  | some l ↦ some l
  | none ↦ aliased (get (u.lower (strip value)) level_aliases)
]

-- `s.partition(sep)` without the separator, at a separator that occurs
unfoldable pub cut_first : String → String → String × String
cut_first sep String.[] = (String.[], String.[])
cut_first sep (String.◌∷◌ c s) =
    let (a, b) = cut_first sep s in
    elim (strip_prefix sep (String.◌∷◌ c s)) [
      | some rest ↦ (String.[], rest)
      | none ↦ (String.◌∷◌ c a, b)
    ]

-- `s.rpartition(sep)` without the separator, at a separator that occurs
unfoldable pub cut_last : String → String → String × String
cut_last sep String.[] = (String.[], String.[])
cut_last sep (String.◌∷◌ c s) =
    let (a, b) = cut_last sep s in
    if contains sep s then (String.◌∷◌ c a, b) else elim (strip_prefix sep (String.◌∷◌ c s)) [
      | some rest ↦ (String.[], rest)
      | none ↦ (String.◌∷◌ c a, b)
    ]

-- the canonical form, if neither side is blank
unfoldable pub pair_of : Unicode → String × String → Option String
pair_of u (a, b) =
    if truthy (strip a) && truthy (strip b)
    then some (u.upper (strip a) +++ " -> " +++ u.upper (strip b))
    else none

-- `_normalize_language_pair`, where `none` is a `ValueError`
unfoldable pub normalize_language_pair : Unicode → String → Option String
normalize_language_pair u value =
    let v = strip value in
    if not (truthy v)
    then none
    else if contains "->" v
    then pair_of u (cut_first "->" v)
    else if contains "-" v
    then pair_of u (cut_last "-" v)
    else none
