-- ===== src/Kernel/Selection.antt =====
-- The choice of the language module.
use translation_runtime_arch.Prelude.{
  String, ◌≡◌, Bool, ◌&&◌, Option, none, some, List, [], ◌∷◌, arith, ◌==◌, if◌then◌else◌,
}
use translation_runtime_arch.Text.{truthy}
use translation_runtime_arch.Modules.{LanguageModule}
use translation_runtime_arch.Vm.{Host}
use translation_runtime_arch.Kernel.{select_from, source_language, normalized_direction}

-- the first module with a property, and the first of two options
unfoldable pub first : (LanguageModule → Bool) → List LanguageModule → Option LanguageModule
first p [] = none
first p (m ∷ ms) = let rest = first p ms in if p m then some m else rest

unfoldable pub or_other : Option LanguageModule → Option LanguageModule → Option LanguageModule
or_other none o = o
or_other (some m) o = some m

module _ (h : Host) (request : String) where
  -- a language module for the requested direction, and one for its source language
  abbrev pub in_full : LanguageModule → Bool
  in_full m =
      m.kind == "language"
      && truthy (normalized_direction h m)
      && normalized_direction h m == request

  abbrev pub by_source : LanguageModule → Bool
  by_source m =
      m.kind == "language"
      && truthy (source_language request)
      && source_language (normalized_direction h m) == source_language request

  -- The selected module is the first language module whose direction is the requested one; only where
  -- there is none is it the fallback, or else the first whose source language is the requested one.
  pub select_from-first :
      (fallback : Option LanguageModule) (ms : List LanguageModule)
      → select_from h request fallback ms
        ≡ or_other (first in_full ms) (or_other fallback (first by_source ms))
  unfolding select_from first or_other
  select_from-first fallback [] = ground arith
  select_from-first fallback (m ∷ ms) =
      ground (arith, select_from-first fallback ms, select_from-first (some m) ms)
