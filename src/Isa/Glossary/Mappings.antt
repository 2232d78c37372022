-- ===== src/Isa/Glossary/Mappings.antt =====
-- BUILD_GLOSSARY on the ZH <-> EN module.
use translation_runtime_arch.Prelude.{String, ◌≡◌, refl, List, [], map, elem, subst⁻¹}
use translation_runtime_arch.Text.{split}
use translation_runtime_arch.Dict.{put, get}
use translation_runtime_arch.Memory.{GlossaryEntry}
use translation_runtime_arch.Modules.ZhEn.{zh_en, glossary, is_forbidden}
use translation_runtime_arch.Vm.{Host, Vm, log, active_module}
use translation_runtime_arch.Vm.Exec.{Outcome, ok, err, pure, modify, ◌>>=◌, ◌>>◌}
use translation_runtime_arch.Isa.Glossary.{
  build_glossary, collect_entries, finish_glossary, entry_of,
}

abbrev pub canonical_entries : List GlossaryEntry
canonical_entries = map (λ (p : String × String). entry_of p.0 p.1) glossary

-- what is returned, and the glossary of the context
abbrev pub Holds : List GlossaryEntry → Outcome (List GlossaryEntry) × Vm → Type 0
Holds es (ok out, v) = (out ≡ es) × (v.ctx.glossary_cache ≡ es)
Holds es (err e, v) = ⊥

from_zh_en :
    (h : Host) (source : String) (v : Vm)
    → Holds canonical_entries (
        (collect_entries h (zh_en h.unicode) [] [] glossary >>= λ entries.
        modify (finish_glossary h source entries) >> pure entries)
          v)
unfolding collect_entries zh_en ◌>>=◌ is_forbidden get elem split modify put pure finish_glossary
    log
from_zh_en h source v = (refl, refl)

-- With the ZH <-> EN module, chosen or by default, BUILD_GLOSSARY raises no conflict, whatever the
-- source: it returns one canonical entry for each mapping of the module's glossary, in their order,
-- and the context holds them.
pub build_glossary-Holds :
    (h : Host) (source : String) (v : Vm)
    → active_module h v.ctx ≡ zh_en h.unicode
    → Holds canonical_entries (build_glossary h source v)
unfolding build_glossary zh_en
build_glossary-Holds h source v p =
    subst⁻¹
      (λ m. Holds canonical_entries (
        (collect_entries h m [] [] m.glossary_mappings >>= λ entries.
        modify (finish_glossary h source entries) >> pure entries)
          v))
      p (from_zh_en h source v)
