-- ===== src/Validate/Artifacts.antt =====
-- The artifacts that ANALYZE_DOCUMENT, BUILD_GLOSSARY and BUILD_ENTITY_TABLE make of a source with
-- the ZH <-> EN module: they depend on the source only.
use translation_runtime_arch.Prelude.{
  from_option, String, ◌≡◌, refl, ap, ◌∙◌, subst, Bool, true, false, List, [], ◌∷◌, ◌++◌, map, elem,
  arith, if◌then◌else◌,
}
use translation_runtime_arch.Exceptions.{Exception}
use translation_runtime_arch.Memory.{Entity, GlossaryEntry}
use translation_runtime_arch.Modules.{LanguageModule}
use translation_runtime_arch.Modules.ZhEn.{zh_en}
use translation_runtime_arch.Utils.{extract_entities}
use translation_runtime_arch.Vm.{Host, Vm, active_module, log}
use translation_runtime_arch.Vm.Exec.{Outcome, ok, err}
use translation_runtime_arch.Vm.Triple.{After, Triple, IsTra}
use translation_runtime_arch.Isa.Analyze.{analyze_document}
use translation_runtime_arch.Isa.Glossary.{build_glossary}
use translation_runtime_arch.Isa.Glossary.Mappings.{Holds, canonical_entries, build_glossary-Holds}
use translation_runtime_arch.Isa.Entities.{
  build_entity_table, collect_table, final_entity, finish_table,
}
use translation_runtime_arch.Isa.Logs.{
  steady, stable, analyze_document-Calm, build_glossary-Calm, build_entity_table-Calm,
}

-- the table of candidates, without the records that are made on the way
unfoldable pub table_of : LanguageModule → List Entity → List Entity → List Entity
table_of m table [] = table
table_of m table (e ∷ es) =
    let skip = table_of m table es in
    let keep = table_of m (table ++ final_entity m e ∷ []) es in
    if elem e.name (map (λ (t : Entity). t.name) table) then skip else keep

if-first :
    {A B : Type 0} (b : Bool) (x y : A × B) (a c : A)
    → x.0 ≡ a
    → y.0 ≡ c
    → (if b then x else y).0 ≡ (if b then a else c)
if-first true x y a c p q = p
if-first false x y a c p q = q

collect_table-table_of :
    (h : Host) (m : LanguageModule) (table es : List Entity) (v : Vm)
    → (collect_table h m table es v).0 ≡ table_of m table es
unfolding collect_table table_of
collect_table-table_of h m table [] v = refl
collect_table-table_of h m table (e ∷ es) v =
    if-first (elem e.name (map (λ (t : Entity). t.name) table)) _ _ _ _
      (collect_table-table_of h m table es v)
      (collect_table-table_of h m (table ++ final_entity m e ∷ []) es _)

-- the outcome of the analysis
pub analyze_document-source :
    (h : Host) (source : String) (v w : Vm)
    → (analyze_document h source v).0 ≡ (analyze_document h source w).0
unfolding analyze_document
analyze_document-source h source v w = ground arith

-- no exception
abbrev pub Never : {S : Type 0} → Exception → S → Type 0
Never e s = ⊥

err-ne-ok : {A : Type 0} {a : A} (e : Exception) → err e ≡ ok a → ⊥
err-ne-ok e p = subst (λ o. elim o [ ok b ↦ ⊥ | err f ↦ Unit ]) p tt

module _ (h : Host) (source : String) where
  -- the module is the ZH <-> EN module
  unfoldable pub IsZhEn : Vm → Type 0
  IsZhEn v = active_module h v.ctx ≡ zh_en h.unicode

  -- with the glossary, and with the entity table
  unfoldable pub HasGlossary : Vm → Type 0
  HasGlossary v = IsZhEn v × (v.ctx.glossary_cache ≡ canonical_entries)

  unfoldable pub HasArtifacts : Vm → Type 0
  HasArtifacts v =
      HasGlossary v
      × (v.ctx.entity_table ≡ table_of (zh_en h.unicode) [] (extract_entities h.unicode source))

  pub from_steady : (v w : Vm) → steady w ≡ steady v → IsZhEn v → IsZhEn w
  unfolding IsZhEn active_module
  from_steady v w e z = ap (λ t. from_option (zh_en h.unicode) t.1) e ∙ z

  After-analysis :
      (v : Vm) (p : Outcome (Unit {0}) × Vm)
      → After (λ _ w. steady w ≡ steady v) (λ e w. IsTra e × (steady w ≡ steady v)) p
      → IsZhEn v
      → p.0 ≡ ok tt
      → After (λ _. IsZhEn) Never p
  After-analysis v (ok u, w) c z o = from_steady v w c z
  After-analysis v (err e, w) c z o = absurd (err-ne-ok e o)

  -- an analysis that succeeds on some state succeeds on every state
  pub analyzes :
      (v : Vm)
      → (analyze_document h source v).0 ≡ ok tt
      → Triple IsZhEn (analyze_document h source) (λ _. IsZhEn) Never
  analyzes v o w z =
      After-analysis w (analyze_document h source w) (analyze_document-Calm h source w) z
        (analyze_document-source h source w v ∙ o)

  After-glossary :
      (v : Vm) (p : Outcome (List GlossaryEntry) × Vm)
      → After (λ _ w. steady w ≡ steady v) (λ e w. IsTra e × (steady w ≡ steady v)) p
      → IsZhEn v
      → Holds canonical_entries p
      → After (λ _. HasGlossary) Never p
  unfolding HasGlossary
  After-glossary v (ok es, w) c z g = (from_steady v w c z, g.1)
  After-glossary v (err e, w) c z g = g

  pub makes_glossary : Triple IsZhEn (build_glossary h source) (λ _. HasGlossary) Never
  unfolding IsZhEn
  makes_glossary v z =
      After-glossary v (build_glossary h source v) (build_glossary-Calm h source v) z
        (build_glossary-Holds h source v z)

  table_from :
      (v : Vm)
      → IsZhEn v
      → (collect_table h (active_module h v.ctx) [] (extract_entities h.unicode source) v).0
        ≡ table_of (zh_en h.unicode) [] (extract_entities h.unicode source)
  unfolding IsZhEn
  table_from v z =
      collect_table-table_of h (active_module h v.ctx) [] (extract_entities h.unicode source) v
      ∙ ap (λ m. table_of m [] (extract_entities h.unicode source)) z

  from_stable : (v w : Vm) → stable w ≡ stable v → HasGlossary v → HasGlossary w
  unfolding HasGlossary
  from_stable v w e g = (from_steady v w (ap (λ t. t.0) e) g.0, ap (λ t. t.1) e ∙ g.1)

  pub makes_table : Triple HasGlossary (build_entity_table h source) (λ _. HasArtifacts) Never
  unfolding HasGlossary HasArtifacts build_entity_table finish_table log
  makes_table v (z, g) =
      (from_stable v _ (build_entity_table-Calm h source v) (z, g), table_from v z)
