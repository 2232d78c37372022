-- ===== src/Isa/Logs.antt =====
-- The instructions of isa.py leave the kernel's execution log alone, the switch of the cache, and the
-- artifacts that others have built.
pub mod Segments
use translation_runtime_arch.Prelude.{
  Bool, ℕ, String, ◌≡◌, refl, Option, none, some, List, [], ◌∷◌, ◌++◌, any, arith,
}
use translation_runtime_arch.Dict.{Dict, get, put}
use translation_runtime_arch.Exceptions.{TraException, unrecoverable}
use translation_runtime_arch.Memory.{Entity, EntityType, GlossaryEntry}
use translation_runtime_arch.Modules.{LanguageModule}
use translation_runtime_arch.Diagnostics.{Diagnostic}
use translation_runtime_arch.Vm.{Host, Vm, log, add_evidence, active_module}
use translation_runtime_arch.Vm.Exec.{Exec, pure, raise, modify, ◌>>=◌, ◌>>◌, continue}
use translation_runtime_arch.Vm.Triple.{
  IsUnrecoverable, Calm, After, IsTra, IsNone, Calm-bind, Calm-if, Calm-modify,
}
use translation_runtime_arch.Isa.Analyze.{analyze_document}
use translation_runtime_arch.Isa.Glossary.{
  build_glossary, collect_entries, set_glossary, entry_of, add_entry, conflicting, drift_conflict,
  double_conflict, finish_glossary, term_evidence,
}
use translation_runtime_arch.Isa.Entities.{
  build_entity_table, collect_table, check_ambiguity, log_ambiguity, final_entity, entity_evidence,
  finish_table,
}
use translation_runtime_arch.Isa.Verify.{verify_output}
use translation_runtime_arch.Isa.Repair.{repair_segment, repair_text, record_repair, is_blocking}

abbrev pub execution : Vm → List String
execution v = v.ctx.execution_log

-- with the module, the glossary and the entity table, as far as an instruction leaves them alone
abbrev pub steady : Vm → (List String × Bool) × Option LanguageModule
steady v = ((execution v, v.cache.enabled), v.ctx.module_)

abbrev pub stable : Vm → ((List String × Bool) × Option LanguageModule) × List GlossaryEntry
stable v = (steady v, v.ctx.glossary_cache)

abbrev pub kept :
    Vm → (((List String × Bool) × Option LanguageModule) × List GlossaryEntry) × List Entity
kept v = (stable v, v.ctx.entity_table)

pub analyze_document-Calm : (h : Host) (s : String) → Calm steady IsTra (analyze_document h s)
unfolding analyze_document log
analyze_document-Calm h s v = ground arith

pub verify_output-Calm : (h : Host) (t s : String) → Calm kept IsNone (verify_output h t s)
unfolding verify_output log
verify_output-Calm h t s v = refl

set_glossary-steady :
    (entries : List GlossaryEntry) (v : Vm) → steady (set_glossary entries v) ≡ steady v
unfolding set_glossary
set_glossary-steady entries v = refl

add_evidence-steady : (h : Host) (r : _) (v : Vm) → steady (add_evidence h r v).1 ≡ steady v
unfolding add_evidence
add_evidence-steady h r v = refl

pure-Calm : {A : Type 0} (a : A) → Calm steady IsTra (pure a)
unfolding pure
pure-Calm a v = refl

refuse :
    (entries : List GlossaryEntry) (e : TraException)
    → Calm steady IsTra (modify (set_glossary entries) >> raise {A = List GlossaryEntry} e)
unfolding ◌>>=◌ continue modify raise set_glossary
refuse entries e v = (tt, refl)

given_up : (m : String) → Calm kept IsUnrecoverable (raise {A = String} (unrecoverable m))
unfolding raise IsUnrecoverable
given_up m v = (tt, refl)

verified : (h : Host) (t s : String) → Calm kept IsUnrecoverable (verify_output h t s)
unfolding verify_output log
verified h t s v = refl

add_entry-Calm :
    (h : Host) (entries : List GlossaryEntry) (src tgt : String) (o : Option String)
    (next : Exec Vm (List GlossaryEntry))
    → Calm steady IsTra next
    → Calm steady IsTra (add_entry h entries src tgt o next)
unfolding add_entry
add_entry-Calm h entries src tgt (some first) next c =
    refuse entries (double_conflict src first tgt)
add_entry-Calm h entries src tgt none next c =
    Calm-bind steady IsTra _ _
      (Calm-modify steady IsTra _ (add_evidence-steady h (term_evidence src tgt))) (λ _. c)

collect_entries-Calm :
    (h : Host) (m : LanguageModule) (entries : List GlossaryEntry) (seen mappings : Dict String)
    → Calm steady IsTra (collect_entries h m entries seen mappings)
unfolding collect_entries pure
collect_entries-Calm h m entries seen [] = λ v. refl
collect_entries-Calm h m entries seen ((src, tgt) ∷ mappings) =
    let next =
      collect_entries-Calm h m (entries ++ entry_of src tgt ∷ []) (put src tgt seen) mappings in
    Calm-if steady IsTra _ _ (m.is_forbidden src tgt) (refuse entries (drift_conflict src tgt))
      (add_entry-Calm h entries src tgt (conflicting tgt (get src seen)) _ next)

pub build_glossary-Calm : (h : Host) (s : String) → Calm steady IsTra (build_glossary h s)
unfolding build_glossary finish_glossary set_glossary log
build_glossary-Calm h s v =
    Calm-bind steady IsTra _ _ (collect_entries-Calm h (active_module h v.ctx) [] [] _)
      (λ entries.
        Calm-bind steady IsTra _ _ (Calm-modify steady IsTra _ (λ v. refl))
          (λ _. pure-Calm entries))
      v

evidence-stable : (h : Host) (r : _) (v : Vm) → stable (add_evidence h r v).1 ≡ stable v
unfolding add_evidence
evidence-stable h r v = refl

check_ambiguity-stable :
    (h : Host) (t : String) (k : Option EntityType) (v : Vm)
    → stable (check_ambiguity h t k v) ≡ stable v
unfolding check_ambiguity log_ambiguity log
check_ambiguity-stable h t (some k) v = refl
check_ambiguity-stable h t none v = ground arith

collect_table-stable :
    (h : Host) (m : LanguageModule) (table es : List Entity) (v : Vm)
    → stable (collect_table h m table es v).1 ≡ stable v
unfolding collect_table
collect_table-stable h m table [] v = refl
collect_table-stable h m table (e ∷ es) v = ground (
  arith,
  collect_table-stable h m table es v,
  collect_table-stable h m (table ++ final_entity m e ∷ []) es
      (add_evidence h (entity_evidence (final_entity m e))
        (check_ambiguity h e.name (m.entity_type_hint e.name) v)).1,
  evidence-stable h (entity_evidence (final_entity m e))
      (check_ambiguity h e.name (m.entity_type_hint e.name) v),
  check_ambiguity-stable h e.name (m.entity_type_hint e.name) v,
)

pub build_entity_table-Calm : (h : Host) (s : String) → Calm stable IsTra (build_entity_table h s)
unfolding build_entity_table finish_table log
build_entity_table-Calm h s v = collect_table-stable h (active_module h v.ctx) [] _ v

record_repair-Calm :
    (h : Host) (t s r : String) (d : Diagnostic) (n i : ℕ)
    → Calm kept IsUnrecoverable (record_repair h t s r d n i)
unfolding record_repair add_evidence log
record_repair-Calm h t s r d n i v = refl

repair_text-IsUnrecoverable :
    (h : Host) (t : String) (d : Diagnostic) (n m : ℕ) (v : Vm)
    → After {S = Vm}
        (λ _ v'. kept v' ≡ kept v)
        (λ e v'. IsUnrecoverable e × (kept v' ≡ kept v))
        (repair_text h v.ctx t d n m, v)
unfolding repair_text IsUnrecoverable
repair_text-IsUnrecoverable h t d n m v = ground arith

pub repair_segment-Calm :
    (h : Host) (t s : String) (d : Diagnostic) (n m i : ℕ)
    → Calm kept IsUnrecoverable (repair_segment h t s d n m i)
unfolding repair_segment
repair_segment-Calm h t s d n m i =
    Calm-bind kept IsUnrecoverable _ _ (repair_text-IsUnrecoverable h t d n m) (λ r.
      Calm-bind kept IsUnrecoverable _ _ (verified h r s) (λ ds.
        Calm-if kept IsUnrecoverable _ _ (any is_blocking ds) (given_up _)
          (record_repair-Calm h t s r d n i)))
