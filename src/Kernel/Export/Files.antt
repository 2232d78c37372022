-- ===== src/Kernel/Export/Files.antt =====
-- What a run exports to the compilation directory.
use translation_runtime_arch.Prelude.{
  subst⁻¹, String, ◌≡◌, ◌≢◌, refl, sym, ap, ◌∙◌, Option, none, some, List, [], ◌∷◌, ◌++◌, ◌==◌,
  eq_iff, arith, inl, inr, ◌⊎◌, if◌then◌else◌,
}
use translation_runtime_arch.Dict.{get, put, get-put}
use translation_runtime_arch.Memory.{
  ConformanceLevel, l1_basic, l2_professional, l3_strict, l4_forensic,
}
use translation_runtime_arch.Vm.{Host, Vm}
use translation_runtime_arch.Vm.Exec.{Outcome, ok, err}
use translation_runtime_arch.Vm.Triple.{After}
use translation_runtime_arch.Isa.Translate.{Llm}
use translation_runtime_arch.Kernel.{
  Kernel, KernelState, bootstrap, emit_payload, initialize_runtime,
}
use translation_runtime_arch.Kernel.Hitl.{Reviewer}
use translation_runtime_arch.Kernel.Run.{run}
use translation_runtime_arch.Kernel.Lifecycle.{At, visited, RunDone, RunError}
use translation_runtime_arch.Kernel.Ends.{run-ends}
use translation_runtime_arch.Kernel.Export.{
  Nodes, map_artifact, Dumps, Files, at, artifacts, forensics, write_all, export_all, exports_in,
  exported, run_and_export,
}
use text.Mathlib.TextLemmas.{append_cancel_left}

-- the text that is written last under a name, or else another one
abbrev pub latest : String → List (String × String) → Option String → Option String
latest name [] before = before
latest name ((other, text) ∷ rest) before =
    latest name rest (if other == name then some text else before)

at-eq : (base m n : String) → (at base m == at base n) ≡ (m == n)
at-eq base m n = ground (
  arith,
  eq_iff (at base m) (at base n),
  eq_iff m n,
  ap (at base),
  λ (e : at base m ≡ at base n). append_cancel_left "/" m n (append_cancel_left base _ _ e),
)

get-write_all :
    (base name : String) (l : List (String × String)) (files : Files)
    → get (at base name) (write_all base l files) ≡ latest name l (get (at base name) files)
unfolding write_all
get-write_all base name [] files = refl
get-write_all base name ((other, text) ∷ rest) files =
    get-write_all base name rest (put (at base other) text files)
    ∙ ap (latest name rest) (
        get-put (at base other) (at base name) text files
        ∙ ap (λ b. if b then some text else get (at base name) files) (at-eq base other name))

-- a path that is not in the directory
abbrev pub IsOutside : String → String → Type 0
IsOutside base path = (name : String) → path ≢ at base name

get-write_outside :
    (base path : String) (l : List (String × String)) (files : Files)
    → IsOutside base path
    → get path (write_all base l files) ≡ get path files
unfolding write_all
get-write_outside base path [] files o = refl
get-write_outside base path ((other, text) ∷ rest) files o =
    get-write_outside base path rest (put (at base other) text files) o
    ∙ get-put (at base other) path text files
    ∙ ground (arith, eq_iff (at base other) path, λ (e : at base other ≡ path). o other (sym e))

-- what the compilation directory holds after a run that has emitted a target
pub record IsExported (d : Dumps) (base target : String) (level : ConformanceLevel) (k : Kernel)
    (files files' : Files) : Type 0 where
  pub log :
      get (at base "execution_log.json") files'
      ≡ some (d.execution_log (visited emit_payload) k.vm.ctx.unresolved_ambiguities)
  pub glossary : get (at base "glossary.yaml") files' ≡ some (d.glossary k.vm.ctx.glossary_cache)
  pub register : get (at base "ambiguity_register.json") files' ≡ elim level [
    | l4_forensic ↦ some (d.ambiguities k.vm.ctx.unresolved_ambiguities)
    | _ ↦ get (at base "ambiguity_register.json") files
  ]
  pub outside : (path : String) → IsOutside base path → get path files' ≡ get path files

get-export_all :
    (d : Dumps) (base target name : String) (k : Kernel) (files : Files)
    → get (at base name) (export_all d base target k files)
      ≡ latest name
          (forensics d k.level target k.vm)
          (latest name (artifacts d k.vm.ctx) (get (at base name) files))
unfolding export_all
get-export_all d base target name k files =
    get-write_all base name (forensics d k.level target k.vm)
      (write_all base (artifacts d k.vm.ctx) files)
    ∙ ap (latest name (forensics d k.level target k.vm))
        (get-write_all base name (artifacts d k.vm.ctx) files)

latest-append :
    (name : String) (xs ys : List (String × String)) (o : Option String)
    → latest name (xs ++ ys) o ≡ latest name ys (latest name xs o)
latest-append name [] ys o = refl
latest-append name ((other, text) ∷ xs) ys o = latest-append name xs ys _

latest-map :
    (d : Dumps) (m : Option Nodes) (o : Option String)
    → (latest "glossary.yaml" (map_artifact d m) o ≡ o)
      × (latest "ambiguity_register.json" (map_artifact d m) o ≡ o)
unfolding map_artifact
latest-map d none o = (refl, refl)
latest-map d (some nodes) o = (refl, refl)

module _ (d : Dumps) (v : Vm) (o : Option String) where
  latest-artifacts :
      (latest "execution_log.json" (artifacts d v.ctx) o
        ≡ some (d.execution_log v.ctx.execution_log v.ctx.unresolved_ambiguities))
      × (latest "glossary.yaml" (artifacts d v.ctx) o ≡ some (d.glossary v.ctx.glossary_cache))
      × (latest "ambiguity_register.json" (artifacts d v.ctx) o ≡ o)
  unfolding artifacts
  latest-artifacts = (
    latest-append "execution_log.json" (map_artifact d v.ctx.structural_map) _ _,
    latest-append "glossary.yaml" (map_artifact d v.ctx.structural_map) _ _
        ∙ (latest-map d v.ctx.structural_map _).0,
    latest-append "ambiguity_register.json" (map_artifact d v.ctx.structural_map) _ _
        ∙ (latest-map d v.ctx.structural_map o).1,
  )

-- the forensic artifacts are written at L4 only, and the others are not among them
latest-forensics :
    (d : Dumps) (level : ConformanceLevel) (target : String) (v : Vm) (o : Option String)
    → (latest "execution_log.json" (forensics d level target v) o ≡ o)
      × (latest "glossary.yaml" (forensics d level target v) o ≡ o)
      × (latest "ambiguity_register.json" (forensics d level target v) o
          ≡ elim level [ l4_forensic ↦ some (d.ambiguities v.ctx.unresolved_ambiguities) | _ ↦ o ])
unfolding forensics
latest-forensics d l1_basic target v o = (refl, refl, refl)
latest-forensics d l2_professional target v o = (refl, refl, refl)
latest-forensics d l3_strict target v o = (refl, refl, refl)
latest-forensics d l4_forensic target v o = (refl, refl, refl)

module _ (d : Dumps) (base : String) (files : Files) (l : ConformanceLevel) where
  -- the part of the ambiguity register at a level
  abbrev registered : ConformanceLevel → Vm → Option String → Option String
  registered level v o = elim level [
    | l4_forensic ↦ some (d.ambiguities v.ctx.unresolved_ambiguities)
    | _ ↦ o
  ]

  export_all-IsExported :
      (target : String) (k : Kernel)
      → At emit_payload l k
      → IsExported d base target l k files (export_all d base target k files)
  unfolding export_all
  export_all-IsExported target k p =
      let fs = forensics d k.level target k.vm in
      let as_ = artifacts d k.vm.ctx in
      let old = λ (name : String). get (at base name) files in
      record {
        log =
            get-export_all d base target "execution_log.json" k files
            ∙ (latest-forensics d k.level target k.vm _).0
            ∙ (latest-artifacts d k.vm (old "execution_log.json")).0
            ∙ ap
                (λ (s : KernelState × List String × ConformanceLevel).
                  some (d.execution_log s.1 k.vm.ctx.unresolved_ambiguities))
                p;
        glossary =
            get-export_all d base target "glossary.yaml" k files
            ∙ (latest-forensics d k.level target k.vm _).1
            ∙ (latest-artifacts d k.vm (old "glossary.yaml")).1;
        register =
            get-export_all d base target "ambiguity_register.json" k files
            ∙ (latest-forensics d k.level target k.vm _).2
            ∙ ap (registered k.level k.vm)
                (latest-artifacts d k.vm (old "ambiguity_register.json")).2
            ∙ ap
                (λ (s : KernelState × List String × ConformanceLevel).
                  registered s.2 k.vm (old "ambiguity_register.json"))
                p;
        outside = λ path o.
            get-write_outside base path fs (write_all base as_ files) o
            ∙ get-write_outside base path as_ files o;
      }

  -- how the files stand behind a run
  abbrev pub Leaves : Outcome String × (Kernel × Files) → Type 0
  Leaves =
      After
        (λ target s.
          (At emit_payload l s.0 × IsExported d base target l s.0 files s.1)
          ⊎ ((target ≡ "") × (s.1 ≡ files)))
        (λ e s. s.1 ≡ files)

  exports_at :
      (target : String) (state : KernelState) (k : Kernel)
      → k.state ≡ state
      → exports_in d base target k.state k files ≡ exports_in d base target state k files
  exports_at target state k e = ap (λ s. exports_in d base target s k files) e

  exported-Leaves :
      (h : Host) (source : String) (p : Outcome String × Kernel)
      → After (RunDone h source l) (RunError l) p
      → Leaves (exported d base files p)
  unfolding exported RunDone
  exported-Leaves h source (err e, k) q = refl
  exported-Leaves h source (ok target, k) (inl (a, c)) =
      let e = ap (λ (s : KernelState × List String × ConformanceLevel). s.0) a in
      inl (
        a,
        subst⁻¹ (IsExported d base target l k files) (exports_at target emit_payload k e)
            (export_all-IsExported target k a),
      )
  exported-Leaves h source (ok target, k) (inr (a, e, s)) = inr (
    e,
    exports_at target initialize_runtime k
        (ap (λ (t : KernelState × List String × ConformanceLevel). t.0) a),
  )

  pub run_and_export-Leaves :
      (h : Host) (reviewer : Reviewer) (llm : Option Llm) (source : String) (k : Kernel)
      → At bootstrap l k
      → Leaves (run_and_export h reviewer llm source d base k files)
  unfolding run_and_export
  run_and_export-Leaves h reviewer llm source k p =
      exported-Leaves h source (run h reviewer llm source k) (run-ends h source l reviewer llm k p)
