-- ===== src/Config/Yaml.antt =====
-- What a configuration that is read from a file is made of.
use translation_runtime_arch.Prelude.{
  String, ◌≡◌, refl, sym, ap, ◌∙◌, true, Option, none, some, Option-cases, ◌⊎◌, inl, inr, arith,
  subst,
}
use translation_runtime_arch.Memory.{ConformanceLevel, level_named}
use translation_runtime_arch.Config.{
  BootstrapConfig, FileSystem, Coercion, Loaded, ok, err, ◌>>=◌, Value, text, flag, number, mapping,
  null, other, no_mapping, Fields, end, find, required, optional, section, as_text, as_level, named,
  checked, from_yaml, validate_paths,
}
use translation_runtime_arch.Config.Paths.{IsContained, validate_paths_iff}

-- the value under a key, or else a default
abbrev pub Holds : String → Value → Fields → Value → Type 0
Holds key default raw v = ((find key raw ≡ none) × (default ≡ v)) ⊎ (find key raw ≡ some v)

-- the text under a key, or else a default
abbrev pub HoldsText : String → String → Fields → String → Type 0
HoldsText key default raw s = Holds key (text default) raw (text s)

module _ (fs : FileSystem) (co : Coercion) (raw : Fields) where
  pub record IsRead (c : BootstrapConfig) : Type 0 where
    pub cache : Fields
    pub repair : Fields
    pub artifacts : Fields
    pub has_cache : Holds "cache" (mapping end) raw (mapping cache)
    pub has_repair : Holds "repair" (mapping end) raw (mapping repair)
    pub has_artifacts : Holds "artifacts" (mapping end) raw (mapping artifacts)
    pub pair : find "language_pair" raw ≡ some (text c.language_pair)
    pub domain : find "domain" raw ≡ some (text c.domain)
    pub level :
        (s : String) × (find "conformance_level" raw ≡ some (text s))
        × (level_named s ≡ some c.conformance_level)
    pub endpoint : HoldsText "model_endpoint" "" raw c.model_endpoint
    pub version : HoldsText "model_version" "" raw c.model_version
    pub enabled :
        (v : Value) × Holds "enabled" (flag true) cache v × (co.as_bool v ≡ some c.cache_enabled)
    pub directory : HoldsText "directory" "./cache" cache c.cache_directory
    pub retries :
        (v : Value) × Holds "max_retries" (number 3) repair v
        × (co.as_int v ≡ some c.repair_max_retries)
    pub compilation :
        HoldsText "compilation_dir" "./compilation_artifacts" artifacts c.compilation_dir
    pub trace : HoldsText "audit_trace" "./audit_trace.jsonl" artifacts c.audit_trace
    pub base : HoldsText "base_dir" "." raw c.base_dir
    pub contained : IsContained fs c

given :
    {A B Q : Type 0} (m : Loaded A) {f : A → Loaded B} {b : B}
    → (m >>= f) ≡ ok b
    → ((a : A) → m ≡ ok a → f a ≡ ok b → Q)
    → Q
given (ok a) h k = k a refl h
given (err e) h k = absurd (ground (arith, h))

optional-Holds : (key : String) (d : Value) (raw : Fields) → Holds key d raw (optional key d raw)
unfolding optional
optional-Holds key d raw = elim (Option-cases (find key raw)) [
  | inl e ↦ inl (e, ground (arith, e))
  | inr (v, e) ↦ inr (e ∙ ground (arith, e))
]

required-ok :
    (key : String) (raw : Fields) (v : Value) → required key raw ≡ ok v → find key raw ≡ some v
unfolding required
required-ok key raw v h = ground (arith, h)

as_text-ok : (name s : String) (v : Value) → as_text name v ≡ ok s → v ≡ text s
unfolding as_text
as_text-ok name s (text r) h = ground (arith, h)
as_text-ok name s null h = absurd (ground (arith, h))
as_text-ok name s other h = absurd (ground (arith, h))
as_text-ok name s (flag b) h = absurd (ground (arith, h))
as_text-ok name s (number n) h = absurd (ground (arith, h))
as_text-ok name s (mapping m) h = absurd (ground (arith, h))

mapping-ok :
    (key : String) (v : Value) (fields : Fields)
    → elim v [ mapping fs ↦ ok fs | _ ↦ err (no_mapping key) ] ≡ ok fields
    → v ≡ mapping fields
mapping-ok key (mapping fs) fields h = ground (arith, h)
mapping-ok key null fields h = absurd (ground (arith, h))
mapping-ok key other fields h = absurd (ground (arith, h))
mapping-ok key (flag b) fields h = absurd (ground (arith, h))
mapping-ok key (number n) fields h = absurd (ground (arith, h))
mapping-ok key (text s) fields h = absurd (ground (arith, h))

section-ok :
    (key : String) (raw fields : Fields)
    → section key raw ≡ ok fields
    → Holds key (mapping end) raw (mapping fields)
unfolding section
section-ok key raw fields h =
    subst (Holds key (mapping end) raw) (mapping-ok key (optional key (mapping end) raw) fields h)
      (optional-Holds key (mapping end) raw)

optional_text :
    (name key default s : String) (raw : Fields)
    → as_text name (optional key (text default) raw) ≡ ok s
    → HoldsText key default raw s
optional_text name key default s raw h =
    subst (Holds key (text default) raw) (as_text-ok name s (optional key (text default) raw) h)
      (optional-Holds key (text default) raw)

required_text :
    (name key s : String) (v : Value) (raw : Fields)
    → required key raw ≡ ok v
    → as_text name v ≡ ok s
    → find key raw ≡ some (text s)
required_text name key s v raw e h = required-ok key raw v e ∙ ap some (as_text-ok name s v h)

checked-ok :
    {A : Type 0} (name : String) (o : Option A) (a : A) → checked name o ≡ ok a → o ≡ some a
unfolding checked
checked-ok name none a h = absurd (ground (arith, h))
checked-ok name (some b) a h = ground (arith, h)

named-ok : (o : Option ConformanceLevel) (l : ConformanceLevel) → named o ≡ ok l → o ≡ some l
unfolding named
named-ok none l h = absurd (ground (arith, h))
named-ok (some k) l h = ground (arith, h)

as_level-ok :
    (v : Value) (l : ConformanceLevel)
    → as_level v ≡ ok l
    → (s : String) × (v ≡ text s) × (level_named s ≡ some l)
unfolding as_level named
as_level-ok (text s) l h = (s, refl, named-ok (level_named s) l h)
as_level-ok null l h = absurd (ground (arith, h))
as_level-ok other l h = absurd (ground (arith, h))
as_level-ok (flag b) l h = absurd (ground (arith, h))
as_level-ok (number n) l h = absurd (ground (arith, h))
as_level-ok (mapping m) l h = absurd (ground (arith, h))

validate_paths-same : (fs : FileSystem) (c d : BootstrapConfig) → validate_paths fs c ≡ ok d → c ≡ d
unfolding validate_paths
validate_paths-same fs c d h = ground (arith, h)

module _ (fs : FileSystem) (co : Coercion) (raw : Fields) (c : BootstrapConfig) where
  -- A configuration that is read from a file has what the file says: the three keys that are required,
  -- with a level that there is, and every other key, at the top or in its section, with its default
  -- where it is missing. Its cache directory, its compilation directory and its audit trace, with
  -- links and dots followed, lie below its base directory.
  pub from_yaml-IsRead : from_yaml fs co raw ≡ ok c → IsRead fs co raw c
  unfolding from_yaml
  from_yaml-IsRead h = given (required "language_pair" raw) h λ v1 e1 h0.
      given (required "domain" raw) h0 λ v2 e2 h1.
        given (required "conformance_level" raw) h1 λ v3 e3 h2. given (as_level v3) h2 λ l e4 h3.
          given (section "cache" raw) h3 λ cache e5 h4.
            given (section "repair" raw) h4 λ repair e6 h5.
              given (section "artifacts" raw) h5 λ artifacts e7 h6.
                given (as_text "language_pair" v1) h6 λ pair e8 h7.
                  given (as_text "domain" v2) h7 λ domain e9 h8.
                    given (as_text "model_endpoint" (optional "model_endpoint" (text "") raw)) h8
                      λ endpoint e10 h9.
                        given (as_text "model_version" (optional "model_version" (text "") raw)) h9
                          λ version e11 h10.
                            given
                              (checked "cache_enabled"
                                (co.as_bool (optional "enabled" (flag true) cache)))
                              h10
                              λ enabled e12 h11.
                                given
                                  (as_text "cache_directory"
                                    (optional "directory" (text "./cache") cache))
                                  h11
                                  λ directory e13 h12.
                                    given
                                      (checked "repair_max_retries"
                                        (co.as_int (optional "max_retries" (number 3) repair)))
                                      h12
                                      λ retries e14 h13.
                                        given
                                          (as_text "compilation_dir" (
                                            optional "compilation_dir"
                                              (text "./compilation_artifacts") artifacts))
                                          h13
                                          λ compilation e15 h14.
                                            given
                                              (as_text "audit_trace" (
                                                optional "audit_trace" (text "./audit_trace.jsonl")
                                                  artifacts))
                                              h14
                                              λ trace e16 h15.
                                                given
                                                  (as_text "base_dir"
                                                    (optional "base_dir" (text ".") raw))
                                                  h15
                                                  λ base e17 h16.
                                                    let same = validate_paths-same fs _ c h16 in
                                                    subst (IsRead fs co raw) same (record {
                                                      cache = cache;
                                                      repair = repair;
                                                      artifacts = artifacts;
                                                      has_cache = section-ok "cache" raw cache e5;
                                                      has_repair =
                                                          section-ok "repair" raw repair e6;
                                                      has_artifacts =
                                                          section-ok "artifacts" raw artifacts e7;
                                                      pair =
                                                          required_text "language_pair"
                                                            "language_pair" pair v1 raw e1 e8;
                                                      domain =
                                                          required_text "domain" "domain" domain v2
                                                            raw e2 e9;
                                                      level =
                                                          let (s, q, n) = as_level-ok v3 l e4 in
                                                          (
                                                            s,
                                                            required-ok "conformance_level" raw v3
                                                            e3
                                                            ∙ ap some q,
                                                            n,
                                                          );
                                                      endpoint =
                                                          optional_text _ _ _ endpoint raw e10;
                                                      version = optional_text _ _ _ version raw e11;
                                                      enabled = (
                                                        _,
                                                        optional-Holds "enabled" (flag true) cache,
                                                        checked-ok _ _ enabled e12,
                                                      );
                                                      directory =
                                                          optional_text _ _ _ directory cache e13;
                                                      retries = (
                                                        _,
                                                        optional-Holds "max_retries" (number 3)
                                                            repair,
                                                        checked-ok _ _ retries e14,
                                                      );
                                                      compilation =
                                                          optional_text _ _ _ compilation artifacts
                                                            e15;
                                                      trace =
                                                          optional_text _ _ _ trace artifacts e16;
                                                      base = optional_text _ _ _ base raw e17;
                                                      contained =
                                                          (validate_paths_iff fs _).0
                                                            (h16 ∙ ap ok (sym same));
                                                    })
