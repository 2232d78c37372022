-- ===== src/Isa/Glossary/Conflicts.antt =====
-- What BUILD_GLOSSARY makes of the mappings of a module.
use translation_runtime_arch.Isa.Glossary.Seen.{Mapping, In, IsSeen, put-IsSeen}
use translation_runtime_arch.Prelude.{
  All-snoc, subst, subst⁻¹, String, ◌≡◌, ◌≢◌, refl, sym, ap, ◌∙◌, true, false, Bool-cases, some,
  Option-cases, List, [], ◌∷◌, ◌++◌, map, ◌==◌, eq_iff, arith, ◌⊎◌, inl, inr, All,
}
use mathlib.Core.Option.{some-injective}
use mathlib.Core.List.{append_assoc, append-nil, map-append}
use translation_runtime_arch.Dict.{Dict, put, get}
use translation_runtime_arch.Exceptions.{Exception, tra}
use translation_runtime_arch.Memory.{GlossaryEntry}
use translation_runtime_arch.Modules.{LanguageModule}
use translation_runtime_arch.Vm.{Host, Vm, log, active_module}
use translation_runtime_arch.Vm.Exec.{Outcome, ok, err, pure, modify, raise, continue, ◌>>=◌, ◌>>◌}
use translation_runtime_arch.Isa.Glossary.{
  build_glossary, collect_entries, finish_glossary, entry_of, add_entry, conflicting, set_glossary,
  drift_conflict, double_conflict,
}

abbrev pub entries_of : List Mapping → List GlossaryEntry
entries_of = map (λ (p : Mapping). entry_of p.0 p.1)

-- mappings that do not conflict: none is forbidden, and none has another target than one with the
-- same source
abbrev pub Agree : LanguageModule → List Mapping → Type 0
Agree m ps =
    All (λ p. m.is_forbidden p.0 p.1 ≡ false) ps
    × ((p q : Mapping) → In p ps → In q ps → p.0 ≡ q.0 → p.1 ≡ q.1)

-- what a mapping is refused for, behind others
abbrev pub Refused : LanguageModule → List Mapping → Mapping → Exception → Type 0
Refused m front p e =
    ((m.is_forbidden p.0 p.1 ≡ true) × (e ≡ tra (drift_conflict p.0 p.1)))
    ⊎ ((first : String) × In (p.0, first) front
        × (first ≢ p.1)
        × (e ≡ tra (double_conflict p.0 first p.1)))

-- what an exception tells of the mappings, with the glossary of the context behind it
abbrev pub Stopped : LanguageModule → List Mapping → Exception → Vm → Type 0
Stopped m ps e v =
    (front : List Mapping) × (p : Mapping) × (rest : List Mapping) × (ps ≡ front ++ p ∷ rest)
    × Agree m front
    × Refused m front p e
    × (v.ctx.glossary_cache ≡ entries_of front)

-- how the loop over the mappings ends, and how the instruction does
abbrev Collected : LanguageModule → List Mapping → Outcome (List GlossaryEntry) × Vm → Type 0
Collected m ps (ok out, v) = Agree m ps × (out ≡ entries_of ps)
Collected m ps (err e, v) = Stopped m ps e v

abbrev pub Built : LanguageModule → List Mapping → Outcome (List GlossaryEntry) × Vm → Type 0
Built m ps (ok out, v) = Agree m ps × (out ≡ entries_of ps) × (v.ctx.glossary_cache ≡ out)
Built m ps (err e, v) = Stopped m ps e v

IsSeen-Agree :
    (m : LanguageModule) (seen : Dict String) (front : List Mapping)
    → IsSeen seen front
    → All (λ p. m.is_forbidden p.0 p.1 ≡ false) front
    → Agree m front
IsSeen-Agree m seen front i a = (
  a,
  λ p q x y e.
      some-injective p.1 q.1 (sym (i.known p.0 p.1 x) ∙ ap (λ s. get s seen) e ∙ i.known q.0 q.1 y),
)

module _ (h : Host) (m : LanguageModule) where
  -- the loop behind a mapping that is taken
  abbrev Goes : List Mapping → List Mapping → List Mapping → Dict String → Type 0
  Goes all front rest seen =
      (v : Vm) → Collected m all (collect_entries h m (entries_of front) seen rest v)

  module _ (all front rest : List Mapping) (seen : Dict String) (src tgt : String)
      (p : all ≡ front ++ (src, tgt) ∷ rest) (i : IsSeen seen front)
      (a : All (λ (q : Mapping). m.is_forbidden q.0 q.1 ≡ false) front) where
    step :
        m.is_forbidden src tgt ≡ false
        → ((t : String) → get src seen ≡ some t → t ≡ tgt)
        → ((v : Vm)
            → Collected m all (
                collect_entries h m
                  (entries_of front ++ entry_of src tgt ∷ [])
                  (put src tgt seen)
                  rest
                  v))
        → Goes all front ((src, tgt) ∷ rest) seen
    unfolding collect_entries add_entry conflicting modify ◌>>=◌
    step n c next v = elim (Option-cases (get src seen)) [
      | inl e ↦ rw (n, e, collect_entries) (next _)
      | inr (first, e) ↦
          let same : (first == tgt) ≡ true = ground (arith, c first e, eq_iff first tgt) in
          rw (n, e, same, collect_entries) (next _)
    ]

    drift : m.is_forbidden src tgt ≡ true → Goes all front ((src, tgt) ∷ rest) seen
    unfolding collect_entries modify raise ◌>>=◌ set_glossary
    drift f v =
        rw (f, collect_entries)
          (front, (src, tgt), rest, p, IsSeen-Agree m seen front i a, inl (f, refl), refl)

    clash :
        (first : String)
        → m.is_forbidden src tgt ≡ false
        → get src seen ≡ some first
        → (first == tgt) ≡ false
        → Goes all front ((src, tgt) ∷ rest) seen
    unfolding collect_entries add_entry conflicting modify raise ◌>>=◌ set_glossary
    clash first n e d v =
        rw (n, e, d, collect_entries)
          (
            front,
            (src, tgt),
            rest,
            p,
            IsSeen-Agree m seen front i a,
            inr (first, i.found src first e, ground (arith, d, eq_iff first tgt), refl),
            refl,
          )

  collect_entries-Collected :
      (all front rest : List Mapping) (seen : Dict String)
      → all ≡ front ++ rest
      → IsSeen seen front
      → All (λ (q : Mapping). m.is_forbidden q.0 q.1 ≡ false) front
      → Goes all front rest seen
  unfolding collect_entries pure
  collect_entries-Collected all front [] seen p i a v =
      subst⁻¹ (λ ps. Collected m ps (ok (entries_of front), v)) (p ∙ append-nil front)
        (IsSeen-Agree m seen front i a, refl)
  collect_entries-Collected all front ((src, tgt) ∷ rest) seen p i a v =
      let onward =
        λ (n : m.is_forbidden src tgt ≡ false) (c : (t : String) → get src seen ≡ some t → t ≡ tgt).
          step all front rest seen src tgt p i a n c
            (λ w.
              subst (λ es. Collected m all (collect_entries h m es (put src tgt seen) rest w))
                (map-append _ front ((src, tgt) ∷ []))
                (collect_entries-Collected all (front ++ (src, tgt) ∷ []) rest (put src tgt seen)
                  (p ∙ sym (append_assoc front _ rest)) (put-IsSeen seen front src tgt i c)
                  (All-snoc _ front (src, tgt) a n) w))
            v in
      elim (Bool-cases (m.is_forbidden src tgt)) [
        | inl f ↦ drift all front rest seen src tgt p i a f v
        | inr n ↦ elim (Option-cases (get src seen)) [
          | inl e ↦ onward n (λ t q. ground (arith, e, q))
          | inr (first, e) ↦ elim (Bool-cases (first == tgt)) [
            | inl s ↦ onward n (λ t q. ground (arith, e, q, s, eq_iff first tgt))
            | inr d ↦ clash all front rest seen src tgt p i a first n e d v
          ]
        ]
      ]

  finished :
      (source : String) (ps : List Mapping) (r : Outcome (List GlossaryEntry) × Vm)
      → Collected m ps r
      → Built m ps
          (continue r.0 (λ entries. modify (finish_glossary h source entries) >> pure entries) r.1)
  unfolding continue ◌>>=◌ modify pure finish_glossary set_glossary log
  finished source ps (ok out, v) c = (c.0, c.1, refl)
  finished source ps (err e, v) c = c

pub build_glossary-Built :
    (h : Host) (source : String) (v : Vm)
    → Built
        (active_module h v.ctx)
        (active_module h v.ctx).glossary_mappings
        (build_glossary h source v)
unfolding build_glossary ◌>>=◌ get
build_glossary-Built h source v =
    let m = active_module h v.ctx in
    finished h m source m.glossary_mappings (collect_entries h m [] [] m.glossary_mappings v) (
      collect_entries-Collected h m m.glossary_mappings [] m.glossary_mappings [] refl
        (record { found = λ s t e. ground (arith, e); known = λ s t i. absurd i }) tt v)
