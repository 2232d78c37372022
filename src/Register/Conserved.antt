-- ===== src/Register/Conserved.antt =====
-- What becomes of the findings when duplicates are merged.
use translation_runtime_arch.Prelude.{
  All-snoc, ℕ, ◌+◌, ◌≤◌, String, ◌≡◌, refl, ap, ◌∙◌, true, false, List, [], ◌∷◌, ◌++◌, map, arith,
  All, ◌==◌, Bool-cases, inl, inr,
}
use translation_runtime_arch.Regex.{Unicode}
use translation_runtime_arch.Reporting.Audit.{occurrences}
use translation_runtime_arch.Register.{
  Finding, Groups, add_to_group, grouped, severity_rank, merged_group, merged, ranks_before,
  insert_ranked, rank_sorted, dedupe_findings, root_of,
}

-- how often the findings of a register cite an id
abbrev pub cited : String → List Finding → ℕ
cited x [] = 0
cited x (f ∷ fs) = occurrences x f.source_findings + cited x fs

-- how often an id is reported
abbrev pub reported : String → List Finding → ℕ
reported x [] = 0
reported x (f ∷ fs) = occurrences x (f.id ∷ []) + reported x fs

-- as a report is parsed, a finding cites itself
abbrev pub IsParsed : Finding → Type 0
IsParsed f = f.source_findings ≡ f.id ∷ []

-- the ranks do not fall
abbrev pub IsRanked : List Finding → Type 0
IsRanked [] = Unit
IsRanked (f ∷ []) = Unit
IsRanked (f ∷ g ∷ fs) = (severity_rank f.severity ≤ severity_rank g.severity) × IsRanked (g ∷ fs)

cited-insert_ranked :
    (x : String) (f : Finding) (fs : List Finding)
    → cited x (insert_ranked f fs) ≡ occurrences x f.source_findings + cited x fs
unfolding insert_ranked
cited-insert_ranked x f [] = refl
cited-insert_ranked x f (g ∷ gs) = ground (arith, cited-insert_ranked x f gs)

cited-rank_sorted : (x : String) (fs : List Finding) → cited x (rank_sorted fs) ≡ cited x fs
unfolding rank_sorted
cited-rank_sorted x [] = refl
cited-rank_sorted x (f ∷ fs) =
    omega (arith, cited-insert_ranked x f (rank_sorted fs), cited-rank_sorted x fs)

ranks_before-rank :
    (f g : Finding) → ranks_before f g ≡ true → severity_rank f.severity ≤ severity_rank g.severity
unfolding ranks_before
ranks_before-rank f g h = ground arith

not_before-rank :
    (f g : Finding) → ranks_before f g ≡ false → severity_rank g.severity ≤ severity_rank f.severity
unfolding ranks_before
not_before-rank f g h = ground arith

insert_ranked-IsRanked :
    (f : Finding) (fs : List Finding) → IsRanked fs → IsRanked (insert_ranked f fs)
unfolding insert_ranked
insert_ranked-IsRanked f [] r = tt
insert_ranked-IsRanked f (g ∷ []) r = ground (arith, ranks_before-rank f g, not_before-rank f g)
insert_ranked-IsRanked f (g ∷ h ∷ fs) r = ground (
  arith,
  ranks_before-rank f g,
  not_before-rank f g,
  ranks_before-rank f h,
  not_before-rank f h,
  insert_ranked-IsRanked f (h ∷ fs) r.1,
)

rank_sorted-IsRanked : (fs : List Finding) → IsRanked (rank_sorted fs)
unfolding rank_sorted
rank_sorted-IsRanked [] = tt
rank_sorted-IsRanked (f ∷ fs) = insert_ranked-IsRanked f (rank_sorted fs) (rank_sorted-IsRanked fs)

reported-append :
    (x : String) (fs gs : List Finding) → reported x (fs ++ gs) ≡ reported x fs + reported x gs
reported-append x [] gs = omega arith
reported-append x (f ∷ fs) gs = omega (arith, reported-append x fs gs)

-- how often the members of the groups are reported
abbrev held : String → Groups → ℕ
held x [] = 0
held x ((root, fs) ∷ groups) = reported x fs + held x groups

held-add_to_group :
    (x root : String) (f : Finding) (groups : Groups)
    → held x (add_to_group root f groups) ≡ occurrences x (f.id ∷ []) + held x groups
unfolding add_to_group
held-add_to_group x root f [] = omega arith
held-add_to_group x root f ((r, fs) ∷ groups) =
    ground (arith, held-add_to_group x root f groups, reported-append x fs (f ∷ []))

held-grouped :
    (x : String) (u : Unicode) (fs : List Finding) (groups : Groups)
    → held x (grouped u fs groups) ≡ reported x fs + held x groups
unfolding grouped
held-grouped x u [] groups = omega arith
held-grouped x u (f ∷ fs) groups = omega (
  arith,
  held-grouped x u fs (add_to_group (root_of u f) f groups),
  held-add_to_group x (root_of u f) f groups,
)

abbrev AreParsed : Groups → Type 0
AreParsed = All (λ g. All IsParsed g.1)

add_to_group-AreParsed :
    (root : String) (f : Finding) (groups : Groups)
    → IsParsed f
    → AreParsed groups
    → AreParsed (add_to_group root f groups)
unfolding add_to_group
add_to_group-AreParsed root f [] p a = ((p, tt), tt)
add_to_group-AreParsed root f ((r, fs) ∷ groups) p a = elim (Bool-cases (r == root)) [
  | inl e ↦ rw (e, add_to_group) (All-snoc IsParsed fs f a.0 p, a.1)
  | inr e ↦ rw (e, add_to_group) (a.0, add_to_group-AreParsed root f groups p a.1)
]

grouped-AreParsed :
    (u : Unicode) (fs : List Finding) (groups : Groups)
    → All IsParsed fs
    → AreParsed groups
    → AreParsed (grouped u fs groups)
unfolding grouped
grouped-AreParsed u [] groups p a = a
grouped-AreParsed u (f ∷ fs) groups p a =
    grouped-AreParsed u fs (add_to_group (root_of u f) f groups) p.1
      (add_to_group-AreParsed (root_of u f) f groups p.0 a)

occurrences-ids :
    (x : String) (fs : List Finding) → occurrences x (map (λ f. f.id) fs) ≡ reported x fs
unfolding occurrences
occurrences-ids x [] = refl
occurrences-ids x (f ∷ fs) = ground (arith, occurrences-ids x fs)

merged_group-cited :
    (x root : String) (f : Finding) (fs : List Finding)
    → IsParsed f
    → occurrences x (merged_group root f fs).source_findings ≡ reported x (f ∷ fs)
unfolding merged_group
merged_group-cited x root f [] p = ap (occurrences x) p ∙ omega arith
merged_group-cited x root f (g ∷ gs) p = occurrences-ids x (f ∷ g ∷ gs)

cited-merged :
    (x : String) (groups : Groups) → AreParsed groups → cited x (merged groups) ≡ held x groups
unfolding merged
cited-merged x [] a = refl
cited-merged x ((root, []) ∷ groups) a = omega (arith, cited-merged x groups a.1)
cited-merged x ((root, f ∷ fs) ∷ groups) a =
    omega (arith, merged_group-cited x root f fs a.0.0, cited-merged x groups a.1)

-- No finding gets lost or doubled when duplicates are merged: if every finding cites itself, as it
-- is parsed, then the register cites every id as often as it was reported. The register lists the
-- blocking findings first, then the warnings, then the rest.
pub dedupe_findings-conserved :
    (u : Unicode) (fs : List Finding)
    → All IsParsed fs
    → ((x : String) → cited x (dedupe_findings u fs) ≡ reported x fs)
      × IsRanked (dedupe_findings u fs)
unfolding dedupe_findings
dedupe_findings-conserved u fs p = (
  λ x.
      cited-rank_sorted x (merged (grouped u fs []))
      ∙ cited-merged x (grouped u fs []) (grouped-AreParsed u fs [] p tt)
      ∙ omega (arith, held-grouped x u fs []),
  rank_sorted-IsRanked (merged (grouped u fs [])),
)
