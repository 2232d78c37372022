-- ===== src/Register/Normalize/Script/Rerun.antt =====
-- How the script ends, and what it does when it is run again.
use mathlib.Core.Option.{some-injective}
use translation_runtime_arch.Prelude.{
  subst, String, ◌≡◌, refl, Option, none, some, List, [], ◌∷◌, length, inl, inr, ◌⊎◌, All,
}
use translation_runtime_arch.Regex.{Unicode}
use translation_runtime_arch.Register.{Summary}
use translation_runtime_arch.Register.Normalize.{Entry, normalize, completed_with}
use translation_runtime_arch.Register.Normalize.Stable.{KeepsWords, IsNormal, completed-some}
use translation_runtime_arch.Register.Normalize.Script.{
  cons_option, normalize_all, column, summary_of, with_columns, summarized, summary_text, raised,
  written, with_summary, with_normalized, normalize_register,
}
use translation_runtime_arch.Register.Normalize.Script.Sums.{
  IsStable, AddsUp, cons_option-some, normalize_all-IsStable, summary_of-AddsUp,
}

-- every entry has the field
abbrev Filled : (Entry → Option String) → List Entry → Type 0
Filled key es = All (λ e. (s : String) × (key e ≡ some s)) es

column-Filled :
    (key : Entry → Option String) (es : List Entry)
    → Filled key es
    → (xs : List String) × (column key es ≡ some xs)
unfolding column cons_option
column-Filled key [] a = ([], refl)
column-Filled key (e ∷ es) ((s, h), a) =
    let (xs, rest) = column-Filled key es a in (s ∷ xs, rw (h, rest, cons_option) refl)

severity-Filled : (es : List Entry) → All IsNormal es → Filled (λ e. e.severity) es
severity-Filled [] a = tt
severity-Filled (e ∷ es) ((sev, ftype, h, v, et, w), a) = ((sev, h), severity-Filled es a)

normalize-category :
    (u : Unicode) (e g : Entry) → normalize u e ≡ some g → (s : String) × (g.category ≡ some s)
unfolding normalize completed_with
normalize-category u e g h =
    let (r, s, er, es, c) = completed-some e g _ _ h in
    subst (λ x. (s : String) × (x.category ≡ some s)) c (_, refl)

category-Filled :
    (u : Unicode) (es gs : List Entry) → normalize_all u es ≡ some gs → Filled (λ e. e.category) gs
unfolding normalize_all cons_option
category-Filled u [] gs h = subst (Filled (λ e. e.category)) (some-injective [] _ h) tt
category-Filled u (e ∷ es) gs h =
    let (g, rest, one, more, joined) = cons_option-some _ _ gs h in
    subst (Filled (λ e. e.category)) joined
      (normalize-category u e g one, category-Filled u es rest more)

-- what the script does to the entries
abbrev pub Ends : Unicode → List Entry → Type 0
Ends u es =
    ((normalize_all u es ≡ none) × (normalize_register u (some es) ≡ raised none))
    ⊎ ((gs : List Entry) × IsStable u gs
        × (column (λ e. e.track) gs ≡ none)
        × (normalize_register u (some es) ≡ raised (some gs)))
    ⊎ ((gs : List Entry) × (s : Summary) × IsStable u gs
        × (length gs ≡ length es)
        × (s.total ≡ length es)
        × AddsUp s
        × (normalize_register u (some es) ≡ written gs s (summary_text s))
        × (normalize_register u (some gs) ≡ written gs s (summary_text s)))

module _ (u : Unicode) (k : KeepsWords u) where
  summarized_end :
      (es gs : List Entry) (tracks : Option (List String))
      → normalize_all u es ≡ some gs
      → column (λ e. e.track) gs ≡ tracks
      → Ends u es
  unfolding normalize_register with_normalized with_summary summarized with_columns summary_of
  summarized_end es gs none h t =
      let (stable, same) = normalize_all-IsStable u k es gs h in
      let (sevs, by_sev) = column-Filled (λ e. e.severity) gs (severity-Filled gs stable.0) in
      inr (inl (gs, stable, t, rw (h, by_sev, t) refl))
  summarized_end es gs (some ts) h t =
      let (stable, same) = normalize_all-IsStable u k es gs h in
      let (sevs, by_sev) = column-Filled (λ e. e.severity) gs (severity-Filled gs stable.0) in
      let (categories, by_cat) = column-Filled (λ e. e.category) gs (category-Filled u es gs h) in
      inr (
        inr (
          gs,
          summary_of gs sevs ts categories,
          stable,
          same,
          same,
          summary_of-AddsUp gs sevs ts categories stable.0 by_sev,
          rw (h, by_sev, t, by_cat) refl,
          rw (stable.1, by_sev, t, by_cat) refl,
        ))

  normalized_end : (es : List Entry) (o : Option (List Entry)) → normalize_all u es ≡ o → Ends u es
  unfolding normalize_register with_normalized
  normalized_end es none h = inl (h, rw h refl)
  normalized_end es (some gs) h = summarized_end es gs (column (λ e. e.track) gs) h refl

  -- The script ends in one of three ways, if the Unicode database leaves the five valid words alone.
  -- It raises `IndexError` for an entry and the register is untouched. Or an entry has no track and
  -- it raises `KeyError`, with the register already normalized. Or it writes as many entries as there
  -- were, all of them normal, and a summary with their number, to which the three severities and the
  -- two types add up; and then it writes the same three files when it is run again.
  pub normalize_register-Ends : (es : List Entry) → Ends u es
  normalize_register-Ends es = normalized_end es (normalize_all u es) refl
