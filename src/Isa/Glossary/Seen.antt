-- ===== src/Isa/Glossary/Seen.antt =====
-- The dict `seen` of BUILD_GLOSSARY.
use translation_runtime_arch.Prelude.{
  subst, String, ◌≡◌, refl, ap, ◌∙◌, Bool-cases, some, List, [], ◌∷◌, ◌++◌, ◌==◌, eq_iff, arith,
  ◌⊎◌, inl, inr,
}
use translation_runtime_arch.Dict.{Dict, put, get, get-put}

abbrev pub Mapping : Type 0
Mapping = String × String

abbrev pub In : Mapping → List Mapping → Type 0
In p [] = ⊥
In p (q ∷ qs) = (q ≡ p) ⊎ In p qs

-- what the dict `seen` knows of the mappings so far
pub record IsSeen (seen : Dict String) (front : List Mapping) : Type 0 where
  pub found : (s t : String) → get s seen ≡ some t → In (s, t) front
  pub known : (s t : String) → In (s, t) front → get s seen ≡ some t

In-snoc : (p q : Mapping) (ps : List Mapping) → In p (ps ++ q ∷ []) → In p ps ⊎ (q ≡ p)
In-snoc p q [] (inl e) = inr e
In-snoc p q [] (inr i) = absurd i
In-snoc p q (r ∷ ps) (inl e) = inl (inl e)
In-snoc p q (r ∷ ps) (inr i) = elim (In-snoc p q ps i) [ inl j ↦ inl (inr j) | inr e ↦ inr e ]

In-front : (p q : Mapping) (ps : List Mapping) → In p ps → In p (ps ++ q ∷ [])
In-front p q [] i = absurd i
In-front p q (r ∷ ps) (inl e) = inl e
In-front p q (r ∷ ps) (inr i) = inr (In-front p q ps i)

In-last : (q : Mapping) (ps : List Mapping) → In q (ps ++ q ∷ [])
In-last q [] = inl refl
In-last q (r ∷ ps) = inr (In-last q ps)

module _ (seen : Dict String) (front : List Mapping) (src tgt : String)
    (i : IsSeen seen front) where
  put-found :
      (s t : String) → get s (put src tgt seen) ≡ some t → In (s, t) (front ++ (src, tgt) ∷ [])
  put-found s t h = elim (Bool-cases (src == s)) [
    | inl e ↦
        let same : src ≡ s = ground (arith, e, eq_iff src s) in
        let new : tgt ≡ t = ground (arith, h, e, get-put src s tgt seen) in
        subst (λ x. In (x, t) (front ++ (src, tgt) ∷ [])) same
          (subst (λ y. In (src, y) (front ++ (src, tgt) ∷ [])) new (In-last (src, tgt) front))
    | inr n ↦
        In-front (s, t) (src, tgt) front
          (i.found s t (ground (arith, n, h, get-put src s tgt seen)))
  ]

  put-known :
      ((t : String) → get src seen ≡ some t → t ≡ tgt)
      → (s t : String) → In (s, t) (front ++ (src, tgt) ∷ [])
      → get s (put src tgt seen) ≡ some t
  put-known c s t h = elim (In-snoc (s, t) (src, tgt) front h) [
    | inl j ↦ elim (Bool-cases (src == s)) [
      | inl e ↦
          let same : src ≡ s = ground (arith, e, eq_iff src s) in
          let old = c t (ap (λ x. get x seen) same ∙ i.known s t j) in
          ground (arith, e, old, get-put src s tgt seen)
      | inr n ↦ ground (arith, n, i.known s t j, get-put src s tgt seen)
    ]
    | inr e ↦ ground (
      arith,
      ap (λ (p : Mapping). p.0) e,
      ap (λ (p : Mapping). p.1) e,
      get-put src s tgt seen,
      eq_iff src s,
    )
  ]

  pub put-IsSeen :
      ((t : String) → get src seen ≡ some t → t ≡ tgt)
      → IsSeen (put src tgt seen) (front ++ (src, tgt) ∷ [])
  put-IsSeen c = record { found = put-found; known = put-known c }
