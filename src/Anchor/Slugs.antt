-- ===== src/Anchor/Slugs.antt =====
-- `resolve_slug` of anchor.py: the search for a free slug ends, and its answer is free.
use translation_runtime_arch.Prelude.{
  ℕ, zero, suc, ◌+◌, ◌≤◌, ◌<◌, String, ◌≡◌, ◌≢◌, refl, true, false, List, [], ◌∷◌, length, elem,
  ◌==◌, eq_iff, if◌then◌else◌, arith, Bool-cases, inl, inr,
}
use text.Mathlib.TextLemmas.{append_cancel_left}
use translation_runtime_arch.Text.Numerals.{show_injective}
use translation_runtime_arch.Regex.{Unicode}
use translation_runtime_arch.Anchor.{AnchorRegistry, numbered, free_slug, choose_slug, resolve_slug}

numbered_injective : (base : String) (m n : ℕ) → numbered base m ≡ numbered base n → m ≡ n
numbered_injective base m n e =
    show_injective m n (append_cancel_left "-" _ _ (append_cancel_left base _ _ e))

erase : String → List String → List String
erase s [] = []
erase s (t ∷ ts) = if t == s then ts else t ∷ erase s ts

length-erase :
    (s : String) (ts : List String) → elem s ts ≡ true → suc (length (erase s ts)) ≡ length ts
unfolding erase elem
length-erase s [] h = absurd (ground arith)
length-erase s (t ∷ ts) h = ground (arith, length-erase s ts)

elem-erase :
    (s r : String) (ts : List String) → r ≢ s → elem r ts ≡ true → elem r (erase s ts) ≡ true
unfolding erase elem
elem-erase s r [] ne h = h
elem-erase s r (t ∷ ts) ne h = ground (arith, elem-erase s r ts ne, eq_iff t s, eq_iff t r)

-- `base-k`, …, `base-(k + n - 1)` are all in use
abbrev AllUsed : String → ℕ → ℕ → List String → Type 0
AllUsed base k zero ts = Unit
AllUsed base k (suc n) ts = (elem (numbered base k) ts ≡ true) × AllUsed base (k + 1) n ts

AllUsed-erase :
    (base : String) (j k n : ℕ) (ts : List String)
    → j < k
    → AllUsed base k n ts
    → AllUsed base k n (erase (numbered base j) ts)
AllUsed-erase base j k zero ts h u = tt
AllUsed-erase base j k (suc n) ts h u = (
  elem-erase (numbered base j) (numbered base k) ts
      (λ e. absurd (omega (arith, numbered_injective base k j e))) u.0,
  AllUsed-erase base j (k + 1) n ts (omega arith) u.1,
)

-- n different slugs in use take n places
AllUsed-le : (base : String) (k n : ℕ) (ts : List String) → AllUsed base k n ts → n ≤ length ts
AllUsed-le base k zero ts u = omega arith
AllUsed-le base k (suc n) ts u = omega (
  arith,
  length-erase (numbered base k) ts u.0,
  AllUsed-le base (k + 1) n (erase (numbered base k) ts)
      (AllUsed-erase base k (k + 1) n ts (omega arith) u.1),
)

-- the search returns a free slug, or all that it tried and the last one are in use
free_slug-elem :
    (fuel : ℕ) (base : String) (k : ℕ) (ts : List String)
    → elem (free_slug fuel base k ts) ts ≡ true
    → AllUsed base k (suc fuel) ts
unfolding free_slug
free_slug-elem zero base k ts h = (h, tt)
free_slug-elem (suc fuel) base k ts h = elim (Bool-cases (elem (numbered base k) ts)) [
  | inl used ↦ (used, free_slug-elem fuel base (k + 1) ts (ground arith))
  | inr free ↦ absurd (ground arith)
]

choose_slug-free : (base : String) (ts : List String) → elem (choose_slug base ts) ts ≡ false
unfolding choose_slug
choose_slug-free base ts = elim (Bool-cases (elem base ts)) [
  | inl used ↦ rw used (elim (Bool-cases (elem (free_slug (length ts) base 1 ts) ts)) [
    | inl bad ↦ absurd (
        omega (
          arith,
          AllUsed-le base 1 (suc (length ts)) ts (free_slug-elem (length ts) base 1 ts bad),
        ))
    | inr good ↦ good
  ])
  | inr free ↦ rw free free
]

-- `resolve_slug` answers a slug that no heading had, and records it.
pub resolve_slug-free :
    (u : Unicode) (text : String) (r : AnchorRegistry)
    → let (slug, r') = resolve_slug u text r in
      (elem slug r.existing_slugs ≡ false) × (r'.existing_slugs ≡ slug ∷ r.existing_slugs)
unfolding resolve_slug
resolve_slug-free u text r = (choose_slug-free _ r.existing_slugs, refl)
