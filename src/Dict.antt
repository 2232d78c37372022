-- ===== src/Dict.antt =====
-- Python's `dict` with texts for keys: an association list in the order of first insertion, where an
-- assignment to a key that is there replaces its value in place.
use translation_runtime_arch.Prelude.{
  String, ◌≡◌, refl, Bool, true, Option, none, some, List, [], ◌∷◌, ◌++◌, ◌==◌, eq_iff,
  if◌then◌else◌, arith, is_some,
}

abbrev pub Dict {ℓ} : Type ℓ → Type ℓ
Dict V = List (String × V)

module _ {ℓ} {V : Type ℓ} where
  -- `d[k] = v`
  unfoldable pub put : String → V → Dict V → Dict V
  put k v [] = (k, v) ∷ []
  put k v ((j, w) ∷ d) = if j == k then (k, v) ∷ d else (j, w) ∷ put k v d

  -- `d.get(k)`
  unfoldable pub get : String → Dict V → Option V
  get k [] = none
  get k ((j, w) ∷ d) = if j == k then some w else get k d

  -- `del d[k]` of a key that is there
  unfoldable pub delete : String → Dict V → Dict V
  delete k [] = []
  delete k ((j, w) ∷ d) = if j == k then d else (j, w) ∷ delete k d

  -- `k in d`
  unfoldable pub has : String → Dict V → Bool
  unfolding get
  has k d = is_some (get k d)

  pub get-put :
      (k j : String) (v : V) (d : Dict V) → get j (put k v d) ≡ (if k == j then some v else get j d)
  unfolding get put
  get-put k j v [] = refl
  get-put k j v ((i, w) ∷ d) = ground (arith, eq_iff k j, eq_iff i k, eq_iff i j, get-put k j v d)

  pub put-put : (k : String) (v w : V) (d : Dict V) → put k w (put k v d) ≡ put k w d
  unfolding put
  put-put k v w [] = ground (arith, eq_iff k k)
  put-put k v w ((i, x) ∷ d) = ground (arith, eq_iff k k, eq_iff i k, put-put k v w d)

  -- a key that is not there goes to the end, and deleting it restores the dictionary
  pub put-fresh : (k : String) (v : V) (d : Dict V) → get k d ≡ none → put k v d ≡ d ++ (k, v) ∷ []
  unfolding put get
  put-fresh k v [] h = refl
  put-fresh k v ((i, x) ∷ d) h = ground (arith, put-fresh k v d)

  pub delete-put_fresh :
      (k : String) (v : V) (d : Dict V) → get k d ≡ none → delete k (put k v d) ≡ d
  unfolding put get delete
  delete-put_fresh k v [] h = ground (arith, eq_iff k k)
  delete-put_fresh k v ((i, x) ∷ d) h = ground (arith, delete-put_fresh k v d)

pub eq_self : (k : String) → (k == k) ≡ true
eq_self k = (eq_iff k k).1 refl
