-- ===== src/Text/Order.antt =====
-- `sorted` on texts: by code points.
use translation_runtime_arch.Prelude.{String, Bool, true, false, List, [], ◌∷◌, if◌then◌else◌}
use Prim.Native.Nat.{Ordering}
use Prim.Native.String

unfoldable pub before_or_same : String → String → Bool
before_or_same s t = elim (String.compare s t) [ Ordering.gt ↦ false | _ ↦ true ]

unfoldable pub insert_sorted : String → List String → List String
unfolding before_or_same
insert_sorted s [] = s ∷ []
insert_sorted s (t ∷ ts) = if before_or_same s t then s ∷ t ∷ ts else t ∷ insert_sorted s ts

unfoldable pub sorted : List String → List String
unfolding insert_sorted
sorted [] = []
sorted (s ∷ ss) = insert_sorted s (sorted ss)
