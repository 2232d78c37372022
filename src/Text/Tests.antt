-- ===== src/Text/Tests.antt =====
-- Runs of the operations of Text.
use translation_runtime_arch.Prelude.{◌≡◌, refl, true, false, [], ◌∷◌}
use translation_runtime_arch.Text.{contains, replace, split, join, strip, show, before_first}

contains_test : (contains "成立" "系统成立" ≡ true) × (contains "ab" "acb" ≡ false)
unfolding contains
contains_test = (refl, refl)

replace_test : (replace "aaab" "aa" "c" ≡ "cab") × (replace "ab" "" "-" ≡ "-a-b-")
unfolding replace
replace_test = (refl, refl)

split_test :
    (split 47 "Valid/True/Correct" ≡ "Valid" ∷ "True" ∷ "Correct" ∷ [])
    × (join "/" ("a" ∷ "b" ∷ []) ≡ "a/b")
unfolding split join
split_test = (refl, refl)

strip_test : (strip "  a b\n" ≡ "a b") × (before_first "->" "zh -> en" ≡ "zh ")
unfolding strip before_first
strip_test = (refl, refl)

show_test : show 1207 ≡ "1207"
unfolding show
show_test = refl
