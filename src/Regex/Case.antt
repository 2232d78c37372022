-- ===== src/Regex/Case.antt =====
-- Patterns under the flag IGNORECASE.
use translation_runtime_arch.Prelude.{ℕ, ◌+◌, ◌-◌, String, code, Bool, ◌&&◌, ◌||◌, leb, eqb}
use translation_runtime_arch.Regex.{Regex, empty, class, seq}

-- an ASCII text: the other case of a letter matches too, and so
-- do the four code points beyond ASCII that fold to `i`, `k` and `s`
unfoldable pub same_letter : ℕ → ℕ → Bool
same_letter c d =
    eqb c d
    || (leb b'a' c && leb c b'z' && eqb (c - 32) d)
    || (leb b'A' c && leb c b'Z' && eqb (c + 32) d)
    || ((eqb c b'i' || eqb c b'I') && (eqb d 0x130 || eqb d 0x131))
    || ((eqb c b'k' || eqb c b'K') && eqb d 0x212a)
    || ((eqb c b's' || eqb c b'S') && eqb d 0x17f)

unfoldable pub any_case : String → Regex
unfolding same_letter
any_case String.[] = empty
any_case (String.◌∷◌ c s) = seq (class (same_letter (code c))) (any_case s)

-- `[A-Za-z0-9]` and some more code points
unfoldable pub alphanumeric_or : (ℕ → Bool) → Regex
alphanumeric_or p = class (λ c.
    (leb b'a' c && leb c b'z')
    || (leb b'A' c && leb c b'Z')
    || (leb b'0' c && leb c b'9')
    || eqb c 0x130
    || eqb c 0x131
    || eqb c 0x17f
    || eqb c 0x212a
    || p c)
