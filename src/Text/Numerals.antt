-- ===== src/Text/Numerals.antt =====
-- Decimal numerals: `show` is injective.
use Prim.Native.String.append
use translation_runtime_arch.Prelude.{
  ℕ, zero, suc, ◌+◌, ◌-◌, ◌*◌, ◌/◌, ◌%◌, ◌<◌, code, String, ◌≡◌, sym, ap, ◌∙◌, arith, ltb,
  Bool-cases, inl, inr,
}
use translation_runtime_arch.Text.{◌+++◌, show, digits, digit}

-- the number that a numeral stands for, behind the number `a`
value : ℕ → String → ℕ
value a String.[] = a
value a (String.◌∷◌ c s) = value (a * 10 + (code c - b'0')) s

value-append : (a : ℕ) (s t : String) → value a (s +++ t) ≡ value (value a s) t
unfolding value
value-append a String.[] t = ap (value a) (append.nil t)
value-append a (String.◌∷◌ c s) t =
    ap (value a) (append.cons c s t) ∙ value-append (a * 10 + (code c - b'0')) s t

value-digit : (a d : ℕ) → d < 10 → value a (digit d) ≡ a * 10 + d
unfolding value digit
value-digit a zero h = omega arith
value-digit a (suc zero) h = omega arith
value-digit a (suc (suc zero)) h = omega arith
value-digit a (suc (suc (suc zero))) h = omega arith
value-digit a (suc (suc (suc (suc zero)))) h = omega arith
value-digit a (suc (suc (suc (suc (suc zero))))) h = omega arith
value-digit a (suc (suc (suc (suc (suc (suc zero)))))) h = omega arith
value-digit a (suc (suc (suc (suc (suc (suc (suc zero))))))) h = omega arith
value-digit a (suc (suc (suc (suc (suc (suc (suc (suc zero)))))))) h = omega arith
value-digit a (suc (suc (suc (suc (suc (suc (suc (suc (suc d))))))))) h = omega arith

value_one : (d : ℕ) → d < 10 → value (value 0 "") (digit d) ≡ d
unfolding value
value_one d h = omega (arith, value-digit 0 d h)

value-digits : (fuel n : ℕ) → n < fuel → value 0 (digits fuel n) ≡ n
unfolding digits
value-digits zero n h = absurd (omega arith)
value-digits (suc fuel) n h = elim (Bool-cases (ltb n 10)) [
  | inl small ↦
      rw small
        (value-append 0 "" (digit (n % 10)) ∙ value_one (n % 10) (omega arith) ∙ ground arith)
  | inr large ↦ rw large (
      value-append 0 (digits fuel (n / 10)) (digit (n % 10))
      ∙ value-digit (value 0 (digits fuel (n / 10))) (n % 10) (omega arith)
      ∙ omega (arith, value-digits fuel (n / 10) (ground arith)))
]

value-show : (n : ℕ) → value 0 (show n) ≡ n
unfolding show
value-show n = value-digits (suc n) n (omega arith)

pub show_injective : (m n : ℕ) → show m ≡ show n → m ≡ n
show_injective m n e = sym (value-show m) ∙ ap (value 0) e ∙ value-show n
