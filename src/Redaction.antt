-- ===== src/Redaction.antt =====
-- kernel.py, isa.py: what hides secrets in the exceptions that go into the audit trail.
use translation_runtime_arch.Prelude.{String, false, [], ◌∷◌, ◌||◌, not, eqb}
use translation_runtime_arch.Text.{is_space}
use translation_runtime_arch.Regex.{
  Unicode, Regex, class, seq, seqs, alt, star, plus, optional, at_least, one_of, space, sub,
}
use translation_runtime_arch.Regex.Case.{any_case, alphanumeric_or}

visible : Regex
visible = class (λ c. not (is_space c))

quote_mark : Regex
quote_mark = optional (one_of "'\"")

-- `_SECRET_RE`
unfoldable pub secret_re : Regex
unfolding visible quote_mark
secret_re = alt (seq (any_case "sk-") (at_least 8 (alphanumeric_or (λ _. false)))) (
    alt
      (seqs (
        any_case "Bearer"
        ∷ plus space
        ∷ plus (alphanumeric_or (λ c. eqb c b'.' || eqb c b'_' || eqb c b'-'))
        ∷ []))
      (alt
        (seqs (
          any_case "Authorization:"
          ∷ star space
          ∷ plus visible
          ∷ star (seq (plus space) (plus visible))
          ∷ []))
        (seqs (
          any_case "api"
          ∷ optional (one_of "_-")
          ∷ any_case "key"
          ∷ quote_mark
          ∷ star space
          ∷ one_of ":="
          ∷ star space
          ∷ quote_mark
          ∷ plus (class (λ c. not (is_space c || eqb c 39 || eqb c 34)))
          ∷ []))))

-- `_SECRET_RE.sub("[REDACTED]", s)`
unfoldable pub redact : Unicode → String → String
unfolding secret_re
redact u s = sub u secret_re (λ _. "[REDACTED]") s
