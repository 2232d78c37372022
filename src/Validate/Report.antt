-- ===== src/Validate/Report.antt =====
-- The report of a validation.
use translation_runtime_arch.Prelude.{
  ◌+◌, ◌≡◌, refl, ap, true, List, [], ◌∷◌, length, filter, is_empty, arith, ◌↔◌,
}
use translation_runtime_arch.Memory.{blocking, warning, info}
use translation_runtime_arch.Diagnostics.{Diagnostic}
use translation_runtime_arch.Isa.Repair.{is_blocking}
use translation_runtime_arch.Validate.{
  ValidationReport, summary, passed, blocking_of, warnings_of, of_severity, same_severity,
}

same_severity-blocking : (d : Diagnostic) → same_severity blocking d.severity ≡ is_blocking d
unfolding same_severity is_blocking
same_severity-blocking d = ground arith

-- the report keeps the diagnostics that the kernel counts as blocking
pub of_severity-blocking : (ds : List Diagnostic) → of_severity blocking ds ≡ filter is_blocking ds
unfolding of_severity filter
of_severity-blocking [] = refl
of_severity-blocking (d ∷ ds) = ground (arith, same_severity-blocking d, of_severity-blocking ds)

counts :
    (ds : List Diagnostic)
    → length (of_severity blocking ds)
        + length (of_severity warning ds)
        + length (of_severity info ds)
      ≡ length ds
unfolding of_severity filter
counts [] = refl
counts (d ∷ ds) = ground (arith, counts ds)

empty_iff : {A : Type 0} (xs : List A) → (is_empty xs ≡ true) ↔ (length xs ≡ 0)
empty_iff [] = (λ p. refl, λ p. refl)
empty_iff (x ∷ xs) = (λ p. ground (arith, p), λ p. ground (arith, p))

-- The three counts of a summary add up to the diagnostics of the report, and the report passes
-- exactly if its count of blocking ones is 0, which is what the kernel's gate counts.
pub passed-summary :
    (r : ValidationReport)
    → ((passed r ≡ true) ↔ ((summary r).blocking_count ≡ 0))
      × ((summary r).blocking_count ≡ length (filter is_blocking r.diagnostics))
      × ((summary r).blocking_count + (summary r).warning_count + (summary r).info_count
          ≡ length r.diagnostics)
unfolding passed summary blocking_of warnings_of
passed-summary r = (
  empty_iff (of_severity blocking r.diagnostics),
  ap length (of_severity-blocking r.diagnostics),
  counts r.diagnostics,
)
