-- ===== src/Reporting/Audit.antt =====
-- What the summary of an audit trail counts.
use translation_runtime_arch.Prelude.{
  ℕ, suc, ◌+◌, ◌≡◌, refl, String, true, List, [], ◌∷◌, ◌++◌, length, map, arith, ◌↔◌, if◌then◌else◌,
  ◌==◌, eqb, eq_iff,
}
use translation_runtime_arch.Dict.{Dict, get, get-put}
use translation_runtime_arch.Diagnostics.{AuditTrail, AuditRecord}
use translation_runtime_arch.Reporting.{
  no_counts, AuditSummary, summarize_audit, audit_records, count_of, increment, count_flags,
  count_records, flags_of,
}

-- the occurrences of a text
unfoldable pub occurrences : String → List String → ℕ
occurrences k [] = 0
occurrences k (s ∷ ss) = if s == k then suc (occurrences k ss) else occurrences k ss

-- the flags of all records, and their instructions
unfoldable pub all_flags : List AuditRecord → List String
unfolding flags_of
all_flags [] = []
all_flags (r ∷ rs) = flags_of r ++ all_flags rs

unfoldable pub instructions : List AuditRecord → List String
instructions rs = map (λ (r : AuditRecord). r.isa_instruction) rs

occurrences-append :
    (k : String) (xs ys : List String)
    → occurrences k (xs ++ ys) ≡ occurrences k xs + occurrences k ys
unfolding occurrences
occurrences-append k [] ys = omega arith
occurrences-append k (x ∷ xs) ys = ground (arith, occurrences-append k xs ys)

count_of-increment :
    (j k : String) (d : Dict ℕ)
    → count_of k (increment j d) ≡ (if j == k then count_of k d + 1 else count_of k d)
unfolding count_of increment
count_of-increment j k d = ground (arith, get-put j k (count_of j d + 1) d, eq_iff j k)

count_flags-occurrences :
    (k : String) (fs : List String) (d : Dict ℕ) (n : ℕ)
    → (count_of k (count_flags fs d n).0 ≡ count_of k d + occurrences k fs)
      × ((count_flags fs d n).1 ≡ n + occurrences "BLOCKING" fs)
unfolding count_flags occurrences
count_flags-occurrences k [] d n = (omega arith, omega arith)
count_flags-occurrences k (f ∷ fs) d n =
    let next =
      count_flags-occurrences k fs (increment f d) (if f == "BLOCKING" then n + 1 else n) in
    (ground (arith, next.0, count_of-increment f k d), ground (arith, next.1))

count_records-occurrences :
    (k : String) (rs : List AuditRecord) (s : AuditSummary)
    → let t = count_records rs s in
      (count_of k t.by_severity ≡ count_of k s.by_severity + occurrences k (all_flags rs))
      × (count_of k t.by_instruction
          ≡ count_of k s.by_instruction + occurrences k (instructions rs))
      × (t.blocking_flags ≡ s.blocking_flags + occurrences "BLOCKING" (all_flags rs))
      × (t.total ≡ s.total)
unfolding count_records all_flags instructions occurrences
count_records-occurrences k [] s = (omega arith, omega arith, omega arith, refl)
count_records-occurrences k (r ∷ rs) s =
    let fs = flags_of r in
    let c = count_flags fs s.by_severity s.blocking_flags in
    let t : AuditSummary = record s {
      by_severity = c.0;
      by_instruction = increment r.isa_instruction s.by_instruction;
      blocking_flags = c.1;
    } in
    let next = count_records-occurrences k rs t in
    let flags = count_flags-occurrences k fs s.by_severity s.blocking_flags in
    (
      omega (arith, next.0, flags.0, occurrences-append k fs (all_flags rs)),
      ground (arith, next.1, count_of-increment r.isa_instruction k s.by_instruction),
      omega (arith, next.2, flags.1, occurrences-append "BLOCKING" fs (all_flags rs)),
      next.3,
    )

conformant_iff : (m n : ℕ) → m ≡ n → (eqb m 0 ≡ true) ↔ (n ≡ 0)
conformant_iff m n e = ground (arith, e)

-- The summary of an audit trail counts, for any text, the records with that instruction and the
-- flags with that text over all records; its blocking flags are the flags "BLOCKING", and the trail
-- is conformant exactly if there are none. The records are those of the buffer, or of the file if
-- the buffer is empty.
pub summarize_audit-counts :
    (t : AuditTrail) (k : String)
    → let s = summarize_audit t in
      let rs = audit_records t in
      (s.total ≡ length rs)
      × (count_of k s.by_instruction ≡ occurrences k (instructions rs))
      × (count_of k s.by_severity ≡ occurrences k (all_flags rs))
      × (s.blocking_flags ≡ occurrences "BLOCKING" (all_flags rs))
      × ((s.l3_conformant ≡ true) ↔ (occurrences "BLOCKING" (all_flags rs) ≡ 0))
unfolding summarize_audit count_of get
summarize_audit-counts t k =
    let c = count_records-occurrences k (audit_records t) (no_counts (length (audit_records t))) in
    (
      c.3,
      omega (arith, c.1),
      omega (arith, c.0),
      omega (arith, c.2),
      conformant_iff _ _ (omega (arith, c.2)),
    )
