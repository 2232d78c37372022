-- ===== src/Diagnostics/Registry.antt =====
-- What `EvidenceRegistry.add` guarantees.
use translation_runtime_arch.Prelude.{String, ◌≡◌, ap, some, if◌then◌else◌, ◌==◌}
use translation_runtime_arch.Dict.{get-put, put-put}
use translation_runtime_arch.Diagnostics.{
  Digest, EvidenceRecord, EvidenceRegistry, with_id, add, get_record,
}

-- A stored record is found under the id that `add` returns, whatever was there; every other id keeps
-- its record; and storing the same record a second time changes nothing.
pub get_record-add :
    (h : Digest) (r : EvidenceRecord) (e : EvidenceRegistry) (j : String)
    → let (i, e') = add h r e in
      (get_record j e' ≡ (if i == j then some (with_id h r) else get_record j e))
      × (add h r e' ≡ (i, e'))
unfolding get_record add
get_record-add h r e j = (
  get-put _ j _ e.records,
  ap (λ d. ((with_id h r).id, record { records = d })) (put-put _ _ _ e.records),
)
