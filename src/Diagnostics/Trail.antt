-- ===== src/Diagnostics/Trail.antt =====
-- What holds of an audit trail after any sequence of appends and flushes.
use translation_runtime_arch.Prelude.{
  inr, inl, Bool-cases, ℕ, zero, suc, ◌≤◌, ◌+◌, if◌then◌else◌, from_option, none, some, false,
  String, ◌≡◌, refl, sym, ap, ◌∙◌, Bool, true, Option, List, [], ◌∷◌, ◌++◌, drop, take, length,
  length-append, is_empty, arith, take_all,
}
use mathlib.Core.List.{append_assoc, append-nil}
use translation_runtime_arch.Diagnostics.{
  AuditRecord, AuditTrail, Snapshot, append, flush, load, new_trail,
}

pub data Op : Type 0 where
  appended : String → String → List String → Snapshot → Option (List String) → Op
  flushed_ : Op

unfoldable pub apply : Op → AuditTrail → AuditTrail
apply (appended i h c s f) t = append i h c s f t
apply flushed_ t = flush t

unfoldable pub run : List Op → AuditTrail → AuditTrail
run [] t = t
run (o ∷ os) t = run os (apply o t)

-- The records that some calls ask for: one for each append, with what it is given, numbered from n,
-- at the time of the trail.
unfoldable pub records : ℕ → ℕ → List Op → List AuditRecord
records clock n [] = []
records clock n (flushed_ ∷ os) = records clock n os
records clock n (appended i h c s f ∷ os) =
    record {
      sequence_id = n;
      timestamp = clock;
      isa_instruction = i;
      input_hash = h;
      artifact_snapshot = s;
      evidence_chain = c;
      flags_raised = f;
    }
    ∷ records clock (n + 1) os

-- `base` is what the file held at the start.
pub record IsSound (base : List AuditRecord) (t : AuditTrail) : Type 0 where
  pub counted : t.seq ≡ length t.buffer
  pub bounded : t.flushed ≤ length t.buffer
  pub written : load t ≡ base ++ take t.flushed t.buffer

module _ {ℓ} {A : Type ℓ} where
  take-snoc : (n : ℕ) (xs : List A) (x : A) → n ≤ length xs → take n (xs ++ x ∷ []) ≡ take n xs
  take-snoc zero xs x h = refl
  take-snoc (suc n) [] x h = absurd (omega arith)
  take-snoc (suc n) (y ∷ xs) x h = ap (◌∷◌ y) (take-snoc n xs x (omega arith))

  take-append-drop : (n : ℕ) (xs : List A) → take n xs ++ drop n xs ≡ xs
  take-append-drop zero xs = refl
  take-append-drop (suc n) [] = refl
  take-append-drop (suc n) (x ∷ xs) = ap (◌∷◌ x) (take-append-drop n xs)

  length-snoc : (xs : List A) (x : A) → length (xs ++ x ∷ []) ≡ suc (length xs)
  length-snoc xs x = omega (arith, length-append xs (x ∷ []))

length-is_empty {ℓ} : {A : Type ℓ} (xs : List A) → is_empty xs ≡ true → length xs ≡ 0
length-is_empty xs h = ground arith

new_trail-IsSound :
    (clock : ℕ) (truncate : Bool) (file : Option (List AuditRecord))
    → IsSound (load (new_trail clock truncate file)) (new_trail clock truncate file)
unfolding new_trail
new_trail-IsSound clock truncate file = record {
  counted = refl;
  bounded = omega arith;
  written = sym (append-nil _);
}

append-IsSound :
    (base : List AuditRecord) (i h : String) (c : List String) (s : Snapshot)
    (f : Option (List String)) (t : AuditTrail)
    → IsSound base t
    → IsSound base (append i h c s f t)
unfolding append load
append-IsSound base i h c s f t v = record {
  counted = rw length-snoc (omega (arith, v.counted));
  bounded = rw length-snoc (omega (arith, v.bounded));
  written = v.written ∙ ap (λ l. base ++ l) (sym (take-snoc t.flushed t.buffer _ v.bounded));
}

flush-IsSound : (base : List AuditRecord) (t : AuditTrail) → IsSound base t → IsSound base (flush t)
unfolding flush
flush-IsSound base t v = elim (Bool-cases (is_empty t.buffer)) [
  | inl none_yet ↦ rw none_yet v
  | inr some_yet ↦ rw some_yet (record {
    counted = v.counted;
    bounded = omega arith;
    written =
        ap (λ l. l ++ drop t.flushed t.buffer) v.written
        ∙ append_assoc base _ _
        ∙ ap (λ l. base ++ l) (take-append-drop t.flushed t.buffer ∙ sym (take_all t.buffer));
  })
]

run-IsSound :
    (base : List AuditRecord) (os : List Op) (t : AuditTrail)
    → IsSound base t
    → IsSound base (run os t)
unfolding run apply
run-IsSound base [] t v = v
run-IsSound base (appended i h c s f ∷ os) t v =
    run-IsSound base os (append i h c s f t) (append-IsSound base i h c s f t v)
run-IsSound base (flushed_ ∷ os) t v = run-IsSound base os (flush t) (flush-IsSound base t v)

-- what a flush leaves to be written
flushed-flush :
    (base : List AuditRecord) (t : AuditTrail)
    → IsSound base t
    → (flush t).flushed ≡ length t.buffer
unfolding flush
flushed-flush base t v = elim (Bool-cases (is_empty t.buffer)) [
  | inl none_yet ↦ rw none_yet (omega (arith, length-is_empty t.buffer none_yet, v.bounded))
  | inr some_yet ↦ rw some_yet
]

buffer-flush : (t : AuditTrail) → (flush t).buffer ≡ t.buffer
unfolding flush
buffer-flush t = ground arith

load-flush :
    (base : List AuditRecord) (t : AuditTrail) → IsSound base t → load (flush t) ≡ base ++ t.buffer
load-flush base t v =
    (flush-IsSound base t v).written ∙ rw (flushed-flush base t v, buffer-flush t, take_all)

flush-seq : (t : AuditTrail) → ((flush t).seq ≡ t.seq) × ((flush t).clock ≡ t.clock)
unfolding flush
flush-seq t = ground arith

opened :
    (clock : ℕ) (truncate : Bool) (file : Option (List AuditRecord))
    → load (new_trail clock truncate file) ≡ (if truncate then [] else from_option [] file)
unfolding load new_trail
opened clock true file = refl
opened clock false none = refl
opened clock false (some l) = refl

-- the buffer behind some calls
run-buffer :
    (os : List Op) (t : AuditTrail) → (run os t).buffer ≡ t.buffer ++ records t.clock t.seq os
unfolding run apply records append
run-buffer [] t = sym (append-nil t.buffer)
run-buffer (flushed_ ∷ os) t =
    run-buffer os (flush t)
    ∙ ap (λ b. b ++ records (flush t).clock (flush t).seq os) (buffer-flush t)
    ∙ ap (λ c. t.buffer ++ records c (flush t).seq os) (flush-seq t).1
    ∙ ap (λ n. t.buffer ++ records t.clock n os) (flush-seq t).0
run-buffer (appended i h c s f ∷ os) t =
    run-buffer os (append i h c s f t) ∙ append_assoc t.buffer _ _

-- A trail that is opened over a file, and then appended to and flushed in any order: one more flush
-- leaves in the file what was there (nothing, if the file was truncated) and behind it a record for
-- every append, once and in the order of the calls, with what the call was given, the time of the
-- trail and the number 0, 1, 2, …; a repeated flush writes nothing.
pub flush_complete :
    (clock : ℕ) (truncate : Bool) (file : Option (List AuditRecord)) (os : List Op)
    → let old = new_trail clock truncate file in
      let t = run os old in
      (load old ≡ (if truncate then [] else from_option [] file))
      × (load (flush t) ≡ load old ++ records clock 0 os)
      × (load (flush (flush t)) ≡ load (flush t))
unfolding new_trail load
flush_complete clock truncate file os =
    let old = new_trail clock truncate file in
    let t = run os old in
    let v = run-IsSound (load old) os old (new_trail-IsSound clock truncate file) in
    (
      opened clock truncate file,
      load-flush (load old) t v ∙ ap (λ b. load old ++ b) (run-buffer os old),
      load-flush (load old) (flush t) (flush-IsSound (load old) t v)
          ∙ ap (λ l. load old ++ l) (buffer-flush t)
          ∙ sym (load-flush (load old) t v),
    )
