-- ===== src/Kernel/Calm.antt =====
-- The parts of a run leave the kernel's state, its execution log and its level alone.
pub mod Translated
use translation_runtime_arch.Prelude.{
  ℕ, zero, suc, ◌+◌, String, ◌≡◌, refl, ap, ◌∙◌, subst, Bool, true, false, Option, List, [], ◌∷◌,
  leb, from_option,
}
use translation_runtime_arch.Exceptions.{
  Exception, TraException, tra, other, tra_error, unknown_term, broken_markdown, certainty_conflict,
  entity_ambiguity, glossary_conflict, conformance_failure, unrecoverable,
}
use translation_runtime_arch.Memory.{Entity, GlossaryEntry, ConformanceLevel}
use translation_runtime_arch.Diagnostics.{Diagnostic}
use translation_runtime_arch.Vm.{Host, Vm, log}
use translation_runtime_arch.Vm.Exec.{Exec, Outcome, ok, err, Attempt, returned, thrown, pure}
use translation_runtime_arch.Vm.Triple.{
  Calm-project, IsUnrecoverable, After, Calm, IsNone, IsTra, Calm-bind, Calm-attempt_tra,
  Calm-modify, Calm-weaken,
}
use translation_runtime_arch.Isa.Repair.{repair_segment}
use translation_runtime_arch.Isa.Logs.{kept, execution, verify_output-Calm, repair_segment-Calm}
use translation_runtime_arch.Kernel.{
  LanguageModule, Kernel, KernelState, on_vm, change, add_ambiguity, recover,
}
use translation_runtime_arch.Kernel.Hitl.{Reviewer}
use translation_runtime_arch.Kernel.Loop.{
  guarded, follow_round, Round, again, stop, round, rounds, repair_loop, verify_or, hand_off,
  consult, judge, by_severity, recovered,
}

-- a kernel with what is observed of its shared state
abbrev pub framed : {X : Type 0} → (Vm → X) → Kernel → KernelState × X × ConformanceLevel
framed f k = (k.state, f k.vm, k.level)

-- what only a transition changes
abbrev pub status : Kernel → KernelState × List String × ConformanceLevel
status = framed execution

-- with the artifacts of the source and the module
abbrev pub frame :
    Kernel
    → KernelState
      × ((((List String × Bool) × Option LanguageModule) × List GlossaryEntry) × List Entity)
      × ConformanceLevel
frame = framed kept

module _ {X : Type 0} (f : Vm → X) where
  After-on_vm :
      {A : Type 0} (E : Exception → Type 0) (k : Kernel) (p : Outcome A × Vm)
      → After (λ _ v. f v ≡ f k.vm) (λ e v. E e × (f v ≡ f k.vm)) p
      → After
          (λ _ k'. framed f k' ≡ framed f k)
          (λ e k'. E e × (framed f k' ≡ framed f k))
          (p.0, record k { vm = p.1 })
  After-on_vm E k (ok a, v) h = ap (λ l. (k.state, l, k.level)) h
  After-on_vm E k (err e, v) h = (h.0, ap (λ l. (k.state, l, k.level)) h.1)

  pub Calm-on_vm :
      {A : Type 0} (E : Exception → Type 0) (m : Exec Vm A)
      → Calm f E m
      → Calm (framed f) E (on_vm m)
  unfolding on_vm
  Calm-on_vm E m h k = After-on_vm E k (m k.vm) (h k.vm)

pub recover-kept : (h : Host) (e : TraException) (v : Vm) → kept (recover h e v) ≡ kept v
unfolding recover log
recover-kept h e v = refl

pub change-frame :
    (f : Vm → Vm) → ((v : Vm) → kept (f v) ≡ kept v) → (k : Kernel) → frame (change f k) ≡ frame k
unfolding change
change-frame f h k = ap (λ l. (k.state, l, k.level)) (h k.vm)

pub recover-status :
    (h : Host) (e : TraException) (k : Kernel) → status (change (recover h e) k) ≡ status k
unfolding change recover log
recover-status h e k = refl

-- the status of a frame
pub Calm-status :
    {A : Type 0} (E : Exception → Type 0) (m : Exec Kernel A) → Calm frame E m → Calm status E m
Calm-status E m c = Calm-project frame (λ t. (t.0, t.1.0.0.0.0, t.2)) E m c

pub Calm-pure : {S A X : Type 0} (f : S → X) (E : Exception → Type 0) (a : A) → Calm f E (pure a)
unfolding pure
Calm-pure f E a s = refl

recovered-Calm :
    (h : Host) (instead : TraException → List Diagnostic) (a : Attempt (List Diagnostic))
    → Calm frame IsNone (recovered h instead a)
unfolding recovered
recovered-Calm h instead (returned ds) = Calm-pure frame IsNone ds
recovered-Calm h instead (thrown e) =
    Calm-bind frame IsNone _ _
      (Calm-modify frame IsNone _ (change-frame (recover h e) (recover-kept h e)))
      (λ _. Calm-pure frame IsNone _)

pub verify_or-Calm :
    (h : Host) (instead : TraException → List Diagnostic) (t s : String)
    → Calm frame IsNone (verify_or h instead t s)
unfolding verify_or
verify_or-Calm h instead t s =
    Calm-bind frame IsNone _ _
      (Calm-on_vm kept IsNone _ (
        Calm-attempt_tra kept _
          (Calm-weaken kept IsNone IsTra (λ e x. absurd x) _ (verify_output-Calm h t s))))
      (recovered-Calm h instead)

consult-frame :
    (reviewer : Reviewer) (b : Bool) (t s : String) (d : Diagnostic) (k : Kernel)
    → frame (consult reviewer b t s d k).1 ≡ frame k
unfolding consult change add_ambiguity
consult-frame reviewer false t s d k = refl
consult-frame reviewer true t s d k = refl

flagged :
    (h : Host) (e : TraException) (issue : String) (k : Kernel)
    → frame (change (recover h e) (change (add_ambiguity issue) k)) ≡ frame k
unfolding change add_ambiguity
flagged h e issue k = ap (λ l. (k.state, l, k.level)) (recover-kept h e (add_ambiguity issue k.vm))

hand_off-frame :
    (h : Host) (reviewer : Reviewer) (t s : String) (d : Diagnostic) (k : Kernel)
    → frame (hand_off h reviewer t s d k).1 ≡ frame k
unfolding hand_off
hand_off-frame h reviewer t s d k =
    consult-frame reviewer k.interactive t s d _ ∙ flagged h (unrecoverable _) _ k

judge-Calm :
    (h : Host) (reviewer : Reviewer) (t s : String) (d : Diagnostic) (k : Kernel)
    (p : Outcome String × Kernel)
    → After (λ _ k'. frame k' ≡ frame k) (λ e k'. IsUnrecoverable e × (frame k' ≡ frame k)) p
    → After
        (λ _ k'. frame k' ≡ frame k)
        (λ e k'. IsNone e × (frame k' ≡ frame k))
        (judge h reviewer t s d p.0 p.1)
unfolding judge IsUnrecoverable
judge-Calm h reviewer t s d k (ok r, k') c =
    subst
      (λ x.
        After (λ _ k''. frame k'' ≡ x) (λ e k''. IsNone e × (frame k'' ≡ x))
          (judge h reviewer t s d (ok r) k'))
      c
      (Calm-bind frame IsNone _ _ (verify_or-Calm h (λ _. []) r s)
        (λ ds. Calm-pure frame IsNone (again r ds)) k')
judge-Calm h reviewer t s d k (err (tra (unrecoverable m)), k') c =
    hand_off-frame h reviewer t s d k' ∙ c.1
judge-Calm h reviewer t s d k (err (tra (tra_error m)), k') c = absurd c.0
judge-Calm h reviewer t s d k (err (tra (unknown_term m x)), k') c = absurd c.0
judge-Calm h reviewer t s d k (err (tra (broken_markdown m x)), k') c = absurd c.0
judge-Calm h reviewer t s d k (err (tra (certainty_conflict m x)), k') c = absurd c.0
judge-Calm h reviewer t s d k (err (tra (entity_ambiguity m x)), k') c = absurd c.0
judge-Calm h reviewer t s d k (err (tra (glossary_conflict m x y)), k') c = absurd c.0
judge-Calm h reviewer t s d k (err (tra (conformance_failure m x)), k') c = absurd c.0
judge-Calm h reviewer t s d k (err (other p), k') c = absurd c.0

pub round-Calm :
    (h : Host) (reviewer : Reviewer) (max : ℕ) (t s : String) (d : Diagnostic) (n : ℕ)
    → Calm frame IsNone (round h reviewer max t s d n)
unfolding round
round-Calm h reviewer max t s d n k =
    judge-Calm h reviewer t s d k
      (on_vm (repair_segment h t s d n max (from_option 0 d.segment_index)) k)
      (Calm-on_vm kept IsUnrecoverable _
        (repair_segment-Calm h t s d n max (from_option 0 d.segment_index)) k)

follow_round-Calm :
    (next : String → List Diagnostic → Exec Kernel String) (r : Round)
    → ((t : String) (ds : List Diagnostic) → Calm frame IsNone (next t ds))
    → Calm frame IsNone (follow_round next r)
unfolding follow_round
follow_round-Calm next (again t ds) c = c t ds
follow_round-Calm next (stop t) c = Calm-pure frame IsNone t

guarded-Calm :
    (b : Bool) (t : String) (m : Exec Kernel Round)
    (next : String → List Diagnostic → Exec Kernel String)
    → Calm frame IsNone m
    → ((t : String) (ds : List Diagnostic) → Calm frame IsNone (next t ds))
    → Calm frame IsNone (guarded b t m next)
unfolding guarded
guarded-Calm false t m next c g = Calm-pure frame IsNone t
guarded-Calm true t m next c g =
    Calm-bind frame IsNone m (follow_round next) c (λ r. follow_round-Calm next r g)

-- the loop, on any fuel
module _ (h : Host) (reviewer : Reviewer) (max : ℕ) (source : String) where
  pub rounds-Calm :
      (fuel : ℕ) (t : String) (ds : List Diagnostic) (n : ℕ)
      → Calm frame IsNone (rounds fuel h reviewer max t source ds n)
  unfolding rounds
  rounds-Calm zero t ds n k = Calm-pure frame IsNone t k
  rounds-Calm (suc fuel) t [] n k = Calm-pure frame IsNone t k
  rounds-Calm (suc fuel) t (d ∷ ds) n k =
      guarded-Calm (leb n max) t (round h reviewer max t source d n)
        (λ next pending. rounds fuel h reviewer max next source pending (n + 1))
        (round-Calm h reviewer max t source d n)
        (λ next pending. rounds-Calm fuel next pending (n + 1)) k

pub repair_loop-Calm :
    (h : Host) (reviewer : Reviewer) (source t : String) (ds : List Diagnostic)
    → Calm frame IsNone (repair_loop h reviewer t source ds)
unfolding repair_loop
repair_loop-Calm h reviewer source t ds k =
    rounds-Calm h reviewer k.max_retries source k.max_retries t (by_severity ds) 1 k
