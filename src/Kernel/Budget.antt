-- ===== src/Kernel/Budget.antt =====
-- How many repairs a run records.
use translation_runtime_arch.Prelude.{
  ℕ, zero, suc, ◌+◌, ◌≤◌, ◌≡◌, refl, String, Bool, true, false, List, [], ◌∷◌, length, leb, any,
  arith, from_option, length-append, if◌then◌else◌,
}
use translation_runtime_arch.Exceptions.{
  TraException, tra, other, unrecoverable, tra_error, unknown_term, broken_markdown,
  certainty_conflict, entity_ambiguity, glossary_conflict, conformance_failure,
}
use translation_runtime_arch.Diagnostics.{Diagnostic}
use translation_runtime_arch.Vm.{Host, Vm, log, add_evidence}
use translation_runtime_arch.Vm.Exec.{
  Exec, Outcome, ok, err, pure, raise, attempt, caught, ◌>>=◌, continue,
}
use translation_runtime_arch.Vm.Triple.{After}
use translation_runtime_arch.Isa.Verify.{verify_output}
use translation_runtime_arch.Isa.Repair.{repair_segment, repair_text, record_repair, is_blocking}
use translation_runtime_arch.Kernel.{Kernel, on_vm, change, add_ambiguity, recover}
use translation_runtime_arch.Kernel.Hitl.{Reviewer}
use translation_runtime_arch.Kernel.Loop.{
  guarded, follow_round, Round, again, stop, round, rounds, repair_loop, verify_or, hand_off,
  consult, judge, by_severity, recovered,
}

-- a measure of the state behind an action, whether it returns or raises
abbrev Within : {S A : Type 0} → (S → ℕ) → ℕ → Outcome A × S → Type 0
Within f x p = After (λ _ s. f s ≤ x) (λ _ s. f s ≤ x) p

-- an action that adds at most `n` to the measure
abbrev Adds : {S A : Type 0} → (S → ℕ) → ℕ → Exec S A → Type 0
Adds {S} f n m = (s : S) → Within f (f s + n) (m s)

Within-weaken :
    {S A : Type 0} (f : S → ℕ) (x y : ℕ) (p : Outcome A × S) → x ≤ y → Within f x p → Within f y p
Within-weaken f x y (ok a, s) l h = omega (arith, l, h)
Within-weaken f x y (err e, s) l h = omega (arith, l, h)

module _ {S A B : Type 0} (f : S → ℕ) (n k : ℕ) (g : A → Exec S B)
    (c : (a : A) → Adds f k (g a)) where
  Within-continue :
      (x : ℕ) (p : Outcome A × S) → Within f (x + n) p → Within f (x + (n + k)) (continue p.0 g p.1)
  unfolding continue
  Within-continue x (ok a, s) h =
      Within-weaken f (f s + k) (x + (n + k)) (g a s) (omega (arith, h)) (c a s)
  Within-continue x (err e, s) h = omega (arith, h)

  Adds-bind : (m : Exec S A) → Adds f n m → Adds f (n + k) (m >>= g)
  unfolding ◌>>=◌
  Adds-bind m h s = Within-continue (f s) (m s) (h s)

-- the repairs on record
repairs : Vm → ℕ
repairs v = length v.ctx.repair_history

abbrev pub repairs_of : Kernel → ℕ
repairs_of k = length k.vm.ctx.repair_history

record_repair-Adds :
    (h : Host) (t s r : String) (d : Diagnostic) (n i : ℕ)
    → Adds repairs 1 (record_repair h t s r d n i)
unfolding record_repair repairs add_evidence log
record_repair-Adds h t s r d n i v = omega (arith, length-append v.ctx.repair_history (_ ∷ []))

settles :
    (b : Bool) (e : TraException) (m : Exec Vm String)
    → Adds repairs 1 m
    → Adds repairs 1 (if b then raise e else m)
unfolding raise
settles true e m c v = omega arith
settles false e m c v = c v

unchanged : (o : Outcome String) (v : Vm) → Within repairs (repairs v + 0) (o, v)
unchanged (ok r) v = omega arith
unchanged (err e) v = omega arith

text-Adds :
    (h : Host) (t : String) (d : Diagnostic) (n m : ℕ) (v : Vm)
    → Within repairs (repairs v + 0) (repair_text h v.ctx t d n m, v)
text-Adds h t d n m v = unchanged (repair_text h v.ctx t d n m) v

verify_output-Adds : (h : Host) (t s : String) → Adds repairs 0 (verify_output h t s)
unfolding verify_output log repairs
verify_output-Adds h t s v = omega arith

repair_segment-Adds :
    (h : Host) (t s : String) (d : Diagnostic) (n m i : ℕ)
    → Adds repairs (0 + (0 + 1)) (repair_segment h t s d n m i)
unfolding repair_segment
repair_segment-Adds h t s d n m i =
    Adds-bind repairs 0 (0 + 1) _
      (λ r.
        Adds-bind repairs 0 1 _
          (λ sub. settles (any is_blocking sub) _ _ (record_repair-Adds h t s r d n i)) _
          (verify_output-Adds h r s))
      _ (text-Adds h t d n m)

module _ {A : Type 0} where
  Within-on_vm :
      (k : Kernel) (x : ℕ) (p : Outcome A × Vm)
      → Within repairs x p
      → Within repairs_of x (p.0, record k { vm = p.1 })
  unfolding repairs
  Within-on_vm k x (ok a, v) h = h
  Within-on_vm k x (err e, v) h = h

  Adds-on_vm : (n : ℕ) (m : Exec Vm A) → Adds repairs n m → Adds repairs_of n (on_vm m)
  unfolding on_vm repairs
  Adds-on_vm n m h k = Within-on_vm k (repairs_of k + n) (m k.vm) (h k.vm)

  Adds-pure : (a : A) → Adds repairs_of 0 (pure a)
  unfolding pure
  Adds-pure a k = omega arith

verify_or-Adds :
    (h : Host) (instead : TraException → List Diagnostic) (t s : String)
    → Adds repairs_of 0 (verify_or h instead t s)
unfolding verify_or on_vm attempt caught verify_output log recovered pure ◌>>=◌ continue
verify_or-Adds h instead t s k = omega arith

consult-repairs :
    (reviewer : Reviewer) (b : Bool) (t s : String) (d : Diagnostic) (k : Kernel)
    → repairs_of (consult reviewer b t s d k).1 ≡ repairs_of k
unfolding consult change add_ambiguity
consult-repairs reviewer false t s d k = refl
consult-repairs reviewer true t s d k = refl

hand_off-repairs :
    (h : Host) (reviewer : Reviewer) (t s : String) (d : Diagnostic) (k : Kernel)
    → repairs_of (hand_off h reviewer t s d k).1 ≡ repairs_of k
unfolding hand_off change add_ambiguity recover log
hand_off-repairs h reviewer t s d k = consult-repairs reviewer k.interactive t s d _

judge-Within :
    (h : Host) (reviewer : Reviewer) (t s : String) (d : Diagnostic) (x : ℕ)
    (p : Outcome String × Kernel)
    → Within repairs_of x p
    → Within repairs_of x (judge h reviewer t s d p.0 p.1)
unfolding judge
judge-Within h reviewer t s d x (ok r, k) c =
    Within-weaken repairs_of (repairs_of k + (0 + 0)) x _ (omega (arith, c)) (
      Adds-bind repairs_of 0 0 _ (λ ds. Adds-pure (again r ds)) _ (verify_or-Adds h (λ _. []) r s)
        k)
judge-Within h reviewer t s d x (err (tra (unrecoverable m)), k) c =
    omega (arith, c, hand_off-repairs h reviewer t s d k)
judge-Within h reviewer t s d x (err (tra (tra_error m)), k) c = c
judge-Within h reviewer t s d x (err (tra (unknown_term m y)), k) c = c
judge-Within h reviewer t s d x (err (tra (broken_markdown m y)), k) c = c
judge-Within h reviewer t s d x (err (tra (certainty_conflict m y)), k) c = c
judge-Within h reviewer t s d x (err (tra (entity_ambiguity m y)), k) c = c
judge-Within h reviewer t s d x (err (tra (glossary_conflict m y z)), k) c = c
judge-Within h reviewer t s d x (err (tra (conformance_failure m n)), k) c = c
judge-Within h reviewer t s d x (err (other q), k) c = c

round-Adds :
    (h : Host) (reviewer : Reviewer) (max : ℕ) (t s : String) (d : Diagnostic) (n : ℕ)
    → Adds repairs_of 1 (round h reviewer max t s d n)
unfolding round
round-Adds h reviewer max t s d n k = judge-Within h reviewer t s d (repairs_of k + 1) _ (
    Within-weaken repairs_of (repairs_of k + (0 + (0 + 1))) (repairs_of k + 1) _ (omega arith) (
      Adds-on_vm (0 + (0 + 1)) _ (repair_segment-Adds h t s d n max (from_option 0 d.segment_index))
        k))

follow_round-Adds :
    (n : ℕ) (next : String → List Diagnostic → Exec Kernel String) (r : Round)
    → ((t : String) (ds : List Diagnostic) → Adds repairs_of n (next t ds))
    → Adds repairs_of n (follow_round next r)
unfolding follow_round pure
follow_round-Adds n next (again t ds) c k = c t ds k
follow_round-Adds n next (stop t) c k = omega arith

guarded-Adds :
    (n : ℕ) (b : Bool) (t : String) (m : Exec Kernel Round)
    (next : String → List Diagnostic → Exec Kernel String)
    → Adds repairs_of 1 m
    → ((t : String) (ds : List Diagnostic) → Adds repairs_of n (next t ds))
    → Adds repairs_of (1 + n) (guarded b t m next)
unfolding guarded pure
guarded-Adds n false t m next c g k = omega arith
guarded-Adds n true t m next c g k =
    Adds-bind repairs_of 1 n (follow_round next) (λ r. follow_round-Adds n next r g) m c k

rounds-Adds :
    (h : Host) (reviewer : Reviewer) (max : ℕ) (source : String) (fuel : ℕ) (t : String)
    (ds : List Diagnostic) (n : ℕ)
    → Adds repairs_of fuel (rounds fuel h reviewer max t source ds n)
unfolding rounds pure
rounds-Adds h reviewer max source zero t ds n k = omega arith
rounds-Adds h reviewer max source (suc fuel) t [] n k = omega arith
rounds-Adds h reviewer max source (suc fuel) t (d ∷ ds) n k =
    Within-weaken repairs_of (repairs_of k + (1 + fuel)) (repairs_of k + suc fuel) _ (omega arith) (
      guarded-Adds fuel (leb n max) t _ _ (round-Adds h reviewer max t source d n)
        (λ t' ds'. rounds-Adds h reviewer max source fuel t' ds' (n + 1)) k)

pub repair_loop-repairs :
    (h : Host) (reviewer : Reviewer) (target source : String) (ds : List Diagnostic) (k : Kernel)
    → After
        (λ _ k'. repairs_of k' ≤ repairs_of k + k.max_retries)
        (λ _ k'. repairs_of k' ≤ repairs_of k + k.max_retries)
        (repair_loop h reviewer target source ds k)
unfolding repair_loop
repair_loop-repairs h reviewer target source ds k =
    rounds-Adds h reviewer k.max_retries source k.max_retries target (by_severity ds) 1 k
