-- ===== src/Kernel/Rounds.antt =====
-- The budget of the repair loop.
use translation_runtime_arch.Prelude.{
  ℕ, zero, suc, ◌+◌, String, ◌≡◌, refl, ap, ◌∙◌, fun_ext, List, [], ◌∷◌, leb, arith, ◌<◌,
}
use translation_runtime_arch.Diagnostics.{Diagnostic}
use translation_runtime_arch.Vm.{Host}
use translation_runtime_arch.Vm.Exec.{pure}
use translation_runtime_arch.Kernel.{Kernel}
use translation_runtime_arch.Kernel.Hitl.{Reviewer}
use translation_runtime_arch.Kernel.Loop.{rounds, round, guarded}

module _ (h : Host) (reviewer : Reviewer) (max_retries : ℕ) (source : String) where
  -- once the rounds that are left cover the budget, one more changes nothing
  rounds-more :
      (fuel n : ℕ)
      → max_retries < n + fuel
      → (t : String) (ds : List Diagnostic) (k : Kernel)
      → rounds (suc fuel) h reviewer max_retries t source ds n k
        ≡ rounds fuel h reviewer max_retries t source ds n k
  unfolding rounds guarded pure
  rounds-more zero n b t [] k = refl
  rounds-more zero n b t (d ∷ ds) k = ground arith
  rounds-more (suc fuel) n b t [] k = refl
  rounds-more (suc fuel) n b t (d ∷ ds) k =
      ap (λ next. guarded (leb n max_retries) t (round h reviewer max_retries t source d n) next k)
        (fun_ext (λ t'.
          fun_ext (λ ds'. fun_ext (λ k'. rounds-more fuel (n + 1) (omega (arith, b)) t' ds' k'))))

  -- The repair loop runs to its end: on any fuel from the budget on, the `while` loop gives the same
  -- result, so that it never stops for want of fuel.
  pub rounds-enough :
      (extra : ℕ) (t : String) (ds : List Diagnostic) (k : Kernel)
      → rounds (extra + max_retries) h reviewer max_retries t source ds 1 k
        ≡ rounds max_retries h reviewer max_retries t source ds 1 k
  rounds-enough zero t ds k =
      ap (λ fuel. rounds fuel h reviewer max_retries t source ds 1 k) (omega arith)
  rounds-enough (suc extra) t ds k =
      ap (λ fuel. rounds fuel h reviewer max_retries t source ds 1 k) (omega arith)
      ∙ rounds-more (extra + max_retries) 1 (omega arith) t ds k
      ∙ rounds-enough extra t ds k
