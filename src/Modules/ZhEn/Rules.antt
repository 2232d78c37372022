-- ===== src/Modules/ZhEn/Rules.antt =====
-- A run of the rule layer of the ZH <-> EN module.
use translation_runtime_arch.Prelude.{◌≡◌, refl}
use translation_runtime_arch.Modules.ZhEn.{apply_zh_rules}

apply_zh_rules_test : apply_zh_rules "系统成立，进行验证。" ≡ "The system is Confirmed, verify."
unfolding apply_zh_rules
apply_zh_rules_test = refl
