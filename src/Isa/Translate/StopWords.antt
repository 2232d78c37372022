-- ===== src/Isa/Translate/StopWords.antt =====
-- `_CJK_STOP_WORDS` of isa.py.
use translation_runtime_arch.Prelude.{String, List, [], ◌∷◌}

abbrev pub cjk_stop_words : List String
cjk_stop_words =
    "的" ∷ "是" ∷ "在" ∷ "了" ∷ "和" ∷ "与" ∷ "或" ∷ "及" ∷ "等" ∷ "也" ∷ "都" ∷ "就" ∷ "还" ∷ "不" ∷ "没" ∷ "有"
    ∷ "这" ∷ "那" ∷ "一" ∷ "个" ∷ "些" ∷ "上" ∷ "下" ∷ "中" ∷ "里" ∷ "外" ∷ "为" ∷ "对" ∷ "从" ∷ "到" ∷ "向" ∷ "以"
    ∷ "于" ∷ "把" ∷ "被" ∷ "让" ∷ "使" ∷ "给" ∷ "而" ∷ "且" ∷ "则" ∷ "若" ∷ "如" ∷ "可" ∷ "能" ∷ "会" ∷ "需" ∷ "应"
    ∷ "该" ∷ "须" ∷ "要" ∷ "想" ∷ "做" ∷ "看" ∷ "听" ∷ "说" ∷ "写" ∷ "读" ∷ "学" ∷ "用" ∷ "生" ∷ "死" ∷ "好" ∷ "坏"
    ∷ "大" ∷ "小" ∷ "多" ∷ "少" ∷ "高" ∷ "低" ∷ "长" ∷ "短" ∷ "新" ∷ "旧" ∷ "早" ∷ "晚" ∷ "前" ∷ "后" ∷ "左" ∷ "右"
    ∷ "内" ∷ "本" ∷ "末" ∷ "始" ∷ "终" ∷ "首" ∷ "尾" ∷ "再" ∷ "又" ∷ "只" ∷ "才" ∷ "已" ∷ "曾" ∷ "将" ∷ "正" ∷ "刚"
    ∷ "快" ∷ "慢" ∷ []
