-- ===== src/Modules/ZhEn/Tables.antt =====
-- modules/zh_en.py: the tables of the ZH <-> EN module.
use translation_runtime_arch.Prelude.{String, [], ◌∷◌}
use translation_runtime_arch.Dict.{Dict}

-- canonical source -> target terminology
abbrev pub glossary : Dict String
glossary =
    ("成立", "Confirmed")
    ∷ ("执行环境", "execution environment")
    ∷ ("准确描述", "accurately describes")
    ∷ ("高度可信", "highly credible")
    ∷ ("可能", "may")
    ∷ ("进行验证", "verify")
    ∷ ("实现优化", "optimize")
    ∷ ("提供支持", "support")
    ∷ ("硬件隔离", "Hardware isolation")
    ∷ ("无缝迁移", "Seamless migration")
    ∷ ("高可用性", "High availability")
    ∷ []

-- epistemic certainty, exact
abbrev pub epistemic_lexicon : Dict String
epistemic_lexicon =
    ("成立", "Confirmed")
    ∷ ("准确描述", "accurately describes")
    ∷ ("高度可信", "highly credible")
    ∷ ("可能", "may")
    ∷ []

-- drift targets, between slashes
abbrev pub forbidden_targets : Dict String
forbidden_targets =
    ("成立", "Valid/True/Correct") ∷ ("执行环境", "runtime") ∷ ("高度可信", "indisputably true") ∷ []

-- topic and comment
abbrev pub topic_comment : Dict String
topic_comment =
    ("系统成立", "The system is Confirmed")
    ∷ ("结论成立", "The conclusion is Confirmed")
    ∷ ("假设成立", "The hypothesis is Confirmed")
    ∷ ("理论成立", "The theory is Confirmed")
    ∷ ("条件成立", "The condition is Confirmed")
    ∷ []

-- nominalised verb and object -> verb
abbrev pub nominalization : Dict String
nominalization =
    ("进行验证", "verify")
    ∷ ("实现优化", "optimize")
    ∷ ("提供支持", "support")
    ∷ ("开展测试", "test")
    ∷ ("完成部署", "deploy")
    ∷ ("执行迁移", "migrate")
    ∷ []

-- EN -> ZH four-character expressions
abbrev pub four_char_map : Dict String
four_char_map =
    ("seamless migration", "无缝迁移")
    ∷ ("high availability", "高可用性")
    ∷ ("hardware isolation", "硬件隔离")
    ∷ []

-- EN -> ZH passive -> active
abbrev pub passive_reduction : Dict String
passive_reduction =
    ("is confirmed", "已确认")
    ∷ ("are confirmed", "已确认")
    ∷ ("was verified", "已验证")
    ∷ ("were verified", "已验证")
    ∷ ("is supported", "已支持")
    ∷ ("are supported", "已支持")
    ∷ []

-- full-width punctuation -> half-width
abbrev pub full_to_half : Dict String
full_to_half =
    ("，", ", ")
    ∷ ("。", ". ")
    ∷ ("：", ": ")
    ∷ ("；", "; ")
    ∷ ("（", "(")
    ∷ ("）", ")")
    ∷ ("！", "! ")
    ∷ ("？", "? ")
    ∷ ("“", "\"")
    ∷ ("”", "\"")
    ∷ ("‘", "'")
    ∷ ("’", "'")
    ∷ []

-- half-width punctuation -> full-width
abbrev pub half_to_full : Dict String
half_to_full =
    (",", "，")
    ∷ (".", "。")
    ∷ (":", "：")
    ∷ (";", "；")
    ∷ ("(", "（")
    ∷ (")", "）")
    ∷ ("!", "！")
    ∷ ("?", "？")
    ∷ []
