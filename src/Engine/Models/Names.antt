-- ===== src/Engine/Models/Names.antt =====
-- pallets/uomi-engine/src/aimodelscalc.rs: the names of the AI models by version of the node.
use uomi_node.Prelude.{ℕ, [], ◌∷◌}
use uomi_node.Prelude.Map.{Map}
use uomi_node.Engine.{Data}

-- Qwen/Qwen2.5-32B-Instruct-GPTQ-Int4
abbrev pub qwen2_5 : Data
qwen2_5 =
    81 ∷ 119 ∷ 101 ∷ 110 ∷ 47 ∷ 81 ∷ 119 ∷ 101 ∷ 110 ∷ 50 ∷ 46 ∷ 53 ∷ 45 ∷ 51 ∷ 50 ∷ 66 ∷ 45 ∷ 73
    ∷ 110 ∷ 115 ∷ 116 ∷ 114 ∷ 117 ∷ 99 ∷ 116 ∷ 45 ∷ 71 ∷ 80 ∷ 84 ∷ 81 ∷ 45 ∷ 73 ∷ 110 ∷ 116 ∷ 52
    ∷ []

-- Temp2.5/Temp
abbrev temp2_5 : Data
temp2_5 = 84 ∷ 101 ∷ 109 ∷ 112 ∷ 50 ∷ 46 ∷ 53 ∷ 47 ∷ 84 ∷ 101 ∷ 109 ∷ 112 ∷ []

-- casperhansen/mistral-small-24b-instruct-2501-awq
abbrev mistral_24b : Data
mistral_24b =
    99 ∷ 97 ∷ 115 ∷ 112 ∷ 101 ∷ 114 ∷ 104 ∷ 97 ∷ 110 ∷ 115 ∷ 101 ∷ 110 ∷ 47 ∷ 109 ∷ 105 ∷ 115 ∷ 116
    ∷ 114 ∷ 97 ∷ 108 ∷ 45 ∷ 115 ∷ 109 ∷ 97 ∷ 108 ∷ 108 ∷ 45 ∷ 50 ∷ 52 ∷ 98 ∷ 45 ∷ 105 ∷ 110 ∷ 115
    ∷ 116 ∷ 114 ∷ 117 ∷ 99 ∷ 116 ∷ 45 ∷ 50 ∷ 53 ∷ 48 ∷ 49 ∷ 45 ∷ 97 ∷ 119 ∷ 113 ∷ []

-- Qwen/QwQ-32B-AWQ
abbrev qwen_qwq_32b : Data
qwen_qwq_32b =
    81 ∷ 119 ∷ 101 ∷ 110 ∷ 47 ∷ 81 ∷ 119 ∷ 81 ∷ 45 ∷ 51 ∷ 50 ∷ 66 ∷ 45 ∷ 65 ∷ 87 ∷ 81 ∷ []

-- SentientAGI/Dobby-Mini-Unhinged-Llama-3.1-8B
abbrev dobby3_1_8b : Data
dobby3_1_8b =
    83 ∷ 101 ∷ 110 ∷ 116 ∷ 105 ∷ 101 ∷ 110 ∷ 116 ∷ 65 ∷ 71 ∷ 73 ∷ 47 ∷ 68 ∷ 111 ∷ 98 ∷ 98 ∷ 121 ∷ 45
    ∷ 77 ∷ 105 ∷ 110 ∷ 105 ∷ 45 ∷ 85 ∷ 110 ∷ 104 ∷ 105 ∷ 110 ∷ 103 ∷ 101 ∷ 100 ∷ 45 ∷ 76 ∷ 108 ∷ 97
    ∷ 109 ∷ 97 ∷ 45 ∷ 51 ∷ 46 ∷ 49 ∷ 45 ∷ 56 ∷ 66 ∷ []

-- Efficient-Large-Model/Sana_1600M_1024px_BF16_diffusers
abbrev sana_1600m : Data
sana_1600m =
    69 ∷ 102 ∷ 102 ∷ 105 ∷ 99 ∷ 105 ∷ 101 ∷ 110 ∷ 116 ∷ 45 ∷ 76 ∷ 97 ∷ 114 ∷ 103 ∷ 101 ∷ 45 ∷ 77
    ∷ 111 ∷ 100 ∷ 101 ∷ 108 ∷ 47 ∷ 83 ∷ 97 ∷ 110 ∷ 97 ∷ 95 ∷ 49 ∷ 54 ∷ 48 ∷ 48 ∷ 77 ∷ 95 ∷ 49 ∷ 48
    ∷ 50 ∷ 52 ∷ 112 ∷ 120 ∷ 95 ∷ 66 ∷ 70 ∷ 49 ∷ 54 ∷ 95 ∷ 100 ∷ 105 ∷ 102 ∷ 102 ∷ 117 ∷ 115 ∷ 101
    ∷ 114 ∷ 115 ∷ []

-- deepseek-ai/DeepSeek-R1-0528-Qwen3-8B
abbrev qwen_deepseek_non_thinking : Data
qwen_deepseek_non_thinking =
    100 ∷ 101 ∷ 101 ∷ 112 ∷ 115 ∷ 101 ∷ 101 ∷ 107 ∷ 45 ∷ 97 ∷ 105 ∷ 47 ∷ 68 ∷ 101 ∷ 101 ∷ 112 ∷ 83
    ∷ 101 ∷ 101 ∷ 107 ∷ 45 ∷ 82 ∷ 49 ∷ 45 ∷ 48 ∷ 53 ∷ 50 ∷ 56 ∷ 45 ∷ 81 ∷ 119 ∷ 101 ∷ 110 ∷ 51 ∷ 45
    ∷ 56 ∷ 66 ∷ []

unfoldable pub aimodelscalc_get_local_names_per_versions : Map ℕ (Map ℕ Data)
aimodelscalc_get_local_names_per_versions =
    (2, (1, qwen2_5) ∷ [])
    ∷ (3, (1, temp2_5) ∷ [])
    ∷ (4, (1, qwen2_5) ∷ [])
    ∷ (5, (1, mistral_24b) ∷ (2, qwen_qwq_32b) ∷ (3, dobby3_1_8b) ∷ (100, sana_1600m) ∷ [])
    ∷ (
      6,
      (1, qwen_deepseek_non_thinking)
          ∷ (2, qwen_deepseek_non_thinking)
          ∷ (3, dobby3_1_8b)
          ∷ (100, sana_1600m)
          ∷ [],
    )
    ∷ []
