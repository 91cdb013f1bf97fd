-- ===== src/Examples/Settings.antt =====
-- The theorems on the configuration and on the calculator at work.
use agentchatbot_v.Prelude.{
  ℕ, ◌*◌, ◌≡◌, refl, ◌||◌, ltb, false, Option, none, some, [], ◌∷◌, if◌then◌else◌,
}
use agentchatbot_v.Text.{Text, codes, text_eq}
use agentchatbot_v.Json.{ℤ}
use agentchatbot_v.Env.{Env}
use agentchatbot_v.Agent.Config.{Provider, LlmSettings, from_env, all_from_env}
use agentchatbot_v.Agent.Default.{StartsWith, all_from_env-from_env}
use agentchatbot_v.Agent.Tools.{Op, Expr, constant, binary, Numbers, safe_eval, safe_eval_guarded}

-- One local model.
abbrev local_env : Env
local_env name = if text_eq name (codes "LLM_MODEL") then some (codes "qwen") else none

abbrev no_float : Text → Option ℕ
no_float s = none

abbrev no_int : Text → Option ℤ
no_int s = none

abbrev qwen : LlmSettings ℕ
qwen = record {
  provider = Provider.compatible;
  llm_base_url = some (codes "http://localhost:8000/v1");
  llm_model = codes "qwen";
  llm_api_key = codes "EMPTY";
  temperature = some 0;
  request_timeout = 60;
  max_tokens = some 8192;
}

chosen_qwen : from_env no_float no_int 60 0 local_env ≡ some qwen
unfolding from_env
chosen_qwen = refl

listed_qwen : all_from_env no_float no_int 60 0 local_env ≡ some (qwen ∷ [])
unfolding all_from_env
listed_qwen = refl

all_from_env-from_env_example : StartsWith qwen (all_from_env no_float no_int 60 0 local_env)
all_from_env-from_env_example =
    all_from_env-from_env no_float no_int 60 0 local_env qwen refl refl refl refl chosen_qwen

abbrev numbers : Numbers ℕ
numbers = record {
  arithmetic = λ op a b. some a;
  signed = λ op a. some a;
  exceeds = λ n a. ltb n a;
}

abbrev product : ℕ → ℕ → Option ℕ
product a b = some (a * b)

abbrev bounded_product : ℕ → ℕ → Option ℕ
bounded_product a b = if ltb 1_000 b || ltb 1_000_000 a then none else some (a * b)

within :
    (a b : ℕ) → ltb 1_000_000 a ≡ false → ltb 1_000 b ≡ false → product a b ≡ bounded_product a b
within a b h k = rw (h, k) refl

abbrev power_of_two : Expr ℕ
power_of_two = binary Op.pow (constant 2) (constant 3)

safe_eval_guarded_example :
    safe_eval numbers product power_of_two ≡ safe_eval numbers bounded_product power_of_two
safe_eval_guarded_example = safe_eval_guarded numbers product bounded_product within power_of_two
