-- ===== src/Agent/Config.antt =====
-- `Settings` of agent/src/agent_app/core/config.py. Python's `float` and `int` on a text are
-- parameters, with `none` for their ValueError, and so is the type of floating-point numbers; the
-- result `none` is the ValueError that ends the start of the program.
use agentchatbot_v.Prelude.{ℕ, zero, suc, Option, none, some, List, [], ◌∷◌, ◌++◌, if◌then◌else◌}
use agentchatbot_v.Text.{Text, codes, mem_text}
use agentchatbot_v.Json.{ℤ}
use agentchatbot_v.Env.{Env, value_or, trimmed, split_commas, stripped}

-- "openai" and "compatible"
pub data Provider : Type 0 where
  openai compatible : Provider

pub record LlmSettings (F : Type 0) : Type 0 where
  pub provider : Provider
  pub llm_base_url : Option Text
  pub llm_model : Text
  pub llm_api_key : Text
  pub temperature : Option F
  pub request_timeout : F
  pub max_tokens : Option ℕ

infixl 5 ◌>>=◌
abbrev pub ◌>>=◌ : {A B : Type 0} → Option A → (A → Option B) → Option B
none >>= f = none
some a >>= f = f a

-- `_split`
unfoldable pub model_ids : Env → Text → List Text
unfolding split_commas stripped
model_ids env name = stripped (split_commas (value_or [] (env name)))

abbrev pub non_empty : Text → Option Text
non_empty [] = none
non_empty (c ∷ s) = some (c ∷ s)

-- `raw or default` on lists
abbrev pub or_else : List Text → List Text → List Text
or_else [] ys = ys
or_else (x ∷ xs) ys = x ∷ xs

module _ {F : Type 0} where
  -- `_add`: a model that is there already is left out
  abbrev pub ids : List (LlmSettings F) → List Text
  ids [] = []
  ids (s ∷ out) = s.llm_model ∷ ids out

  abbrev pub add : LlmSettings F → List (LlmSettings F) → List (LlmSettings F)
  add s out = if mem_text s.llm_model (ids out) then out else out ++ s ∷ []

  unfoldable pub add_all :
      (Text → Option (LlmSettings F))
      → List Text
      → List (LlmSettings F)
      → Option (List (LlmSettings F))
  add_all make [] out = some out
  add_all make (m ∷ ms) out = do s ← make m; add_all make ms (add s out)

  abbrev pub or_fail : List (LlmSettings F) → Option (List (LlmSettings F))
  or_fail [] = none
  or_fail (s ∷ out) = some (s ∷ out)

module _ {F : Type 0} (float_of : Text → Option F) (int_of : Text → Option ℤ)
    (sixty zero_f : F) where
  -- `float(raw) if raw else default`
  abbrev pub float_or : F → Text → Option F
  float_or d [] = some d
  float_or d (c ∷ s) = float_of (c ∷ s)

  abbrev pub some_float : Option F → Option (Option F)
  some_float none = none
  some_float (some f) = some (some f)

  -- `_float_or_none`
  abbrev pub float_or_none : Text → Option (Option F)
  float_or_none [] = some none
  float_or_none (c ∷ s) = some_float (float_of (c ∷ s))

  -- `_max_tokens`: a number that is not positive stands for no limit
  abbrev pub bound : Option ℤ → Option (Option ℕ)
  bound none = none
  bound (some (ℤ.pos zero)) = some none
  bound (some (ℤ.pos (suc n))) = some (some (suc n))
  bound (some (ℤ.negsuc n)) = some none

  abbrev pub tokens : Option ℕ → Text → Option (Option ℕ)
  tokens d [] = some d
  tokens d (c ∷ s) = bound (int_of (c ∷ s))

  abbrev pub gpt_settings : Env → Text → Option F → F → Option ℕ → Text → LlmSettings F
  gpt_settings env key temp timeout cap model = record {
    provider = Provider.openai;
    llm_base_url = non_empty (trimmed env (codes "OPENAI_BASE_URL"));
    llm_model = model;
    llm_api_key = key;
    temperature = temp;
    request_timeout = timeout;
    max_tokens = cap;
  }

  abbrev pub local_settings : Env → F → F → Option ℕ → Text → LlmSettings F
  local_settings env temp timeout cap model = record {
    provider = Provider.compatible;
    llm_base_url = some (value_or (codes "http://localhost:8000/v1") (env (codes "LLM_BASE_URL")));
    llm_model = model;
    llm_api_key = value_or (codes "EMPTY") (env (codes "LLM_API_KEY"));
    temperature = some temp;
    request_timeout = timeout;
    max_tokens = cap;
  }

  -- The timeout and the limits of tokens for OpenAI and for a local server, which both readings of
  -- the environment take first.
  unfoldable pub read_limits : Env → Option (F × Option ℕ × Option ℕ)
  unfolding trimmed
  read_limits env = do
    timeout ← float_or sixty (trimmed env (codes "LLM_TIMEOUT"))
    gpt_cap ← tokens none (trimmed env (codes "GPT_MAX_TOKENS"))
    llm_cap ← tokens (some 8192) (trimmed env (codes "LLM_MAX_TOKENS"))
    some (timeout, gpt_cap, llm_cap)

  -- The cases of `from_env` by the key, the models and the temperature that the environment gives.
  abbrev pub chosen :
      Env → F → Option ℕ → Option ℕ → Text → Text → Text → Text → Option (LlmSettings F)
  chosen env timeout gpt_cap llm_cap temp_raw (k ∷ key) (m ∷ gpt_model) llm_model = do
    temp ← float_or_none temp_raw
    some (gpt_settings env (k ∷ key) temp timeout gpt_cap (m ∷ gpt_model))
  chosen env timeout gpt_cap llm_cap temp_raw (k ∷ key) [] llm_model = none
  chosen env timeout gpt_cap llm_cap temp_raw [] gpt_model [] = none
  chosen env timeout gpt_cap llm_cap temp_raw [] gpt_model (m ∷ llm_model) = do
    temp ← float_or zero_f temp_raw
    some (local_settings env temp timeout llm_cap (m ∷ llm_model))

  unfoldable pub from_env : Env → Option (LlmSettings F)
  unfolding trimmed read_limits
  from_env env = do
    limits ← read_limits env
    chosen env limits.0 limits.1 limits.2 (trimmed env (codes "LLM_TEMPERATURE"))
        (trimmed env (codes "OPENAI_API")) (trimmed env (codes "GPT_MODEL"))
        (trimmed env (codes "LLM_MODEL"))

  abbrev pub gpt_models :
      Env → F → Option ℕ → Text → Text → List Text → Option (List (LlmSettings F))
  gpt_models env timeout cap temp_raw [] ms = some []
  gpt_models env timeout cap temp_raw (k ∷ key) ms = do
    temp ← float_or_none temp_raw
    add_all (λ m. some (gpt_settings env (k ∷ key) temp timeout cap m)) ms []

  abbrev pub local_model : Env → F → Option ℕ → Text → Text → Option (LlmSettings F)
  local_model env timeout cap temp_raw m = do
    temp ← float_or zero_f temp_raw
    some (local_settings env temp timeout cap m)

  abbrev pub listed :
      Env
      → F
      → Option ℕ
      → Option ℕ
      → Text
      → Text
      → List Text
      → List Text
      → Option (List (LlmSettings F))
  listed env timeout gpt_cap llm_cap temp_raw key gpt_ids llm_ids = do
    gpt ← gpt_models env timeout gpt_cap temp_raw key gpt_ids
    all ← add_all (local_model env timeout llm_cap temp_raw) llm_ids gpt
    or_fail all

  unfoldable pub all_from_env : Env → Option (List (LlmSettings F))
  unfolding trimmed model_ids add_all read_limits
  all_from_env env = do
    limits ← read_limits env
    listed env limits.0 limits.1 limits.2 (trimmed env (codes "LLM_TEMPERATURE"))
        (trimmed env (codes "OPENAI_API"))
        (or_else (model_ids env (codes "GPT_MODELS")) (model_ids env (codes "GPT_MODEL")))
        (or_else (model_ids env (codes "LLM_MODELS")) (model_ids env (codes "LLM_MODEL")))
