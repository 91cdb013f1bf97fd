-- ===== src/Agent/Default.antt =====
-- The model that the environment chooses by default, against the first of the registry.
use agentchatbot_v.Prelude.{
  ℕ, ◌≡◌, refl, ap, subst, ◌∙◌, Bool, true, false, Option, none, some, List, [], ◌∷◌, ◌++◌, ◌==◌,
  arith, if◌then◌else◌, exists,
}
use agentchatbot_v.Text.{Text, codes, strip, mem_text, is_empty}
use agentchatbot_v.Json.{ℤ}
use agentchatbot_v.Env.{Env, value_or, trimmed, split_commas, stripped}
use agentchatbot_v.Agent.Config.{
  LlmSettings, ◌>>=◌, model_ids, or_else, chosen, from_env, ids, add, add_all, read_limits, listed,
  all_from_env, gpt_settings, local_settings, float_or, some_float, or_fail,
}
use agentchatbot_v.Agent.Models.{some_inj}

abbrev is_comma : ℕ → Bool
is_comma c = c == 0x2c

-- The value of a variable names at most one model.
abbrev pub has_comma : Env → Text → Bool
has_comma env name = exists is_comma (value_or [] (env name))

abbrev one : Text → List Text
one [] = []
one (c ∷ s) = (c ∷ s) ∷ []

split_one : (s : Text) → exists is_comma s ≡ false → split_commas s ≡ s ∷ []
unfolding split_commas
split_one [] h = refl
split_one (c ∷ s) h = ground (arith, split_one s)

stripped-one : (s : Text) → stripped (s ∷ []) ≡ one (strip s)
unfolding stripped
stripped-one s = go (strip s)
  where
    go : (t : Text) → (if is_empty t then [] else t ∷ []) ≡ one t
    go [] = refl
    go (c ∷ t) = refl

ids_one :
    (env : Env) (name : Text)
    → has_comma env name ≡ false
    → model_ids env name ≡ one (trimmed env name)
unfolding model_ids trimmed
ids_one env name h =
    ap stripped (split_one (value_or [] (env name)) h) ∙ stripped-one (value_or [] (env name))

ids_none : (env : Env) (name : Text) → env name ≡ none → model_ids env name ≡ []
unfolding model_ids
ids_none env name h = rw h refl

module _ {F : Type 0} where
  -- A list that starts with `s`.
  abbrev pub StartsWith : LlmSettings F → Option (List (LlmSettings F)) → Type 0
  StartsWith s o = (rest : List (LlmSettings F)) × (o ≡ some (s ∷ rest))

  add_after : (g l : LlmSettings F) → StartsWith g (or_fail (add l (g ∷ [])))
  add_after g l = go (mem_text l.llm_model (ids (g ∷ [])))
    where
      go : (b : Bool) → StartsWith g (or_fail (if b then g ∷ [] else (g ∷ []) ++ l ∷ []))
      go true = ([], refl)
      go false = (l ∷ [], refl)

  add_after_same : (g l s : LlmSettings F) → g ≡ s → StartsWith s (or_fail (add l (g ∷ [])))
  add_after_same g l s e = subst (λ h. StartsWith h (or_fail (add l (g ∷ [])))) e (add_after g l)

module _ {F : Type 0} (float_of : Text → Option F) (int_of : Text → Option ℤ)
    (sixty zero_f : F) where
  gpt_first :
      (env : Env) (timeout : F) (gpt_cap llm_cap : Option ℕ) (temp_raw key gm lm : Text) (k m : ℕ)
      (s : LlmSettings F)
      → chosen float_of int_of sixty zero_f env timeout gpt_cap llm_cap temp_raw
          (k ∷ key)
          (m ∷ gm)
          lm
        ≡ some s
      → StartsWith s (
          listed float_of int_of sixty zero_f env timeout gpt_cap llm_cap temp_raw
            (k ∷ key)
            (one (m ∷ gm))
            (one lm))
  unfolding add_all
  gpt_first env timeout gpt_cap llm_cap [] key gm [] k m s e =
      ([], ap (λ x. some (x ∷ [])) (some_inj _ s e))
  gpt_first env timeout gpt_cap llm_cap [] key gm (l ∷ lm) k m s e =
      add_after_same _
        (local_settings float_of int_of sixty zero_f env zero_f timeout llm_cap (l ∷ lm)) s
        (some_inj _ s e)
  gpt_first env timeout gpt_cap llm_cap (c ∷ t) key gm lm k m s e = go (float_of (c ∷ t)) lm e
    where
      gpt : Option F → LlmSettings F
      gpt temp =
          gpt_settings float_of int_of sixty zero_f env (k ∷ key) temp timeout gpt_cap (m ∷ gm)

      local : F → Text → LlmSettings F
      local temp = local_settings float_of int_of sixty zero_f env temp timeout llm_cap

      go :
          (o : Option F) (ls : Text)
          → (some_float float_of int_of sixty zero_f o >>= λ temp. some (gpt temp)) ≡ some s
          → StartsWith s (
              (some_float float_of int_of sixty zero_f o >>= λ temp. some (gpt temp ∷ [])) >>= λ gs.
              add_all (λ x. o >>= λ f. some (local f x)) (one ls) gs >>= or_fail)
      go none ls q = ground arith
      go (some f) [] q = ([], ap (λ x. some (x ∷ [])) (some_inj _ s q))
      go (some f) (l ∷ ls) q =
          add_after_same (gpt (some f)) (local f (l ∷ ls)) s (some_inj (gpt (some f)) s q)

  -- The registry starts with the model that `from_env` chooses.
  default_first :
      (env : Env) (timeout : F) (gpt_cap llm_cap : Option ℕ) (temp_raw key gm lm : Text)
      (s : LlmSettings F)
      → chosen float_of int_of sixty zero_f env timeout gpt_cap llm_cap temp_raw key gm lm ≡ some s
      → StartsWith s (
          listed float_of int_of sixty zero_f env timeout gpt_cap llm_cap temp_raw key
            (one gm)
            (one lm))
  unfolding add_all
  default_first env timeout gpt_cap llm_cap temp_raw (k ∷ key) (m ∷ gm) lm s e =
      gpt_first env timeout gpt_cap llm_cap temp_raw key gm lm k m s e
  default_first env timeout gpt_cap llm_cap temp_raw (k ∷ key) [] lm s e = ground arith
  default_first env timeout gpt_cap llm_cap temp_raw [] gm [] s e = ground arith
  default_first env timeout gpt_cap llm_cap temp_raw [] gm (l ∷ lm) s e =
      go (float_or float_of int_of sixty zero_f zero_f temp_raw) e
    where
      local : F → LlmSettings F
      local temp = local_settings float_of int_of sixty zero_f env temp timeout llm_cap (l ∷ lm)

      go :
          (o : Option F)
          → (o >>= λ f. some (local f)) ≡ some s
          → StartsWith s (
              ((o >>= λ f. some (local f)) >>= λ x.
              add_all (λ y. o >>= λ f. some (local f)) [] (x ∷ []))
              >>= or_fail)
      go none q = ground arith
      go (some f) q = ([], ap (λ x. some (x ∷ [])) (some_inj _ s q))

-- As long as GPT_MODELS and LLM_MODELS are not set and GPT_MODEL and LLM_MODEL name one model at
-- most, the two readings of the environment agree: where `from_env` chooses a model, `all_from_env`
-- gives a registry that starts with the same settings.
pub all_from_env-from_env :
    {F : Type 0} (float_of : Text → Option F) (int_of : Text → Option ℤ) (sixty zero_f : F)
    (env : Env) (s : LlmSettings F)
    → env (codes "GPT_MODELS") ≡ none
    → env (codes "LLM_MODELS") ≡ none
    → has_comma env (codes "GPT_MODEL") ≡ false
    → has_comma env (codes "LLM_MODEL") ≡ false
    → from_env float_of int_of sixty zero_f env ≡ some s
    → StartsWith s (all_from_env float_of int_of sixty zero_f env)
unfolding from_env all_from_env
all_from_env-from_env {F} float_of int_of sixty zero_f env s g l gc lc e =
    let gs =
      ap (λ x. or_else x (model_ids env (codes "GPT_MODEL"))) (ids_none env (codes "GPT_MODELS") g)
      ∙ ids_one env (codes "GPT_MODEL") gc in
    let ls =
      ap (λ x. or_else x (model_ids env (codes "LLM_MODEL"))) (ids_none env (codes "LLM_MODELS") l)
      ∙ ids_one env (codes "LLM_MODEL") lc in
    go (read_limits float_of int_of sixty zero_f env) gs ls e
  where
    go :
        (o : Option (F × Option ℕ × Option ℕ))
        → or_else (model_ids env (codes "GPT_MODELS")) (model_ids env (codes "GPT_MODEL"))
          ≡ one (trimmed env (codes "GPT_MODEL"))
        → or_else (model_ids env (codes "LLM_MODELS")) (model_ids env (codes "LLM_MODEL"))
          ≡ one (trimmed env (codes "LLM_MODEL"))
        → (o >>= λ x.
            chosen float_of int_of sixty zero_f env x.0 x.1 x.2
              (trimmed env (codes "LLM_TEMPERATURE"))
              (trimmed env (codes "OPENAI_API"))
              (trimmed env (codes "GPT_MODEL"))
              (trimmed env (codes "LLM_MODEL")))
          ≡ some s
        → StartsWith s (
            o >>= λ x.
            listed float_of int_of sixty zero_f env x.0 x.1 x.2
              (trimmed env (codes "LLM_TEMPERATURE"))
              (trimmed env (codes "OPENAI_API"))
              (or_else (model_ids env (codes "GPT_MODELS")) (model_ids env (codes "GPT_MODEL")))
              (or_else (model_ids env (codes "LLM_MODELS")) (model_ids env (codes "LLM_MODEL"))))
    go none gs ls q = ground arith
    go (some x) gs ls q =
        rw (gs, ls)
          (default_first float_of int_of sixty zero_f env x.0 x.1 x.2
            (trimmed env (codes "LLM_TEMPERATURE")) (trimmed env (codes "OPENAI_API"))
            (trimmed env (codes "GPT_MODEL")) (trimmed env (codes "LLM_MODEL")) s q)
