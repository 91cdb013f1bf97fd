-- ===== src/Agent/Models.antt =====
-- The registry of models that the environment configures, and the model that is chosen by default.
use agentchatbot_v.Prelude.{
  ℕ, ◌≡◌, refl, ap, subst, Bool, true, false, ◌&&◌, ◌||◌, not, Option, none, some, List, [], ◌∷◌,
  ◌++◌, arith, if◌then◌else◌,
}
use agentchatbot_v.Text.{Text, codes, text_eq, mem_text}
use agentchatbot_v.Json.{ℤ}
use agentchatbot_v.Env.{Env, trimmed}
use agentchatbot_v.Agent.Config.{
  LlmSettings, ◌>>=◌, model_ids, or_else, ids, add, add_all, gpt_models, local_model, listed,
  read_limits, all_from_env, gpt_settings, float_or_none, or_fail,
}

abbrev pub is_distinct : List Text → Bool
is_distinct [] = true
is_distinct (t ∷ ts) = not (mem_text t ts) && is_distinct ts

abbrev default_to : {A : Type 0} → A → Option A → A
default_to a none = a
default_to a (some b) = b

pub some_inj : {A : Type 0} (a b : A) → some a ≡ some b → a ≡ b
some_inj a b e = ap (default_to a) e

-- What a chain of options says of its parts.
pub bind_some :
    {A B : Type 0} (o : Option A) (f : A → Option B) (b : B)
    → (o >>= f) ≡ some b
    → (a : A) × (o ≡ some a) × (f a ≡ some b)
bind_some none f b e = ground arith
bind_some (some a) f b e = (a, refl, e)

text_eq_comm : (s t : Text) → text_eq s t ≡ text_eq t s
text_eq_comm [] [] = refl
text_eq_comm [] (b ∷ t) = refl
text_eq_comm (a ∷ s) [] = refl
text_eq_comm (a ∷ s) (b ∷ t) = ground (arith, text_eq_comm s t)

mem_snoc :
    (u t : Text) (ts : List Text) → mem_text u (ts ++ t ∷ []) ≡ (mem_text u ts || text_eq u t)
mem_snoc u t [] = ground arith
mem_snoc u t (s ∷ ts) = ground (arith, mem_snoc u t ts)

distinct_snoc :
    (t : Text) (ts : List Text)
    → mem_text t ts ≡ false
    → is_distinct ts ≡ true
    → is_distinct (ts ++ t ∷ []) ≡ true
distinct_snoc t [] n d = refl
distinct_snoc t (s ∷ ts) n d = ground (arith, distinct_snoc t ts, mem_snoc s t ts, text_eq_comm s t)

module _ {F : Type 0} where
  ids-++ : (xs ys : List (LlmSettings F)) → ids (xs ++ ys) ≡ ids xs ++ ids ys
  ids-++ [] ys = refl
  ids-++ (x ∷ xs) ys = ap (λ l. x.llm_model ∷ l) (ids-++ xs ys)

  add_distinct :
      (s : LlmSettings F) (out : List (LlmSettings F))
      → is_distinct (ids out) ≡ true
      → is_distinct (ids (add s out)) ≡ true
  add_distinct s out d = go (mem_text s.llm_model (ids out)) refl
    where
      go :
          (b : Bool)
          → mem_text s.llm_model (ids out) ≡ b
          → is_distinct (ids (if b then out else out ++ s ∷ [])) ≡ true
      go true e = d
      go false e = rw (ids-++ out (s ∷ [])) (distinct_snoc s.llm_model (ids out) e d)

  add_all_distinct :
      (make : Text → Option (LlmSettings F)) (ms : List Text) (out all : List (LlmSettings F))
      → is_distinct (ids out) ≡ true
      → add_all make ms out ≡ some all
      → is_distinct (ids all) ≡ true
  unfolding add_all
  add_all_distinct make [] out all d e =
      subst (λ l. is_distinct (ids l) ≡ true) (some_inj out all e) d
  add_all_distinct make (m ∷ ms) out all d e =
      let (s, p, q) = bind_some (make m) (λ s. add_all make ms (add s out)) all e in
      add_all_distinct make ms (add s out) all (add_distinct s out d) q

  or_fail-some : (xs ys : List (LlmSettings F)) → or_fail xs ≡ some ys → xs ≡ ys
  or_fail-some [] ys e = ground arith
  or_fail-some (x ∷ xs) ys e = some_inj (x ∷ xs) ys e

module _ {F : Type 0} (float_of : Text → Option F) (int_of : Text → Option ℤ)
    (sixty zero_f : F) where
  gpt_models_distinct :
      (env : Env) (timeout : F) (cap : Option ℕ) (temp_raw key : Text) (ms : List Text)
      (all : List (LlmSettings F))
      → gpt_models float_of int_of sixty zero_f env timeout cap temp_raw key ms ≡ some all
      → is_distinct (ids all) ≡ true
  gpt_models_distinct env timeout cap temp_raw [] ms all e =
      subst (λ l. is_distinct (ids l) ≡ true) (some_inj [] all e) refl
  gpt_models_distinct env timeout cap temp_raw (k ∷ key) ms all e =
      let (temp, p, q) =
        bind_some (float_or_none float_of int_of sixty zero_f temp_raw)
          (λ t. add_all (make t) ms []) all e in
      add_all_distinct (make temp) ms [] all refl q
    where
      make : Option F → Text → Option (LlmSettings F)
      make t m = some (gpt_settings float_of int_of sixty zero_f env (k ∷ key) t timeout cap m)

  listed_distinct :
      (env : Env) (timeout : F) (gpt_cap llm_cap : Option ℕ) (temp_raw key : Text)
      (gs ls : List Text) (all : List (LlmSettings F))
      → listed float_of int_of sixty zero_f env timeout gpt_cap llm_cap temp_raw key gs ls
        ≡ some all
      → is_distinct (ids all) ≡ true
  listed_distinct env timeout gpt_cap llm_cap temp_raw key gs ls all e =
      let (gpt, p, q) =
        bind_some (gpt_models float_of int_of sixty zero_f env timeout gpt_cap temp_raw key gs)
          with_local all e in
      let (out, p1, q1) = bind_some (add_all make ls gpt) or_fail all q in
      subst (λ l. is_distinct (ids l) ≡ true) (or_fail-some out all q1)
        (add_all_distinct make ls gpt out
          (gpt_models_distinct env timeout gpt_cap temp_raw key gs gpt p) p1)
    where
      make : Text → Option (LlmSettings F)
      make = local_model float_of int_of sixty zero_f env timeout llm_cap temp_raw

      with_local : List (LlmSettings F) → Option (List (LlmSettings F))
      with_local gpt = add_all make ls gpt >>= or_fail

-- The models of the registry have different names, so that none hides another in the table of
-- agents.
pub all_from_env_distinct :
    {F : Type 0} (float_of : Text → Option F) (int_of : Text → Option ℤ) (sixty zero_f : F)
    (env : Env) (all : List (LlmSettings F))
    → all_from_env float_of int_of sixty zero_f env ≡ some all
    → is_distinct (ids all) ≡ true
unfolding all_from_env
all_from_env_distinct {F} float_of int_of sixty zero_f env all e =
    let (limits, p, q) = bind_some (read_limits float_of int_of sixty zero_f env) by_limits all e in
    listed_distinct float_of int_of sixty zero_f env limits.0 limits.1 limits.2
      (trimmed env (codes "LLM_TEMPERATURE")) (trimmed env (codes "OPENAI_API")) _ _ all q
  where
    by_limits : F × Option ℕ × Option ℕ → Option (List (LlmSettings F))
    by_limits l =
        listed float_of int_of sixty zero_f env l.0 l.1 l.2 (trimmed env (codes "LLM_TEMPERATURE"))
          (trimmed env (codes "OPENAI_API"))
          (or_else (model_ids env (codes "GPT_MODELS")) (model_ids env (codes "GPT_MODEL")))
          (or_else (model_ids env (codes "LLM_MODELS")) (model_ids env (codes "LLM_MODEL")))
