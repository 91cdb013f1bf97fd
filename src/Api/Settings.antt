-- ===== src/Api/Settings.antt =====
-- The handlers of app.py on settings, models, agents and figures (lines 217-223 and 357-383), and
-- the readings of the environment (lines 30-40, 48-66, 105-110 and 164-182).
use agentchatbot_v.Prelude.{ℕ, Bool, true, Option, none, some, List, [], ◌∷◌, if◌then◌else◌, map}
use agentchatbot_v.Text.{Text, codes, text_eq, mem_text, strip}
use agentchatbot_v.Json.{ℤ, pos, Fields, get}
use agentchatbot_v.Store.Schema.{Status, Settings}
use agentchatbot_v.Store.Runs.{run_status_counts}
use agentchatbot_v.Store.Threads.{get_settings, put_settings}
use agentchatbot_v.Run.World.{call, ask}
use agentchatbot_v.Run.Chat.{Agent}
use agentchatbot_v.Run.Service.{RunService}
use agentchatbot_v.Env.{Env, value_or, trimmed, default_if_empty, split_commas, stripped}
use agentchatbot_v.Api.Outcome.{Api, reply, within, ◌>>=◌, ◌>>◌, some_or}
use agentchatbot_v.Api.Guards.{setting_of}

abbrev global : Text
global = codes "global"

-- The row, or `{"scope": "global"}`, which is a row without values.
abbrev or_blank : Option Settings → Settings
or_blank none = record { scope = global; model = none; server_url = none; theme = none }
or_blank (some row) = row

unfoldable pub get_settings_route : Api Settings
get_settings_route = do row ← within (ask (get_settings global)); reply (or_blank row)

unfoldable pub put_settings_route : Fields → Api (Option Settings)
put_settings_route body = do
  model ← some_or (setting_of (get (codes "model") body)) 422
  server_url ← some_or (setting_of (get (codes "server_url") body)) 422
  theme ← some_or (setting_of (get (codes "theme") body)) 422
  within (call (λ now. put_settings global model server_url theme))
  within (ask (get_settings global))

-- A model with whether it is the default; `provider_of` reads the provider of an agent's settings.
module _ (provider_of : Agent → Option Text) where
  abbrev described : Text → Text × Agent → Text × Option Text × Bool
  described default (m, a) = (m, provider_of a, text_eq m default)

  unfoldable pub get_models : RunService → List (Text × Option Text × Bool)
  get_models svc = map (described svc.default_model) svc.agents

pub record Profile : Type 0 where
  pub id : Text
  pub label : Text
  pub abbr : Text
  pub ready : Bool

-- _AGENTS
abbrev agents : List Profile
agents = record { id = codes "legal"; label = codes "법률 에이전트"; abbr = codes "법"; ready = true } ∷ []

abbrev pub list_agents : Api (List Profile)
list_agents = reply agents

-- `pool_stats` is what the pool says of itself.
unfoldable pub stats : {S : Type 0} → S → Api ((Status → ℕ) × S)
stats pool_stats = do counts ← within (ask run_status_counts); reply (counts, pool_stats)

-- `configure_logging`: the level that the logger gets. `upper` is `str.upper`, and `levels` the names
-- of the logging module.
unfoldable pub log_level : (Text → Text) → List Text → Env → Text
unfolding trimmed
log_level upper levels env =
    let level = upper (default_if_empty (codes "INFO") (trimmed env (codes "LOG_LEVEL"))) in
    if mem_text level levels then level else codes "INFO"

-- `_max_body_bytes`; `none` is the ValueError of `int`.
abbrev limit_of : (Text → Option ℤ) → Text → Option ℤ
limit_of int_of [] = some (pos 1_048_576)
limit_of int_of (c ∷ s) = int_of (c ∷ s)

unfoldable pub max_body_bytes : (Text → Option ℤ) → Env → Option ℤ
unfolding trimmed
max_body_bytes int_of env = limit_of int_of (trimmed env (codes "MAX_REQUEST_BYTES"))

-- The origins that CORS allows.
unfoldable pub cors_origins : Env → List Text
unfolding strip split_commas stripped
cors_origins env =
    stripped
      (split_commas (strip (value_or (codes "http://localhost:5180") (env (codes "CORS_ORIGINS")))))
