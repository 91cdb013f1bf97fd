-- ===== src/Boot/Registry.antt =====
-- The table of agents: `_default_agent_factory` of app.py (lines 49-66) and what RunService makes of
-- it (run_service.py, lines 189-202).
use agentchatbot_v.Prelude.{◌≡◌, refl, Bool, Option, none, some, List, [], ◌∷◌, map}
use agentchatbot_v.Text.{Text, codes, text_eq, text_eq_refl}
use agentchatbot_v.Env.{Env, value_or}
use agentchatbot_v.Run.Chat.{Agent}
use agentchatbot_v.Run.Service.{RunService, find_agent}
use agentchatbot_v.Agent.Config.{LlmSettings}

-- `REQUIRE_APPROVAL`, which makes every tool wait for approval
unfoldable pub requires_approval : Env → Bool
requires_approval env = text_eq (value_or (codes "0") (env (codes "REQUIRE_APPROVAL"))) (codes "1")

-- An agent for each of the models; `make` is the constructor of ReActAgent with the checkpointer
-- that all of them share. The names of the models are different.
unfoldable pub default_agents :
    {F : Type 0} → Env → (LlmSettings F → Bool → Agent) → List (LlmSettings F) → List (Text × Agent)
unfolding requires_approval
default_agents env make models = map (λ s. (s.llm_model, make s (requires_approval env))) models

-- What a caller hands to RunService: a table, or one agent with the name of its model, if it has one.
pub data Given : Type 0 where
  table : List (Text × Agent) → Given
  single : Option Text → Agent → Given

abbrev or_default_key : Option Text → Text
or_default_key none = codes "default"
or_default_key (some []) = codes "default"
or_default_key (some (c ∷ s)) = c ∷ s

abbrev to_table : Given → List (Text × Agent)
to_table (table agents) = agents
to_table (single model agent) = (or_default_key model, agent) ∷ []

-- `default_model or next(iter(agents))`
abbrev first_key : Option Text → List (Text × Agent) → Option Text
first_key none [] = none
first_key none ((k, a) ∷ rest) = some k
first_key (some []) [] = none
first_key (some []) ((k, a) ∷ rest) = some k
first_key (some (c ∷ s)) agents = some (c ∷ s)

abbrev with_default : List (Text × Agent) → Text → Option Agent → Option RunService
with_default agents m none = none
with_default agents m (some a) =
    some (record { agents = agents; default_model = m; default_agent = a })

abbrev service_for : List (Text × Agent) → Option Text → Option RunService
service_for agents none = none
service_for agents (some m) = with_default agents m (find_agent m agents)

-- `RunService(agent, repo, default_model)`; `none` is the exception for an empty table or for a
-- default model that is not in it.
unfoldable pub run_service : Given → Option Text → Option RunService
unfolding find_agent
run_service given default_model =
    service_for (to_table given) (first_key default_model (to_table given))

-- Without a named default the first agent of the table serves.
pub run_service_first :
    (k : Text) (a : Agent) (rest : List (Text × Agent))
    → run_service (table ((k, a) ∷ rest)) none
      ≡ some (record { agents = (k, a) ∷ rest; default_model = k; default_agent = a })
unfolding run_service
run_service_first k a rest = rw (text_eq_refl k) refl
