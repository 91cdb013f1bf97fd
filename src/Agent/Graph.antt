-- ===== src/Agent/Graph.antt =====
-- ReActAgent around the graph of LangGraph: agent/src/agent_app/core/agent.py (lines 21-80 and
-- 166-176), core/llm.py, graph/react_graph.py and tools/__init__.py. The graph, the chat model and
-- the checkpointer are given.
use agentchatbot_v.Prelude.{ℕ, Bool, true, false, Option, none, some, List, [], ◌∷◌, if◌then◌else◌}
use agentchatbot_v.Text.{Text, codes}
use agentchatbot_v.Env.{Env}
use agentchatbot_v.Store.Schema.{Content}
use agentchatbot_v.Run.Chat.{Round}
use agentchatbot_v.Agent.Config.{LlmSettings, non_empty}
use agentchatbot_v.Agent.Checkpoint.{LcMessage}
use agentchatbot_v.Agent.Tracing.{Trace, trace_config}

-- The arguments of ChatOpenAI; one that is `none` is not passed.
pub record Request (F : Type 0) : Type 0 where
  pub api_key : Text
  pub model : Text
  pub timeout : F
  pub base_url : Option Text
  pub temperature : Option F
  pub max_tokens : Option ℕ

-- `if settings.llm_base_url:`
abbrev some_text : Option Text → Option Text
some_text none = none
some_text (some s) = non_empty s

unfoldable pub build_llm : {F : Type 0} → LlmSettings F → Request F
build_llm s = record {
  api_key = s.llm_api_key;
  model = s.llm_model;
  timeout = s.request_timeout;
  base_url = some_text s.llm_base_url;
  temperature = s.temperature;
  max_tokens = s.max_tokens;
}

-- The tools; the search has the service that is given, or builds one on first use.
pub data Tool (R : Type 0) : Type 0 where
  calculator current_time text_stats : Tool R
  search_legal : Option R → Tool R

unfoldable pub get_tools : {R : Type 0} → Option R → List (Tool R)
get_tools service = calculator ∷ current_time ∷ text_stats ∷ search_legal service ∷ []

-- The nodes before which the graph stops.
unfoldable pub stops_before : Bool → List Text
stops_before require_approval = if require_approval then codes "tools" ∷ [] else []

-- `configurable.thread_id`, `recursion_limit` and what tracing adds
pub record RunConfig (K : Type 0) : Type 0 where
  pub thread_id : Text
  pub recursion_limit : ℕ
  pub trace : Option (Trace K)

-- `_config`: tracing adds keys of its own and replaces none of these.
unfoldable pub config_of : {K : Type 0} → Env → Option K → Text → RunConfig K
unfolding trace_config
config_of env handler thread_id = record {
  thread_id = thread_id;
  recursion_limit = 25;
  trace = trace_config env handler thread_id;
}

-- The messages that the graph is given, by role and content.
abbrev pub Input : Type 0
Input = List (Text × Text)

-- `_input`
unfoldable pub input_of : Text → Input
input_of message = (codes "user", message) ∷ []

-- A compiled graph: `invoke` gives the messages at the end, or raises; `stream` has the rounds, the
-- input `none` resumes; `is_paused` says whether `get_state(...).next` holds a node.
pub record Graph (K : Type 0) : Type 0 where
  pub invoke : Input → RunConfig K → Option (List LcMessage)
  pub stream : Option Input → RunConfig K → List Round
  pub is_paused : RunConfig K → Bool

pub record ReActAgent (F R C K : Type 0) : Type 0 where
  pub settings : LlmSettings F
  pub tools : List (Tool R)
  pub checkpointer : C
  pub graph : Graph K

abbrev or_built : {C : Type 0} → C → Option C → C
or_built c none = c
or_built c (some d) = d

-- The constructor. `compile` is `create_react_agent` with the system prompt, `in_memory` a new
-- MemorySaver; without settings they are read from the environment, which may fail.
module _ {F R C K : Type 0} (compile : Request F → List (Tool R) → C → List Text → Graph K)
    (in_memory : C) (from_env : Option (LlmSettings F)) where
  abbrev made : LlmSettings F → Option C → Option R → Bool → ReActAgent F R C K
  made settings checkpointer service require_approval = record {
    settings = settings;
    tools = get_tools service;
    checkpointer = or_built in_memory checkpointer;
    graph =
        compile (build_llm settings) (get_tools service) (or_built in_memory checkpointer)
          (stops_before require_approval);
  }

  unfoldable pub new_agent :
      Option (LlmSettings F) → Option C → Option R → Bool → Option (ReActAgent F R C K)
  unfolding get_tools build_llm stops_before
  new_agent (some settings) checkpointer service require_approval =
      some (made settings checkpointer service require_approval)
  new_agent none checkpointer service require_approval = elim from_env [
    | none ↦ none
    | some settings ↦ some (made settings checkpointer service require_approval)
  ]

-- What a generator of the agent has streamed when it is consumed, and whether it flushed the traces.
pub record Streamed : Type 0 where
  pub rounds : List Round
  pub flushed : Bool

abbrev last_of : List LcMessage → Option Content
last_of [] = none
last_of (m ∷ []) = some m.content
last_of (m ∷ q ∷ ms) = last_of (q ∷ ms)

abbrev answer_of : Option (List LcMessage) → Option Content
answer_of none = none
answer_of (some ms) = last_of ms

module _ {K : Type 0} (g : Graph K) (env : Env) (handler : Option K) where
  -- `run`: the content of the last message; the traces are flushed whatever happens.
  unfoldable pub run : Text → Text → Option Content × Bool
  unfolding input_of config_of
  run message thread_id =
      (answer_of (g.invoke (input_of message) (config_of env handler thread_id)), true)

  unfoldable pub stream : Text → Text → Streamed
  unfolding input_of config_of
  stream message thread_id = record {
    rounds = g.stream (some (input_of message)) (config_of env handler thread_id);
    flushed = true;
  }

  -- `resume`: a graph that is not paused is not touched.
  unfoldable pub resume : Text → Streamed
  unfolding config_of
  resume thread_id =
      if g.is_paused (config_of env handler thread_id)
      then record { rounds = g.stream none (config_of env handler thread_id); flushed = true }
      else record { rounds = []; flushed = false }

-- `summarize`: one call of the chat model with an instruction and the text; the answer's content,
-- or its `str` if it is no text.
abbrev text_or : (Content → Text) → Content → Text
text_or show (Content.str s) = s
text_or show c = show c

unfoldable pub summarize :
    (Text → Text → Option Content) → (Content → Text) → Text → Text → Option Text
summarize model show instruction text = elim (model instruction text) [
  | none ↦ none
  | some c ↦ some (text_or show c)
]
