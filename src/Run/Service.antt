-- ===== src/Run/Service.antt =====
-- `run`, `resume` and `interrupt_paused` of run_service.py (lines 188-315).
use agentchatbot_v.Prelude.{
  ℕ, Bool, true, false, ◌||◌, Option, none, some, List, [], ◌∷◌, if◌then◌else◌, select,
}
use agentchatbot_v.Text.{Text, codes, text_eq}
use agentchatbot_v.Store.Schema.{
  Status, same_status, Role, Approval, Content, PendingCall, Event, Result, ok, err, value_error,
}
use agentchatbot_v.Store.Runs.{
  open_run, try_transition, get_run_model, get_active_run, interrupted_tool,
}
use agentchatbot_v.Store.Threads.{set_thread_title_if_empty}
use agentchatbot_v.Store.Messages.{
  Draft, add_message, get_turn_root, mark_partial_approval, resolve_orphan_tool_cells,
  set_pending_approval, get_pending_tool_calls,
}
use agentchatbot_v.Run.World.{
  Gen, pure, raise, call, ask, attempt, ◌>>=◌, ◌>>◌, fresh_id, emit, flag,
}
use agentchatbot_v.Run.Chat.{Agent}
use agentchatbot_v.Run.Compose.{title_from}
use agentchatbot_v.Run.Handle.{Running, lift}
use agentchatbot_v.Run.Drive.{drive, failure_notice}

-- The registry of agents by model; `default_model` is one of its keys, and `default_agent` its
-- value.
pub record RunService : Type 0 where
  pub agents : List (Text × Agent)
  pub default_model : Text
  pub default_agent : Agent

unfoldable pub find_agent : Text → List (Text × Agent) → Option Agent
find_agent m [] = none
find_agent m ((k, a) ∷ rest) = if text_eq k m then some a else find_agent m rest

-- `model if model in self.agents else self.default_model`, with the agent
abbrev or_default : RunService → Text → Option Agent → Text × Agent
or_default svc m none = (svc.default_model, svc.default_agent)
or_default svc m (some a) = (m, a)

unfoldable pub choose : RunService → Option Text → Text × Agent
unfolding find_agent
choose svc none = (svc.default_model, svc.default_agent)
choose svc (some m) = or_default svc m (find_agent m svc.agents)

abbrev user_message : ℕ → Text → Draft
user_message r message = record {
  run_id = some r;
  parent_id = none;
  role = Role.user;
  content_md = some message;
  tool_name = none;
  tool_args = none;
  tool_result = none;
  approval_state = none;
  tool_call_id = none;
  model = none;
  citation_ids = [];
}

abbrev pub title_once : ℕ → Text → Gen (Unit {0})
title_once t [] = pure tt
title_once t (c ∷ s) = do call (λ now. set_thread_title_if_empty (some t) (c ∷ s)); pure tt

-- The user's message and the thread's title; the result is the turn's root.
unfoldable pub open_turn : Text → ℕ → ℕ → Gen ℕ
unfolding call
open_turn message t r = do
  mid ← fresh_id
  call (λ now. add_message mid now t (user_message r message))
  title_once t (title_from message)
  pure mid

abbrev start_state : ℕ → Option ℕ → Text → Running
start_state r root model = record {
  run_id = r;
  frozen = [];
  cited_eff = [];
  draft = [];
  parent_id = root;
  model = some model;
}

abbrev after_turn : Text → Text × Agent → ℕ → ℕ → Result ℕ → Gen (Unit {0})
after_turn message chosen t r (err e) = do
  call (λ now. try_transition now r Status.running Status.error true)
  emit (Event.error failure_notice []) t
after_turn message chosen t r (ok mid) =
    drive (chosen.1.stream message t) (start_state r (some mid) chosen.0) t

abbrev add_flag : ℕ → Gen (Unit {0})
add_flag r w = (ok tt, record w { cancels = (r, false) ∷ w.cancels })

-- `run` up to its first event.
unfoldable pub begin_run : RunService → ℕ → Option Text → Gen ℕ
unfolding choose call emit
begin_run svc t model = do
  r ← fresh_id
  call (λ now. open_run r now t (some (choose svc model).0))
  add_flag r
  emit (Event.run_started r t (some (choose svc model).0)) t
  pure r

-- `run` after its first event.
unfoldable pub continue_run : RunService → Text → ℕ → Option Text → ℕ → Gen (Unit {0})
unfolding choose
continue_run svc message t model r = do
  turn ← attempt (open_turn message t r)
  after_turn message (choose svc model) t r turn

unfoldable pub run : RunService → Text → ℕ → Option Text → Gen (Unit {0})
run svc message t model = do r ← begin_run svc t model; continue_run svc message t model r

-- `_clear_rejected_graph`
abbrev clear_with : Option (ℕ → Result (Unit {0})) → ℕ → Gen (Unit {0})
clear_with none t = pure tt
clear_with (some reject) t = lift (reject t)

unfoldable pub clear_rejected_graph : RunService → ℕ → Gen (Unit {0})
unfolding lift
clear_rejected_graph svc t = clear_with svc.default_agent.reject_pending t

unfoldable pub interrupt_paused : RunService → ℕ → ℕ → Gen Bool
interrupt_paused svc t r = do
  won ← call (λ now. try_transition now r Status.awaiting_approval Status.interrupted true)
  if won
      then (do
        call (λ now. set_pending_approval r Approval.rejected)
        call (λ now. resolve_orphan_tool_cells r interrupted_tool)
        clear_rejected_graph svc t
        pure true)
      else pure false

-- _REJECTED_TOOL
abbrev pub rejected_tool : Content
rejected_tool = Content.str (codes "사용자가 이 도구 실행을 거부했습니다.")

-- The ids of the request that are waiting.
abbrev pub waits_for : List PendingCall → Text → Bool
waits_for [] id = false
waits_for (c ∷ cs) id = elim c.id [ none ↦ false | some k ↦ text_eq k id ] || waits_for cs id

-- The scope of the approval: `none` is the whole turn, `some` a selection.
unfoldable pub scope_of : Bool → Option (List Text) → List PendingCall → Option (List Text)
scope_of true none pending = none
scope_of false none pending = some []
scope_of approve (some ids) pending = some (select (waits_for pending) ids)

unfoldable pub reject_all : RunService → ℕ → ℕ → Gen (Unit {0})
unfolding clear_rejected_graph call emit
reject_all svc t r = do
  won ← call (λ now. try_transition now r Status.awaiting_approval Status.rejected true)
  if won
      then (do
        call (λ now. set_pending_approval r Approval.rejected)
        call (λ now. resolve_orphan_tool_cells r rejected_tool)
        clear_rejected_graph svc t
        emit (Event.run_done r (some Status.rejected)) t)
      else raise value_error

abbrev surgery : Option (ℕ → List Text → Result (List Text)) → ℕ → List Text → Gen (List Text)
surgery none t ids = pure []
surgery (some ap) t ids = lift (ap t ids)

report_rejected : List Text → ℕ → Gen (Unit {0})
report_rejected [] t = pure tt
report_rejected (c ∷ cs) t = do
  emit (Event.tool_result (some c) rejected_tool true) t
  report_rejected cs t

-- The cells of the turn are classified, all at once or by the selection.
unfoldable pub classify : Option (List Text) → Agent → ℕ → ℕ → Gen (Unit {0})
unfolding report_rejected lift
classify none agent t r = call (λ now. set_pending_approval r Approval.approved)
classify (some ids) agent t r = do
  rejected ← surgery agent.approve_partial t ids
  call (λ now. mark_partial_approval r rejected rejected_tool)
  report_rejected rejected t

-- `get_run_model(run_id) or self.default_model`
abbrev model_or : Text → Option Text → Text
model_or d none = d
model_or d (some []) = d
model_or d (some (c ∷ s)) = c ∷ s

abbrev agent_or : Agent → Option Agent → Agent
agent_or d none = d
agent_or d (some a) = a

-- `_cancels.setdefault`
abbrev keep_flag : ℕ → Gen (Unit {0})
keep_flag r w = elim (flag r w.cancels) [
  | none ↦ (ok tt, record w { cancels = (r, false) ∷ w.cancels })
  | some b ↦ (ok tt, w)
]

unfoldable pub approve_some : RunService → Option (List Text) → ℕ → ℕ → Gen (Unit {0})
unfolding find_agent
approve_some svc scope t r = do
  won ← call (λ now. try_transition now r Status.awaiting_approval Status.running false)
  if won
      then (do
        keep_flag r
        saved ← ask (get_run_model (some r))
        root ← ask (get_turn_root r)
        let model = model_or svc.default_model saved
        let agent = agent_or svc.default_agent (find_agent model svc.agents)
        classify scope agent t r
        drive (agent.resume t) (start_state r root model) t)
      else raise value_error

abbrev resume_scope : RunService → Option (List Text) → ℕ → ℕ → Gen (Unit {0})
resume_scope svc (some []) t r = reject_all svc t r
resume_scope svc (some (c ∷ cs)) t r = approve_some svc (some (c ∷ cs)) t r
resume_scope svc none t r = approve_some svc none t r

-- The pending calls are read only for a selection.
abbrev pending_if : Option (List Text) → ℕ → Gen (List PendingCall)
pending_if none r = pure []
pending_if (some ids) r = ask (get_pending_tool_calls r)

abbrev resume_active :
    RunService → ℕ → Bool → Option (List Text) → Option (ℕ × Status) → Gen (Unit {0})
resume_active svc t approve ids none = raise value_error
resume_active svc t approve ids (some (r, status)) =
    if same_status status Status.awaiting_approval
    then (do pending ← pending_if ids r; resume_scope svc (scope_of approve ids pending) t r)
    else raise value_error

unfoldable pub resume : RunService → ℕ → Bool → Option (List Text) → Gen (Unit {0})
resume svc t approve ids = do
  active ← ask (get_active_run t)
  resume_active svc t approve ids active
