-- ===== src/Run/Handle.antt =====
-- `_handle_chunk` and `_handle_message` of run_service.py (lines 121-134 and 437-474).
use agentchatbot_v.Prelude.{ℕ, false, Option, none, some, List, [], ◌∷◌, if◌then◌else◌}
use agentchatbot_v.Text.{Text, mem_text, strip, is_empty}
use agentchatbot_v.Store.Schema.{Role, Event, PendingCall, Result}
use agentchatbot_v.Store.Threads.{next_seq}
use agentchatbot_v.Store.Messages.{Draft, add_message, set_tool_result, freeze_citation}
use agentchatbot_v.Run.World.{Gen, pure, call, ◌>>=◌, ◌>>◌, fresh_id, yield, emit}
use agentchatbot_v.Run.Chat.{
  LawRef, ChatMessage, Node, messages, no_dict, truncate_tool_result, text_of, articles_of,
  freeze_payload,
}

-- _Run
pub record Running : Type 0 where
  pub run_id : ℕ
  pub frozen : List Text
  pub cited_eff : List (Text × Text)
  pub draft : Text
  pub parent_id : Option ℕ
  pub model : Option Text

abbrev pub tool_cell : Running → PendingCall → Draft
tool_cell rs c = record {
  run_id = some rs.run_id;
  parent_id = rs.parent_id;
  role = Role.tool;
  content_md = none;
  tool_name = c.name;
  tool_args = c.args;
  tool_result = none;
  approval_state = none;
  tool_call_id = c.id;
  model = none;
  citation_ids = [];
}

-- A tool call becomes a tool cell, and then an event with the cell's seq.
unfoldable pub handle_calls : List PendingCall → Running → ℕ → Gen (Unit {0})
handle_calls [] rs t = pure tt
handle_calls (c ∷ cs) rs t = do
  mid ← fresh_id
  at ← call (λ now. add_message mid now t (tool_cell rs c))
  yield (Event.tool_call c.id c.name c.args) at.1
  handle_calls cs rs t

abbrev pub froze : LawRef → Running → Running
froze r rs = record rs { frozen = r.id ∷ rs.frozen; cited_eff = (r.id, r.eff_date) ∷ rs.cited_eff }

-- The law references of a tool result, each frozen once in a run.
unfoldable pub handle_refs : List LawRef → Running → ℕ → Gen Running
handle_refs [] rs t = pure rs
handle_refs (r ∷ refs) rs t =
    let skip = handle_refs refs rs t in
    let add = handle_refs refs (froze r rs) t in
    if mem_text r.id rs.frozen then skip else (do
      call (λ now. freeze_citation (freeze_payload r))
      emit (Event.citation_added r.id) t
      add)

unfoldable pub lift : {A : Type 0} → Result A → Gen A
lift r w = (r, w)

-- `if tcid:`, which is false for an empty id too
abbrev pub store_result : Running → Option Text → ChatMessage → Gen (Unit {0})
store_result rs none msg = pure tt
store_result rs (some []) msg = pure tt
store_result rs (some (c ∷ cs)) msg =
    call (λ now. set_tool_result rs.run_id (c ∷ cs) (truncate_tool_result msg.content))

unfoldable pub handle_result : ChatMessage → Running → ℕ → Gen Running
unfolding call lift
handle_result msg rs t = do
  seq ← call (λ now. next_seq now t)
  store_result rs msg.tool_call_id msg
  yield (Event.tool_result msg.tool_call_id (truncate_tool_result msg.content) false) seq
  refs ← lift (articles_of msg.artifact)
  handle_refs refs rs t

-- The draft of the answer: the last message that calls no tool and is not blank.
unfoldable pub take_draft : ChatMessage → Running → Running
unfolding text_of strip
take_draft msg rs = elim msg.tool_calls [
  | [] ↦
      if is_empty (strip (text_of msg.content))
      then rs
      else record rs { draft = text_of msg.content }
  | c ∷ cs ↦ rs
]

unfoldable pub handle_message : ChatMessage → Running → ℕ → Gen Running
handle_message msg rs t = do
  handle_calls msg.tool_calls rs t
  if msg.is_tool_message then handle_result msg rs t else pure (take_draft msg rs)

unfoldable pub handle_messages : List ChatMessage → Running → ℕ → Gen Running
handle_messages [] rs t = pure rs
handle_messages (m ∷ ms) rs t = do rs' ← handle_message m rs t; handle_messages ms rs' t

unfoldable pub handle_chunk : List Node → Running → ℕ → Gen Running
handle_chunk [] rs t = pure rs
handle_chunk (messages ms ∷ nodes) rs t = do rs' ← handle_messages ms rs t; handle_chunk nodes rs' t
handle_chunk (no_dict ∷ nodes) rs t = handle_chunk nodes rs t
