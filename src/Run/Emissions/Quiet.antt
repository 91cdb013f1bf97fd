-- ===== src/Run/Emissions/Quiet.antt =====
-- Handling a chunk yields no ending: `_handle_message` and what it calls.
use agentchatbot_v.Prelude.{ℕ, refl, false, Option, none, some, List, [], ◌∷◌}
use agentchatbot_v.Text.{Text, mem_text}
use agentchatbot_v.Store.Schema.{PendingCall, Event, Result}
use agentchatbot_v.Run.Chat.{
  LawRef, ChatMessage, Node, messages, no_dict, articles_of, truncate_tool_result,
}
use agentchatbot_v.Run.Handle.{
  Running, handle_calls, handle_refs, lift, store_result, handle_result, take_draft, handle_message,
  handle_messages, handle_chunk, froze,
}
use agentchatbot_v.Run.Emissions.{
  Quietly, Quietly-bind, Quietly-call, Quietly-fresh_id, Quietly-yield, Quietly-pure, Quietly-emit,
  Emits-if, nothing,
}

Quietly-handle_calls :
    (cs : List PendingCall) (rs : Running) (t : ℕ) → Quietly (handle_calls cs rs t)
unfolding handle_calls
Quietly-handle_calls [] rs t = Quietly-pure tt
Quietly-handle_calls (c ∷ cs) rs t = Quietly-bind _ _ Quietly-fresh_id λ mid.
    Quietly-bind _ _ (Quietly-call _)
      λ at. Quietly-bind _ _ (Quietly-yield _ at.1 refl) (λ _. Quietly-handle_calls cs rs t)

Quietly-handle_refs : (refs : List LawRef) (rs : Running) (t : ℕ) → Quietly (handle_refs refs rs t)
unfolding handle_refs
Quietly-handle_refs [] rs t = Quietly-pure rs
Quietly-handle_refs (r ∷ refs) rs t =
    Emits-if _ (mem_text r.id rs.frozen) _ _ (Quietly-handle_refs refs rs t) (
      Quietly-bind _ _ (Quietly-call _) λ _.
        Quietly-bind _ _ (Quietly-emit _ t refl) (λ _. Quietly-handle_refs refs (froze r rs) t))

pub Quietly-lift : {A : Type 0} (r : Result A) → Quietly (lift r)
unfolding lift
Quietly-lift r w = nothing _ r w w refl tt

Quietly-store_result :
    (rs : Running) (o : Option Text) (msg : ChatMessage) → Quietly (store_result rs o msg)
Quietly-store_result rs none msg = Quietly-pure tt
Quietly-store_result rs (some []) msg = Quietly-pure tt
Quietly-store_result rs (some (c ∷ cs)) msg = Quietly-call _

abbrev pub shown : ChatMessage → Event
shown msg = Event.tool_result msg.tool_call_id (truncate_tool_result msg.content) false

Quietly-handle_result :
    (msg : ChatMessage) (rs : Running) (t : ℕ) → Quietly (handle_result msg rs t)
unfolding handle_result
Quietly-handle_result msg rs t = Quietly-bind _ _ (Quietly-call _) λ seq.
    Quietly-bind _ _ (Quietly-store_result rs msg.tool_call_id msg) λ _.
      Quietly-bind _ _ (Quietly-yield (shown msg) seq refl) λ _.
        Quietly-bind _ _ (Quietly-lift (articles_of msg.artifact))
          (λ refs. Quietly-handle_refs refs rs t)

Quietly-handle_message :
    (msg : ChatMessage) (rs : Running) (t : ℕ) → Quietly (handle_message msg rs t)
unfolding handle_message
Quietly-handle_message msg rs t = Quietly-bind _ _ (Quietly-handle_calls msg.tool_calls rs t) λ _.
    Emits-if _ msg.is_tool_message _ _ (Quietly-handle_result msg rs t)
      (Quietly-pure (take_draft msg rs))

Quietly-handle_messages :
    (ms : List ChatMessage) (rs : Running) (t : ℕ) → Quietly (handle_messages ms rs t)
unfolding handle_messages
Quietly-handle_messages [] rs t = Quietly-pure rs
Quietly-handle_messages (m ∷ ms) rs t =
    Quietly-bind _ _ (Quietly-handle_message m rs t) (λ rs'. Quietly-handle_messages ms rs' t)

pub Quietly-handle_chunk :
    (nodes : List Node) (rs : Running) (t : ℕ) → Quietly (handle_chunk nodes rs t)
unfolding handle_chunk
Quietly-handle_chunk [] rs t = Quietly-pure rs
Quietly-handle_chunk (messages ms ∷ nodes) rs t =
    Quietly-bind _ _ (Quietly-handle_messages ms rs t) (λ rs'. Quietly-handle_chunk nodes rs' t)
Quietly-handle_chunk (no_dict ∷ nodes) rs t = Quietly-handle_chunk nodes rs t
