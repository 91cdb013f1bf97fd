-- ===== src/Agent/Checkpoint.antt =====
-- What the agent does to the messages of a checkpoint: `reject_pending`, `clear_interrupted_tools`,
-- `approve_partial` and `fork_state` of agent/src/agent_app/core/agent.py (lines 82-197). The
-- messages are those of `get_state`, and the result is the update that the code hands to the
-- graph's `update_state`, `none` where it calls none.
use agentchatbot_v.Prelude.{
  ℕ, ◌+◌, Bool, true, false, ◌&&◌, not, Option, none, some, List, [], ◌∷◌, if◌then◌else◌, select,
  remove, first, take, reverse,
}
use agentchatbot_v.Text.{Text, mem_text}
use agentchatbot_v.Store.Schema.{Content, PendingCall, Role, Message}

-- The classes of LangChain's messages that the code tells apart.
pub data Kind : Type 0 where
  human ai tool : Kind

pub record LcMessage : Type 0 where
  pub kind : Kind
  pub id : Option Text
  pub content : Content
  pub tool_calls : List PendingCall

-- A message that the code builds from a content alone.
pub data Turn : Type 0 where
  question : Content → Turn
  answer : Content → Turn

-- RemoveMessage of one id; an AIMessage under an id that is there; REMOVE_ALL_MESSAGES and messages
-- after it; messages alone.
pub data Update : Type 0 where
  remove_one : Text → Update
  replace : Option Text → Content → List PendingCall → Update
  rebuild : List Turn → Update
  add : List Turn → Update

abbrev no_calls : List PendingCall → Bool
no_calls [] = true
no_calls (_ ∷ _) = false

abbrev pub has_calls : LcMessage → Bool
has_calls m = not (no_calls m.tool_calls)

-- `next((m for m in reversed(msgs) if m.tool_calls), None)`
unfoldable pub pending_in : List LcMessage → Option LcMessage
pending_in msgs = first has_calls (reverse msgs)

abbrev pub removal : Option Text → Option Update
removal none = none
removal (some []) = none
removal (some (c ∷ s)) = some (remove_one (c ∷ s))

unfoldable pub reject_pending : List LcMessage → Option Update
unfolding pending_in
reject_pending msgs = elim (pending_in msgs) [ none ↦ none | some m ↦ removal m.id ]

abbrev pub is_human : LcMessage → Bool
is_human m = elim m.kind [ Kind.human ↦ true | Kind.ai ↦ false | Kind.tool ↦ false ]

-- A finished answer: an AIMessage without tool calls.
abbrev pub is_answer : LcMessage → Bool
is_answer m =
    (elim m.kind [ Kind.human ↦ false | Kind.ai ↦ true | Kind.tool ↦ false ]) && not (has_calls m)

-- The loop that finds `cut`, at index `i`.
unfoldable pub cut_from : ℕ → ℕ → List LcMessage → ℕ
cut_from i cut [] = cut
cut_from i cut (m ∷ ms) = cut_from (i + 1) (if is_answer m then i + 1 else cut) ms

-- The loop that fills `prefix`.
unfoldable pub turns_of : List LcMessage → List Turn
turns_of [] = []
turns_of (m ∷ ms) =
    let rest = turns_of ms in
    if is_human m
    then question m.content ∷ rest
    else if is_answer m
    then answer m.content ∷ rest
    else rest

-- A prefix without a message keeps the first question as an anchor.
abbrev pub anchored : Option LcMessage → List Turn → Option Update
anchored none [] = none
anchored (some m) [] = some (rebuild (question m.content ∷ []))
anchored o (t ∷ ts) = some (rebuild (t ∷ ts))

abbrev pub is_some_message : Option LcMessage → Bool
is_some_message none = false
is_some_message (some _) = true

unfoldable pub clear_interrupted_tools : List LcMessage → Option Update
unfolding cut_from turns_of
clear_interrupted_tools msgs =
    if is_some_message (first has_calls msgs)
    then anchored (first is_human msgs) (turns_of (take (cut_from 0 0 msgs) msgs))
    else none

abbrev pub names_approved : List Text → Option Text → Bool
names_approved approved none = false
names_approved approved (some t) = mem_text t approved

abbrev pub is_approved : List Text → PendingCall → Bool
is_approved approved c = names_approved approved c.id

abbrev pub ids_of_calls : List PendingCall → List (Option Text)
ids_of_calls [] = []
ids_of_calls (c ∷ cs) = c.id ∷ ids_of_calls cs

abbrev pub split_pending :
    List LcMessage
    → LcMessage
    → List PendingCall
    → List PendingCall
    → List (Option Text) × Option Update
split_pending msgs m [] rejected = (ids_of_calls rejected, reject_pending msgs)
split_pending msgs m (k ∷ ks) [] = ([], none)
split_pending msgs m (k ∷ ks) (r ∷ rs) =
    (ids_of_calls (r ∷ rs), some (replace m.id m.content (k ∷ ks)))

-- The ids that are rejected, and the update.
unfoldable pub approve_partial : List LcMessage → List Text → List (Option Text) × Option Update
unfolding pending_in
approve_partial msgs approved = elim (pending_in msgs) [
  | none ↦ ([], none)
  | some m ↦
      split_pending msgs m (select (is_approved approved) m.tool_calls)
        (remove (is_approved approved) m.tool_calls)
]

abbrev text_or_empty : Option Text → Text
text_or_empty none = []
text_or_empty (some s) = s

abbrev seed_turn : Role → Text → List Turn → List Turn
seed_turn Role.user s rest = question (Content.str s) ∷ rest
seed_turn Role.agent s rest = answer (Content.str s) ∷ rest
seed_turn Role.tool s rest = rest

unfoldable pub seeds : List Message → List Turn
seeds [] = []
seeds (m ∷ ms) = seed_turn m.role (text_or_empty m.content_md) (seeds ms)

abbrev added : List Turn → Option Update
added [] = none
added (t ∷ ts) = some (add (t ∷ ts))

unfoldable pub fork_state : List Message → Option Update
unfolding seeds
fork_state ms = added (seeds ms)
