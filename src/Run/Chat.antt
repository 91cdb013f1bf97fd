-- ===== src/Run/Chat.antt =====
-- What the agent streams: lines 73-98 and 137-185 of run_service.py, and the agent's interface.
-- The graph behind it is LangGraph's, so the streams and the surgery on checkpoints are the
-- fields of a record.
use agentchatbot_v.Prelude.{
  ℕ, Bool, Option, none, some, List, [], ◌∷◌, ◌++◌, ltb, length, take, if◌then◌else◌,
}
use agentchatbot_v.Text.{decimal, Text, codes}
use agentchatbot_v.Store.Schema.{
  Block, Content, Citation, PendingCall, Detail, Result, ok, err, type_error, Message,
}

-- The fields of LawRef (legal_core/src/legal_core/schemas.py) that the service reads.
pub record LawRef : Type 0 where
  pub id : Text
  pub kind : Text
  pub title : Text
  pub ref : Text
  pub snippet : Text
  pub url : Text
  pub uri : Text
  pub resource_id : Text
  pub eff_date : Text
  pub article_text : Text

-- `ToolMessage.artifact`: absent, a dict that came back from a checkpoint, or a live AnswerContext.
pub data Artifact : Type 0 where
  absent : Artifact
  dict : Artifact
  context : List LawRef → Artifact

pub record ChatMessage : Type 0 where
  pub is_tool_message : Bool
  pub tool_calls : List PendingCall
  pub content : Content
  pub tool_call_id : Option Text
  pub artifact : Artifact

-- An update of one node: its messages, or a payload that is no dict.
pub data Node : Type 0 where
  messages : List ChatMessage → Node
  no_dict : Node

pub data Chunk : Type 0 where
  interrupt : List (Option Text) → Chunk
  updates : List Node → Chunk

-- What the next round of `for chunk in stream` finds. `cancel` says whether `request_cancel` was
-- called for the run since the round before.
pub data Item : Type 0 where
  chunk : Chunk → Item
  crash : Item

pub record Round : Type 0 where
  pub cancel : Bool
  pub item : Item

pub record Agent : Type 0 where
  pub stream : Text → ℕ → List Round
  pub resume : ℕ → List Round
  pub approve_partial : Option (ℕ → List Text → Result (List Text))
  pub reject_pending : Option (ℕ → Result (Unit {0}))
  pub fork_state : Option (ℕ → List Message → Result (Unit {0}))
  pub summarize : Text → Result Text

-- _MAX_TOOL_RESULT
abbrev pub max_tool_result : ℕ
max_tool_result = 8000

unfoldable pub truncate_tool_result : Content → Content
truncate_tool_result (Content.str s) =
    if ltb max_tool_result (length s)
    then Content.str (
        take max_tool_result s
        ++ (0x0a ∷ codes "…(표시 생략: 전체 " ++ (decimal (length s) ++ codes "자 — 전문은 인용 참조)")))
    else Content.str s
truncate_tool_result (Content.blocks bs) = Content.blocks bs
truncate_tool_result Content.other = Content.other

block_text : Block → Text
block_text (Block.plain s) = s
block_text (Block.typed_text s) = s
block_text Block.opaque = []

blocks_text : List Block → Text
unfolding block_text
blocks_text [] = []
blocks_text (b ∷ bs) = block_text b ++ blocks_text bs

-- `_text_of`
unfoldable pub text_of : Content → Text
unfolding blocks_text
text_of (Content.str s) = s
text_of (Content.blocks bs) = blocks_text bs
text_of Content.other = []

-- `_articles_of`
unfoldable pub articles_of : Artifact → Result (List LawRef)
articles_of absent = ok []
articles_of dict = err type_error
articles_of (context refs) = ok refs

values_of : List (Option Text) → List Text
values_of [] = []
values_of (none ∷ is) = values_of is
values_of (some v ∷ is) = v ∷ values_of is

to_detail : List Text → Detail
to_detail [] = Detail.required
to_detail (v ∷ []) = Detail.one v
to_detail (v ∷ u ∷ vs) = Detail.many (v ∷ u ∷ vs)

-- `_interrupt_detail`
unfoldable pub interrupt_detail : List (Option Text) → Detail
unfolding values_of to_detail
interrupt_detail is = to_detail (values_of is)

-- `_freeze_payload`
unfoldable pub freeze_payload : LawRef → Citation
freeze_payload r = record {
  id = r.id;
  kind = r.kind;
  title = r.title;
  ref = r.ref;
  snippet = r.snippet;
  url = r.url;
  article_text = r.article_text;
  law_uri = r.uri;
  resource_id = r.resource_id;
  eff_date = r.eff_date;
}
