-- ===== src/Store/Messages.antt =====
-- The message, approval and citation methods of conversation.py (lines 270-368, 420-467, 567-586
-- and 623-638).
use agentchatbot_v.Prelude.{
  ℕ, Bool, true, false, ◌&&◌, ◌||◌, Option, none, some, List, [], ◌∷◌, map, ◌==◌, ltb,
  if◌then◌else◌, select, update, sort_by, exists, count, holds,
}
use agentchatbot_v.Text.{Text, text_eq, holds_text, mem_text}
use agentchatbot_v.Store.Schema.{
  Status, Role, is_user, is_tool, Approval, Content, Message, Citation, Link, PendingCall, Db,
  unique_violation, fk_violation, Result, ok, err, Action, modify, transaction, pure, ◌>>=◌, ◌>>◌,
}
use agentchatbot_v.Store.Runs.{is_run, is_run_in, move, fill, is_open_cell}
use agentchatbot_v.Store.Threads.{is_thread, next_seq}

-- The arguments of `add_message` beside the thread. An explicit `seq` is not modelled: it is drawn
-- from the counter, as for both callers of the method.
pub record Draft : Type 0 where
  pub run_id : Option ℕ
  pub parent_id : Option ℕ
  pub role : Role
  pub content_md : Option Text
  pub tool_name : Option Text
  pub tool_args : Option Text
  pub tool_result : Option Content
  pub approval_state : Option Approval
  pub tool_call_id : Option Text
  pub model : Option Text
  pub citation_ids : List Text

abbrev pub to_row : ℕ → ℕ → ℕ → ℕ → Draft → Message
to_row mid now t seq d = record {
  id = mid;
  thread_id = t;
  run_id = d.run_id;
  seq = seq;
  parent_id = d.parent_id;
  role = d.role;
  content_md = d.content_md;
  tool_name = d.tool_name;
  tool_args = d.tool_args;
  tool_result = d.tool_result;
  approval_state = d.approval_state;
  tool_call_id = d.tool_call_id;
  model = d.model;
  created_at = now;
}

abbrev pub is_message : ℕ → Message → Bool
is_message m row = row.id == m

abbrev known_run : Option ℕ → Db → Bool
known_run none db = true
known_run (some r) db = exists (is_run r) db.runs

abbrev known_parent : Option ℕ → Db → Bool
known_parent none db = true
known_parent (some p) db = exists (is_message p) db.messages

-- PRIMARY KEY (id), UNIQUE (thread_id, seq)
abbrev pub duplicates : ℕ → ℕ → ℕ → Message → Bool
duplicates mid t seq row = row.id == mid || (row.thread_id == t && row.seq == seq)

-- `INSERT INTO messages`, with the constraints of the table
unfoldable pub insert_message : ℕ → ℕ → ℕ → ℕ → Draft → Action (Unit {0})
insert_message mid now t seq d db =
    if exists (duplicates mid t seq) db.messages
    then (err unique_violation, db)
    else if exists (is_thread t) db.threads
        && (known_run d.run_id db && known_parent d.parent_id db)
    then (ok tt, record db { messages = to_row mid now t seq d ∷ db.messages })
    else (err fk_violation, db)

abbrev pub is_citation : Text → Citation → Bool
is_citation c row = text_eq row.id c

abbrev pub is_link : ℕ → Text → Link → Bool
is_link m c l = l.message_id == m && text_eq l.citation_id c

-- `INSERT INTO message_citations ... ON CONFLICT DO NOTHING`
unfoldable pub link_citation : ℕ → Text → Action (Unit {0})
link_citation m c db =
    if exists (is_link m c) db.links
    then (ok tt, db)
    else if exists (is_citation c) db.citations && exists (is_message m) db.messages
    then (ok tt, record db { links = record { message_id = m; citation_id = c } ∷ db.links })
    else (err fk_violation, db)

unfoldable pub link_citations : ℕ → List Text → Action (Unit {0})
unfolding link_citation
link_citations m [] = pure tt
link_citations m (c ∷ cs) = link_citation m c >> link_citations m cs

unfoldable pub link_all : ℕ → List Text → ℕ → Action (ℕ × ℕ)
link_all mid cites seq = link_citations mid cites >> pure (mid, seq)

unfoldable pub insert_and_link : ℕ → ℕ → ℕ → Draft → ℕ → Action (ℕ × ℕ)
insert_and_link mid now t d seq = insert_message mid now t seq d >> link_all mid d.citation_ids seq

-- The body of the transaction of `add_message`: seq, row, links.
unfoldable pub post : ℕ → ℕ → ℕ → Draft → Action (ℕ × ℕ)
post mid now t d = next_seq now t >>= insert_and_link mid now t d

unfoldable pub add_message : ℕ → ℕ → ℕ → Draft → Action (ℕ × ℕ)
add_message mid now t d = transaction (post mid now t d)

-- The row of the answer in `commit_agent_answer`.
abbrev pub answer : ℕ → Text → List Text → Option ℕ → Option Text → Draft
answer rid content cited parent model = record {
  run_id = some rid;
  parent_id = parent;
  role = Role.agent;
  content_md = some content;
  tool_name = none;
  tool_args = none;
  tool_result = none;
  approval_state = none;
  tool_call_id = none;
  model = model;
  citation_ids = cited;
}

abbrev pub complete : ℕ → ℕ → Db → Db
complete now rid db = record db {
  runs = update (is_run_in rid Status.running) (move now Status.completed true) db.runs;
}

-- The end of the transaction: an exception of the second half takes the first half back.
abbrev pub committed : Db → Result (ℕ × ℕ) × Db → Result (Option (ℕ × ℕ)) × Db
committed db (ok at, db') = (ok (some at), db')
committed db (err e, _) = (err e, db)

-- `commit_agent_answer`: the transition and the answer in one transaction. `none` is the rollback
-- by `_RunNotRunning`, which leaves the database as it was.
unfoldable pub commit_agent_answer : ℕ → ℕ → ℕ → ℕ → Draft → Action (Option (ℕ × ℕ))
commit_agent_answer mid now t rid d db =
    if count (is_run_in rid Status.running) db.runs == 1
    then committed db (post mid now t d (complete now rid db))
    else (ok none, db)

-- `get_turn_root`: the user message of the run with the lowest seq
abbrev is_turn_root : ℕ → Message → Bool
is_turn_root r m = holds m.run_id r && is_user m.role

lowest : List Message → Option Message
lowest [] = none
lowest (m ∷ ms) = elim (lowest ms) [
  | none ↦ some m
  | some q ↦ if ltb q.seq m.seq then some q else some m
]

unfoldable pub get_turn_root : ℕ → Db → Option ℕ
unfolding lowest
get_turn_root r db = elim (lowest (select (is_turn_root r) db.messages)) [
  | none ↦ none
  | some m ↦ some m.id
]

abbrev pub is_cell : ℕ → Text → Message → Bool
is_cell r call m = holds m.run_id r && holds_text m.tool_call_id call

unfoldable pub set_tool_result : ℕ → Text → Content → Action (Unit {0})
set_tool_result r call result =
    modify λ db. record db { messages = update (is_cell r call) (fill result) db.messages }

abbrev pub is_open_in : ℕ → Message → Bool
is_open_in r m = holds m.run_id r && is_open_cell m

abbrev named_in : List Text → Option Text → Bool
named_in ids none = false
named_in ids (some c) = mem_text c ids

-- `tool_call_id = ANY(rejected)`, for the tool cells of the run
abbrev pub is_rejected_in : ℕ → List Text → Message → Bool
is_rejected_in r ids m = holds m.run_id r && (is_tool m.role && named_in ids m.tool_call_id)

abbrev pub refuse : Content → Message → Message
refuse marker m = record m { approval_state = some Approval.rejected; tool_result = some marker }

abbrev pub mark : Approval → Message → Message
mark state m = record m { approval_state = some state }

-- `mark_partial_approval`; with no id rejected the first statement changes no row, as when it is
-- skipped
unfoldable pub mark_partial_approval : ℕ → List Text → Content → Action (Unit {0})
mark_partial_approval r rejected marker = transaction do
  modify
      λ db. record db { messages = update (is_rejected_in r rejected) (refuse marker) db.messages }
  modify λ db. record db { messages = update (is_open_in r) (mark Approval.approved) db.messages }

unfoldable pub resolve_orphan_tool_cells : ℕ → Content → Action (Unit {0})
resolve_orphan_tool_cells r marker =
    modify λ db. record db { messages = update (is_open_in r) (fill marker) db.messages }

unfoldable pub set_pending_approval : ℕ → Approval → Action (Unit {0})
set_pending_approval r state =
    modify λ db. record db { messages = update (is_open_in r) (mark state) db.messages }

-- `ORDER BY seq`
abbrev pub earlier : Message → Message → Bool
earlier m q = ltb m.seq q.seq

abbrev to_call : Message → PendingCall
to_call m = record { id = m.tool_call_id; name = m.tool_name; args = m.tool_args }

unfoldable pub get_pending_tool_calls : ℕ → Db → List PendingCall
unfolding sort_by
get_pending_tool_calls r db = map to_call (sort_by earlier (select (is_open_in r) db.messages))

-- `freeze_citation`: ON CONFLICT (id) DO NOTHING
unfoldable pub freeze_citation : Citation → Action (Unit {0})
freeze_citation c db =
    if exists (is_citation c.id) db.citations
    then (ok tt, db)
    else (ok tt, record db { citations = c ∷ db.citations })
