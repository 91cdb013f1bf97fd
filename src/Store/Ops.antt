-- ===== src/Store/Ops.antt =====
-- Every write of conversation.py as one step of the database. A history is a list of such calls,
-- of any instances in any order; a call that fails leaves what its transaction leaves.
pub mod Frames
pub mod Counted
pub mod Numbers
pub mod Held
pub mod Fresh
pub mod Lawful
pub mod Moves
pub mod OneActive
use agentchatbot_v.Prelude.{ℕ, Bool, Option, List, [], ◌∷◌}
use agentchatbot_v.Text.{Text}
use agentchatbot_v.Store.Schema.{Status, Approval, Content, Citation, Event, Db}
use agentchatbot_v.Store.Runs
use agentchatbot_v.Store.Threads
use agentchatbot_v.Store.Threads.{Sent}
use agentchatbot_v.Store.Messages
use agentchatbot_v.Store.Messages.{Draft}
use agentchatbot_v.Store.Events
use agentchatbot_v.Store.Forks

pub data Op : Type 0 where
  create_thread : ℕ → ℕ → Option Text → Option ℕ → Op
  rename_thread : ℕ → Option ℕ → Text → Op
  set_thread_title_if_empty : Option ℕ → Text → Op
  delete_thread : Option ℕ → Op
  next_seq : ℕ → ℕ → Op
  open_run : ℕ → ℕ → ℕ → Option Text → Op
  set_run_status : ℕ → ℕ → Status → Bool → Op
  reconcile_orphan_runs : ℕ → ℕ → Op
  timeout_stale_approvals : ℕ → ℕ → Op
  timeout_stale_runs : ℕ → ℕ → Op
  heartbeat_runs : ℕ → List ℕ → Op
  try_transition : ℕ → ℕ → Status → Status → Bool → Op
  add_message : ℕ → ℕ → ℕ → Draft → Op
  commit_agent_answer : ℕ → ℕ → ℕ → ℕ → Draft → Op
  put_settings : Text → Sent → Sent → Sent → Op
  add_summary : ℕ → ℕ → Option ℕ → Option ℕ → Text → Op
  set_tool_result : ℕ → Text → Content → Op
  mark_partial_approval : ℕ → List Text → Content → Op
  resolve_orphan_tool_cells : ℕ → Content → Op
  set_pending_approval : ℕ → Approval → Op
  append_run_event : ℕ → ℕ → ℕ → ℕ → Event → Op
  gc_run_events : ℕ → ℕ → Op
  gc_orphan_checkpoints : Op
  freeze_citation : Citation → Op
  fork_thread : ℕ → ℕ → ℕ → ℕ → Option Text → Op

unfoldable pub apply : Op → Db → Db
apply (create_thread t now title owner) db = (Threads.create_thread t now title owner db).1
apply (rename_thread now t title) db = (Threads.rename_thread now t title db).1
apply (set_thread_title_if_empty t title) db = (Threads.set_thread_title_if_empty t title db).1
apply (delete_thread t) db = (Threads.delete_thread t db).1
apply (next_seq now t) db = (Threads.next_seq now t db).1
apply (open_run r now t model) db = (Runs.open_run r now t model db).1
apply (set_run_status now r to ended) db = (Runs.set_run_status now r to ended db).1
apply (reconcile_orphan_runs now secs) db = (Runs.reconcile_orphan_runs now secs db).1
apply (timeout_stale_approvals now ttl) db = (Runs.timeout_stale_approvals now ttl db).1
apply (timeout_stale_runs now ttl) db = (Runs.timeout_stale_runs now ttl db).1
apply (heartbeat_runs now ids) db = (Runs.heartbeat_runs now ids db).1
apply (try_transition now r from to ended) db = (Runs.try_transition now r from to ended db).1
apply (add_message mid now t d) db = (Messages.add_message mid now t d db).1
apply (commit_agent_answer mid now t r d) db = (Messages.commit_agent_answer mid now t r d db).1
apply (put_settings scope m s th) db = (Threads.put_settings scope m s th db).1
apply (add_summary sid t from to content) db = (Threads.add_summary sid t from to content db).1
apply (set_tool_result r call result) db = (Messages.set_tool_result r call result db).1
apply (mark_partial_approval r ids m) db = (Messages.mark_partial_approval r ids m db).1
apply (resolve_orphan_tool_cells r m) db = (Messages.resolve_orphan_tool_cells r m db).1
apply (set_pending_approval r state) db = (Messages.set_pending_approval r state db).1
apply (append_run_event now t r seq e) db = (Events.append_run_event now t r seq e db).1
apply (gc_run_events now secs) db = (Events.gc_run_events now secs db).1
apply gc_orphan_checkpoints db = (Threads.gc_orphan_checkpoints db).1
apply (freeze_citation c) db = (Messages.freeze_citation c db).1
apply (fork_thread tid now t fp title) db = (Forks.fork_thread tid now t fp title db).1

unfoldable pub history : List Op → Db → Db
unfolding apply
history [] db = db
history (op ∷ ops) db = history ops (apply op db)
