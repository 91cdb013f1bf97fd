-- ===== src/Store/Ops/OneActive.antt =====
-- A thread has at most one active run, whatever the instances do.
use agentchatbot_v.Prelude.{
  ℕ, ◌≡◌, refl, inl, inr, Bool, true, false, ◌&&◌, Option, none, some, List, [], ◌∷◌, ◌==◌, arith,
  update, exists, count, Bool-cases, update_of_none,
}
use agentchatbot_v.Store.Schema.{Status, Run, Db, Result, ok, err}
use agentchatbot_v.Store.Runs.{
  is_active, is_run, move, is_run_in, clashes, try_transition, set_run_status, sweep,
  heartbeat_runs,
}
use agentchatbot_v.Store.Runs.{
  is_stale_run, is_stale_approval, reconcile_orphan_runs, timeout_stale_approvals,
  timeout_stale_runs,
}
use agentchatbot_v.Store.Threads.{delete_thread, points_into}
use agentchatbot_v.Store.Messages.{Draft, commit_agent_answer, committed, complete, post}
use agentchatbot_v.Store.Ops.{Op, apply, history}
use agentchatbot_v.Store.Ops.Frames.{
  runs-next_seq, runs-add_message, runs-post, runs-create_thread, runs-rename_thread,
  runs-set_thread_title_if_empty, runs-put_settings, runs-add_summary, runs-set_tool_result,
  runs-mark_partial_approval, runs-resolve_orphan_tool_cells, runs-set_pending_approval,
  runs-freeze_citation, runs-append_run_event, runs-gc_run_events, runs-gc_orphan_checkpoints,
  runs-fork_thread,
}
use agentchatbot_v.Store.Ops.Lawful.{IsLawful, update-IsLawful, remove-IsLawful}
use agentchatbot_v.Store.Ops.Moves.{open_run-IsLawful, move-IsLawful}

update_if :
    (r : ℕ) (from : Status) (now : ℕ) (to : Status) (ended : Bool) (db : Db)
    → (exists (is_run_in r from) db.runs && (is_active to && clashes r db)) ≡ false
    → IsLawful db.runs
    → IsLawful (update (is_run_in r from) (move now to ended) db.runs)
update_if r from now to ended db h v = elim (Bool-cases (exists (is_run_in r from) db.runs)) [
  | inl e ↦ move-IsLawful now r to ended (is_run_in r from) db (λ x m. ground arith) (rw e at h) v
  | inr e ↦ rw (update_of_none (is_run_in r from) (move now to ended) db.runs e) v
]

pub try_transition-IsLawful :
    (now r : ℕ) (from to : Status) (ended : Bool) (db : Db)
    → IsLawful db.runs
    → IsLawful (try_transition now r from to ended db).1.runs
unfolding try_transition
try_transition-IsLawful now r from to ended db v =
    elim (Bool-cases (exists (is_run_in r from) db.runs && (is_active to && clashes r db))) [
      | inl e ↦ rw e v
      | inr e ↦ rw e (update_if r from now to ended db e v)
    ]

pub set_run_status-IsLawful :
    (now r : ℕ) (to : Status) (ended : Bool) (db : Db)
    → IsLawful db.runs
    → IsLawful (set_run_status now r to ended db).1.runs
unfolding set_run_status
set_run_status-IsLawful now r to ended db v = elim (Bool-cases (is_active to && clashes r db)) [
  | inl e ↦ rw e v
  | inr e ↦ rw e (move-IsLawful now r to ended (is_run r) db (λ x h. h) e v)
]

pub sweep-IsLawful :
    (now : ℕ) (stale : Run → Bool) (db : Db)
    → IsLawful db.runs
    → IsLawful (sweep now stale db).1.runs
unfolding sweep
sweep-IsLawful now stale db v =
    update-IsLawful stale (move now Status.error true) db.runs (λ x. refl) (λ t x _ a. ground arith)
      v

pub heartbeat_runs-IsLawful :
    (now : ℕ) (ids : List ℕ) (db : Db)
    → IsLawful db.runs
    → IsLawful (heartbeat_runs now ids db).1.runs
unfolding heartbeat_runs
heartbeat_runs-IsLawful now [] db v = v
heartbeat_runs-IsLawful now (i ∷ ids) db v =
    update-IsLawful _ _ db.runs (λ x. refl) (λ t x _ a. a) v

committed-IsLawful :
    (db : Db) (x : Result (ℕ × ℕ) × Db)
    → IsLawful db.runs
    → IsLawful x.1.runs
    → IsLawful (committed db x).1.runs
committed-IsLawful db (ok at, db') v w = w
committed-IsLawful db (err e, db') v w = v

pub commit_agent_answer-IsLawful :
    (mid now t r : ℕ) (d : Draft) (db : Db)
    → IsLawful db.runs
    → IsLawful (commit_agent_answer mid now t r d db).1.runs
unfolding commit_agent_answer
commit_agent_answer-IsLawful mid now t r d db v =
    elim (Bool-cases (count (is_run_in r Status.running) db.runs == 1)) [
      | inr e ↦ rw e v
      | inl e ↦ rw e (
          committed-IsLawful db (post mid now t d (complete now r db)) v
            (rw (runs-post mid now t d (complete now r db)) completed))
    ]
  where
    completed : IsLawful (complete now r db).runs
    completed =
        update-IsLawful (is_run_in r Status.running) (move now Status.completed true) db.runs
          (λ x. refl) (λ t x _ a. ground arith) v

pub delete_thread-IsLawful :
    (t : Option ℕ) (db : Db) → IsLawful db.runs → IsLawful (delete_thread t db).1.runs
unfolding delete_thread
delete_thread-IsLawful none db v = v
delete_thread-IsLawful (some t) db v = elim (Bool-cases (exists (points_into t db) db.messages)) [
  | inl e ↦ rw e v
  | inr e ↦ rw e (remove-IsLawful (λ run. run.thread_id == t) db.runs v)
]

apply-IsLawful : (op : Op) (db : Db) → IsLawful db.runs → IsLawful (apply op db).runs
unfolding apply reconcile_orphan_runs timeout_stale_approvals timeout_stale_runs
apply-IsLawful (Op.open_run r now t model) db v = open_run-IsLawful r now t model db v
apply-IsLawful (Op.set_run_status now r to ended) db v = set_run_status-IsLawful now r to ended db v
apply-IsLawful (Op.try_transition now r from to ended) db v =
    try_transition-IsLawful now r from to ended db v
apply-IsLawful (Op.reconcile_orphan_runs now secs) db v =
    sweep-IsLawful now (is_stale_run now secs) db v
apply-IsLawful (Op.timeout_stale_approvals now ttl) db v =
    sweep-IsLawful now (is_stale_approval now ttl) db v
apply-IsLawful (Op.timeout_stale_runs now ttl) db v = sweep-IsLawful now (is_stale_run now ttl) db v
apply-IsLawful (Op.heartbeat_runs now ids) db v = heartbeat_runs-IsLawful now ids db v
apply-IsLawful (Op.delete_thread t) db v = delete_thread-IsLawful t db v
apply-IsLawful (Op.commit_agent_answer mid now t r d) db v =
    commit_agent_answer-IsLawful mid now t r d db v
apply-IsLawful (Op.add_message mid now t d) db v = rw (runs-add_message mid now t d db) v
apply-IsLawful (Op.next_seq now t) db v = rw (runs-next_seq now t db) v
apply-IsLawful (Op.create_thread t now title owner) db v =
    rw (runs-create_thread t now title owner db) v
apply-IsLawful (Op.rename_thread now t title) db v = rw (runs-rename_thread now t title db) v
apply-IsLawful (Op.set_thread_title_if_empty t title) db v =
    rw (runs-set_thread_title_if_empty t title db) v
apply-IsLawful (Op.put_settings scope m s th) db v = rw (runs-put_settings scope m s th db) v
apply-IsLawful (Op.add_summary sid t from to content) db v =
    rw (runs-add_summary sid t from to content db) v
apply-IsLawful (Op.set_tool_result r call result) db v =
    rw (runs-set_tool_result r call result db) v
apply-IsLawful (Op.mark_partial_approval r ids m) db v =
    rw (runs-mark_partial_approval r ids m db) v
apply-IsLawful (Op.resolve_orphan_tool_cells r m) db v =
    rw (runs-resolve_orphan_tool_cells r m db) v
apply-IsLawful (Op.set_pending_approval r state) db v = rw (runs-set_pending_approval r state db) v
apply-IsLawful (Op.freeze_citation c) db v = rw (runs-freeze_citation c db) v
apply-IsLawful (Op.append_run_event now t r seq e) db v =
    rw (runs-append_run_event now t r seq e db) v
apply-IsLawful (Op.gc_run_events now secs) db v = rw (runs-gc_run_events now secs db) v
apply-IsLawful Op.gc_orphan_checkpoints db v = rw (runs-gc_orphan_checkpoints db) v
apply-IsLawful (Op.fork_thread tid now t fp title) db v =
    rw (runs-fork_thread tid now t fp title db) v

-- From a database whose runs have distinct keys and in which no thread has two active runs, any
-- sequence of repository calls, of any instances and whether they succeed or fail, leads to such a
-- database.
pub history-IsLawful : (ops : List Op) (db : Db) → IsLawful db.runs → IsLawful (history ops db).runs
unfolding history
history-IsLawful [] db v = v
history-IsLawful (op ∷ ops) db v = history-IsLawful ops (apply op db) (apply-IsLawful op db v)
