-- ===== src/Store/Ops/Held.antt =====
-- No call of the repository lets a message rise above the counter of its thread.
use agentchatbot_v.Prelude.{
  ℕ, refl, sym, subst, Bool, List, [], ◌∷◌, ◌==◌, arith, update, inl, inr, Bool-cases, count,
}
use agentchatbot_v.Store.Schema.{Status, Approval, Run, Db, Result, ok, err, rolled_back}
use agentchatbot_v.Store.Runs.{
  fill, sweep, open_run, set_run_status, try_transition, heartbeat_runs, reconcile_orphan_runs,
  timeout_stale_approvals, timeout_stale_runs, is_run_in,
}
use agentchatbot_v.Store.Runs.{is_stale_run, is_stale_approval}
use agentchatbot_v.Store.Threads.{next_seq, put_settings, add_summary, gc_orphan_checkpoints}
use agentchatbot_v.Store.Messages.{
  Draft, is_cell, is_open_in, is_rejected_in, refuse, mark, post, add_message, commit_agent_answer,
  committed, complete, set_tool_result, mark_partial_approval, resolve_orphan_tool_cells,
  set_pending_approval, freeze_citation,
}
use agentchatbot_v.Store.Events.{append_run_event, gc_run_events}
use agentchatbot_v.Store.Ops.{Op, apply, history}
use agentchatbot_v.Store.Ops.Counted.{IsCounted-rows}
use agentchatbot_v.Store.Ops.Numbers.{
  Holds, After, Drawn, next_seq-Drawn, create_thread-Holds, fork_thread-Holds, delete_thread-Holds,
  rename_thread-Holds, set_title-Holds, post-Holds,
}

rolled_back-Holds :
    {A : Type 0} (db : Db) (x : Result A × Db) → Holds db → After x → After (rolled_back db x)
rolled_back-Holds db (ok a, db') h k = k
rolled_back-Holds db (err e, db') h k = h

committed-Holds : (db : Db) (x : Result (ℕ × ℕ) × Db) → Holds db → After x → After (committed db x)
committed-Holds db (ok at, db') h k = k
committed-Holds db (err e, db') h k = h

sweep-Holds : (now : ℕ) (stale : Run → Bool) (db : Db) → Holds db → Holds (sweep now stale db).1
unfolding sweep
sweep-Holds now stale db h =
    IsCounted-rows _ (fill _) db.threads db.messages (λ m. refl) (λ m. refl) h

commit_agent_answer-Holds :
    (mid now t r : ℕ) (d : Draft) (db : Db)
    → Holds db
    → Holds (commit_agent_answer mid now t r d db).1
unfolding commit_agent_answer
commit_agent_answer-Holds mid now t r d db h =
    elim (Bool-cases (count (is_run_in r Status.running) db.runs == 1)) [
      | inl e ↦ rw e (
          committed-Holds db (post mid now t d (complete now r db)) h
            (post-Holds mid now t d (complete now r db) h))
      | inr e ↦ rw e h
    ]

-- The methods that touch neither threads nor the order of messages.
apply-Holds : (op : Op) (db : Db) → Holds db → Holds (apply op db)
unfolding apply add_message open_run set_run_status try_transition heartbeat_runs
    reconcile_orphan_runs timeout_stale_approvals timeout_stale_runs put_settings add_summary
    set_tool_result mark_partial_approval resolve_orphan_tool_cells set_pending_approval
    append_run_event gc_run_events gc_orphan_checkpoints freeze_citation
apply-Holds (Op.create_thread t now title owner) db h = create_thread-Holds t now title owner db h
apply-Holds (Op.rename_thread now t title) db h = rename_thread-Holds now t title db h
apply-Holds (Op.set_thread_title_if_empty t title) db h = set_title-Holds t title db h
apply-Holds (Op.delete_thread t) db h = delete_thread-Holds t db h
apply-Holds (Op.next_seq now t) db h = drawn (next_seq now t db) (next_seq-Drawn now t db h)
  where
    drawn : (x : Result ℕ × Db) → Drawn t db x → After x
    drawn (ok seq, db') k = k.1
    drawn (err e, db') k = subst Holds (sym k) h
apply-Holds (Op.fork_thread tid now t fp title) db h = fork_thread-Holds tid now t fp title db h
apply-Holds (Op.add_message mid now t d) db h =
    rolled_back-Holds db (post mid now t d db) h (post-Holds mid now t d db h)
apply-Holds (Op.commit_agent_answer mid now t r d) db h =
    commit_agent_answer-Holds mid now t r d db h
apply-Holds (Op.open_run r now t model) db h = ground arith
apply-Holds (Op.set_run_status now r to ended) db h = ground arith
apply-Holds (Op.try_transition now r from to ended) db h = ground arith
apply-Holds (Op.heartbeat_runs now []) db h = h
apply-Holds (Op.heartbeat_runs now (r ∷ ids)) db h = h
apply-Holds (Op.reconcile_orphan_runs now secs) db h = sweep-Holds now (is_stale_run now secs) db h
apply-Holds (Op.timeout_stale_approvals now ttl) db h =
    sweep-Holds now (is_stale_approval now ttl) db h
apply-Holds (Op.timeout_stale_runs now ttl) db h = sweep-Holds now (is_stale_run now ttl) db h
apply-Holds (Op.put_settings scope m s th) db h = ground arith
apply-Holds (Op.add_summary sid t from to content) db h = ground arith
apply-Holds (Op.set_tool_result r call result) db h =
    IsCounted-rows (is_cell r call) (fill result) db.threads db.messages (λ m. refl) (λ m. refl) h
apply-Holds (Op.mark_partial_approval r ids m) db h =
    IsCounted-rows (is_open_in r) (mark Approval.approved) db.threads
      (update (is_rejected_in r ids) (refuse m) db.messages) (λ m. refl) (λ m. refl)
      (IsCounted-rows (is_rejected_in r ids) (refuse m) db.threads db.messages (λ m. refl)
        (λ m. refl) h)
apply-Holds (Op.resolve_orphan_tool_cells r m) db h =
    IsCounted-rows (is_open_in r) (fill m) db.threads db.messages (λ m. refl) (λ m. refl) h
apply-Holds (Op.set_pending_approval r state) db h =
    IsCounted-rows (is_open_in r) (mark state) db.threads db.messages (λ m. refl) (λ m. refl) h
apply-Holds (Op.append_run_event now t r seq e) db h = ground arith
apply-Holds (Op.gc_run_events now secs) db h = h
apply-Holds Op.gc_orphan_checkpoints db h = h
apply-Holds (Op.freeze_citation c) db h = ground arith

pub history-Holds : (ops : List Op) (db : Db) → Holds db → Holds (history ops db)
unfolding history
history-Holds [] db h = h
history-Holds (op ∷ ops) db h = history-Holds ops (apply op db) (apply-Holds op db h)
