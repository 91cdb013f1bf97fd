-- ===== src/Examples/Histories.antt =====
-- The theorems about the repository at work on a sample conversation.
use agentchatbot_v.Prelude.{
  ℕ, ◌+◌, ◌<◌, ◌&&◌, ◌≡◌, refl, ◌⊎◌, true, false, none, some, List, [], ◌∷◌, ◌==◌, arith, exists,
  first, map,
}
use agentchatbot_v.Text.{codes}
use agentchatbot_v.Store.Schema.{Status, Content, fk_violation, ok, err}
use agentchatbot_v.Store.Runs.{
  open_run, set_run_status, find_run, move, try_transition, reconcile_orphan_runs, sweep,
  is_stale_run, interrupted_tool,
}
use agentchatbot_v.Store.Threads.{delete_thread, points_into}
use agentchatbot_v.Store.Messages.{
  Draft, add_message, answer, commit_agent_answer, is_open_in, mark_partial_approval,
  resolve_orphan_tool_cells,
}
use agentchatbot_v.Store.Events.{is_event, gc_run_events}
use agentchatbot_v.Store.Lifecycle.{in_status, moved_if, try_transition_lem}
use agentchatbot_v.Store.Races.{try_transition_once, resumed_run_swept}
use agentchatbot_v.Store.Approval.{
  judged, mark_partial_approval_lem, resolve_orphan_tool_cells_settles, sweep_settles,
}
use agentchatbot_v.Store.Deletion.{IsGone, KeepsOthers, delete_thread_lem, gc_run_events_spares}
use agentchatbot_v.Store.Posting.{Outcome, commit_agent_answer-Outcome}
use agentchatbot_v.Store.Ops.{Op, history}
use agentchatbot_v.Store.Ops.Lawful.{IsLawful}
use agentchatbot_v.Store.Ops.OneActive.{history-IsLawful}
use agentchatbot_v.Store.Ops.Numbers.{Holds}
use agentchatbot_v.Store.Ops.Fresh.{Numbered, history-add_message}
use agentchatbot_v.Examples.Sample.{sample_row, run_in, busy, waiting}

busy-IsLawful : IsLawful busy.runs
busy-IsLawful = record { keyed = (refl, (refl, tt)); one_active = λ t. ground arith }

abbrev writes : List Op
writes =
    Op.open_run 11 130 1 none
    ∷ Op.try_transition 131 10 Status.running Status.error true
    ∷ Op.open_run 11 132 1 none
    ∷ Op.set_run_status 133 10 Status.running false
    ∷ []

history-IsLawful_example : IsLawful (history writes busy).runs
history-IsLawful_example = history-IsLawful writes busy busy-IsLawful

commit_agent_answer-Outcome_example :
    Outcome 30 130 1 10 (answer 10 (codes "!") (codes "ab-1" ∷ []) (some 20) none) busy (
      commit_agent_answer 30 130 1 10
        (answer 10 (codes "!") (codes "ab-1" ∷ []) (some 20) none)
        busy)
commit_agent_answer-Outcome_example =
    commit_agent_answer-Outcome 30 130 1 10
      (answer 10 (codes "!") (codes "ab-1" ∷ []) (some 20) none) busy (refl, (refl, tt))

try_transition_lem_example :
    let (won, db') = try_transition 130 10 Status.running Status.interrupted true busy in
    let was = in_status Status.running (find_run 10 busy) in
    (won ≡ ok was)
    × ((q : ℕ)
        → find_run q db' ≡ moved_if (was && q == 10) 130 Status.interrupted true (find_run q busy))
try_transition_lem_example =
    try_transition_lem busy 130 10 Status.running Status.interrupted true (refl, (refl, tt)) refl

waiting-IsLawful : IsLawful waiting.runs
waiting-IsLawful = record { keyed = (refl, (refl, tt)); one_active = λ t. ground arith }

-- A resume and a rejection of the same run.
try_transition_once_example :
    let (won, db') = try_transition 130 10 Status.awaiting_approval Status.running false waiting in
    let (again, db'') = try_transition 131 10 Status.awaiting_approval Status.rejected true db' in
    (won ≡ ok (in_status Status.awaiting_approval (find_run 10 waiting)))
    × (again ≡ ok false)
    × (db'' ≡ db')
try_transition_once_example =
    try_transition_once waiting 130 131 10 Status.awaiting_approval Status.running Status.rejected
      false true waiting-IsLawful refl refl

delete_thread_lem_example :
    ((exists (points_into 1 busy) busy.messages ≡ true)
      × (delete_thread (some 1) busy ≡ (err fk_violation, busy)))
    ⊎ (IsGone 1 (delete_thread (some 1) busy).1
        × KeepsOthers 1 busy (delete_thread (some 1) busy).1)
delete_thread_lem_example = delete_thread_lem 1 busy

abbrev marker : Content
marker = Content.str (codes "rejected")

mark_partial_approval_lem_example : mark_partial_approval 10 (codes "a" ∷ []) marker waiting ≡ (
  ok tt,
  record waiting { messages = map (judged 10 (codes "a" ∷ []) marker) waiting.messages },
)
mark_partial_approval_lem_example = mark_partial_approval_lem 10 (codes "a" ∷ []) marker waiting

resolve_orphan_tool_cells_settles_example :
    let (_, db') = resolve_orphan_tool_cells 10 interrupted_tool busy in
    (exists (is_open_in 10) db'.messages ≡ false)
    × (resolve_orphan_tool_cells 10 marker db' ≡ (ok tt, db'))
resolve_orphan_tool_cells_settles_example =
    resolve_orphan_tool_cells_settles 10 interrupted_tool marker busy

sweep_settles_example :
    exists (is_open_in 10) (sweep 300 (is_stale_run 300 90) busy).1.messages ≡ false
sweep_settles_example = sweep_settles 300 (is_stale_run 300 90) 10 busy refl

gc_run_events_spares_example :
    first (is_event 10 1) (gc_run_events 900 10 busy).1.events ≡ first (is_event 10 1) busy.events
gc_run_events_spares_example =
    gc_run_events_spares busy 900 10 10 1 (run_in 10 Status.running none) (refl, (refl, tt))
      (sample_row Status.running none) refl

old_beat : 115 + 90 < 1000
old_beat = ground arith

resumed_run_swept_example :
    let (_, db') = try_transition 999 10 Status.awaiting_approval Status.running false waiting in
    find_run 10 (reconcile_orphan_runs 1000 90 db').1
    ≡ some (
        move 1000 Status.error true
          (move 999 Status.running false (run_in 10 Status.awaiting_approval none)))
resumed_run_swept_example =
    resumed_run_swept waiting 999 1000 90 10 (run_in 10 Status.awaiting_approval none)
      (sample_row Status.awaiting_approval none) refl refl old_beat

busy-Holds : Holds busy
busy-Holds = (omega arith, (omega arith, (omega arith, tt)))

abbrev reply : Draft
reply = answer 10 (codes "!") (codes "ab-1" ∷ []) (some 20) none

history-add_message_example :
    Numbered 1 (history writes busy) (add_message 30 140 1 reply (history writes busy))
unfolding history open_run try_transition set_run_status
history-add_message_example = history-add_message writes busy 30 140 1 reply busy-Holds refl
