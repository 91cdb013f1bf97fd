-- ===== src/Run/Settled/Stops.antt =====
-- The status of a run after the branches that stop its drive.
use agentchatbot_v.Prelude.{
  ℕ, ◌≡◌, refl, ap, ◌∙◌, true, false, Option, none, some, List, [], arith, ◌==◌, first,
  first-update, map_row, change, first_holds, inl, inr, Bool-cases,
}
use agentchatbot_v.Text.{Text}
use agentchatbot_v.Store.Schema.{Status, same_status, Approval, Event, Run, Result, ok, err}
use agentchatbot_v.Store.Runs.{
  is_run, is_active, clashes, move, find_run, try_transition, set_run_status, interrupted_tool,
}
use agentchatbot_v.Store.Lifecycle.{in_status}
use agentchatbot_v.Store.Messages.{resolve_orphan_tool_cells}
use agentchatbot_v.Store.Ops.Frames.{runs-set_pending_approval, runs-resolve_orphan_tool_cells}
use agentchatbot_v.Run.World.{World, call, ask}
use agentchatbot_v.Run.Alone.{call_alone}
use agentchatbot_v.Run.Chat.{interrupt_detail}
use agentchatbot_v.Run.Drive.{failure_notice, stop_cancelled, pause, fail_run}
use agentchatbot_v.Run.Settled.Chunks.{
  KeepsRuns, KeepsRuns-bind, KeepsRuns-call, KeepsRuns-emit, Ensures-pure, Ensures-if,
}
use agentchatbot_v.Run.Settled.Ends.{
  try_transition-Rests, Settles, SettlesOnOk, Settles-then, SettlesOnOk-then, then-SettlesOnOk,
}

-- The compare-and-set as a call.
pub transition-Settles :
    (r : ℕ) (to : Status) (w : World)
    → same_status to Status.running ≡ false
    → is_active to ≡ false
    → w.turns ≡ []
    → Settles r (call (λ now. try_transition now r Status.running to true) w)
transition-Settles r to w s a h =
    rw (call_alone (λ now. try_transition now r Status.running to true) w h)
      record { still = h; rests = try_transition-Rests w.now r to true w.db s a }

KeepsRuns-resolve : (r : ℕ) → KeepsRuns (call (λ now. resolve_orphan_tool_cells r interrupted_tool))
KeepsRuns-resolve r = KeepsRuns-call _ λ now. runs-resolve_orphan_tool_cells r interrupted_tool

-- `except Exception` brings the run to rest, whatever fails in it.
pub fail_run-Settles : (r t : ℕ) (w : World) → w.turns ≡ [] → Settles r (fail_run r t w)
unfolding fail_run
fail_run-Settles r t w h =
    Settles-then r (call (λ now. try_transition now r Status.running Status.error true)) _ w
      (transition-Settles r Status.error w refl refl h)
      (λ won.
        Ensures-if _ won _ _
          (KeepsRuns-bind _ _ _ (KeepsRuns-resolve r)
            (λ _. KeepsRuns-emit (Event.error failure_notice []) t))
          (Ensures-pure _ tt tt))

pub of_Settles : {A : Type 0} (r : ℕ) (x : Result A × World) → Settles r x → SettlesOnOk r x
of_Settles r (ok a, w) s = record { still = s.still; rests = s.rests }
of_Settles r (err e, w) s = record { still = s.still; rests = tt }

pub stop_cancelled-Settles :
    (r t : ℕ) (w : World) → w.turns ≡ [] → SettlesOnOk r (stop_cancelled r t w)
unfolding stop_cancelled
stop_cancelled-Settles r t w h =
    then-SettlesOnOk r (call (λ now. resolve_orphan_tool_cells r interrupted_tool)) _ w h
      (KeepsRuns-resolve r)
      (λ _ w' h'. of_Settles r _ (
        Settles-then r (call (λ now. try_transition now r Status.running Status.interrupted true)) _
          w' (transition-Settles r Status.interrupted w' refl refl h')
          (λ won.
            Ensures-if _ won _ _ (KeepsRuns-emit (Event.run_done r (some Status.interrupted)) t)
              (Ensures-pure _ tt tt))))

waits :
    (r now : ℕ) (o : Option Run)
    → ((run : Run) → o ≡ some run → (run.id == r) ≡ true)
    → in_status Status.running
        (map_row (change (is_run r) (move now Status.awaiting_approval false)) o)
      ≡ false
waits r now none k = refl
waits r now (some run) k = ground (arith, k run refl)

set_waiting :
    (r : ℕ) (w : World)
    → w.turns ≡ []
    → SettlesOnOk r (call (λ now. set_run_status now r Status.awaiting_approval false) w)
unfolding set_run_status find_run
set_waiting r w h =
    rw (call_alone (λ now. set_run_status now r Status.awaiting_approval false) w h)
      (elim (Bool-cases (clashes r w.db)) [
        | inl e ↦ rw e (record { still = h; rests = tt })
        | inr e ↦ rw e (record {
          still = h;
          rests =
              ap (in_status Status.running) (
                first-update (is_run r) (is_run r) (move w.now Status.awaiting_approval false)
                  w.db.runs (λ x. refl))
              ∙ waits r w.now (first (is_run r) w.db.runs) (first_holds (is_run r) w.db.runs);
        })
      ])

pub pause-Settles :
    (r t : ℕ) (is : List (Option Text)) (w : World) → w.turns ≡ [] → SettlesOnOk r (pause r t is w)
unfolding pause ask
pause-Settles r t is w h =
    SettlesOnOk-then r (call (λ now. set_run_status now r Status.awaiting_approval false)) _ w
      (set_waiting r w h)
      (λ _.
        KeepsRuns-bind _ _ _ (KeepsRuns-call _ λ now. runs-set_pending_approval r Approval.pending)
          (λ _.
            KeepsRuns-bind _ _ _ (KeepsRuns-call _ λ now db. refl)
              (λ tools. KeepsRuns-emit (Event.approval_requested r tools (interrupt_detail is)) t)))
