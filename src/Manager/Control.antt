-- ===== src/Manager/Control.antt =====
-- `start`, `resume` and `interrupt` of run_manager.py (lines 108-128 and 171-197).
use agentchatbot_v.Prelude.{ℕ, true, Option, none, some, List, [], ◌∷◌, if◌then◌else◌}
use agentchatbot_v.Text.{Text}
use agentchatbot_v.Store.Schema.{Status, same_status, Event, RunEvent, key_error, value_error}
use agentchatbot_v.Store.Runs.{get_run, get_active_run, try_transition}
use agentchatbot_v.Store.Threads.{next_seq}
use agentchatbot_v.Store.Events.{append_run_event}
use agentchatbot_v.Run.World.{Gen, pure, raise, call, ask, ◌>>=◌, ◌>>◌, request_cancel}
use agentchatbot_v.Run.Service.{RunService, begin_run, interrupt_paused}

-- `_persist` of the first event, the one that the generator has just yielded.
last_event : List RunEvent → Option RunEvent
last_event [] = none
last_event (e ∷ []) = some e
last_event (e ∷ f ∷ es) = last_event (f ∷ es)

abbrev persist_event : ℕ → ℕ → Option RunEvent → Gen (Unit {0})
persist_event t r none = pure tt
persist_event t r (some e) = call (λ now. append_run_event now t r e.seq e.event)

unfoldable pub persist_first : ℕ → ℕ → Gen (Unit {0})
unfolding last_event
persist_first t r w = persist_event t r (last_event w.out) w

-- `start` up to the pump, which then consumes the rest of the generator.
unfoldable pub start : RunService → ℕ → Option Text → Gen ℕ
start svc t model = do r ← begin_run svc t model; persist_first t r; pure r

-- The test of `resume` before the pump starts; the result is the run.
abbrev pub waiting_run : Option (ℕ × Status) → Gen ℕ
waiting_run none = raise value_error
waiting_run (some (r, s)) =
    if same_status s Status.awaiting_approval then pure r else raise value_error

unfoldable pub resume_run : ℕ → Gen ℕ
unfolding ask
resume_run t = do active ← ask (get_active_run t); waiting_run active

unfoldable pub push_terminal : ℕ → ℕ → Gen (Unit {0})
unfolding call
push_terminal r t = do
  seq ← call (λ now. next_seq now t)
  call (λ now. append_run_event now t r seq (Event.run_done r (some Status.interrupted)))

-- The reply of `interrupt`.
pub data Reply : Type 0 where
  interrupting stopped : Reply

unfoldable pub interrupt_running : ℕ → ℕ → Gen Reply
unfolding request_cancel
interrupt_running r t = do
  local ← request_cancel r
  if local then pure interrupting else (do
    won ← call (λ now. try_transition now r Status.running Status.interrupted true)
    if won then (push_terminal r t >> pure stopped) else raise value_error)

unfoldable pub interrupt_waiting : RunService → ℕ → ℕ → Gen Reply
interrupt_waiting svc r t = do
  won ← interrupt_paused svc t r
  if won then (push_terminal r t >> pure stopped) else raise value_error

abbrev interrupt_by_status : RunService → ℕ → Option (ℕ × Status) → Gen Reply
interrupt_by_status svc r none = raise key_error
interrupt_by_status svc r (some (t, Status.running)) = interrupt_running r t
interrupt_by_status svc r (some (t, Status.awaiting_approval)) = interrupt_waiting svc r t
interrupt_by_status svc r (some (t, s)) = raise value_error

unfoldable pub interrupt : RunService → Option ℕ → Gen Reply
interrupt svc none = raise key_error
interrupt svc (some r) = do run ← ask (get_run (some r)); interrupt_by_status svc r run
