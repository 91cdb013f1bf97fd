-- ===== src/Api/Runs.antt =====
-- The handlers of app.py on runs (lines 392-460). `uuid_of` is `uuid.UUID(str(v))` and `int_of` is
-- `int(s)`, with `none` for their exceptions.
use agentchatbot_v.Prelude.{
  ℕ, ◌+◌, Bool, not, Option, none, some, List, [], ◌∷◌, if◌then◌else◌, exists, is_some,
}
use agentchatbot_v.Text.{Text, codes}
use agentchatbot_v.Json.{ℤ, Json, Fields, get, get_value, is_true}
use agentchatbot_v.Store.Schema.{
  Status, same_status, Settings, PendingCall, Failure, active_run_exists, key_error, value_error,
}
use agentchatbot_v.Store.Runs.{get_run, get_active_run}
use agentchatbot_v.Store.Threads.{get_settings}
use agentchatbot_v.Store.Messages.{get_pending_tool_calls}
use agentchatbot_v.Run.World.{ask}
use agentchatbot_v.Run.Service.{RunService, find_agent, waits_for}
use agentchatbot_v.Manager.Control.{start, resume_run, interrupt, Reply}
use agentchatbot_v.Manager.Tail.{stream}
use agentchatbot_v.Api.Outcome.{Api, reply, refuse, catch, within, ◌>>=◌, ◌>>◌, must, some_or}
use agentchatbot_v.Api.Guards.{message_of, selection_of, true_or}
use agentchatbot_v.Api.Threads.{existing}

abbrev pub active_is_409 : Failure → Option ℕ
active_is_409 active_run_exists = some 409
active_is_409 _ = none

abbrev pub value_is_409 : Failure → Option ℕ
value_is_409 value_error = some 409
value_is_409 _ = none

abbrev interrupt_status : Failure → Option ℕ
interrupt_status key_error = some 404
interrupt_status value_error = some 409
interrupt_status _ = none

abbrev pub is_available : RunService → Text → Bool
is_available svc m = is_some (find_agent m svc.agents)

-- The model that the request names must be known.
abbrev pub named_model : RunService → Json → Api (Option Text)
named_model svc (Json.text m) = do must (is_available svc m) 422; reply (some m)
named_model svc v = refuse 422

-- The saved model counts only while it is known.
abbrev pub known : RunService → Option Text → Option Text
known svc none = none
known svc (some m) = if is_available svc m then some m else none

abbrev pub saved_in : Option Settings → Option Text
saved_in none = none
saved_in (some row) = row.model

unfoldable pub model_for : RunService → Option Json → Api (Option Text)
model_for svc none = do
  row ← within (ask (get_settings (codes "global")))
  reply (known svc (saved_in row))
model_for svc (some v) = named_model svc v

-- `header or query`, then `int(last) if last is not None else -1`; the cursor is one more.
abbrev last_id : Option Text → Option Text → Option Text
last_id none query = query
last_id (some []) query = query
last_id (some (c ∷ s)) query = some (c ∷ s)

abbrev after : Option ℤ → ℕ
after none = 0
after (some (ℤ.pos n)) = n + 1
after (some (ℤ.negsuc n)) = 0

unfoldable pub cursor_of : (Text → Option ℤ) → Option Text → Option Text → ℕ
cursor_of int_of header query = elim (last_id header query) [ none ↦ 0 | some s ↦ after (int_of s) ]

-- `set(approved_ids) & pending`, asked for a selection that is not empty
abbrev pub is_stale : List Text → List PendingCall → Bool
is_stale ids pending = not (exists (waits_for pending) ids)

abbrev pub selects : ℕ → List Text → Option (ℕ × Status) → Api (Unit {0})
selects t ids none = reply tt
selects t ids (some (r, s)) =
    if same_status s Status.awaiting_approval
    then (do
      pending ← within (ask (get_pending_tool_calls r))
      must (not (is_stale ids pending)) 422)
    else reply tt

unfoldable pub selection_check : ℕ → Option (List Text) → Api (Unit {0})
selection_check t none = reply tt
selection_check t (some []) = reply tt
selection_check t (some (c ∷ cs)) = do
  active ← within (ask (get_active_run t))
  selects t (c ∷ cs) active

-- The reply is the run; the pump resumes it with the approval and the selection.
unfoldable pub approve_checked : ℕ → Bool → Option (List Text) → Api (ℕ × Bool × Option (List Text))
unfolding selection_check
approve_checked t approval ids = do
  selection_check t ids
  r ← catch value_is_409 (resume_run t)
  reply (r, approval, ids)

module _ (uuid_of : Json → Option ℕ) where
  -- The run is started once the thread is known.
  unfoldable pub start_run : RunService → Text → Text → Option Text → Api (ℕ × Text × Option Text)
  unfolding existing
  start_run svc thread message model = do
    t ← existing uuid_of thread
    r ← catch active_is_409 (start svc t model)
    reply (r, message, model)

  -- The reply is the run; the pump goes on with the message and the model.
  unfoldable pub post_message : RunService → Text → Fields → Api (ℕ × Text × Option Text)
  unfolding start_run model_for
  post_message svc thread body = do
    message ← some_or (message_of (get_value (codes "message") body)) 422
    model ← model_for svc (get_value (codes "model") body)
    start_run svc thread message model

  -- The stream for as many polls as its client stays; true when it ended by itself.
  unfoldable pub stream_run : (Text → Option ℤ) → ℕ → Text → Option Text → Option Text → Api Bool
  unfolding cursor_of
  stream_run int_of polls run header query = do
    r ← some_or (uuid_of (Json.text run)) 404
    row ← within (ask (get_run (some r)))
    some_or row 404
    within (stream polls r (cursor_of int_of header query))

  unfoldable pub interrupt_run : RunService → Text → Api Reply
  interrupt_run svc run = do
    r ← some_or (uuid_of (Json.text run)) 422
    catch interrupt_status (interrupt svc (some r))

  unfoldable pub approve : Text → Fields → Api (ℕ × Bool × Option (List Text))
  unfolding existing approve_checked
  approve thread body = do
    t ← existing uuid_of thread
    ids ← some_or (selection_of (get_value (codes "approved") body)) 422
    approve_checked t (is_true (true_or (get (codes "approve") body))) ids
