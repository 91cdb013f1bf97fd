-- ===== src/Manager/Tail.antt =====
-- `stream` of run_manager.py (lines 55-64 and 206-231): the tail of the durable log.
use agentchatbot_v.Prelude.{
  ℕ, zero, suc, ◌+◌, Bool, true, false, Option, none, some, List, [], ◌∷◌, if◌then◌else◌,
}
use agentchatbot_v.Store.Schema.{Status, Event, RunEvent}
use agentchatbot_v.Store.Runs.{get_run}
use agentchatbot_v.Store.Events.{get_run_events_after}
use agentchatbot_v.Run.World.{Gen, pure, ask, ◌>>=◌, ◌>>◌, yield}
use agentchatbot_v.Manager.Pump.{is_terminal, is_ended, synthetic_terminal}

-- `_db_terminal_event`
unfoldable pub db_terminal_event : ℕ → Status → Event
db_terminal_event r Status.error = synthetic_terminal
db_terminal_event r s = Event.run_done r (some s)

-- The rows of one poll are delivered up to the first terminal event. The result is the cursor, or
-- `none` when the stream is over. A cursor is the least seq that is still wanted.
unfoldable pub deliver : List RunEvent → ℕ → Gen (Option ℕ)
deliver [] cursor = pure (some cursor)
deliver (e ∷ es) cursor = do
  yield e.event e.seq
  if is_terminal e.event then pure none else deliver es (e.seq + 1)

-- No row: the stream ends if the database says that the run has ended.
abbrev pub end_by_status : ℕ → ℕ → Option (ℕ × Status) → Gen (Option ℕ)
end_by_status r cursor none = pure (some cursor)
end_by_status r cursor (some (t, s)) =
    if is_ended s then (do yield (db_terminal_event r s) cursor; pure none) else pure (some cursor)

abbrev pub poll_rows : ℕ → ℕ → List RunEvent → Gen (Option ℕ)
poll_rows r cursor [] = do run ← ask (get_run (some r)); end_by_status r cursor run
poll_rows r cursor (e ∷ es) = deliver (e ∷ es) cursor

-- One round of `while True`; 1000 is the limit of `get_run_events_after`.
unfoldable pub poll : ℕ → ℕ → Gen (Option ℕ)
poll r cursor = do rows ← ask (get_run_events_after (some r) cursor 1000); poll_rows r cursor rows

-- The stream for as long as its client stays, counted in polls; true when it ended by itself.
unfoldable pub stream : ℕ → ℕ → ℕ → Gen Bool
unfolding poll
stream zero r cursor = pure false
stream (suc polls) r cursor = do
  next ← poll r cursor
  elim next [ none ↦ pure true | some cursor' ↦ stream polls r cursor' ]
