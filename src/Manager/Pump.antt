-- ===== src/Manager/Pump.antt =====
-- The pump of `_spawn_pump` (lines 36-64 and 130-168), which writes each event of a generator to
-- the durable log, and `_maintenance_loop` (lines 81-105).
use Prim.Native.Nat.{◌%◌}
use agentchatbot_v.Prelude.{
  ℕ, zero, suc, ◌+◌, ◌==◌, Bool, true, false, ◌||◌, not, Option, none, some, List, [], ◌∷◌, ◌==◌,
  if◌then◌else◌, remove,
}
use agentchatbot_v.Text.{codes}
use agentchatbot_v.Store.Schema.{Status, Event, RunEvent, Result, ok, err}
use agentchatbot_v.Store.Runs.{get_run, heartbeat_runs, reconcile_orphan_runs}
use agentchatbot_v.Store.Threads.{next_seq, gc_orphan_checkpoints}
use agentchatbot_v.Store.Events.{append_run_event, gc_run_events}
use agentchatbot_v.Run.World.{World, Gen, pure, call, ask, attempt, ◌>>=◌, ◌>>◌}

-- _TERMINAL
abbrev pub is_terminal : Event → Bool
is_terminal (Event.run_done _ _) = true
is_terminal (Event.error _ _) = true
is_terminal _ = false

-- _TERMINAL_STATUSES
abbrev pub is_ended : Status → Bool
is_ended Status.completed = true
is_ended Status.interrupted = true
is_ended Status.rejected = true
is_ended Status.error = true
is_ended _ = false

abbrev pub is_approval : Event → Bool
is_approval (Event.approval_requested _ _ _) = true
is_approval _ = false

abbrev pub synthetic_terminal : Event
synthetic_terminal = Event.error (codes "실행이 비정상 종료되었습니다.") []

-- `saw_terminal`, and whether the last event asked for approval.
pub record Seen : Type 0 where
  pub terminal : Bool
  pub paused : Bool

abbrev pub note : Event → Seen → Seen
note e s = record { terminal = is_terminal e || s.terminal; paused = is_approval e }

-- The loop over the generator's events. The generator runs between two appends, so what it writes
-- belongs to the schedule of the world. An exception, of the generator (`broken`) or of an append,
-- is logged and ends the loop; the flags are set before the append.
unfoldable pub pump_events : List RunEvent → ℕ → ℕ → Seen → Gen Seen
pump_events [] t r s w = (ok s, w)
pump_events (e ∷ es) t r s w =
    let (res, w') = call (λ now. append_run_event now t r e.seq e.event) w in
    elim res [ ok _ ↦ pump_events es t r (note e.event s) w' | err _ ↦ (ok (note e.event s), w') ]

-- An unknown status (no row, or no answer from the database) counts as not ended.
abbrev needs_terminal : Result (Option (ℕ × Status)) → Bool
needs_terminal (err _) = true
needs_terminal (ok none) = true
needs_terminal (ok (some (t, s))) = not (is_ended s)

unfoldable pub close_log : ℕ → ℕ → Seen → Gen (Unit {0})
unfolding call ask
close_log t r s = if s.terminal || s.paused then pure tt else (do
  run ← attempt (ask (get_run (some r)))
  if needs_terminal run
      then (do
        seq ← call (λ now. next_seq now t)
        call (λ now. append_run_event now t r seq synthetic_terminal))
      else pure tt)

abbrev pub discard : ℕ → World → World
discard r w = record w { active = remove (λ (q : ℕ). q == r) w.active }

abbrev pub unseen : Seen
unseen = record { terminal = false; paused = false }

unfoldable pub pump : List RunEvent → ℕ → ℕ → Gen (Unit {0})
pump events t r = do seen ← pump_events events t r unseen; close_log t r seen

-- The `finally` of the pump takes the run off the active set first.
unfoldable pub spawn_pump : List RunEvent → ℕ → ℕ → Gen (Unit {0})
spawn_pump events t r w =
    let (res, w') = pump_events events t r unseen (record w { active = r ∷ w.active }) in
    elim res [ ok seen ↦ close_log t r seen (discard r w') | err e ↦ (err e, discard r w') ]

-- One tick of the maintenance loop; an exception ends the tick and not the loop. `collect` says
-- that the tick is one of the rare ones that collect garbage.
unfoldable pub tick : ℕ → ℕ → Bool → Gen (Unit {0})
unfolding call
tick stale retention collect w = let (_, w') = body w in (ok tt, w')
  where
    collect_garbage : Bool → Gen (Unit {0})
    collect_garbage false = pure tt
    collect_garbage true = do
      call (λ now. gc_run_events now retention)
      call (λ now. gc_orphan_checkpoints)
      pure tt

    body : Gen (Unit {0})
    body = do
      call (λ now. heartbeat_runs now w.active)
      call (λ now. reconcile_orphan_runs now stale)
      collect_garbage collect

-- The loop: every `gc_every`-th tick collects garbage; `rounds` ticks pass until the manager stops.
unfoldable pub maintenance_loop : ℕ → ℕ → ℕ → ℕ → ℕ → Gen (Unit {0})
maintenance_loop gc_every stale retention zero done = pure tt
maintenance_loop gc_every stale retention (suc rounds) done = do
  tick stale retention ((done + 1) % gc_every == 0)
  maintenance_loop gc_every stale retention rounds (done + 1)
