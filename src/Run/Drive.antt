-- ===== src/Run/Drive.antt =====
-- `_drive` of run_service.py (lines 357-430).
use agentchatbot_v.Prelude.{ℕ, Bool, true, false, Option, none, some, List, [], ◌∷◌, if◌then◌else◌}
use agentchatbot_v.Text.{Text, codes}
use agentchatbot_v.Store.Schema.{Status, Approval, Event, Result, ok, err, agent_error}
use agentchatbot_v.Store.Runs.{try_transition, set_run_status, interrupted_tool}
use agentchatbot_v.Store.Messages.{
  resolve_orphan_tool_cells, set_pending_approval, get_pending_tool_calls,
}
use agentchatbot_v.Run.World.{
  World, Gen, pure, raise, call, ask, attempt, ensure, ◌>>=◌, ◌>>◌, emit, pop_flag, request_cancel,
  is_cancelled,
}
use agentchatbot_v.Run.Chat.{Chunk, interrupt, updates, Item, chunk, crash, Round, interrupt_detail}
use agentchatbot_v.Run.Handle.{Running, handle_chunk}
use agentchatbot_v.Run.Finalize.{finalize}

abbrev pub failure_notice : Text
failure_notice = codes "실행 중 오류가 발생했습니다."

-- The cancel branch. The clean-up of the graph swallows its exceptions and touches only LangGraph's
-- state.
unfoldable pub stop_cancelled : ℕ → ℕ → Gen (Unit {0})
unfolding call emit
stop_cancelled r t = do
  call (λ now. resolve_orphan_tool_cells r interrupted_tool)
  won ← call (λ now. try_transition now r Status.running Status.interrupted true)
  if won then emit (Event.run_done r (some Status.interrupted)) t else pure tt

-- The interrupt branch: the run waits for approval.
unfoldable pub pause : ℕ → ℕ → List (Option Text) → Gen (Unit {0})
unfolding call ask emit
pause r t is = do
  call (λ now. set_run_status now r Status.awaiting_approval false)
  call (λ now. set_pending_approval r Approval.pending)
  tools ← ask (get_pending_tool_calls r)
  emit (Event.approval_requested r tools (interrupt_detail is)) t

-- `except Exception`
unfoldable pub fail_run : ℕ → ℕ → Gen (Unit {0})
unfolding call emit
fail_run r t = do
  won ← call (λ now. try_transition now r Status.running Status.error true)
  if won
      then (call (λ now. resolve_orphan_tool_cells r interrupted_tool)
          >> emit (Event.error failure_notice []) t)
      else pure tt

-- A round with its request to cancel, if there was one.
abbrev pub heed : Round → ℕ → Gen Bool
heed round r w = elim round.cancel [
  | true ↦ let (_, w') = request_cancel r w in (ok (is_cancelled r w'), w')
  | false ↦ (ok (is_cancelled r w), w)
]

-- What the loop does with one chunk: `none` ends the generator, `some rs` goes on.
unfoldable pub handle_item : Chunk → Running → ℕ → Gen (Option Running)
handle_item (interrupt is) rs t = do pause rs.run_id t is; pure none
handle_item (updates nodes) rs t = do rs' ← handle_chunk nodes rs t; pure (some rs')

abbrev pub cancel_or_handle : Bool → Chunk → Running → ℕ → Gen (Option Running)
cancel_or_handle true c rs t = do stop_cancelled rs.run_id t; pure none
cancel_or_handle false c rs t = handle_item c rs t

unfoldable pub round_of : Item → Round → Running → ℕ → Gen (Option Running)
round_of crash round rs t = raise agent_error
round_of (chunk c) round rs t = do
  cancelled ← heed round rs.run_id
  cancel_or_handle cancelled c rs t

-- `for chunk in stream`: `none` if the generator ended within the loop.
unfoldable pub loop : List Round → Running → ℕ → Gen (Option Running)
loop [] rs t = pure (some rs)
loop (round ∷ rounds) rs t = do
  next ← round_of round.item round rs t
  elim next [ none ↦ pure none | some rs' ↦ loop rounds rs' t ]

abbrev pub after_loop : Running → ℕ → Result (Option Running) → Gen (Unit {0})
after_loop rs t (err e) = fail_run rs.run_id t
after_loop rs t (ok none) = pure tt
after_loop rs t (ok (some rs')) = finalize rs' t

abbrev pub drop_flag : ℕ → World → World
drop_flag r w = record w { cancels = pop_flag r w.cancels }

unfoldable pub drive : List Round → Running → ℕ → Gen (Unit {0})
drive rounds rs t =
    ensure (do outcome ← attempt (loop rounds rs t); after_loop rs t outcome) (drop_flag rs.run_id)

-- `except GeneratorExit`: the generator is closed while it waits at a yield.
unfoldable pub close_drive : ℕ → Gen (Unit {0})
unfolding call
close_drive r =
    ensure
      (do
        won ← call (λ now. try_transition now r Status.running Status.error true)
        if won then call (λ now. resolve_orphan_tool_cells r interrupted_tool) else pure tt)
      (drop_flag r)
